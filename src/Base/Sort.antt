-- ===== src/Base/Sort.antt =====
-- `sorted`: a stable insertion sort by a test `le`, and the order of texts by code points.
use Prim.Native.Nat.{suc}
use Prim.Native.Char.{code}
use Prim.Native.String.{String}
use mathlib.Core.Path.{◌≡◌, refl}
use mathlib.Core.Bool.{Bool, true, false, ◌&&◌, ◌||◌}
use mathlib.Core.List.{List, [], ◌∷◌, map}
use native.Mathlib.Omega.{arith}
use mathlib.Core.Logic.{inl, inr}
use blast_radius.Base.Tests.{ltb, Bool-cases, if◌then◌else◌}
use blast_radius.Base.Equality.{Eq, ◌==◌, nat_beq, string_eq}
use blast_radius.Base.Lists.{length, elem, all, All}

unfoldable pub text_le : String → String → Bool
text_le String.[] t = true
text_le (String.◌∷◌ c s) String.[] = false
text_le (String.◌∷◌ c s) (String.◌∷◌ d t) =
    ltb (code c) (code d) || nat_beq (code c) (code d) && text_le s t

pub text_le-total : (s t : String) → text_le s t ≡ false → text_le t s ≡ true
unfolding text_le
text_le-total String.[] t h = cc
text_le-total (String.◌∷◌ c s) String.[] h = refl
text_le-total (String.◌∷◌ c s) (String.◌∷◌ d t) h = ground (arith, text_le-total s t)

module _ {ℓ} {A : Type ℓ} (le : A → A → Bool) where
  unfoldable pub insert_by : A → List A → List A
  insert_by a [] = a ∷ []
  insert_by a (x ∷ xs) = if le a x then a ∷ x ∷ xs else x ∷ insert_by a xs

  unfoldable pub sort_by : List A → List A
  unfolding insert_by
  sort_by [] = []
  sort_by (x ∷ xs) = insert_by x (sort_by xs)

  length-insert_by : (a : A) (xs : List A) → length (insert_by a xs) ≡ suc (length xs)
  unfolding insert_by
  length-insert_by a [] = refl
  length-insert_by a (x ∷ xs) = ground (arith, length-insert_by a xs)

  pub length-sort_by : (xs : List A) → length (sort_by xs) ≡ length xs
  unfolding sort_by
  length-sort_by [] = refl
  length-sort_by (x ∷ xs) = ground (arith, length-insert_by x (sort_by xs), length-sort_by xs)

  all-insert_by : (p : A → Bool) (a : A) (xs : List A) → all p (insert_by a xs) ≡ (p a && all p xs)
  unfolding insert_by
  all-insert_by p a [] = refl
  all-insert_by p a (x ∷ xs) = ground (arith, all-insert_by p a xs)

  pub all-sort_by : (p : A → Bool) (xs : List A) → all p (sort_by xs) ≡ all p xs
  unfolding sort_by
  all-sort_by p [] = refl
  all-sort_by p (x ∷ xs) = ground (arith, all-insert_by p x (sort_by xs), all-sort_by p xs)

  All-insert_by {κ} :
      (P : A → Type κ) (a : A) (xs : List A) → P a → All P xs → All P (insert_by a xs)
  unfolding insert_by
  All-insert_by P a [] h k = (h, tt)
  All-insert_by P a (x ∷ xs) h k = elim (Bool-cases (le a x)) [
    | inl e ↦ rw e (h, k)
    | inr e ↦ rw e (k.0, All-insert_by P a xs h k.1)
  ]

  pub All-sort_by {κ} : (P : A → Type κ) (xs : List A) → All P xs → All P (sort_by xs)
  unfolding sort_by
  All-sort_by P [] h = tt
  All-sort_by P (x ∷ xs) h = All-insert_by P x (sort_by xs) h.0 (All-sort_by P xs h.1)

  module _ {B : Type 0} ⦃e : Eq B⦄ (f : A → B) (b : B) where
    map-insert_by :
        (a : A) (xs : List A) → elem b (map f (insert_by a xs)) ≡ (b == f a || elem b (map f xs))
    unfolding insert_by
    map-insert_by a [] = ground arith
    map-insert_by a (x ∷ xs) = elim (Bool-cases (le a x)) [
      | inl e ↦ rw e (ground arith)
      | inr e ↦ rw e (ground (arith, map-insert_by a xs))
    ]

    pub map-sort_by : (xs : List A) → elem b (map f (sort_by xs)) ≡ elem b (map f xs)
    unfolding sort_by
    map-sort_by [] = refl
    map-sort_by (x ∷ xs) = ground (arith, map-insert_by x (sort_by xs), map-sort_by xs)

  -- Each member is at most the next.
  abbrev pub IsSorted : List A → Type 0
  IsSorted [] = Unit {0}
  IsSorted (x ∷ []) = Unit {0}
  IsSorted (x ∷ y ∷ ys) = (le x y ≡ true) × IsSorted (y ∷ ys)

  module _ (total : (a b : A) → le a b ≡ false → le b a ≡ true) where
    insert_by-IsSorted : (a : A) (xs : List A) → IsSorted xs → IsSorted (insert_by a xs)
    unfolding insert_by
    insert_by-IsSorted a [] h = tt
    insert_by-IsSorted a (x ∷ []) h = ground (arith, total a x)
    insert_by-IsSorted a (x ∷ y ∷ ys) h =
        ground (arith, total a x, total a y, insert_by-IsSorted a (y ∷ ys))

    pub sort_by-IsSorted : (xs : List A) → IsSorted (sort_by xs)
    unfolding sort_by
    sort_by-IsSorted [] = tt
    sort_by-IsSorted (x ∷ xs) = insert_by-IsSorted x (sort_by xs) (sort_by-IsSorted xs)

module _ {ℓ} {A : Type ℓ} ⦃e : Eq A⦄ (le : A → A → Bool) where
  elem-insert_by : (b a : A) (xs : List A) → elem b (insert_by le a xs) ≡ (b == a || elem b xs)
  unfolding insert_by
  elem-insert_by b a [] = refl
  elem-insert_by b a (x ∷ xs) = ground (arith, elem-insert_by b a xs)

  pub elem-sort_by : (b : A) (xs : List A) → elem b (sort_by le xs) ≡ elem b xs
  unfolding sort_by
  elem-sort_by b [] = refl
  elem-sort_by b (x ∷ xs) = ground (arith, elem-insert_by b x (sort_by le xs), elem-sort_by b xs)

unfoldable pub sorted : List String → List String
unfolding sort_by text_le
sorted = sort_by text_le

pub elem-sorted : (a : String) (xs : List String) → elem a (sorted xs) ≡ elem a xs
unfolding sorted
elem-sorted = elem-sort_by text_le
