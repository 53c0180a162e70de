-- ===== src/Base/Lists.antt =====
-- Lists measured by native numbers, membership as a Boolean test, and lookup in pairs.
use Prim.Native.Nat.{ℕ, zero, suc, ◌+◌, ◌-◌, ◌≤◌, ◌<◌, min}
use mathlib.Core.Path.{◌≡◌, refl, ap}
use mathlib.Core.Bool.{Bool, true, false, ◌&&◌, ◌||◌, not}
use mathlib.Core.List.{List, [], ◌∷◌, ◌++◌, map}
use mathlib.Core.Option.{Option, none, some}
use native.Mathlib.Omega.{arith}
use blast_radius.Base.Tests.{if◌then◌else◌}
use blast_radius.Base.Equality.{Eq, ◌==◌, ==_iff, ==_refl}

module _ {ℓ} {A : Type ℓ} where
  abbrev pub length : List A → ℕ
  length [] = 0
  length (x ∷ xs) = suc (length xs)

  pub length-append : (xs ys : List A) → length (xs ++ ys) ≡ length xs + length ys
  length-append [] ys = omega arith
  length-append (x ∷ xs) ys = omega (arith, length-append xs ys)

  abbrev pub any : (A → Bool) → List A → Bool
  any p [] = false
  any p (x ∷ xs) = p x || any p xs

  abbrev pub all : (A → Bool) → List A → Bool
  all p [] = true
  all p (x ∷ xs) = p x && all p xs

  abbrev pub All {κ} : (A → Type κ) → List A → Type κ
  All P [] = Unit
  All P (x ∷ xs) = P x × All P xs

  pub All-append {κ} : (P : A → Type κ) (xs ys : List A) → All P xs → All P ys → All P (xs ++ ys)
  All-append P [] ys h k = k
  All-append P (x ∷ xs) ys h k = (h.0, All-append P xs ys h.1 k)

  -- A comprehension `[x for x in xs if p(x)]`.
  abbrev pub keep : (A → Bool) → List A → List A
  keep p [] = []
  keep p (x ∷ xs) = let rest = keep p xs in if p x then x ∷ rest else rest

  abbrev pub find : (A → Bool) → List A → Option A
  find p [] = none
  find p (x ∷ xs) = let rest = find p xs in if p x then some x else rest

  abbrev pub is_empty : List A → Bool
  is_empty [] = true
  is_empty (x ∷ xs) = false

  abbrev pub take : ℕ → List A → List A
  take zero xs = []
  take (suc n) [] = []
  take (suc n) (x ∷ xs) = x ∷ take n xs

  abbrev pub drop : ℕ → List A → List A
  drop zero xs = xs
  drop (suc n) [] = []
  drop (suc n) (x ∷ xs) = drop n xs

  pub length-drop : (n : ℕ) (xs : List A) → length (drop n xs) ≡ length xs - n
  length-drop zero xs = omega arith
  length-drop (suc n) [] = omega arith
  length-drop (suc n) (x ∷ xs) = omega (arith, length-drop n xs)

  pub length-take : (n : ℕ) (xs : List A) → length (take n xs) ≡ min n (length xs)
  length-take zero xs = omega arith
  length-take (suc n) [] = omega arith
  length-take (suc n) (x ∷ xs) = omega (arith, length-take n xs)

  pub take_all : (n : ℕ) (xs : List A) → length (take n xs) < n → take n xs ≡ xs
  take_all zero xs h = absurd (omega arith)
  take_all (suc n) [] h = refl
  take_all (suc n) (x ∷ xs) h = ap (λ ys. x ∷ ys) (take_all n xs (omega arith))

  abbrev pub concat : List (List A) → List A
  concat [] = []
  concat (x ∷ xs) = x ++ concat xs

  pub all-append : (p : A → Bool) (xs ys : List A) → all p (xs ++ ys) ≡ (all p xs && all p ys)
  all-append p [] ys = refl
  all-append p (x ∷ xs) ys = ground (arith, all-append p xs ys)

  pub length-keep : (p : A → Bool) (xs : List A) → length (keep p xs) ≤ length xs
  length-keep p [] = omega arith
  length-keep p (x ∷ xs) = ground (arith, length-keep p xs)

pub length-map {ℓ κ} :
    {A : Type ℓ} {B : Type κ} (f : A → B) (xs : List A) → length (map f xs) ≡ length xs
length-map f [] = refl
length-map f (x ∷ xs) = omega (arith, length-map f xs)

module _ {ℓ} {A : Type ℓ} ⦃e : Eq A⦄ where
  abbrev pub elem : A → List A → Bool
  elem a [] = false
  elem a (x ∷ xs) = a == x || elem a xs

  pub elem-append : (a : A) (xs ys : List A) → elem a (xs ++ ys) ≡ (elem a xs || elem a ys)
  elem-append a [] ys = refl
  elem-append a (x ∷ xs) ys = ground (arith, elem-append a xs ys)

  pub elem-keep : (a : A) (p : A → Bool) (xs : List A) → elem a (keep p xs) ≡ (p a && elem a xs)
  elem-keep a p [] = ground arith
  elem-keep a p (x ∷ xs) = ground (arith, elem-keep a p xs, ==_iff a x)

  pub elem-take : (a : A) (n : ℕ) (xs : List A) → elem a (take n xs) ≡ true → elem a xs ≡ true
  elem-take a zero xs h = cc
  elem-take a (suc n) [] h = h
  elem-take a (suc n) (x ∷ xs) h = ground (arith, elem-take a n xs)

  pub all_of_elem :
      (p : A → Bool) (xs : List A) → ((a : A) → elem a xs ≡ true → p a ≡ true) → all p xs ≡ true
  all_of_elem p [] h = refl
  all_of_elem p (x ∷ xs) h =
      ground (arith, h x, ==_refl x, all_of_elem p xs (λ a m. h a (ground arith)))

  -- No member occurs twice.
  abbrev pub IsNodup : List A → Type 0
  IsNodup [] = Unit {0}
  IsNodup (x ∷ xs) = (elem x xs ≡ false) × IsNodup xs

  pub append-IsNodup :
      (xs : List A) (a : A) → IsNodup xs → elem a xs ≡ false → IsNodup (xs ++ a ∷ [])
  append-IsNodup [] a n h = ground arith
  append-IsNodup (x ∷ xs) a n h =
      ground (arith, append-IsNodup xs a, elem-append x xs (a ∷ []), ==_iff a x, ==_iff x a)

  pub elem-all :
      (p : A → Bool) (xs : List A) (a : A) → all p xs ≡ true → elem a xs ≡ true → p a ≡ true
  elem-all p [] a h m = cc
  elem-all p (x ∷ xs) a h m = ground (arith, elem-all p xs a, ==_iff a x)

  -- `set(xs)` as a list: the first occurrence of each member, as in `dict.fromkeys`.
  abbrev pub dedupe_from : List A → List A → List A
  dedupe_from seen [] = []
  dedupe_from seen (x ∷ xs) =
      let skip = dedupe_from seen xs in
      let keep_on = dedupe_from (x ∷ seen) xs in if elem x seen then skip else x ∷ keep_on

  abbrev pub dedupe : List A → List A
  dedupe = dedupe_from []

  pub elem-dedupe_from :
      (a : A) (seen xs : List A) → elem a (dedupe_from seen xs) ≡ (not (elem a seen) && elem a xs)
  elem-dedupe_from a seen [] = ground arith
  elem-dedupe_from a seen (x ∷ xs) =
      ground (arith, elem-dedupe_from a seen xs, elem-dedupe_from a (x ∷ seen) xs, ==_iff a x)

  pub elem-dedupe : (a : A) (xs : List A) → elem a (dedupe xs) ≡ elem a xs
  elem-dedupe a xs = ground (arith, elem-dedupe_from a [] xs)

  pub dedupe_from-IsNodup : (seen xs : List A) → IsNodup (dedupe_from seen xs)
  dedupe_from-IsNodup seen [] = tt
  dedupe_from-IsNodup seen (x ∷ xs) = ground (
    arith,
    dedupe_from-IsNodup seen xs,
    dedupe_from-IsNodup (x ∷ seen) xs,
    elem-dedupe_from x (x ∷ seen) xs,
    ==_refl x,
  )

  pub dedupe-IsNodup : (xs : List A) → IsNodup (dedupe xs)
  dedupe-IsNodup xs = dedupe_from-IsNodup [] xs

module _ {ℓ κ} {K : Type ℓ} {V : Type κ} ⦃e : Eq K⦄ where
  abbrev pub lookup : K → List (K × V) → Option V
  lookup key ((other, value) ∷ pairs) =
      let later = lookup key pairs in if other == key then some value else later
  lookup key [] = none

  -- `d[k] = v`: an existing key keeps its place.
  abbrev pub insert : K → V → List (K × V) → List (K × V)
  insert key value ((other, old) ∷ pairs) =
      if other == key then (key, value) ∷ pairs else (other, old) ∷ insert key value pairs
  insert key value [] = (key, value) ∷ []

  pub lookup-insert :
      (k j : K) (v : V) (m : List (K × V))
      → lookup j (insert k v m) ≡ (if k == j then some v else lookup j m)
  lookup-insert k j v [] = refl
  lookup-insert k j v ((i, w) ∷ m) =
      ground (arith, ==_iff k j, ==_iff i k, ==_iff i j, lookup-insert k j v m)
