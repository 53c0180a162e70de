-- ===== src/Limits/Budget.antt =====
-- The loop of `check_structure` against the size and the depth of a value.
use blast_radius.Base.{
  ℕ, zero, suc, ◌+◌, ◌≤◌, ◌≡◌, refl, Bool, true, false, ◌&&◌, List, [], ◌∷◌, map, ltb, leb, arith,
  if◌then◌else◌, ◌∙◌,
}
use blast_radius.Python.{
  Value, Items, Fields, null, bool, int, float, str, policy_str, list, dict, nil, cons, end, field,
  items_list, values_list,
}
use blast_radius.Limits.{
  max_depth, max_values, children, rev_append, check_pending, check_structure,
}

-- The number of the values in a value.
unfoldable mutual
  pub size : Value → ℕ
  size (list vs) = suc (items_size vs)
  size (dict fs) = suc (fields_size fs)
  size _ = 1

  pub items_size : Items → ℕ
  items_size nil = 0
  items_size (cons v vs) = size v + items_size vs

  pub fields_size : Fields → ℕ
  fields_size end = 0
  fields_size (field k v fs) = size v + fields_size fs

-- Whether no value inside a value stands deeper than the budget, where the value stands at a depth.
unfoldable mutual
  pub is_shallow : ℕ → Value → Bool
  is_shallow depth (list vs) = leb depth 64 && items_shallow (depth + 1) vs
  is_shallow depth (dict fs) = leb depth 64 && fields_shallow (depth + 1) fs
  is_shallow depth _ = leb depth 64

  pub items_shallow : ℕ → Items → Bool
  items_shallow depth nil = true
  items_shallow depth (cons v vs) = is_shallow depth v && items_shallow depth vs

  pub fields_shallow : ℕ → Fields → Bool
  fields_shallow depth end = true
  fields_shallow depth (field k v fs) = is_shallow depth v && fields_shallow depth fs

abbrev total : List (Value × ℕ) → ℕ
total [] = 0
total (p ∷ ps) = size p.0 + total ps

abbrev all_shallow : List (Value × ℕ) → Bool
all_shallow [] = true
all_shallow (p ∷ ps) = is_shallow p.1 p.0 && all_shallow ps

and_turn : (a b c : Bool) → (b && (a && c)) ≡ ((a && b) && c)
and_turn true b c = refl
and_turn false true c = refl
and_turn false false c = refl

-- One turn, by the sizes and the depths of what it takes off and puts on.
turn_lem :
    (d s t u left : ℕ) (q b c r : Bool)
    → q ≡ (leb u left && r)
    → u ≡ s + t
    → r ≡ (b && c)
    → (if ltb max_depth d then false else q)
      ≡ (leb (suc s + t) (suc left) && ((leb d 64 && b) && c))
turn_lem d s t u left q b c r e f g = ground arith

leaf_lem :
    (d t left : ℕ) (q c : Bool)
    → q ≡ (leb t left && c)
    → (if ltb max_depth d then false else q) ≡ (leb (1 + t) (suc left) && (leb d 64 && c))
leaf_lem d t left q c e = ground arith

total-items :
    (d : ℕ) (vs : Items) (ps : List (Value × ℕ))
    → total (rev_append (map (λ c. (c, d)) (items_list vs)) ps) ≡ items_size vs + total ps
unfolding items_list size
total-items d nil ps = omega arith
total-items d (cons v vs) ps = omega (arith, total-items d vs ((v, d) ∷ ps))

total-fields :
    (d : ℕ) (fs : Fields) (ps : List (Value × ℕ))
    → total (rev_append (map (λ c. (c, d)) (values_list fs)) ps) ≡ fields_size fs + total ps
unfolding values_list size
total-fields d end ps = omega arith
total-fields d (field k v fs) ps = omega (arith, total-fields d fs ((v, d) ∷ ps))

shallow-items :
    (d : ℕ) (vs : Items) (ps : List (Value × ℕ))
    → all_shallow (rev_append (map (λ c. (c, d)) (items_list vs)) ps)
      ≡ (items_shallow d vs && all_shallow ps)
unfolding items_list is_shallow
shallow-items d nil ps = refl
shallow-items d (cons v vs) ps =
    shallow-items d vs ((v, d) ∷ ps)
    ∙ and_turn (is_shallow d v) (items_shallow d vs) (all_shallow ps)

shallow-fields :
    (d : ℕ) (fs : Fields) (ps : List (Value × ℕ))
    → all_shallow (rev_append (map (λ c. (c, d)) (values_list fs)) ps)
      ≡ (fields_shallow d fs && all_shallow ps)
unfolding values_list is_shallow
shallow-fields d end ps = refl
shallow-fields d (field k v fs) ps =
    shallow-fields d fs ((v, d) ∷ ps)
    ∙ and_turn (is_shallow d v) (fields_shallow d fs) (all_shallow ps)

size-positive : (v : Value) → 1 ≤ size v
unfolding size
size-positive (list vs) = omega arith
size-positive (dict fs) = omega arith
size-positive null = omega arith
size-positive (bool b) = omega arith
size-positive (int n) = omega arith
size-positive (float t n z) = omega arith
size-positive (str s) = omega arith
size-positive (policy_str s a) = omega arith

check_pending_lem :
    (left : ℕ) (ps : List (Value × ℕ))
    → check_pending left ps ≡ (leb (total ps) left && all_shallow ps)
unfolding check_pending children size is_shallow
check_pending_lem left [] = ground arith
check_pending_lem zero ((v, d) ∷ ps) = ground (arith, size-positive v)
check_pending_lem (suc left) ((list vs, d) ∷ ps) =
    let pending = rev_append (map (λ c. (c, d + 1)) (items_list vs)) ps in
    turn_lem d (items_size vs) (total ps) (total pending) left (check_pending left pending)
      (items_shallow (d + 1) vs) (all_shallow ps) (all_shallow pending)
      (check_pending_lem left pending) (total-items (d + 1) vs ps) (shallow-items (d + 1) vs ps)
check_pending_lem (suc left) ((dict fs, d) ∷ ps) =
    let pending = rev_append (map (λ c. (c, d + 1)) (values_list fs)) ps in
    turn_lem d (fields_size fs) (total ps) (total pending) left (check_pending left pending)
      (fields_shallow (d + 1) fs) (all_shallow ps) (all_shallow pending)
      (check_pending_lem left pending) (total-fields (d + 1) fs ps) (shallow-fields (d + 1) fs ps)
check_pending_lem (suc left) ((null, d) ∷ ps) =
    leaf_lem d (total ps) left (check_pending left ps) (all_shallow ps) (check_pending_lem left ps)
check_pending_lem (suc left) ((bool b, d) ∷ ps) =
    leaf_lem d (total ps) left (check_pending left ps) (all_shallow ps) (check_pending_lem left ps)
check_pending_lem (suc left) ((int n, d) ∷ ps) =
    leaf_lem d (total ps) left (check_pending left ps) (all_shallow ps) (check_pending_lem left ps)
check_pending_lem (suc left) ((float t n z, d) ∷ ps) =
    leaf_lem d (total ps) left (check_pending left ps) (all_shallow ps) (check_pending_lem left ps)
check_pending_lem (suc left) ((str s, d) ∷ ps) =
    leaf_lem d (total ps) left (check_pending left ps) (all_shallow ps) (check_pending_lem left ps)
check_pending_lem (suc left) ((policy_str s a, d) ∷ ps) =
    leaf_lem d (total ps) left (check_pending left ps) (all_shallow ps) (check_pending_lem left ps)

-- A structure passes exactly when it holds at most 100,000 values and none of them is nested deeper
-- than 64 levels.
pub check_structure_lem : (v : Value) → check_structure v ≡ (leb (size v) 100000 && is_shallow 0 v)
unfolding check_structure
check_structure_lem v =
    check_pending_lem max_values ((v, 0) ∷ []) ∙ single (size v) (is_shallow 0 v)
  where
    single : (n : ℕ) (b : Bool) → (leb (n + 0) 100000 && (b && true)) ≡ (leb n 100000 && b)
    single n b = ground arith
