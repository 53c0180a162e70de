-- ===== src/Limits.antt =====
-- `check_structure` of blastradius/parser/limits.py. A turn of its loop counts one value, so what is
-- left of the 100,000 values is what the loop recurses on.
pub mod Budget
use blast_radius.Base.{
  ℕ, zero, suc, ◌+◌, Bool, true, false, List, [], ◌∷◌, ◌++◌, map, ltb, leb, if◌then◌else◌,
}
use blast_radius.Python.{
  Value, Items, Fields, null, bool, int, float, str, policy_str, list, dict, items_list,
  values_list,
}

abbrev pub max_depth : ℕ
max_depth = 64

abbrev pub max_values : ℕ
max_values = 100000

-- The values that a value puts on the stack.
unfoldable pub children : Value → List Value
unfolding items_list values_list
children (list vs) = items_list vs
children (dict fs) = values_list fs
children _ = []

abbrev pub rev_append {ℓ} : {A : Type ℓ} → List A → List A → List A
rev_append [] ys = ys
rev_append (x ∷ xs) ys = rev_append xs (x ∷ ys)

-- Whether the loop ends without an error. The stack is kept with its last member first.
unfoldable pub check_pending : ℕ → List (Value × ℕ) → Bool
unfolding children
check_pending left [] = true
check_pending zero (p ∷ pending) = false
check_pending (suc left) ((v, depth) ∷ pending) =
    let rest = check_pending left (rev_append (map (λ c. (c, depth + 1)) (children v)) pending) in
    if ltb max_depth depth then false else rest

unfoldable pub check_structure : Value → Bool
unfolding check_pending
check_structure v = check_pending max_values ((v, 0) ∷ [])
