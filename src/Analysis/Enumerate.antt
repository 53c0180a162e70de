-- ===== src/Analysis/Enumerate.antt =====
-- The depth-first enumeration of simple paths to one target in `analyze` of attack_paths.py, under
-- its budgets. Each turn of the `while` loop that does not end it spends one unit of `path_work`, so
-- one turn more than the work budget is enough.
pub mod Frames
pub mod Sync
pub mod Turnabout
pub mod Sound
pub mod Complete
pub mod Ends
use blast_radius.Base.{
  ℕ, zero, suc, ◌+◌, String, Bool, true, false, not, ◌||◌, ◌==◌, string_eq, list_eq, Option, none,
  some, List, [], ◌∷◌, ◌++◌, elem, keep, length, leb, if◌then◌else◌, Result, ok, err, ◌>>=◌,
  of_option,
}
use blast_radius.Models.{internet_id, AttackPath}
use blast_radius.Graph.{Graph, Error, lookup_error, out_of_fuel}
use blast_radius.Analysis.Outcome.{build_attack_path}
use blast_radius.Analysis.Bfs.{adjacency, max_path_depth}

abbrev pub max_paths_per_target : ℕ
max_paths_per_target = 25

abbrev pub max_paths : ℕ
max_paths = 500

abbrev pub max_path_work : ℕ
max_path_work = 100000

abbrev pub rev_onto {ℓ} : {A : Type ℓ} → List A → List A → List A
rev_onto [] ys = ys
rev_onto (x ∷ xs) ys = rev_onto xs (x ∷ ys)

-- A frame of the stack: a node, and what its iterator has left.
abbrev pub Frame : Type 0
Frame = String × List String

-- The variables of the loop. The stack and the route are kept with their last member first.
pub record Dfs : Type 0 where
  pub stack : List Frame
  pub route : List String
  pub visited : List String
  pub emitted : List (List String)
  pub paths : List AttackPath
  pub path_work : ℕ
  pub truncated : Bool

-- `stack.pop()`, `visited.remove(route.pop())`
unfoldable pub retreat : List Frame → List String → Dfs → Result Error Dfs
retreat rest [] s = err lookup_error
retreat rest (n ∷ route) s =
    if elem n s.visited
    then ok (record s { stack = rest; route = route; visited = keep (λ v. not (v == n)) s.visited })
    else err lookup_error

-- `if key not in emitted: …`
unfoldable pub emit : Graph → List String → Dfs → Result Error Dfs
emit g key s = if elem key s.emitted then ok s else do
  p ← build_attack_path g key
  ok (record s { emitted = s.emitted ++ key ∷ []; paths = s.paths ++ p ∷ [] })

-- `if len(emitted) >= MAX_PATHS_PER_TARGET: …`, with whether the loop goes on.
unfoldable pub cap_target : Dfs → Dfs × Bool
cap_target s =
    if leb max_paths_per_target (length s.emitted)
    then (record s { truncated = true }, false)
    else (s, true)

-- What the loop does with the neighbour that the top iterator gave.
unfoldable pub consider : Graph → String → String → Dfs → Result Error (Dfs × Bool)
unfolding emit cap_target adjacency
consider g target neighbour s =
    if elem neighbour s.visited
    then ok (s, true)
    else if neighbour == target
    then (do s' ← emit g (rev_onto s.route (target ∷ [])) s; ok (cap_target s'))
    else if leb max_path_depth (length s.route)
    then ok (record s { truncated = true }, true)
    else (do
      ns ← of_option lookup_error (adjacency g neighbour)
      ok (
        record s {
          stack = (neighbour, ns) ∷ s.stack;
          route = neighbour ∷ s.route;
          visited = neighbour ∷ s.visited;
        },
        true,
      ))

-- `neighbor = next(stack[-1][1], None)` and what follows, the unit of work being spent.
unfoldable pub advance : Graph → String → List Frame → Dfs → Result Error (Dfs × Bool)
unfolding retreat consider
advance g target [] s = ok (s, false)
advance g target ((n, []) ∷ rest) s = do s' ← retreat rest s.route s; ok (s', true)
advance g target ((n, m ∷ ms) ∷ rest) s = consider g target m (record s { stack = (n, ms) ∷ rest })

unfoldable pub out_of_budget : Dfs → Bool
out_of_budget s = leb max_path_work s.path_work || leb max_paths (length s.paths)

unfoldable pub turn : Graph → String → Dfs → Result Error (Dfs × Bool)
unfolding out_of_budget advance
turn g target s =
    if out_of_budget s
    then ok (record s { truncated = true }, false)
    else advance g target s.stack (record s { path_work = s.path_work + 1 })

unfoldable pub dfs_loop : Graph → String → ℕ → Dfs → Result Error Dfs
unfolding turn
dfs_loop g target zero s = elim s.stack [ [] ↦ ok s | _ ∷ _ ↦ err out_of_fuel ]
dfs_loop g target (suc fuel) s = elim s.stack [
  | [] ↦ ok s
  | _ ∷ _ ↦ turn g target s >>= λ r. elim r.1 [ true ↦ dfs_loop g target fuel r.0 | false ↦ ok r.0 ]
]

abbrev pub first_state : List String → List String → List AttackPath → ℕ → Bool → Dfs
first_state ns witness paths path_work truncated = record {
  stack = (internet_id, ns) ∷ [];
  route = internet_id ∷ [];
  visited = internet_id ∷ [];
  emitted = witness ∷ [];
  paths = paths;
  path_work = path_work;
  truncated = truncated;
}

-- The enumeration for one target, after its witness has been added to the paths.
unfoldable pub enumerate :
    Graph → String → List String → List AttackPath → ℕ → Bool → Result Error Dfs
unfolding dfs_loop adjacency
enumerate g target witness paths path_work truncated = do
  ns ← of_option lookup_error (adjacency g internet_id)
  dfs_loop g target (suc max_path_work) (first_state ns witness paths path_work truncated)
