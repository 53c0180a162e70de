-- ===== src/Analysis/Bfs.antt =====
-- The breadth-first search of `analyze` in attack_paths.py, and the route that it records to a
-- target. Each turn of its `while` loop removes one queued node, and a node is queued once, so as
-- many turns as there are nodes are enough.
mod Visits
pub mod Ends
pub mod Sound
pub mod Route
use blast_radius.Base.{
  ℕ, zero, suc, ◌+◌, String, Bool, true, false, Option, none, some, List, [], ◌∷◌, ◌++◌, ◌==◌,
  string_eq, elem, length, lookup, sorted, if◌then◌else◌, Result, ok, err, ◌>>=◌, of_option, not,
  leb,
}
use blast_radius.Models.{internet_id}
use blast_radius.Graph.{Graph, Error, lookup_error, out_of_fuel, is_some}

abbrev pub max_path_depth : ℕ
max_path_depth = 32

-- `adjacency[n]`, where `adjacency = {n: sorted(graph.successors(n)) for n in graph}`.
unfoldable pub adjacency : Graph → String → Option (List String)
unfolding sorted
adjacency g n = if elem n g.nodes then some (sorted (g.successors n)) else none

abbrev pub Parents : Type 0
Parents = List (String × String)

-- `n in parent`
abbrev pub has_parent : String → Parents → Bool
has_parent n parent = is_some (lookup n parent)

pub record Search : Type 0 where
  pub parent : Parents
  pub queue : List String

unfoldable pub visit : String → String → Search → Search
visit current n s =
    if has_parent n s.parent
    then s
    else record { parent = s.parent ++ (n, current) ∷ []; queue = s.queue ++ n ∷ [] }

unfoldable pub visit_all : String → List String → Search → Search
unfolding visit
visit_all current [] s = s
visit_all current (n ∷ ns) s = visit_all current ns (visit current n s)

-- One turn: `current` has left the queue, whose rest is in `s`.
unfoldable pub turn : Graph → String → Search → Result Error Search
unfolding adjacency visit_all
turn g current s = do ns ← of_option lookup_error (adjacency g current); ok (visit_all current ns s)

unfoldable pub search_loop : Graph → ℕ → Search → Result Error Parents
unfolding turn
search_loop g zero s = elim s.queue [ [] ↦ ok s.parent | _ ∷ _ ↦ err out_of_fuel ]
search_loop g (suc fuel) s = elim s.queue [
  | [] ↦ ok s.parent
  | current ∷ rest ↦ turn g current (record s { queue = rest }) >>= λ s'. search_loop g fuel s'
]

abbrev pub start : Search
start = record { parent = (internet_id, internet_id) ∷ []; queue = internet_id ∷ [] }

unfoldable pub breadth_first : Graph → Result Error Parents
unfolding search_loop
breadth_first g = search_loop g (length g.nodes) start

-- The loop that walks from a target along `parent`. `witness` is kept with its last member first, so
-- that it is the route in its final order when the loop ends.
unfoldable pub walk_back : ℕ → Parents → String → List String → Result Error (List String)
walk_back zero parent current witness = ok witness
walk_back (suc left) parent current witness =
    if current == internet_id
    then ok witness
    else of_option lookup_error (lookup current parent) >>= λ p.
        walk_back left parent p (p ∷ witness)

-- `len(witness) <= MAX_PATH_DEPTH` holds for one turn more than that depth less the target itself.
unfoldable pub witness_route : Parents → String → Result Error (List String)
unfolding walk_back
witness_route parent target = walk_back max_path_depth parent target (target ∷ [])
