-- ===== src/Analysis/Bfs/Ends.antt =====
-- The breadth-first search ends without a `KeyError`, in as many turns as there are nodes.
use blast_radius.Base.{
  ℕ, zero, suc, ◌+◌, ◌≤◌, ◌≡◌, String, Bool, true, List, [], ◌∷◌, ==_iff, string_eq, elem, length,
  arith, all, List-cases, inl, inr, sorted, ok, all_of_elem, elem-sorted, all-append,
}
use blast_radius.Models.{internet_id}
use blast_radius.Graph.{Graph, IsDigraph}
use blast_radius.Analysis.Bfs.{
  Parents, Search, visit, visit_all, turn, adjacency, search_loop, breadth_first, start,
}
use blast_radius.Analysis.Bfs.Visits.{work, unvisited, visit_all-work}

module _ (g : Graph) (d : IsDigraph g) where
  abbrev known : String → Bool
  known n = elem n g.nodes

  neighbours-known : (current : String) → all known (sorted (g.successors current)) ≡ true
  neighbours-known current = all_of_elem known (sorted (g.successors current)) λ b h.
      d.target_mem current b
        (ground (arith, elem-sorted b (g.successors current), d.successors_lem current b))

  visit-queue :
      (c n : String) (s : Search)
      → known n ≡ true
      → all known s.queue ≡ true
      → all known (visit c n s).queue ≡ true
  unfolding visit
  visit-queue c n s k h = ground (arith, all-append known s.queue (n ∷ []))

  visit_all-queue :
      (c : String) (ns : List String) (s : Search)
      → all known ns ≡ true
      → all known s.queue ≡ true
      → all known (visit_all c ns s).queue ≡ true
  unfolding visit_all
  visit_all-queue c [] s k h = h
  visit_all-queue c (n ∷ ns) s k h =
      ground (arith, visit-queue c n s, visit_all-queue c ns (visit c n s))

  -- A turn on a node of the graph raises nothing, costs one unit of work and queues nodes.
  turn_step :
      (current : String) (rest : List String) (s : Search)
      → s.queue ≡ current ∷ rest
      → all known s.queue ≡ true
      → (t : Search) × (turn g current (record s { queue = rest }) ≡ ok t)
        × (work g.nodes t + 1 ≤ work g.nodes s)
        × (all known t.queue ≡ true)
  unfolding turn adjacency work
  turn_step current rest s e h =
      let ns = sorted (g.successors current) in
      let s' = record s { queue = rest } in
      let k = neighbours-known current in
      (
        visit_all current ns s',
        ground arith,
        ground (arith, visit_all-work g.nodes current ns s' k),
        ground (arith, visit_all-queue current ns s' k),
      )

  search_loop-ends :
      (fuel : ℕ) (s : Search)
      → all known s.queue ≡ true
      → work g.nodes s ≤ fuel
      → (p : Parents) × (search_loop g fuel s ≡ ok p)
  unfolding search_loop work
  search_loop-ends zero s h w = (s.parent, ground arith)
  search_loop-ends (suc fuel) s h w = elim (List-cases s.queue) [
    | inl empty ↦ (s.parent, ground arith)
    | inr (current, rest, e) ↦
        let (t, turned, less, k) = turn_step current rest s e h in
        let (p, Ends) = search_loop-ends fuel t k (omega arith) in
        (p, rw (e, search_loop) (rw turned Ends))
  ]

  unvisited_bound : (ns : List String) (p : Parents) → unvisited ns p ≤ length ns
  unfolding unvisited
  unvisited_bound [] p = omega arith
  unvisited_bound (n ∷ ns) p = ground (arith, unvisited_bound ns p)

  unvisited_start :
      (ns : List String) → elem internet_id ns ≡ true → unvisited ns start.parent + 1 ≤ length ns
  unfolding unvisited
  unvisited_start [] m = cc
  unvisited_start (n ∷ ns) m =
      ground (arith, unvisited_start ns, unvisited_bound ns start.parent, ==_iff internet_id n)

-- On a graph that holds the Internet node, the breadth-first search ends with a map of parents, in
-- at most as many turns as there are nodes and with no `KeyError`.
pub breadth_first_ends :
    (g : Graph)
    → IsDigraph g
    → elem internet_id g.nodes ≡ true
    → (p : Parents) × (breadth_first g ≡ ok p)
unfolding breadth_first work
breadth_first_ends g d m =
    search_loop-ends g d (length g.nodes) start (ground arith)
      (omega (arith, unvisited_start g d g.nodes m))
