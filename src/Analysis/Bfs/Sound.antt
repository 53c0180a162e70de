-- ===== src/Analysis/Bfs/Sound.antt =====
-- What the map of parents holds at the end of the breadth-first search.
use blast_radius.Base.{
  ℕ, zero, suc, ◌<◌, ◌≡◌, refl, sym, subst, ap, String, true, false, some, List, [], ◌∷◌, ◌++◌,
  ◌&&◌, ◌||◌, not, ◌==◌, ==_refl, ==_iff, string_eq, elem, length, lookup, if◌then◌else◌, arith,
  List-cases, inl, inr, ◌⊎◌, sorted, ok, elem-append, elem-sorted, >>=-eq-ok,
}
use blast_radius.Models.{internet_id}
use blast_radius.Graph.{Graph, IsDigraph, Walk, here, step, has_edge}
use blast_radius.Analysis.Bfs.{
  Parents, has_parent, Search, visit, visit_all, turn, adjacency, search_loop, breadth_first, start,
}
use blast_radius.Analysis.Bfs.Visits.{lookup-append_one}

-- The place of a node in the order in which nodes got their parents.
unfoldable pub place : String → Parents → ℕ
place n [] = 0
place n ((j, c) ∷ p) = if j == n then 0 else suc (place n p)

place-lt : (n : String) (p : Parents) → has_parent n p ≡ true → place n p < length p
unfolding place
place-lt n [] h = cc
place-lt n ((j, c) ∷ p) h = ground (arith, place-lt n p)

place-append_old :
    (n m c : String) (p : Parents) → has_parent n p ≡ true → place n (p ++ (m, c) ∷ []) ≡ place n p
unfolding place
place-append_old n m c [] h = cc
place-append_old n m c ((j, k) ∷ p) h = ground (arith, place-append_old n m c p)

place-append_new :
    (m c : String) (p : Parents) → has_parent m p ≡ false → place m (p ++ (m, c) ∷ []) ≡ length p
unfolding place
place-append_new m c [] h = ground (arith, ==_refl m)
place-append_new m c ((j, k) ∷ p) h = ground (arith, place-append_new m c p)

module _ (g : Graph) where
  -- The parent of a node was found before it and has an edge to it.
  pub record IsTree (p : Parents) : Type 0 where
    pub root : lookup internet_id p ≡ some internet_id
    pub edges : (v u : String) → lookup v p ≡ some u → (v ≡ internet_id) ⊎ (has_edge g u v ≡ true)
    pub kept : (v u : String) → lookup v p ≡ some u → has_parent u p ≡ true
    pub ordered : (v u : String) → lookup v p ≡ some u → (v ≡ internet_id) ⊎ (place u p < place v p)

  visit-IsTree :
      (c n : String) (s : Search)
      → has_parent c s.parent ≡ true
      → has_edge g c n ≡ true
      → IsTree s.parent
      → IsTree (visit c n s).parent
  unfolding visit
  visit-IsTree c n s h e t = record {
    root = ground (arith, t.root, lookup-append_one internet_id s.parent n c);
    edges = λ v u k. ground (arith, t.edges v u, lookup-append_one v s.parent n c, ==_iff n v);
    kept = λ v u k.
        ground
          (arith, t.kept v u, lookup-append_one v s.parent n c, lookup-append_one u s.parent n c);
    ordered = λ v u k. ground (
      arith,
      t.ordered v u,
      t.kept v u,
      lookup-append_one v s.parent n c,
      place-lt u s.parent,
      place-append_old u n c s.parent,
      place-append_old v n c s.parent,
      place-append_new n c s.parent,
      ==_iff n v,
    );
  }

  has_parent-visit :
      (c n : String) (s : Search) (v : String)
      → has_parent v (visit c n s).parent ≡ (has_parent v s.parent || v == n)
  unfolding visit
  has_parent-visit c n s v =
      ground (arith, lookup-append_one v s.parent n c, ==_iff v n, ==_iff n v)

  elem-visit :
      (c n : String) (s : Search) (v : String)
      → elem v (visit c n s).queue ≡ (elem v s.queue || v == n && not (has_parent v s.parent))
  unfolding visit
  elem-visit c n s v = ground (arith, elem-append v s.queue (n ∷ []), ==_iff v n)

  has_parent-visit_all :
      (c : String) (ns : List String) (s : Search) (v : String)
      → has_parent v (visit_all c ns s).parent ≡ (has_parent v s.parent || elem v ns)
  unfolding visit_all
  has_parent-visit_all c [] s v = ground arith
  has_parent-visit_all c (n ∷ ns) s v =
      ground (arith, has_parent-visit_all c ns (visit c n s) v, has_parent-visit c n s v)

  elem-visit_all :
      (c : String) (ns : List String) (s : Search) (v : String)
      → elem v (visit_all c ns s).queue
        ≡ (elem v s.queue || elem v ns && not (has_parent v s.parent))
  unfolding visit_all
  elem-visit_all c [] s v = ground arith
  elem-visit_all c (n ∷ ns) s v =
      ground
        (arith, elem-visit_all c ns (visit c n s) v, has_parent-visit c n s v, elem-visit c n s v)

  visit_all-IsTree :
      (c : String) (ns : List String) (s : Search)
      → has_parent c s.parent ≡ true
      → ((n : String) → elem n ns ≡ true → has_edge g c n ≡ true)
      → IsTree s.parent
      → IsTree (visit_all c ns s).parent
  unfolding visit_all
  visit_all-IsTree c [] s h e t = t
  visit_all-IsTree c (n ∷ ns) s h e t =
      visit_all-IsTree c ns (visit c n s) (ground (arith, has_parent-visit c n s c))
        (λ m k. e m (ground arith)) (visit-IsTree c n s h (e n (ground (arith, ==_refl n))) t)

  -- What holds between the turns.
  record Holds (s : Search) : Type 0 where
    tree : IsTree s.parent
    queued : (v : String) → elem v s.queue ≡ true → has_parent v s.parent ≡ true
    closed :
        (u v : String)
        → has_parent u s.parent ≡ true
        → has_edge g u v ≡ true
        → (elem u s.queue ≡ true) ⊎ (has_parent v s.parent ≡ true)

  visit_all-Holds :
      (c : String) (rest : List String) (s : Search)
      → IsDigraph g
      → s.queue ≡ c ∷ rest
      → Holds s
      → Holds (visit_all c (sorted (g.successors c)) (record s { queue = rest }))
  visit_all-Holds c rest s d e h = record {
    tree = visit_all-IsTree c ns s' parent (λ n k. ground (arith, edge n)) h.tree;
    queued = λ v k. ground (
      arith,
      elem-visit_all c ns s' v,
      has_parent-visit_all c ns s' v,
      h.queued v,
      ap (elem v) e,
    );
    closed = λ u v p k. ground (
      arith,
      elem-visit_all c ns s' u,
      has_parent-visit_all c ns s' u,
      has_parent-visit_all c ns s' v,
      h.closed u v,
      ap (elem u) e,
      elem-sorted v (g.successors c),
      d.successors_lem c v,
      ==_iff u c,
    );
  }
    where
      ns : List String
      ns = sorted (g.successors c)

      s' : Search
      s' = record s { queue = rest }

      parent : has_parent c s.parent ≡ true
      parent = h.queued c (rw e (ground (arith, ==_refl c)))

      edge : (n : String) → elem n ns ≡ has_edge g c n
      edge n = ground (arith, elem-sorted n (g.successors c), d.successors_lem c n)

  turn-eq-ok :
      (c : String) (s t : Search) → turn g c s ≡ ok t → t ≡ visit_all c (sorted (g.successors c)) s
  unfolding turn adjacency
  turn-eq-ok c s t h = ground arith

  search_loop-Holds :
      (d : IsDigraph g) (fuel : ℕ) (s : Search) (p : Parents)
      → Holds s
      → search_loop g fuel s ≡ ok p
      → (t : Search) × Holds t × (t.queue ≡ []) × (t.parent ≡ p)
  unfolding search_loop
  search_loop-Holds d zero s p h r = (s, h, ground arith, ground arith)
  search_loop-Holds d (suc fuel) s p h r = elim (List-cases s.queue) [
    | inl empty ↦ (s, h, empty, ground arith)
    | inr (c, rest, e) ↦
        let (t, turned, more) =
          >>=-eq-ok (turn g c (record s { queue = rest })) (search_loop g fuel)
            (rw (e, search_loop) at r) in
        search_loop-Holds d fuel t p
          (subst Holds (sym (turn-eq-ok c (record s { queue = rest }) t turned))
            (visit_all-Holds c rest s d e h))
          more
  ]

  Holds-start : Holds start
  unfolding place
  Holds-start = record {
    tree = record {
      root = refl;
      edges = λ v u k. ground (arith, ==_iff internet_id v);
      kept = λ v u k. ground (arith, ==_iff internet_id v);
      ordered = λ v u k. ground (arith, ==_iff internet_id v);
    };
    queued = λ v k. ground (arith, ==_iff v internet_id, ==_iff internet_id v);
    closed = λ u v p k. ground (arith, ==_iff u internet_id, ==_iff internet_id u);
  }

  pub breadth_first-IsTree : (p : Parents) → IsDigraph g → breadth_first g ≡ ok p → IsTree p
  unfolding breadth_first
  breadth_first-IsTree p d h =
      let (t, holds, empty, same) = search_loop-Holds d (length g.nodes) start p Holds-start h in
      subst IsTree same holds.tree

  Walk-has_parent :
      (p : Parents)
      → ((u v : String) → has_parent u p ≡ true → has_edge g u v ≡ true → has_parent v p ≡ true)
      → has_parent internet_id p ≡ true
      → {v : String} → Walk g internet_id v
      → has_parent v p ≡ true
  Walk-has_parent p closed root here = root
  Walk-has_parent p closed root (step {b} {c} w e) = closed b c (Walk-has_parent p closed root w) e

  pub breadth_first_complete :
      (p : Parents)
      → IsDigraph g
      → breadth_first g ≡ ok p
      → {v : String} → Walk g internet_id v
      → has_parent v p ≡ true
  unfolding breadth_first
  breadth_first_complete p d h w =
      let (t, holds, empty, same) = search_loop-Holds d (length g.nodes) start p Holds-start h in
      Walk-has_parent p (λ u v k e. ground (arith, holds.closed u v, ap (elem u) empty))
        (ground (arith, holds.tree.root)) w
