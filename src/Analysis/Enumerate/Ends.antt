-- ===== src/Analysis/Enumerate/Ends.antt =====
-- The enumeration ends: it raises nothing, the fuel is enough, and it keeps to its budgets.
use blast_radius.Base.{
  ℕ, zero, suc, ◌+◌, ◌≤◌, ◌<◌, ◌≡◌, ◌≢◌, refl, subst, ap, ◌∙◌, String, Bool, true, false, ◌||◌,
  ◌==◌, ==_iff, ==_refl, string_eq, list_eq, List, [], ◌∷◌, ◌++◌, all, elem, length, length-append,
  leb, arith, ok, Option-cases, inl, inr, Bool-cases, sorted, List-cases, traverse, keep, not,
}
use blast_radius.Models.{internet_id, AttackPath, ResourceNode, GraphEdge, node_type_eq}
use blast_radius.Graph.{Graph, IsDigraph, node_of, edge_of}
use blast_radius.Analysis.Outcome.{attack_path_of, build_attack_path, path_edges}
use blast_radius.Analysis.Bfs.{adjacency, max_path_depth}
use blast_radius.Analysis.Routes.{Ends, Linked, IsRoute}
use blast_radius.Analysis.Enumerate.{
  Dfs, Frame, dfs_loop, enumerate, first_state, max_path_work, max_paths, turn, advance, consider,
  retreat, emit, cap_target, out_of_budget,
}
use blast_radius.Analysis.Enumerate.Frames.{
  Turned, spent, popped, skipped, repeated, found, too_deep, pushed, key_of, loop_rule, of_turn,
}
use blast_radius.Analysis.Enumerate.Sync.{InSync, Turned-InSync, Iterate}
use blast_radius.Analysis.Enumerate.Sound.{InSync-start, key-IsRoute}

module _ (g : Graph) (d : IsDigraph g) where
  abbrev known : String → Bool
  known n = elem n g.nodes

  traverse-node_of :
      (ns : List String)
      → all known ns ≡ true
      → (rs : List ResourceNode) × (traverse (node_of g) ns ≡ ok rs)
  unfolding node_of
  traverse-node_of [] h = ([], refl)
  traverse-node_of (n ∷ ns) h =
      let (rs, same) = traverse-node_of ns (ground arith) in
      elim (Option-cases (g.node n)) [
        | inl none? ↦ absurd (ground (arith, d.node_stored n))
        | inr (r, stored) ↦ (r ∷ rs, ground arith)
      ]

  path_edges_ok :
      (ns : List String) → Linked g ns → (es : List GraphEdge) × (path_edges g ns ≡ ok es)
  unfolding path_edges edge_of
  path_edges_ok [] h = ([], refl)
  path_edges_ok (a ∷ []) h = ([], refl)
  path_edges_ok (a ∷ b ∷ ns) h =
      let (es, same) = path_edges_ok (b ∷ ns) h.1 in
      elim (Option-cases (g.edge a b)) [
        | inl none? ↦ absurd (ground arith)
        | inr (e, stored) ↦ (e ∷ es, ground arith)
      ]

  -- A path is built of any list of nodes of the graph along its edges.
  pub build_attack_path_ok :
      (ns : List String)
      → Linked g ns
      → all known ns ≡ true
      → (p : AttackPath) × (build_attack_path g ns ≡ ok p)
  unfolding build_attack_path
  build_attack_path_ok ns l k =
      let (es, edges) = path_edges_ok ns l in
      let (rs, nodes) = traverse-node_of ns k in (attack_path_of ns es rs, ground arith)

  Linked-known :
      (a : String) (ns : List String)
      → known a ≡ true
      → Linked g (a ∷ ns)
      → all known (a ∷ ns) ≡ true
  Linked-known a [] k l = ground arith
  Linked-known a (b ∷ ns) k l = ground (arith, Linked-known b ns, d.target_mem a b)

  IsRoute-known :
      (t : String) (ns : List String)
      → known internet_id ≡ true
      → IsRoute g t ns
      → all known ns ≡ true
  IsRoute-known t [] k r = absurd r.start
  IsRoute-known t (a ∷ ns) k r = Linked-known a ns (rw r.start k) r.edges

  -- A route of the graph always becomes an attack path.
  pub build-IsRoute :
      (t : String) (ns : List String)
      → known internet_id ≡ true
      → IsRoute g t ns
      → (p : AttackPath) × (build_attack_path g ns ≡ ok p)
  build-IsRoute t ns k r = build_attack_path_ok ns r.edges (IsRoute-known t ns k r)

  module _ (target : String) (k : known internet_id ≡ true) where
    retreat_ok :
        (s : Dfs) (f : Frame) (rest : List Frame) (route : List String)
        → Iterate g (f ∷ rest) route
        → ((v : String) → elem v s.visited ≡ elem v route)
        → (t : Dfs) × (retreat rest route s ≡ ok t)
    unfolding retreat
    retreat_ok s f rest [] i v = absurd i
    retreat_ok s f rest (n ∷ route) i v = (
      record s { stack = rest; route = route; visited = keep (λ x. not (x == n)) s.visited },
      rw (v n ∙ ap (λ b. b || elem n route) (==_refl n)) refl,
    )

    emit_ok :
        (key : List String) (s : Dfs) → IsRoute g target key → (t : Dfs) × (emit g key s ≡ ok t)
    unfolding emit
    emit_ok key s r =
        let (p, built) = build-IsRoute target key k r in
        elim (Bool-cases (elem key s.emitted)) [
          | inl old ↦ (s, rw old refl)
          | inr new ↦ (
            record s { emitted = s.emitted ++ key ∷ []; paths = s.paths ++ p ∷ [] },
            rw (new, built) refl,
          )
        ]

    taken-known :
        (f m : String) (ms : List String) (rest : List Frame) (route : List String)
        → Iterate g ((f, m ∷ ms) ∷ rest) route
        → known m ≡ true
    taken-known f m ms rest [] i = absurd i
    taken-known f m ms rest (n ∷ route) i = d.target_mem n m (ground arith)

    consider_ok :
        (s : Dfs) (f m : String) (ms : List String) (rest : List Frame)
        → InSync g d target s
        → s.stack ≡ (f, m ∷ ms) ∷ rest
        → (r : Dfs × Bool) × (consider g target m
              (record s { path_work = s.path_work + 1; stack = (f, ms) ∷ rest })
            ≡ ok r)
    unfolding consider adjacency
    consider_ok s f m ms rest h e =
        let i = subst (λ x. Iterate g x s.route) e h.frames in
        let taken : Dfs = record s { path_work = s.path_work + 1; stack = (f, ms) ∷ rest } in
        elim (Bool-cases (elem m s.visited)) [
          | inl old ↦ ((taken, true), rw old refl)
          | inr new ↦ elim (Bool-cases (m == target)) [
            | inl same ↦
                let route =
                  key-IsRoute g d target s f m ms rest s.route refl h i
                    ((==_iff m target).0 same) in
                let (t, emitted) = emit_ok (key_of target s) taken route in
                (cap_target t, rw (new, same, emitted) refl)
            | inr other ↦ elim (Bool-cases (leb max_path_depth (length s.route))) [
              | inl deep ↦ ((record taken { truncated = true }, true), rw (new, other, deep) refl)
              | inr room ↦ (
                (
                  record taken {
                    stack = (m, sorted (g.successors m)) ∷ taken.stack;
                    route = m ∷ s.route;
                    visited = m ∷ s.visited;
                  },
                  true,
                ),
                rw (new, other, room, taken-known f m ms rest s.route i) refl,
              )
            ]
          ]
        ]

    advance_ok :
        (s : Dfs) (stack : List Frame)
        → InSync g d target s
        → s.stack ≡ stack
        → (r : Dfs × Bool) × (advance g target stack (record s { path_work = s.path_work + 1 })
            ≡ ok r)
    unfolding advance
    advance_ok s [] h e = ((record s { path_work = s.path_work + 1 }, false), refl)
    advance_ok s ((f, []) ∷ rest) h e =
        let i = subst (λ x. Iterate g x s.route) e h.frames in
        let (t, back) =
          retreat_ok (record s { path_work = s.path_work + 1 }) (f, []) rest s.route i h.seen in
        ((t, true), rw back refl)
    advance_ok s ((f, m ∷ ms) ∷ rest) h e = consider_ok s f m ms rest h e

    turn_ok : (s : Dfs) → InSync g d target s → (r : Dfs × Bool) × (turn g target s ≡ ok r)
    unfolding turn
    turn_ok s h = elim (Bool-cases (out_of_budget s)) [
      | inl over ↦ ((record s { truncated = true }, false), rw over refl)
      | inr within ↦ let (r, same) = advance_ok s s.stack h refl in (r, rw within same)
    ]

    -- The budgets, which hold after every turn.
    pub record IsWithin (s : Dfs) : Type 0 where
      pub work : s.path_work ≤ max_path_work
      pub paths : length s.paths ≤ max_paths

    Turned-IsWithin : {s t : Dfs} → IsWithin s → Turned g target s t → IsWithin t
    unfolding out_of_budget
    Turned-IsWithin h (spent b) = ground arith
    Turned-IsWithin h (popped f n rest route b e w) = ground arith
    Turned-IsWithin h (skipped f m ms rest b e old) = ground arith
    Turned-IsWithin h (repeated f m ms rest cut b e same old c) = ground arith
    Turned-IsWithin {s} h (found f m ms rest p cut b e same new built c) =
        ground (arith, length-append s.paths (p ∷ []))
    Turned-IsWithin h (too_deep f m ms rest b e) = ground arith
    Turned-IsWithin h (pushed f m ms ns rest b e new other room adj) = ground arith

    Turned-work :
        {s t : Dfs} → Turned g target s t → out_of_budget s ≡ false → t.path_work ≡ s.path_work + 1
    Turned-work (spent b) o = cc
    Turned-work (popped f n rest route b e w) o = refl
    Turned-work (skipped f m ms rest b e old) o = refl
    Turned-work (repeated f m ms rest cut b e same old c) o = refl
    Turned-work (found f m ms rest p cut b e same new built c) o = refl
    Turned-work (too_deep f m ms rest b e) o = refl
    Turned-work (pushed f m ms ns rest b e new other room adj) o = refl

    budget-turn : (s u : Dfs) → turn g target s ≡ ok (u, true) → out_of_budget s ≡ false
    unfolding turn
    budget-turn s u h = ground arith

    dfs_step_ok :
        (fuel : ℕ) (s : Dfs) (f : Frame) (fs : List Frame) (r : Dfs × Bool)
        → s.stack ≡ f ∷ fs
        → turn g target s ≡ ok r
        → (r.1 ≡ true → (t : Dfs) × (dfs_loop g target fuel r.0 ≡ ok t))
        → (t : Dfs) × (dfs_loop g target (suc fuel) s ≡ ok t)
    unfolding dfs_loop
    dfs_step_ok fuel s f fs (u, true) e turned rest =
        let (t, Ends) = rest refl in (t, rw (e, dfs_loop) (rw turned Ends))
    dfs_step_ok fuel s f fs (u, false) e turned rest = (u, rw (e, dfs_loop) (rw turned refl))

    dfs_loop_ok :
        (fuel : ℕ) (s : Dfs)
        → InSync g d target s
        → IsWithin s
        → max_path_work < s.path_work + fuel
        → (t : Dfs) × (dfs_loop g target fuel s ≡ ok t)
    unfolding dfs_loop
    dfs_loop_ok zero s h b l = absurd (omega (arith, b.work))
    dfs_loop_ok (suc fuel) s h b l = elim (List-cases s.stack) [
      | inl empty ↦ (s, ground arith)
      | inr (f, fs, e) ↦
          let (r, turned) = turn_ok s h in
          let next = of_turn g target s r (λ none_left. cc) turned in
          dfs_step_ok fuel s f fs r e turned λ on.
            let within = budget-turn s r.0 (turned ∙ ap (λ x. ok (r.0, x)) on) in
            dfs_loop_ok fuel r.0 (Turned-InSync g d target h next) (Turned-IsWithin b next)
              (omega (arith, Turned-work next within))
    ]

-- On a graph that holds the Internet node and from a state within the budgets, the enumeration for a
-- target other than the Internet node ends and raises nothing, and at the end at most 500 paths are
-- kept and at most 100,000 units of work are spent.
pub enumerate-ends :
    (g : Graph) (d : IsDigraph g) (target : String) (witness : List String)
    (paths : List AttackPath) (work : ℕ) (cut : Bool)
    → elem internet_id g.nodes ≡ true
    → target ≢ internet_id
    → work ≤ max_path_work
    → length paths ≤ max_paths
    → (t : Dfs) × (enumerate g target witness paths work cut ≡ ok t)
      × (t.path_work ≤ max_path_work)
      × (length t.paths ≤ max_paths)
unfolding enumerate adjacency
enumerate-ends g d target witness paths work cut k ne w l =
    let ns = sorted (g.successors internet_id) in
    let s : Dfs = first_state ns witness paths work cut in
    let h = InSync-start g d target ns witness paths work cut (rw k refl) ne in
    let b : IsWithin g d target k s = record { work = w; paths = l } in
    let (t, Ends) = dfs_loop_ok g d target k (suc max_path_work) s h b (omega arith) in
    let (within, end) =
      loop_rule g target (IsWithin g d target k) (λ s t p x. Turned-IsWithin g d target k p x)
        (suc max_path_work) s t b Ends in
    (t, rw k Ends, within.work, within.paths)
