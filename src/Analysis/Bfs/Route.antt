-- ===== src/Analysis/Bfs/Route.antt =====
-- The route that is read off the map of parents.
use blast_radius.Base.{
  ℕ, zero, suc, ◌+◌, ◌≤◌, ◌<◌, ◌≡◌, refl, sym, subst, String, Bool, true, false, some, List, [],
  ◌∷◌, ◌==◌, ==_iff, string_eq, elem, length, lookup, arith, all, inl, inr, ◌⊎◌, ◌↔◌, ok, IsNodup,
  ◌∙◌, Option-cases, Bool-cases, ltb, elem-all,
}
use mathlib.Core.Logic.{∥∥₁_elim}
use mathlib.Core.Bool.{So-prop}
use blast_radius.Models.{internet_id}
use blast_radius.Graph.{Graph, IsDigraph, Walk, here, step, has_edge}
use blast_radius.Analysis.Routes.{IsRoute, Starts, Ends, Linked}
use blast_radius.Analysis.Bfs.{Parents, has_parent, breadth_first, walk_back, witness_route}
use blast_radius.Analysis.Bfs.Sound.{IsTree, place, breadth_first-IsTree, breadth_first_complete}

module _ (g : Graph) (p : Parents) (t : IsTree g p) where
  parent-cases :
      (v : String)
      → has_parent v p ≡ true
      → (v ≡ internet_id)
        ⊎ ((u : String) × (lookup v p ≡ some u)
            × (has_edge g u v ≡ true)
            × (has_parent u p ≡ true)
            × (place u p < place v p))
  parent-cases v h = elim (Option-cases (lookup v p)) [
    | inl none? ↦ cc
    | inr (u, found) ↦ elim (t.edges v u found) [
      | inl root ↦ inl root
      | inr edge ↦ elim (t.ordered v u found) [
        | inl root ↦ inl root
        | inr before ↦ inr (u, found, edge, t.kept v u found, before)
      ]
    ]
  ]

  Walk-of_parent :
      (k : ℕ) (v : String) → place v p < k → has_parent v p ≡ true → Walk g internet_id v
  Walk-of_parent zero v l h = absurd (omega arith)
  Walk-of_parent (suc k) v l h = elim (parent-cases v h) [
    | inl root ↦ subst (Walk g internet_id) (sym root) here
    | inr (u, found, edge, kept, before) ↦ step (Walk-of_parent k u (omega arith) kept) edge
  ]

  -- what the loop keeps: the members come after the current node in the order of discovery
  later : String → String → Bool
  later current n = ltb (place current p) (place n p)

  abbrev Partial : String → String → List String → Type 0
  Partial target current [] = ⊥
  Partial target current (n ∷ rest) =
      (n ≡ current)
      × Ends target (n ∷ rest)
      × Linked g (n ∷ rest)
      × IsNodup (n ∷ rest)
      × (all (later current) rest ≡ true)

  later-earlier :
      (u current : String) (rest : List String)
      → place u p < place current p
      → all (later current) rest ≡ true
      → all (later u) rest ≡ true
  unfolding later
  later-earlier u current [] l h = refl
  later-earlier u current (n ∷ rest) l h = ground (arith, later-earlier u current rest l)

  later-absent :
      (u current : String) (rest : List String)
      → place u p < place current p
      → all (later current) rest ≡ true
      → elem u rest ≡ false
  unfolding later
  later-absent u current rest l h = elim (Bool-cases (elem u rest)) [
    | inl there ↦ absurd (ground (arith, elem-all (later current) rest u h there))
    | inr gone ↦ gone
  ]

  Partial-step :
      (target current u : String) (w : List String)
      → has_edge g u current ≡ true
      → place u p < place current p
      → Partial target current w
      → Partial target u (u ∷ w)
  unfolding later
  Partial-step target current u [] e l h = absurd h
  Partial-step target current u (n ∷ rest) e l (same, fin, lnk, nodup, after) = (
    refl,
    fin,
    (subst (λ k. has_edge g u k ≡ true) (sym same) e, lnk),
    (ground (arith, later-absent u current rest l after, ==_iff u n), nodup),
    ground (arith, later-earlier u current rest l after),
  )

  -- The loop ends at the Internet node or with the depth budget used up, and raises nothing.
  Ended : String → List String → Type 0
  Ended target route =
      (c : String) × Partial target c route
      × (length route ≤ 33)
      × ((c ≡ internet_id) ⊎ (length route ≡ 33))

  walk_back-Ended :
      (left : ℕ) (target current : String) (w : List String)
      → Partial target current w
      → has_parent current p ≡ true
      → length w + left ≡ 33
      → (route : List String) × (walk_back left p current w ≡ ok route) × Ended target route
  unfolding walk_back Ended
  walk_back-Ended zero target current w h k l =
      (w, refl, (current, h, omega arith, inr (omega arith)))
  walk_back-Ended (suc left) target current w h k l = elim (Bool-cases (current == internet_id)) [
    | inl root ↦
        (w, rw root refl, (current, h, omega arith, inl ((==_iff current internet_id).0 root)))
    | inr on ↦ elim (parent-cases current k) [
      | inl root ↦ cc ((==_iff current internet_id).1 root)
      | inr (u, found, edge, kept, before) ↦
          let (route, same, ended) =
            walk_back-Ended left target u (u ∷ w) (Partial-step target current u w edge before h)
              kept (omega arith) in
          (route, rw (on, found) same, ended)
    ]
  ]

  Partial-IsRoute :
      (target c : String) (route : List String)
      → Partial target c route
      → length route ≤ 33
      → Starts internet_id route
      → IsRoute g target route
  Partial-IsRoute target c [] h l s = absurd h
  Partial-IsRoute target c (n ∷ rest) (same, fin, lnk, nodup, after) l s = record {
    start = s;
    finish = fin;
    edges = lnk;
    simple = nodup;
    short = l;
  }

  starts-Partial :
      (target c : String) (route : List String)
      → Partial target c route
      → Starts internet_id route ↔ (c ≡ internet_id)
  starts-Partial target c [] h = absurd h
  starts-Partial target c (n ∷ rest) (same, fin, lnk, nodup, after) =
      (λ s. sym same ∙ s, λ e. same ∙ e)

  Ended-cases :
      (target : String) (route : List String)
      → Ended target route
      → IsRoute g target route ⊎ (¬ Starts internet_id route) × (length route ≡ 33)
  unfolding Ended
  Ended-cases target route (c, h, l, or_full) = elim (Bool-cases (c == internet_id)) [
    | inl root ↦ inl (
        Partial-IsRoute target c route h l
          ((starts-Partial target c route h).1 ((==_iff c internet_id).0 root)))
    | inr off ↦ inr (
      λ s. cc ((==_iff c internet_id).1 ((starts-Partial target c route h).0 s)),
      ground (arith, ==_iff c internet_id),
    )
  ]

-- A node has a parent at the end of the breadth-first search exactly when a walk along the edges
-- leads to it from the Internet node.
pub breadth_first_correct :
    (g : Graph) (p : Parents) (v : String)
    → IsDigraph g
    → breadth_first g ≡ ok p
    → (has_parent v p ≡ true) ↔ ∥ Walk g internet_id v ∥₁
breadth_first_correct g p v d h = (
  λ k. ∣ Walk-of_parent g p (breadth_first-IsTree g p d h) (suc (place v p)) v (omega arith) k ∣₁,
  λ w. ∥∥₁_elim w (So-prop _) (breadth_first_complete g p d h),
)

-- For a node that can be reached, reading the route off the map of parents raises nothing. It gives
-- a route to that node, or 33 nodes that do not begin at the Internet node, where the depth budget
-- was used up.
pub witness_route_correct :
    (g : Graph) (p : Parents) (target : String)
    → IsDigraph g
    → breadth_first g ≡ ok p
    → Walk g internet_id target
    → (route : List String) × (witness_route p target ≡ ok route)
      × (IsRoute g target route ⊎ (¬ Starts internet_id route) × (length route ≡ 33))
unfolding witness_route
witness_route_correct g p target d h w =
    let t = breadth_first-IsTree g p d h in
    let (route, same, ended) =
      walk_back-Ended g p t 32 target target (target ∷ []) (refl, refl, tt, (refl, tt), refl)
        (breadth_first_complete g p d h w) refl in
    (route, same, Ended-cases g p t target route ended)
