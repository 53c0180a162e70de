-- ===== src/Analysis/Enumerate/Complete.antt =====
-- An enumeration that is not truncated has emitted every simple walk to its target.
use blast_radius.Base.{
  ℕ, suc, ◌≡◌, ◌≢◌, refl, sym, subst, ap, ◌∙◌, String, Bool, true, false, ◌==◌, ==_iff, ==_refl,
  string_eq, list_eq, some, List, [], ◌∷◌, elem, elem-append, arith, IsNodup, ok, >>=-eq-ok,
  of_option, Option-cases, inl, inr, ◌⊎◌, Bool-cases, elem-sorted,
}
use blast_radius.Models.{internet_id, AttackPath}
use blast_radius.Graph.{Graph, IsDigraph, has_edge, lookup_error}
use blast_radius.Analysis.Bfs.{adjacency}
use blast_radius.Analysis.Routes.{Starts, Ends, Linked}
use blast_radius.Analysis.Enumerate.{Dfs, Frame, enumerate, first_state, rev_onto, max_path_work}
use blast_radius.Analysis.Enumerate.Frames.{
  Turned, spent, popped, skipped, repeated, found, too_deep, pushed, key_of, loop_rule,
  truncated-Turned,
}
use blast_radius.Analysis.Enumerate.Sync.{InSync, Turned-InSync}
use blast_radius.Analysis.Enumerate.Sound.{InSync-start}
use blast_radius.Analysis.Enumerate.Turnabout.{ends-rev_onto, Linked-rev_onto, IsNodup-rev_onto}

elem-ends : (t y : String) (ys : List String) → Ends t (y ∷ ys) → elem t (y ∷ ys) ≡ true
elem-ends t y [] h = ground (arith, ==_iff t y)
elem-ends t y (x ∷ ys) h = ground (arith, elem-ends t x ys)

-- A simple walk that begins with the target ends there.
tail-eq-nil : (t : String) (tail : List String) → Ends t (t ∷ tail) → IsNodup (t ∷ tail) → tail ≡ []
tail-eq-nil t [] h n = refl
tail-eq-nil t (x ∷ tail) h n = absurd (ground (arith, elem-ends t x tail))

elem-adjacency :
    (g : Graph) (d : IsDigraph g) (m x : String) (ns : List String)
    → adjacency g m ≡ some ns
    → elem x ns ≡ has_edge g m x
unfolding adjacency
elem-adjacency g d m x ns h = ground (arith, elem-sorted x (g.successors m), d.successors_lem m x)

-- The walk goes on from a frame by a neighbour that its iterator still has to give.
abbrev Pending : List String → List Frame → List String → Type 0
Pending r [] route = ⊥
Pending r (f ∷ frames) [] = ⊥
Pending r (f ∷ frames) (n ∷ route) =
    ((m : String) × (tail : List String) × (elem m f.1 ≡ true)
      × (r ≡ rev_onto (n ∷ route) (m ∷ tail)))
    ⊎ Pending r frames route

module _ (g : Graph) (d : IsDigraph g) (target : String) (r : List String) where
  pub record IsSimpleWalk : Type 0 where
    pub start : Starts internet_id r
    pub finish : Ends target r
    pub edges : Linked g r
    pub simple : IsNodup r

  Covered : Dfs → Type 0
  Covered s = (s.truncated ≡ true) ⊎ (elem r s.emitted ≡ true) ⊎ Pending r s.stack s.route

  -- The walk goes on by the neighbour that was taken, or is pending without it.
  Pending-take :
      (k m : String) (ms : List String) (rest : List Frame) (route : List String)
      → Pending r ((k, m ∷ ms) ∷ rest) route
      → ((tail : List String) × (r ≡ rev_onto route (m ∷ tail))) ⊎ Pending r ((k, ms) ∷ rest) route
  Pending-take k m ms rest [] p = absurd p
  Pending-take k m ms rest (n ∷ route) (inl (x, tail, given, same)) = elim (Bool-cases (x == m)) [
    | inl now ↦ inl (tail, same ∙ ap (λ y. rev_onto route (n ∷ y ∷ tail)) ((==_iff x m).0 now))
    | inr later ↦ inr (inl (x, tail, ground arith, same))
  ]
  Pending-take k m ms rest (n ∷ route) (inr p) = inr (inr p)

  module _ (w : IsSimpleWalk) where
    -- What is left of the walk after a prefix is a simple walk to the target, apart from the prefix.
    rest_of :
        (route : List String) (m : String) (tail : List String)
        → r ≡ rev_onto route (m ∷ tail)
        → Ends target (m ∷ tail) × Linked g (m ∷ tail) × IsNodup (m ∷ tail) × (elem m route ≡ false)
    rest_of route m tail e =
        let (n, off) = IsNodup-rev_onto route (m ∷ tail) m (subst IsNodup e w.simple) in
        (
          ends-rev_onto target m route tail (subst (Ends target) e w.finish),
          Linked-rev_onto g m route tail (subst (Linked g) e w.edges),
          n,
          off (ground (arith, ==_refl m)),
        )

    at_target :
        (s : Dfs) (m : String) (tail : List String)
        → m ≡ target
        → r ≡ rev_onto s.route (m ∷ tail)
        → r ≡ key_of target s
    at_target s m tail same e =
        let (fin, lnk, n, off) = rest_of s.route m tail e in
        let done =
          tail-eq-nil target tail (subst (λ x. Ends target (x ∷ tail)) same fin)
            (subst (λ x. IsNodup (x ∷ tail)) same n) in
        e
        ∙ ap (λ x. rev_onto s.route (x ∷ tail)) same
        ∙ ap (λ x. rev_onto s.route (target ∷ x)) done

    go_on :
        (s : Dfs) (k m : String) (ms ns : List String) (rest : List Frame) (tail : List String)
        → (m == target) ≡ false
        → adjacency g m ≡ some ns
        → r ≡ rev_onto s.route (m ∷ tail)
        → Pending r ((m, ns) ∷ (k, ms) ∷ rest) (m ∷ s.route)
    go_on s k m ms ns rest [] other adj e =
        let (fin, lnk, n, off) = rest_of s.route m [] e in absurd (ground (arith, ==_iff m target))
    go_on s k m ms ns rest (x ∷ tail) other adj e =
        let (fin, lnk, n, off) = rest_of s.route m (x ∷ tail) e in
        inl (x, tail, ground (arith, elem-adjacency g d m x ns), e)

    Pending-at :
        (s : Dfs) (stack : List Frame)
        → s.stack ≡ stack
        → Pending r s.stack s.route
        → Pending r stack s.route
    Pending-at s stack e p = subst (λ x. Pending r x s.route) e p

    Turned-Pending :
        {s t : Dfs}
        → InSync g d target s
        → Pending r s.stack s.route
        → Turned g target s t
        → Covered t
    unfolding Covered
    Turned-Pending h p (spent b) = inl refl
    Turned-Pending {s} h p (popped k n rest route b e f) =
        elim (subst (Pending r ((k, []) ∷ rest)) f (Pending-at s _ e p)) [
          | inl (m, tail, given, same) ↦ cc
          | inr q ↦ inr (inr q)
        ]
    Turned-Pending {s} h p (skipped k m ms rest b e old) =
        elim (Pending-take k m ms rest s.route (Pending-at s _ e p)) [
          | inl (tail, via) ↦
              let (fin, lnk, n, off) = rest_of s.route m tail via in cc (h.seen m, off, old)
          | inr q ↦ inr (inr q)
        ]
    Turned-Pending {s} h p (repeated k m ms rest cut b e same old c) =
        elim (Pending-take k m ms rest s.route (Pending-at s _ e p)) [
          | inl (tail, via) ↦ inr (inl (rw (at_target s m tail same via) old))
          | inr q ↦ inr (inr q)
        ]
    Turned-Pending {s} h p (found k m ms rest q cut b e same new built c) =
        elim (Pending-take k m ms rest s.route (Pending-at s _ e p)) [
          | inl (tail, via) ↦ inr (
              inl (
                ground (
                  arith,
                  at_target s m tail same via,
                  elem-append r s.emitted (key_of target s ∷ []),
                  ==_iff r (key_of target s),
                )))
          | inr q' ↦ inr (inr q')
        ]
    Turned-Pending h p (too_deep k m ms rest b e) = inl refl
    Turned-Pending {s} h p (pushed k m ms ns rest b e new other room adj) =
        elim (Pending-take k m ms rest s.route (Pending-at s _ e p)) [
          | inl (tail, via) ↦ inr (inr (go_on s k m ms ns rest tail other adj via))
          | inr q ↦ inr (inr (inr q))
        ]

    emitted-Turned :
        {s t : Dfs} → Turned g target s t → elem r s.emitted ≡ true → elem r t.emitted ≡ true
    emitted-Turned (spent b) c = c
    emitted-Turned (popped k n rest route b e f) c = c
    emitted-Turned (skipped k m ms rest b e old) c = c
    emitted-Turned (repeated k m ms rest cut b e same old keeps) c = c
    emitted-Turned {s} (found k m ms rest q cut b e same new built keeps) c =
        ground (arith, elem-append r s.emitted (key_of target s ∷ []))
    emitted-Turned (too_deep k m ms rest b e) c = c
    emitted-Turned (pushed k m ms ns rest b e new other room adj) c = c

    abbrev Tracked : Dfs → Type 0
    Tracked s = InSync g d target s × Covered s

    Turned-Tracked : (s t : Dfs) → Tracked s → Turned g target s t → Tracked t
    unfolding Covered
    Turned-Tracked s t (h, inl cut) turned =
        (Turned-InSync g d target h turned, inl (truncated-Turned g target turned cut))
    Turned-Tracked s t (h, inr (inl done)) turned =
        (Turned-InSync g d target h turned, inr (inl (emitted-Turned turned done)))
    Turned-Tracked s t (h, inr (inr p)) turned =
        (Turned-InSync g d target h turned, Turned-Pending h p turned)

first_hop :
    (g : Graph) (d : IsDigraph g) (target : String) (r ns : List String)
    → target ≢ internet_id
    → adjacency g internet_id ≡ some ns
    → IsSimpleWalk g d target r
    → Pending r ((internet_id, ns) ∷ []) (internet_id ∷ [])
first_hop g d target [] ns ne adj w = absurd w.start
first_hop g d target (a ∷ []) ns ne adj w = absurd (ne (sym w.finish ∙ w.start))
first_hop g d target (a ∷ m ∷ tail) ns ne adj w = inl (
  m,
  tail,
  ground (arith, elem-adjacency g d internet_id m ns, w.start, w.edges),
  ap (λ x. x ∷ m ∷ tail) w.start,
)

-- An enumeration for a target other than the Internet node that is not truncated has emitted every
-- simple walk from the Internet node to that target.
pub enumerate_complete :
    (g : Graph) (d : IsDigraph g) (target : String) (witness r : List String)
    (paths : List AttackPath) (work : ℕ) (cut : Bool) (t : Dfs)
    → target ≢ internet_id
    → enumerate g target witness paths work cut ≡ ok t
    → t.truncated ≡ false
    → IsSimpleWalk g d target r
    → elem r t.emitted ≡ true
unfolding enumerate Covered
enumerate_complete g d target witness r paths work cut t ne h whole w =
    let (ns, found_, looped) = >>=-eq-ok (of_option lookup_error (adjacency g internet_id)) _ h in
    let adj : adjacency g internet_id ≡ some ns =
      ground (arith, Option-cases (adjacency g internet_id)) in
    let ((sync, covered), end) =
      loop_rule g target (Tracked g d target r w) (Turned-Tracked g d target r w)
        (suc max_path_work) _ t
        (
          InSync-start g d target ns witness paths work cut adj ne,
          inr (inr (first_hop g d target r ns ne adj w)),
        )
        looped in
    elim covered [
      | inl cut_off ↦ cc
      | inr (inl done) ↦ done
      | inr (inr pending) ↦ elim end [
        | inl empty ↦ absurd (subst (λ x. Pending r x t.route) empty pending)
        | inr cut_off ↦ cc
      ]
    ]

-- An enumeration that begins truncated ends truncated.
pub enumerate-cut :
    (g : Graph) (target : String) (witness : List String) (paths : List AttackPath) (work : ℕ)
    (t : Dfs)
    → enumerate g target witness paths work true ≡ ok t
    → t.truncated ≡ true
unfolding enumerate
enumerate-cut g target witness paths work t h =
    let (ns, found_, looped) = >>=-eq-ok (of_option lookup_error (adjacency g internet_id)) _ h in
    (loop_rule g target (λ s. s.truncated ≡ true) (λ s t c x. truncated-Turned g target x c)
      (suc max_path_work) (first_state ns witness paths work true) t refl looped).0
