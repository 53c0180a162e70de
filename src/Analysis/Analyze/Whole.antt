-- ===== src/Analysis/Analyze/Whole.antt =====
-- The loop over the targets of `analyze` as a whole.
use blast_radius.Base.{
  ◌≡◌, ◌≢◌, refl, sym, subst, ap, ◌∙◌, String, Bool, true, false, ◌==◌, ==_iff, string_eq, list_eq,
  List, [], ◌∷◌, ◌++◌, elem, elem-append, length, arith, All, All-append, ok, Bool-cases, inl, inr,
  ◌⊎◌, all,
}
use mathlib.Core.List.{map-append, append_assoc, append-nil}
use blast_radius.Models.{internet_id, AttackPath, node_type_eq}
use blast_radius.Graph.{Graph, IsDigraph, Walk}
use blast_radius.Analysis.Bfs.{Parents, breadth_first, witness_route}
use blast_radius.Analysis.Bfs.Route.{witness_route_correct}
use blast_radius.Analysis.Routes.{IsRoute, Starts}
use blast_radius.Analysis.Enumerate.Sound.{IsBuilt}
use blast_radius.Analysis.Enumerate.Complete.{IsSimpleWalk}
use blast_radius.Analysis.Analyze.{Tally, enumerate_from, each_target}
use blast_radius.Analysis.Analyze.Targets.{Round, IsWithin, nodes_list, enumerate_from_ok}

module _ (g : Graph) (d : IsDigraph g) (k : elem internet_id g.nodes ≡ true) where
  -- What the loop over the targets adds to the tally `s`.
  pub record Gathered (targets : List String) (s u : Tally) : Type 0 where
    pub added : List AttackPath
    pub paths : u.paths ≡ s.paths ++ added
    pub all_built : All (λ p. (t : String) × IsBuilt g d t p) added
    pub every_walk :
        u.truncated ≡ false
        → (t : String) (w : List String) → elem t targets ≡ true
        → IsSimpleWalk g d t w
        → elem w (nodes_list g d k added) ≡ true
    pub cut : s.truncated ≡ true → u.truncated ≡ true
    pub within : IsWithin g d k u

  All-weaken :
      (t : String) (ps : List AttackPath)
      → All (IsBuilt g d t) ps
      → All (λ p. (t : String) × IsBuilt g d t p) ps
  All-weaken t [] h = tt
  All-weaken t (p ∷ ps) h = ((t, h.0), All-weaken t ps h.1)

  -- The rounds after the first add to what it has added.
  Gathered-cons :
      (target : String) (targets : List String) (s : Tally) (r : Tally × Bool) (u : Tally)
      → Round g d k target s r
      → Gathered targets r.0 u
      → Gathered (target ∷ targets) s u
  Gathered-cons target targets s r u a b = record {
    added = a.added ++ b.added;
    paths = b.paths ∙ ap (λ x. x ++ b.added) a.paths ∙ append_assoc s.paths a.added b.added;
    all_built = All-append _ a.added b.added (All-weaken target a.added a.all_built) b.all_built;
    every_walk = λ e t w m x.
        rw (map-append (λ (p : AttackPath). p.nodes) a.added b.added)
          (elim (Bool-cases (t == target)) [
            | inl same ↦
                let x' = subst (λ y. IsSimpleWalk g d y w) ((==_iff t target).0 same) x in
                ground (
                  arith,
                  elem-append w (nodes_list g d k a.added) (nodes_list g d k b.added),
                  a.every_walk (ground (arith, b.cut)) w x',
                )
            | inr other ↦ ground (
              arith,
              elem-append w (nodes_list g d k a.added) (nodes_list g d k b.added),
              b.every_walk e t w (ground arith) x,
            )
          ]);
    cut = λ e. b.cut (a.cut e);
    within = b.within;
  }

  Gathered-stop :
      (target : String) (targets : List String) (s : Tally) (r : Tally × Bool)
      → r.1 ≡ false
      → Round g d k target s r
      → Gathered (target ∷ targets) s r.0
  Gathered-stop target targets s r e a = record {
    added = a.added;
    paths = a.paths;
    all_built = All-weaken target a.added a.all_built;
    every_walk = λ f t w m x. cc (a.stop e);
    cut = a.cut;
    within = a.within;
  }

  abbrev Reachable : List String → Type 0
  Reachable = All (λ t. (t ≢ internet_id) × Walk g internet_id t)

  Gathered-nil : (s : Tally) → IsWithin g d k s → Gathered [] s s
  Gathered-nil s w = record {
    added = [];
    paths = sym (append-nil s.paths);
    all_built = tt;
    every_walk = λ e t x m. cc;
    cut = λ e. e;
    within = w;
  }

  IsRoute-of :
      (target : String) (witness : List String)
      → IsRoute g target witness ⊎ ((¬ Starts internet_id witness) × (length witness ≡ 33))
      → IsRoute g target witness ⊎ (¬ Starts internet_id witness)
  IsRoute-of target witness (inl r) = inl r
  IsRoute-of target witness (inr r) = inr r.0

  -- The loop goes on, or stops, after a round.
  after-Round :
      (parent : Parents) (target : String) (targets witness : List String) (s : Tally)
      (r : Tally × Bool)
      → witness_route parent target ≡ ok witness
      → enumerate_from g target witness s ≡ ok r
      → Round g d k target s r
      → ((u : Tally) × (each_target g parent targets r.0 ≡ ok u) × Gathered targets r.0 u)
      → (u : Tally) × (each_target g parent (target ∷ targets) s ≡ ok u)
        × Gathered (target ∷ targets) s u
  unfolding each_target
  after-Round parent target targets witness s (t, true) read round does (u, rest, all) =
      (u, rw (read, round) rest, Gathered-cons target targets s (t, true) u does all)
  after-Round parent target targets witness s (t, false) read round does rest =
      (t, rw (read, round) refl, Gathered-stop target targets s (t, false) refl does)

  -- On a graph that holds the Internet node, for targets other than it that can be reached from it,
  -- and from a tally within the budgets, the loop over the targets returns and stays within the
  -- budgets. It keeps the paths it had; the paths it adds are built of routes, and unless it was cut
  -- short every simple walk to a target is among them.
  pub each_target_ok :
      (parent : Parents) (targets : List String) (s : Tally)
      → breadth_first g ≡ ok parent
      → Reachable targets
      → IsWithin g d k s
      → (u : Tally) × (each_target g parent targets s ≡ ok u) × Gathered targets s u
  unfolding each_target
  each_target_ok parent [] s b h w = (s, refl, Gathered-nil s w)
  each_target_ok parent (target ∷ targets) s b ((ne, walk), h) w =
      let (witness, read, route) = witness_route_correct g parent target d b walk in
      let (r, round, does) =
        enumerate_from_ok g d k target witness s ne (IsRoute-of target witness route) w in
      after-Round parent target targets witness s r read round does
        (each_target_ok parent targets r.0 b h does.within)
