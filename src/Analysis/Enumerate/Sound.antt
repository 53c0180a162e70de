-- ===== src/Analysis/Enumerate/Sound.antt =====
-- What the enumeration adds for one target: routes to it, each once, and the paths built of them.
use blast_radius.Base.{
  ℕ, suc, ◌≡◌, ◌≢◌, refl, sym, subst, ap, ◌∙◌, String, Bool, ==_iff, string_eq, list_eq, some, List,
  [], ◌∷◌, ◌++◌, map, elem, length, arith, IsNodup, append-IsNodup, All, All-append, ok, >>=-eq-ok,
  of_option, Option-cases,
}
use mathlib.Core.Path.{ap₂}
use mathlib.Core.List.{map-append, append_assoc}
use blast_radius.Models.{internet_id, AttackPath}
use blast_radius.Graph.{Graph, IsDigraph, lookup_error}
use blast_radius.Analysis.Outcome.{build_attack_path}
use blast_radius.Analysis.Bfs.{adjacency}
use blast_radius.Analysis.Routes.{IsRoute}
use blast_radius.Analysis.Enumerate.{Dfs, Frame, enumerate, first_state, rev_onto, max_path_work}
use blast_radius.Analysis.Enumerate.Frames.{
  Turned, spent, popped, skipped, repeated, found, too_deep, pushed, key_of, loop_rule,
}
use blast_radius.Analysis.Enumerate.Sync.{
  InSync, Turned-InSync, Iterate, LinkedBack, LinkedBack-take, Rooted, adjacency-edges,
}
use blast_radius.Analysis.Enumerate.Turnabout.{rev_onto-IsRoute}

pub nodes-build_attack_path :
    (g : Graph) (key : List String) (p : AttackPath)
    → build_attack_path g key ≡ ok p
    → p.nodes ≡ key
unfolding build_attack_path
nodes-build_attack_path g key p h = ground arith

module _ (g : Graph) (d : IsDigraph g) (target : String) where
  -- A path that was built of a route to the target.
  pub record IsBuilt (p : AttackPath) : Type 0 where
    pub route : IsRoute g target p.nodes
    pub built : build_attack_path g p.nodes ≡ ok p

  -- What is added to `before`, the paths without the witness.
  pub record Adds (before : List AttackPath) (s : Dfs) : Type 0 where
    pub added : List AttackPath
    pub paths : s.paths ≡ before ++ added
    pub nodes : map (λ p. p.nodes) added ≡ s.emitted
    pub all_built : All IsBuilt added
    pub distinct : IsNodup s.emitted

  abbrev Both : List AttackPath → Dfs → Type 0
  Both before s = InSync g d target s × Adds before s

  pub key-IsRoute :
      (s : Dfs) (k m : String) (ms : List String) (rest : List Frame) (route : List String)
      → s.route ≡ route
      → InSync g d target s
      → Iterate g ((k, m ∷ ms) ∷ rest) route
      → m ≡ target
      → IsRoute g target (rev_onto route (target ∷ []))
  key-IsRoute s k m ms rest [] w h f e = absurd f
  key-IsRoute s k m ms rest (a ∷ route) w h f e =
      rev_onto-IsRoute g target a route (subst Rooted w h.root)
        (subst (λ x. LinkedBack g (x ∷ a ∷ route)) e
          (LinkedBack-take g k m ms rest (a ∷ route) f (subst (LinkedBack g) w h.linked)))
        (subst IsNodup w h.simple) (ground (arith, h.avoids, ap (elem target) w))
        (omega (arith, h.short, ap length w))

  kept_Adds :
      (before : List AttackPath) {s : Dfs} {stack : List Frame} {route visited : List String}
      {work : ℕ} {cut : Bool}
      → Adds before s
      → Adds before (record s {
        stack = stack;
        route = route;
        visited = visited;
        path_work = work;
        truncated = cut;
      })
  kept_Adds before a = record {
    added = a.added;
    paths = a.paths;
    nodes = a.nodes;
    all_built = a.all_built;
    distinct = a.distinct;
  }

  Turned-Adds :
      (before : List AttackPath) {s t : Dfs}
      → InSync g d target s
      → Adds before s
      → Turned g target s t
      → Adds before t
  Turned-Adds before {s} h a (found k m ms rest p cut b e same new built c) =
      let key = key_of target s in
      let nodes = nodes-build_attack_path g key p built in
      let route =
        key-IsRoute s k m ms rest s.route refl h (subst (λ x. Iterate g x s.route) e h.frames)
          same in
      record {
        added = a.added ++ p ∷ [];
        paths = ap (λ x. x ++ p ∷ []) a.paths ∙ append_assoc before a.added (p ∷ []);
        nodes =
            map-append (λ (q : AttackPath). q.nodes) a.added (p ∷ [])
            ∙ ap₂ (λ xs x. xs ++ x ∷ []) a.nodes nodes;
        all_built = All-append IsBuilt a.added (p ∷ []) a.all_built (
          record {
            route = subst (IsRoute g target) (sym nodes) route;
            built = ap (build_attack_path g) nodes ∙ built;
          },
          tt,
        );
        distinct = append-IsNodup s.emitted key a.distinct new;
      }
  Turned-Adds before h a (spent b) = kept_Adds before a
  Turned-Adds before h a (popped k n rest route b e w) = kept_Adds before a
  Turned-Adds before h a (skipped k m ms rest b e old) = kept_Adds before a
  Turned-Adds before h a (repeated k m ms rest cut b e same old c) = kept_Adds before a
  Turned-Adds before h a (too_deep k m ms rest b e) = kept_Adds before a
  Turned-Adds before h a (pushed k m ms ns rest b e new other room adj) = kept_Adds before a

  Turned-Both :
      (before : List AttackPath) (s t : Dfs) → Both before s → Turned g target s t → Both before t
  Turned-Both before s t (h, a) turned =
      (Turned-InSync g d target h turned, Turned-Adds before h a turned)

  pub InSync-start :
      (ns : List String) (witness : List String) (paths : List AttackPath) (work : ℕ) (cut : Bool)
      → adjacency g internet_id ≡ some ns
      → target ≢ internet_id
      → InSync g d target (first_state ns witness paths work cut)
  InSync-start ns witness paths work cut adj ne = record {
    frames = (refl, adjacency-edges g d internet_id ns adj, tt);
    seen = λ v. refl;
    simple = (refl, tt);
    linked = tt;
    root = refl;
    short = omega arith;
    avoids = ground (arith, ==_iff target internet_id);
  }

-- The enumeration for a target adds to the paths before it only paths that `build_attack_path` makes
-- of routes to that target, and no two of them have the same nodes.
pub enumerate_sound :
    (g : Graph) (d : IsDigraph g) (target : String) (witness : AttackPath)
    (before : List AttackPath) (work : ℕ) (cut : Bool) (t : Dfs)
    → target ≢ internet_id
    → IsRoute g target witness.nodes
    → build_attack_path g witness.nodes ≡ ok witness
    → enumerate g target witness.nodes (before ++ witness ∷ []) work cut ≡ ok t
    → Adds g d target before t
unfolding enumerate
enumerate_sound g d target witness before work cut t ne route built h =
    let (ns, found_, looped) = >>=-eq-ok (of_option lookup_error (adjacency g internet_id)) _ h in
    let adj : adjacency g internet_id ≡ some ns =
      ground (arith, Option-cases (adjacency g internet_id)) in
    let ((sync, adds), end) =
      loop_rule g target (Both g d target before) (Turned-Both g d target before)
        (suc max_path_work) _ t
        (
          InSync-start g d target ns witness.nodes (before ++ witness ∷ []) work cut adj ne,
          record {
            added = witness ∷ [];
            paths = refl;
            nodes = refl;
            all_built = (record { route = route; built = built }, tt);
            distinct = (refl, tt);
          },
        )
        looped in
    adds
