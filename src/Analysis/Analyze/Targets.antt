-- ===== src/Analysis/Analyze/Targets.antt =====
-- The loop over the targets: what one round adds, and that no round raises.
use blast_radius.Base.{
  ◌≤◌, ◌≡◌, ◌≢◌, refl, sym, subst, ap, ◌∙◌, String, Bool, true, false, ◌||◌, ==_iff, string_eq,
  list_eq, List, [], ◌∷◌, ◌++◌, map, elem, length, length-append, leb, arith, All, ok, Bool-cases,
  inl, inr, ◌⊎◌,
}
use mathlib.Core.List.{append-nil}
use blast_radius.Models.{internet_id, AttackPath}
use blast_radius.Graph.{Graph, IsDigraph}
use blast_radius.Analysis.Outcome.{build_attack_path}
use blast_radius.Analysis.Routes.{IsRoute, Starts}
use blast_radius.Analysis.Enumerate.{Dfs, enumerate, max_paths, max_path_work}
use blast_radius.Analysis.Enumerate.Sound.{IsBuilt, enumerate_sound, nodes-build_attack_path}
use blast_radius.Analysis.Enumerate.Complete.{IsSimpleWalk, enumerate_complete, enumerate-cut}
use blast_radius.Analysis.Enumerate.Ends.{build-IsRoute, enumerate-ends}
use blast_radius.Analysis.Analyze.{Tally, tally_of, from_internet, enumerate_from}

module _ (g : Graph) (d : IsDigraph g) (k : elem internet_id g.nodes ≡ true) where
  abbrev pub nodes_list : List AttackPath → List (List String)
  nodes_list = map (λ p. p.nodes)

  pub record IsWithin (s : Tally) : Type 0 where
    pub work : s.path_work ≤ max_path_work
    pub paths : length s.paths ≤ max_paths

  -- What a round for `target` adds to the tally `s`.
  pub record Round (target : String) (s : Tally) (r : Tally × Bool) : Type 0 where
    pub added : List AttackPath
    pub paths : r.0.paths ≡ s.paths ++ added
    pub all_built : All (IsBuilt g d target) added
    pub every_walk :
        r.0.truncated ≡ false
        → (w : List String) → IsSimpleWalk g d target w
        → elem w (nodes_list added) ≡ true
    pub cut : s.truncated ≡ true → r.0.truncated ≡ true
    pub stop : r.1 ≡ false → r.0.truncated ≡ true
    pub within : IsWithin r.0

  cut-Round :
      (target : String) (s : Tally) (b : Bool)
      → IsWithin s
      → Round target s (record s { truncated = true }, b)
  cut-Round target s b h = record {
    added = [];
    paths = sym (append-nil s.paths);
    all_built = tt;
    every_walk = λ e w x. cc;
    cut = λ e. refl;
    stop = λ e. refl;
    within = record { work = h.work; paths = h.paths };
  }

  from_internet-starts : (ns : List String) → Starts internet_id ns → from_internet ns ≡ true
  from_internet-starts [] h = absurd h
  from_internet-starts (n ∷ ns) h = (==_iff n internet_id).1 h

  starts-from_internet : (ns : List String) → from_internet ns ≡ true → Starts internet_id ns
  starts-from_internet [] h = cc
  starts-from_internet (n ∷ ns) h = (==_iff n internet_id).0 h

  -- A route within the budgets: the witness and what the enumeration finds.
  full-Round :
      (target : String) (s : Tally) (p : AttackPath) (t : Dfs)
      → target ≢ internet_id
      → IsRoute g target p.nodes
      → build_attack_path g p.nodes ≡ ok p
      → enumerate g target p.nodes (s.paths ++ p ∷ []) s.path_work s.truncated ≡ ok t
      → t.path_work ≤ max_path_work
      → length t.paths ≤ max_paths
      → Round target s (tally_of t, true)
  full-Round target s p t ne route built found w l =
      let a = enumerate_sound g d target p s.paths s.path_work s.truncated t ne route built found in
      record {
        added = a.added;
        paths = a.paths;
        all_built = a.all_built;
        every_walk = λ e r x. rw a.nodes (
            enumerate_complete g d target p.nodes r (s.paths ++ p ∷ []) s.path_work s.truncated t ne
              found e x);
        cut =
            λ e. enumerate-cut g target p.nodes (s.paths ++ p ∷ []) s.path_work t (rw (← e) found);
        stop = λ e. cc;
        within = record { work = w; paths = l };
      }

  pub enumerate_from_ok :
      (target : String) (witness : List String) (s : Tally)
      → target ≢ internet_id
      → IsRoute g target witness ⊎ (¬ Starts internet_id witness)
      → IsWithin s
      → (r : Tally × Bool) × (enumerate_from g target witness s ≡ ok r) × Round target s r
  unfolding enumerate_from
  enumerate_from_ok target witness s ne w h = elim (Bool-cases (from_internet witness)) [
    | inr off ↦ ((record s { truncated = true }, true), rw off refl, cut-Round target s true h)
    | inl on ↦ elim (Bool-cases (leb max_paths (length s.paths) || leb max_path_work s.path_work)) [
      | inl over ↦
          ((record s { truncated = true }, false), rw (on, over) refl, cut-Round target s false h)
      | inr room ↦ elim w [
        | inr no_start ↦ absurd (no_start (starts-from_internet witness on))
        | inl route ↦
            let (p, built) = build-IsRoute g d target witness k route in
            let same = nodes-build_attack_path g witness p built in
            let (t, found, work, paths) =
              enumerate-ends g d target witness (s.paths ++ p ∷ []) s.path_work s.truncated k ne
                h.work (ground (arith, length-append s.paths (p ∷ []))) in
            (
              (tally_of t, true),
              rw (on, room, built, found) refl,
              full-Round target s p t ne (subst (IsRoute g target) (sym same) route)
                  (ap (build_attack_path g) same ∙ built)
                  (ap (λ ns. enumerate g target ns (s.paths ++ p ∷ []) s.path_work s.truncated) same
                    ∙ found)
                  work paths,
            )
      ]
    ]
  ]
