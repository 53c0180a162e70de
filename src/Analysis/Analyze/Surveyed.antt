-- ===== src/Analysis/Analyze/Surveyed.antt =====
-- The survey, the targets and the last steps of `analyze`, on a graph that holds the Internet node.
use blast_radius.Base.{
  ◌≡◌, ◌≢◌, refl, sym, subst, ◌∙◌, String, Bool, true, false, not, ◌&&◌, ◌==◌, ==_refl, string_eq,
  list_eq, Option, some, none, List, [], ◌∷◌, elem, elem-keep, elem-sorted, keep, keep_ok, is_empty,
  arith, All, Result, ok, ◌>>=◌, Bool-cases, Option-cases, inl, inr, if◌then◌else◌, sorted, dedupe,
}
use blast_radius.Models.{internet_id, NodeType, ResourceNode, node_type_eq, sensitive_data, ec2}
use blast_radius.Graph.{Graph, IsDigraph, Walk, here, step, is_some, node_of, nodes_of_type}
use blast_radius.Analysis.Outcome.{AnalysisResult, resource_types, determine_risk_level}
use blast_radius.Analysis.Score.{Counts, score_analysis, count_findings, score_counts, has_type}
use blast_radius.Analysis.Analyze.{
  is_resource, is_sensitive_resource, choose_targets, survey, blank_result, finish,
}

pub keep_ok-keep :
    {E : Type 0} (p : String → Result E Bool) (q : String → Bool) (xs : List String)
    → ((a : String) → elem a xs ≡ true → p a ≡ ok (q a))
    → keep_ok p xs ≡ ok (keep q xs)
keep_ok-keep p q [] h = refl
keep_ok-keep p q (x ∷ xs) h =
    rw (h x (ground (arith, ==_refl x)), keep_ok-keep p q xs (λ a m. h a (ground arith))) refl

pub then_ok :
    {E A B : Type 0} (m : Result E A) (f : A → B) (a : A)
    → m ≡ ok a
    → (b : B) × ((m >>= λ x. ok (f x)) ≡ ok b)
then_ok m f a e = (f a, rw e refl)

-- A condition on the node under an id.
abbrev pub holds : (ResourceNode → Bool) → Option ResourceNode → Bool
holds f none = false
holds f (some n) = f n

abbrev pub of_kind : List NodeType → ResourceNode → Bool
of_kind kinds n = elem n.type kinds

abbrev pub is_secret : ResourceNode → Bool
is_secret n = n.sensitive && not (n.type == sensitive_data)

module _ (g : Graph) (d : IsDigraph g) where
  pub IsStored : List String → Type 0
  IsStored xs = (a : String) → elem a xs ≡ true → is_some (g.node a) ≡ true

  pub asked :
      (f : ResourceNode → Bool) (n : String)
      → is_some (g.node n) ≡ true
      → (node_of g n >>= λ a. ok (f a)) ≡ ok (holds f (g.node n))
  unfolding node_of
  asked f n h = elim (Option-cases (g.node n)) [
    | inl e ↦ absurd (ground arith)
    | inr (a, e) ↦ rw e refl
  ]

  pub asked_all :
      (f : ResourceNode → Bool) (xs : List String)
      → IsStored xs
      → keep_ok (λ n. node_of g n >>= λ a. ok (f a)) xs ≡ ok (keep (λ n. holds f (g.node n)) xs)
  unfolding IsStored
  asked_all f xs h = keep_ok-keep _ (λ n. holds f (g.node n)) xs (λ a m. asked f a (h a m))

  -- What the survey finds: the ids that can be reached, the resources among them, and the sensitive
  -- resources.
  abbrev pub all_reachable : List String
  all_reachable = sorted (g.descendants internet_id)

  abbrev pub all_exposed : List String
  all_exposed = keep (λ n. holds (of_kind resource_types) (g.node n)) all_reachable

  abbrev pub all_sensitive : List String
  all_sensitive = sorted (keep (λ n. holds is_secret (g.node n)) g.nodes)

  abbrev pub surveyed : String → AnalysisResult
  surveyed label = record (blank_result g label) {
    reachable = all_reachable;
    exposed_resources = all_exposed;
    sensitive_resources = all_sensitive;
    reachable_sensitive = keep (λ n. elem n all_reachable) all_sensitive;
  }

  abbrev pub markers : List String
  markers =
      sorted (keep (λ n. elem n all_reachable) (dedupe (nodes_of_type g (sensitive_data ∷ []))))

  -- The targets: the reachable nodes of sensitive data, or where there are none the reachable
  -- instances.
  abbrev pub all_targets : List String
  all_targets =
      if not (is_empty markers)
      then markers
      else sorted (keep (λ n. holds (λ a. a.type == ec2) (g.node n)) all_exposed)

  pub no_self : ¬ (elem internet_id (g.descendants internet_id) ≡ true)
  no_self h = absurd (ground (arith, d.descendants_irrefl internet_id))

  pub reachable-elem :
      (n : String) → elem n all_reachable ≡ true → elem n (g.descendants internet_id) ≡ true
  reachable-elem n h = sym (elem-sorted n (g.descendants internet_id)) ∙ h

  pub Walk-elem : {a b : String} → elem a g.nodes ≡ true → Walk g a b → elem b g.nodes ≡ true
  Walk-elem k here = k
  Walk-elem k (step {b} {c} w e) = d.target_mem b c e

  module _ (k : elem internet_id g.nodes ≡ true) where
    pub reachable-IsStored : IsStored all_reachable
    unfolding IsStored
    reachable-IsStored n h =
        d.node_stored n (Walk-elem k (d.descendants_sound internet_id n (reachable-elem n h)))

    pub exposed-IsStored : IsStored all_exposed
    unfolding IsStored
    exposed-IsStored n h =
        unfold IsStored in
        reachable-IsStored n (
          ground
            (arith, elem-keep n (λ n. holds (of_kind resource_types) (g.node n)) all_reachable))

    pub survey-surveyed : (label : String) → survey g label ≡ ok (surveyed label)
    unfolding survey is_resource is_sensitive_resource
    survey-surveyed label =
        rw
          (
            asked_all (of_kind resource_types) all_reachable reachable-IsStored,
            asked_all is_secret g.nodes (unfold IsStored in d.node_stored),
          )
          refl

    pub choose_targets-all_targets : choose_targets g all_reachable all_exposed ≡ ok all_targets
    unfolding choose_targets has_type
    choose_targets-all_targets = elim (Bool-cases (not (is_empty markers))) [
      | inl e ↦ rw e refl
      | inr e ↦ rw (e, asked_all (λ a. a.type == ec2) all_exposed exposed-IsStored) refl
    ]

    pub targets-elem : (t : String) → elem t all_targets ≡ true → elem t all_reachable ≡ true
    targets-elem t h = elim (Bool-cases (not (is_empty markers))) [
      | inl e ↦ ground (
        arith,
        elem-sorted t
            (keep (λ n. elem n all_reachable) (dedupe (nodes_of_type g (sensitive_data ∷ [])))),
        elem-keep t (λ n. elem n all_reachable) (dedupe (nodes_of_type g (sensitive_data ∷ []))),
      )
      | inr e ↦ ground (
        arith,
        elem-sorted t (keep (λ n. holds (λ a. a.type == ec2) (g.node n)) all_exposed),
        elem-keep t (λ n. holds (λ a. a.type == ec2) (g.node n)) all_exposed,
        elem-keep t (λ n. holds (of_kind resource_types) (g.node n)) all_reachable,
      )
    ]

    pub reached :
        (ts : List String)
        → ((t : String) → elem t ts ≡ true → elem t all_reachable ≡ true)
        → All (λ t. (t ≢ internet_id) × Walk g internet_id t) ts
    reached [] h = tt
    reached (t ∷ ts) h =
        let m = reachable-elem t (h t (ground (arith, ==_refl t))) in
        (
          (
            (λ e. no_self (subst (λ z. elem z (g.descendants internet_id) ≡ true) e m)),
            d.descendants_sound internet_id t m,
          ),
          reached ts (λ u x. h u (ground arith)),
        )

    -- What the last steps of `analyze` leave as it is.
    pub record Keeps (r s : AnalysisResult) : Type 0 where
      pub reachable : s.reachable ≡ r.reachable
      pub exposed : s.exposed_resources ≡ r.exposed_resources
      pub sensitive : s.reachable_sensitive ≡ r.reachable_sensitive
      pub paths : s.attack_paths ≡ r.attack_paths
      pub truncated : s.paths_truncated ≡ r.paths_truncated
      pub work : s.path_work ≡ r.path_work

    pub counts_ok :
        (r : AnalysisResult)
        → r.graph ≡ g
        → r.exposed_resources ≡ all_exposed
        → (c : Counts) × (count_findings r ≡ ok c)
    unfolding count_findings has_type
    counts_ok r same e =
        then_ok (keep_ok (has_type r.graph ec2) r.exposed_resources) _
          (keep (λ n. holds (λ a. a.type == ec2) (g.node n)) all_exposed)
          (rw (same, e) (asked_all (λ a. a.type == ec2) all_exposed exposed-IsStored))

    pub finish-Keeps :
        (r : AnalysisResult)
        → r.graph ≡ g
        → r.exposed_resources ≡ all_exposed
        → (s : AnalysisResult) × (finish r ≡ ok s) × Keeps r s
    unfolding finish score_analysis
    finish-Keeps r same e =
        let r' = record r { risk_level = determine_risk_level r } in
        let (c, counted) = counts_ok r' same e in
        (
          record r' { score = (score_counts c).0; score_breakdown = (score_counts c).1 },
          rw counted refl,
          record {
            reachable = refl;
            exposed = refl;
            sensitive = refl;
            paths = refl;
            truncated = refl;
            work = refl;
          },
        )
