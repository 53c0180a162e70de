-- ===== src/Builder/Steps/Promise.antt =====
-- What `build_graph` promises of the graph that it returns, to those who analyse it.
use blast_radius.Base.{
  ◌≤◌, ◌≡◌, refl, sym, ap, ◌∙◌, subst, Bool, true, false, not, ◌&&◌, string_eq, some, none,
  Option-cases, Bool-cases, inl, inr, ◌⊎◌, List, [], ◌∷◌, ◌++◌, map, any, elem, length, ltb, arith,
  ok, err,
}
use blast_radius.Python.{list, dict, items_of}
use blast_radius.Limits.{check_structure}
use blast_radius.Models.{internet_id, ParsedConfig, Diagnostic}
use blast_radius.Graph.{is_some, IsDigraph, input_limit}
use blast_radius.Digraph.{DiGraph, DiGraphLaws, view}
use blast_radius.Builder.{Build, max_graph_edges, max_resources}
use blast_radius.Builder.Steps.{
  Outside, populate, prepared, prepare_config, annotate_edges, with_notice, build_graph,
  truncation_notice,
}
use blast_radius.Builder.Steps.Closed.{IsClosed, annotate-IsClosed}
use blast_radius.Builder.Steps.Whole.{IsBare, populate-IsClosed}

abbrev pub attributes_pass : ParsedConfig → Bool
attributes_pass c = check_structure (list (items_of (map (λ r. dict r.attributes) c.resources)))

-- A configuration within the limits.
abbrev pub is_within : ParsedConfig → Bool
is_within c = not (ltb max_resources (length c.resources)) && attributes_pass c

and_false : (a b : Bool) → (not a && b) ≡ false → (a ≡ true) ⊎ (b ≡ false)
and_false a b h = ground arith

and_true : (a b : Bool) → (not a && b) ≡ true → (a ≡ false) × (b ≡ true)
and_true a b h = ground arith

module _ {G : Type 0} (x : DiGraph G) (laws : DiGraphLaws x) where
  pub record IsBuilt (s : Build G) : Type 0 where
    -- every edge stands between two nodes, under its own ends
    pub closed : IsClosed x laws s.graph s
    -- the analysis finds the graph that it relies on
    pub digraph : IsDigraph (view x s.graph s.diagnostics)
    pub internet : elem internet_id (x.node_ids s.graph) ≡ true
    -- an edge that had no room is reported, and the report makes the analysis incomplete
    pub reported : s.edge_limit_reached ≡ true → any (λ d. d.blocks_analysis) s.diagnostics ≡ true

  IsClosed-again : (g0 : G) (s : Build G) → IsClosed x laws g0 s → IsClosed x laws s.graph s
  IsClosed-again g0 s h = record {
    nodes = λ a. refl;
    has = h.has;
    ends = λ a b e k.
        let m = h.ends a b e k in
        record {
          source = m.source;
          target = m.target;
          from = ap is_some (h.nodes a) ∙ m.from;
          to = ap is_some (h.nodes b) ∙ m.to;
        };
    few = h.few;
  }

  closed-IsDigraph :
      (s : Build G) → IsClosed x laws s.graph s → IsDigraph (view x s.graph s.diagnostics)
  closed-IsDigraph s h = record {
    node_stored = λ n k. sym (h.has n) ∙ sym (laws.elem-node_ids s.graph n) ∙ k;
    successors_lem = λ a b. laws.elem-successors s.graph a b;
    target_mem = λ a b k. elim (Option-cases (x.edge s.graph a b)) [
      | inl absent ↦ absurd (ground (arith))
      | inr (e, f) ↦ laws.elem-node_ids s.graph b ∙ h.has b ∙ (h.ends a b e f).to
    ];
    descendants_irrefl = λ a. laws.descendants_irrefl s.graph a;
    descendants_sound = λ a b k. laws.descendants_sound s.graph s.diagnostics a b k;
    descendants_complete = λ a b w k. laws.descendants_complete s.graph s.diagnostics a b w k;
  }

  any_last :
      (ds : List Diagnostic) → any (λ d. d.blocks_analysis) (ds ++ truncation_notice ∷ []) ≡ true
  any_last [] = refl
  any_last (d ∷ ds) = ground (arith, any_last ds)

  graph-with_notice : (s : Build G) → s.graph ≡ (with_notice s).graph
  unfolding with_notice
  graph-with_notice s = ground arith

  same_graph-IsClosed :
      (g0 : G) (s t : Build G) → s.graph ≡ t.graph → IsClosed x laws g0 s → IsClosed x laws g0 t
  same_graph-IsClosed g0 s t e h = record {
    nodes = λ a. subst (λ g. x.node g a ≡ x.node g0 a) e (h.nodes a);
    has = λ a. subst (λ g. x.has_node g a ≡ is_some (x.node g a)) e (h.has a);
    ends = λ a b f k. h.ends a b f (subst (λ g. x.edge g a b ≡ some f) (sym e) k);
    few = subst (λ g. x.edge_count g ≤ max_graph_edges) e h.few;
  }

  notice_reports :
      (s : Build G)
      → (with_notice s).edge_limit_reached ≡ true
      → any (λ d. d.blocks_analysis) (with_notice s).diagnostics ≡ true
  unfolding with_notice
  notice_reports s h = elim (Bool-cases s.edge_limit_reached) [
    | inl e ↦ rw e (any_last s.diagnostics)
    | inr e ↦ absurd (ground arith)
  ]

  empty-IsBare : (s : Build G) → s.graph ≡ x.empty → IsBare x laws s
  empty-IsBare s e = record {
    has = λ a.
        subst (λ g. x.has_node g a ≡ is_some (x.node g a)) (sym e)
          (laws.has_node-empty a ∙ sym (ap is_some (laws.node-empty a)));
    edge = λ a b. subst (λ g. x.edge g a b ≡ none) (sym e) (laws.edge-empty a b);
    few = ap x.edge_count e ∙ laws.edge_count-empty;
  }

  finished :
      (o : Outside) (c : ParsedConfig) (s : Build G)
      → IsBare x laws s
      → IsBuilt (with_notice (annotate_edges x (populate x o c s)))
  unfolding annotate_edges with_notice
  finished o c s h =
      let (g0, closed, inet) = populate-IsClosed x laws o c s h in
      let t = annotate_edges x (populate x o c s) in
      let k = annotate-IsClosed x laws g0 (populate x o c s) closed in
      let again = same_graph-IsClosed g0 t (with_notice t) (graph-with_notice t) k in
      let w = IsClosed-again g0 (with_notice t) again in
      record {
        closed = w;
        digraph = closed-IsDigraph (with_notice t) w;
        internet =
            laws.elem-node_ids (with_notice t).graph internet_id
            ∙ w.has internet_id
            ∙ ap is_some (again.nodes internet_id)
            ∙ inet;
        reported = notice_reports t;
      }

  prepare_refuses :
      (o : Outside) (c : ParsedConfig)
      → is_within c ≡ false
      → prepare_config x o c ≡ err input_limit
  unfolding prepare_config
  prepare_refuses o c h =
      elim (and_false (ltb max_resources (length c.resources)) (attributes_pass c) h) [
        | inl e ↦ rw e refl
        | inr k ↦ elim (Bool-cases (ltb max_resources (length c.resources))) [
          | inl e ↦ rw e refl
          | inr e ↦ rw (e, k) refl
        ]
      ]

  prepare_accepts :
      (o : Outside) (c : ParsedConfig)
      → is_within c ≡ true
      → prepare_config x o c ≡ ok (prepared x o c)
  unfolding prepare_config
  prepare_accepts o c h =
      let (e, k) = and_true (ltb max_resources (length c.resources)) (attributes_pass c) h in
      rw (e, k) refl

  from_prepared :
      (o : Outside) (c : ParsedConfig) (p : ParsedConfig × Build G)
      → prepare_config x o c ≡ ok p
      → build_graph x o c ≡ ok (with_notice (annotate_edges x (populate x o p.0 p.1)))
  unfolding build_graph
  from_prepared o c p e = rw e refl

  from_refused :
      (o : Outside) (c : ParsedConfig)
      → prepare_config x o c ≡ err input_limit
      → build_graph x o c ≡ err input_limit
  unfolding build_graph
  from_refused o c e = rw e refl

  -- A configuration of more than 1000 resources, or one whose attributes are beyond the budgets of a
  -- structure, is refused. From any other, `build_graph` returns a graph of at most 20,000 edges, each
  -- between two of its nodes and stored under its own ends, with the Internet node; the analysis can
  -- rely on it, and where an edge had no room, a diagnostic makes the analysis incomplete.
  pub build_graph_lem :
      (o : Outside) (c : ParsedConfig)
      → (is_within c ≡ false → build_graph x o c ≡ err input_limit)
        × (is_within c ≡ true → (s : Build G) × (build_graph x o c ≡ ok s) × IsBuilt s)
  build_graph_lem o c = (
    λ h. from_refused o c (prepare_refuses o c h),
    λ h.
        let p = prepared x o c in
        (
          with_notice (annotate_edges x (populate x o p.0 p.1)),
          from_prepared o c p (prepare_accepts o c h),
          finished o p.0 p.1 (empty-IsBare p.1 (unfold prepared in refl)),
        ),
  )
