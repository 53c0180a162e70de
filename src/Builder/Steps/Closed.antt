-- ===== src/Builder/Steps/Closed.antt =====
-- Every edge of the graph stands between two of its nodes, under its own ends, and the graph stays
-- within its number of edges: kept by every function that adds edges.
use blast_radius.Base.{
  ◌≤◌, ◌≡◌, refl, sym, ◌∙◌, subst, String, true, ◌&&◌, ◌==◌, ==_iff, string_eq, Option, some, none,
  Option-cases, Bool-cases, inl, inr, List, [], ◌∷◌, ◌++◌, All, leb, arith, if◌then◌else◌,
}
use blast_radius.Python.{Value}
use blast_radius.Models.{GraphEdge, TerraformResource, address, get, rank, internet_id}
use blast_radius.Graph.{is_some}
use blast_radius.Digraph.{DiGraph, DiGraphLaws, change}
use blast_radius.Rules.{public_ingress_findings}
use blast_radius.Rules.Index.{ResourceIndex, references, role_policy_sources}
use blast_radius.Rules.Iam.{s3_access_findings, instance_role_addresses}
use blast_radius.Rules.Buckets.{public_bucket_findings}
use blast_radius.Rules.Tags.{is_sensitive_bucket}
use blast_radius.Builder.{
  Build, for_each, max_graph_edges, annotated, ingress_edge, attachment_edge, role_edge,
  access_edge, public_edge, contains_edge,
}
use blast_radius.Builder.Names.{sensitive_node_id}
use blast_radius.Builder.Steps.{
  Outside, add_edge, add_edge_at, add_ingress_edges, add_sensitive_data_edges, annotate_edges,
  add_security_group_edges, add_instance_role_edges, add_instance_edges, access_targets,
  add_access_edges, add_role_bucket_edges, add_public_bucket_edges,
}
use blast_radius.Builder.Steps.Kept.{for_each-keeps}

module _ {G : Type 0} (x : DiGraph G) (laws : DiGraphLaws x) (g0 : G) where
  -- `g0` is the graph that has all the nodes.
  abbrev pub IsNode : String → Type 0
  IsNode a = is_some (x.node g0 a) ≡ true

  pub record Ends (a b : String) (e : GraphEdge) : Type 0 where
    pub source : e.source ≡ a
    pub target : e.target ≡ b
    pub from : IsNode a
    pub to : IsNode b

  pub record IsClosed (s : Build G) : Type 0 where
    pub nodes : (a : String) → x.node s.graph a ≡ x.node g0 a
    pub has : (a : String) → x.has_node s.graph a ≡ is_some (x.node s.graph a)
    pub ends : (a b : String) (e : GraphEdge) → x.edge s.graph a b ≡ some e → Ends a b e
    pub few : x.edge_count s.graph ≤ max_graph_edges

  put-ends :
      (e : GraphEdge) (s : Build G) (a b : String) (f : GraphEdge)
      → IsNode e.source
      → IsNode e.target
      → IsClosed s
      → x.edge (x.add_edge s.graph e.source e.target e) a b ≡ some f
      → Ends a b f
  put-ends e s a b f from to h k = elim (Bool-cases (e.source == a && e.target == b)) [
    | inl here ↦
        let same : e ≡ f = ground (arith, laws.edge-add_edge s.graph e.source e.target a b e) in
        let at_a : e.source ≡ a = ground (arith, ==_iff e.source a) in
        let at_b : e.target ≡ b = ground (arith, ==_iff e.target b) in
        subst (Ends a b) same (record {
          source = at_a;
          target = at_b;
          from = subst IsNode at_a from;
          to = subst IsNode at_b to;
        })
    | inr other ↦ h.ends a b f (ground (arith, laws.edge-add_edge s.graph e.source e.target a b e))
  ]

  put-IsClosed :
      (e : GraphEdge) (s : Build G)
      → IsNode e.source
      → IsNode e.target
      → IsClosed s
      → x.edge_count (x.add_edge s.graph e.source e.target e) ≤ max_graph_edges
      → IsClosed (record s { graph = x.add_edge s.graph e.source e.target e })
  put-IsClosed e s from to h room = record {
    nodes = λ a. laws.node-add_edge s.graph e.source e.target a e ∙ h.nodes a;
    has = λ a. ground (
      arith,
      laws.has_node-add_edge s.graph e.source e.target a e,
      laws.node-add_edge s.graph e.source e.target a e,
      h.has a,
      h.nodes a,
      ==_iff e.source a,
      ==_iff e.target a,
    );
    ends = λ a b f k. put-ends e s a b f from to h k;
    few = room;
  }

  pub add_edge-IsClosed :
      (e : GraphEdge) (s : Build G)
      → IsNode e.source
      → IsNode e.target
      → IsClosed s
      → IsClosed (add_edge x e s)
  unfolding add_edge
  add_edge-IsClosed e s from to h = elim (Option-cases (x.edge s.graph e.source e.target)) [
    | inl absent ↦ elim (Bool-cases (leb max_graph_edges (x.edge_count s.graph))) [
      | inl full ↦
          rw (absent, full) (record { nodes = h.nodes; has = h.has; ends = h.ends; few = h.few })
      | inr room ↦
          rw (absent, room)
            (put-IsClosed e s from to h
              (ground (arith, laws.edge_count-add_edge s.graph e.source e.target e)))
    ]
    | inr (old, f) ↦ elim (Bool-cases (leb (rank e.risk) (rank old.risk))) [
      | inl kept ↦ rw (f, kept) h
      | inr less ↦
          rw (f, less)
            (put-IsClosed e s from to h
              (ground (arith, h.few, laws.edge_count-add_edge s.graph e.source e.target e)))
    ]
  ]

  has-IsNode : (s : Build G) (a : String) → IsClosed s → x.has_node s.graph a ≡ true → IsNode a
  has-IsNode s a h k = ground (arith, h.has a, h.nodes a)

  abbrev Anything : {A : Type 0} → A → Type 0
  Anything a = Unit {0}

  all-Anything : {A : Type 0} (l : List A) → All Anything l
  all-Anything [] = tt
  all-Anything (a ∷ l) = (tt, all-Anything l)

  -- A loop whose rounds need nothing of the members.
  loop-IsClosed :
      {A : Type 0} (f : A → Build G → Build G) (l : List A) (s : Build G)
      → ((a : A) (s : Build G) → IsClosed s → IsClosed (f a s))
      → IsClosed s
      → IsClosed (for_each f l s)
  loop-IsClosed f l s step h =
      for_each-keeps IsClosed Anything f l s (λ a s q k. step a s k) (all-Anything l) h

  abbrev AreNodes : List TerraformResource → Type 0
  AreNodes = All (λ r. IsNode (address r))

  pub ingress-IsClosed :
      (sgs : List TerraformResource) (s : Build G)
      → IsNode internet_id
      → AreNodes sgs
      → IsClosed s
      → IsClosed (add_ingress_edges x sgs s)
  unfolding add_ingress_edges
  ingress-IsClosed sgs s i n h =
      for_each-keeps IsClosed (λ r. IsNode (address r)) _ sgs s
        (λ sg s q k.
          loop-IsClosed (λ f. add_edge x (ingress_edge sg f)) (public_ingress_findings sg) s
            (λ f s k.
              add_edge-IsClosed (ingress_edge sg f) s (unfold ingress_edge in i)
                (unfold ingress_edge in q) k)
            k)
        n h

  -- An edge that is added where its other end is a node of the graph.
  edge_at-IsClosed :
      (a : String) (e : GraphEdge) (s : Build G)
      → (IsNode a → IsNode e.source)
      → (IsNode a → IsNode e.target)
      → IsClosed s
      → IsClosed (add_edge_at x a e s)
  unfolding add_edge_at
  edge_at-IsClosed a e s from to h = elim (Bool-cases (x.has_node s.graph a)) [
    | inl k ↦ let n = has-IsNode s a h k in rw k (add_edge-IsClosed e s (from n) (to n) h)
    | inr k ↦ rw k h
  ]

  module _ (o : Outside) where
    attachments-IsClosed :
        (i : TerraformResource) (s : Build G)
        → IsNode (address i)
        → IsClosed s
        → IsClosed (add_security_group_edges x o i s)
    unfolding add_security_group_edges
    attachments-IsClosed i s n h =
        loop-IsClosed (λ a. add_edge_at x a (attachment_edge i a))
          (references o.named (get i "vpc_security_group_ids")
            ++ references o.named (get i "security_groups"))
          s
          (λ a s k.
            edge_at-IsClosed a (attachment_edge i a) s (λ m. unfold attachment_edge in m)
              (λ m. unfold attachment_edge in n) k)
          h

    roles-IsClosed :
        (profiles : List TerraformResource) (i : TerraformResource) (s : Build G)
        → IsNode (address i)
        → IsClosed s
        → IsClosed (add_instance_role_edges x o profiles i s)
    unfolding add_instance_role_edges
    roles-IsClosed profiles i s n h =
        loop-IsClosed (λ a. add_edge_at x a (role_edge i a))
          (instance_role_addresses o.named i profiles) s
          (λ a s k.
            edge_at-IsClosed a (role_edge i a) s (λ m. unfold role_edge in n)
              (λ m. unfold role_edge in m) k)
          h

    pub instances-IsClosed :
        (profiles instances : List TerraformResource) (s : Build G)
        → AreNodes instances
        → IsClosed s
        → IsClosed (add_instance_edges x o profiles instances s)
    unfolding add_instance_edges
    instances-IsClosed profiles instances s n h =
        for_each-keeps IsClosed (λ r. IsNode (address r)) _ instances s
          (λ i s q k.
            roles-IsClosed profiles i (add_security_group_edges x o i s) q
              (attachments-IsClosed i s q k))
          n h

    access-IsClosed :
        (buckets : List TerraformResource) (role : TerraformResource) (p : String × Value)
        (s : Build G)
        → IsNode (address role)
        → IsClosed s
        → IsClosed (add_access_edges x o buckets role p s)
    unfolding add_access_edges
    access-IsClosed buckets role (policy, document) s n h =
        loop-IsClosed _ (s3_access_findings o.patterns o.readers document) s
          (λ access s k.
            loop-IsClosed (λ b. add_edge_at x b (access_edge (address role) policy access b))
              (access_targets x o buckets access) s
              (λ b s k.
                edge_at-IsClosed b (access_edge (address role) policy access b) s
                  (λ m. unfold access_edge in n) (λ m. unfold access_edge in m) k)
              k)
          h

    pub role_buckets-IsClosed :
        (roles buckets : List TerraformResource) (index : ResourceIndex) (s : Build G)
        → AreNodes roles
        → IsClosed s
        → IsClosed (add_role_bucket_edges x o roles buckets index s)
    unfolding add_role_bucket_edges
    role_buckets-IsClosed roles buckets index s n h =
        for_each-keeps IsClosed (λ r. IsNode (address r)) _ roles s
          (λ role s q k.
            loop-IsClosed (add_access_edges x o buckets role)
              (role_policy_sources o.named (address role) index) s
              (λ p s k. access-IsClosed buckets role p s q k) k)
          n h

    pub public_buckets-IsClosed :
        (buckets : List TerraformResource) (index : ResourceIndex) (s : Build G)
        → IsNode internet_id
        → AreNodes buckets
        → IsClosed s
        → IsClosed (add_public_bucket_edges x o buckets index s)
    unfolding add_public_bucket_edges
    public_buckets-IsClosed buckets index s i n h =
        for_each-keeps IsClosed (λ r. IsNode (address r)) _ buckets s
          (λ b s q k.
            loop-IsClosed (λ f. add_edge x (public_edge b f))
              (public_bucket_findings o.patterns o.readers b index) s
              (λ f s k.
                add_edge-IsClosed (public_edge b f) s (unfold public_edge in i)
                  (unfold public_edge in q) k)
              k)
          n h

  -- A bucket, and its data where it is sensitive.
  abbrev pub HasNodes : TerraformResource → Type 0
  HasNodes b =
      IsNode (address b) × (is_sensitive_bucket b ≡ true → IsNode (sensitive_node_id (address b)))

  pub sensitive-IsClosed :
      (buckets : List TerraformResource) (s : Build G)
      → All HasNodes buckets
      → IsClosed s
      → IsClosed (add_sensitive_data_edges x buckets s)
  unfolding add_sensitive_data_edges
  sensitive-IsClosed buckets s n h =
      for_each-keeps IsClosed HasNodes _ buckets s (λ b s q k. one b s q k) n h
    where
      one :
          (b : TerraformResource) (s : Build G)
          → HasNodes b
          → IsClosed s
          → IsClosed (if is_sensitive_bucket b then add_edge x (contains_edge b) s else s)
      one b s q k = elim (Bool-cases (is_sensitive_bucket b)) [
        | inl e ↦ rw e (
            add_edge-IsClosed (contains_edge b) s (unfold contains_edge in q.0)
              (unfold contains_edge in q.1 e) k)
        | inr e ↦ rw e k
      ]

  change-some :
      {A : Type 0} (f : A → A) (o : Option A) (a : A)
      → change f o ≡ some a
      → (b : A) × (o ≡ some b) × (a ≡ f b)
  change-some f none a h = cc
  change-some f (some b) a h = (b, refl, cc)

  annotated_ends :
      (files : List (String × String)) (a b : String) (e : GraphEdge)
      → Ends a b e
      → Ends a b (annotated files e)
  unfolding annotated
  annotated_ends files a b e h = record {
    source = h.source;
    target = h.target;
    from = h.from;
    to = h.to;
  }

  pub annotate-IsClosed : (s : Build G) → IsClosed s → IsClosed (annotate_edges x s)
  unfolding annotate_edges
  annotate-IsClosed s h = record {
    nodes = λ a. laws.node-edit_edges (annotated s.source_files) s.graph a ∙ h.nodes a;
    has = λ a. ground (
      arith,
      laws.has_node-edit_edges (annotated s.source_files) s.graph a,
      laws.node-edit_edges (annotated s.source_files) s.graph a,
      h.has a,
    );
    ends = λ a b e k.
        let (old, f, same) =
          change-some (annotated s.source_files) (x.edge s.graph a b) e
            (sym (laws.edge-edit_edges (annotated s.source_files) s.graph a b) ∙ k) in
        subst (Ends a b) (sym same) (annotated_ends s.source_files a b old (h.ends a b old f));
    few = omega (arith, laws.edge_count-edit_edges (annotated s.source_files) s.graph, h.few);
  }
