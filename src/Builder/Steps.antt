-- ===== src/Builder/Steps.antt =====
-- The functions of graph_builder.py that change the graph, and `build_graph`.
pub mod Kept
pub mod Closed
pub mod Whole
pub mod Promise
use blast_radius.Base.{
  ℕ, ◌+◌, String, Bool, true, false, not, ◌&&◌, ◌||◌, ◌==◌, nat_eq, string_eq, Option, some, none,
  List, [], ◌∷◌, ◌++◌, map, any, elem, keep, lookup, insert, length, leb, ltb, if◌then◌else◌,
  Result, ok, err, ◌>>=◌, guard,
}
use blast_radius.Python.{Value, list, dict, items_of, decimal, ◌+++◌}
use blast_radius.Models.{
  internet_id, Diagnostic, diagnostic, TerraformResource, address, get, ParsedConfig, of_type,
  ResourceNode, GraphEdge, Risk, rank, NodeType, security_group, ec2, iam_role, s3_bucket,
}
use blast_radius.Graph.{Error, input_limit, is_some}
use blast_radius.Limits.{check_structure}
use blast_radius.Digraph.{DiGraph}
use blast_radius.Policies.{Readers}
use blast_radius.Rules.{IngressFinding, public_ingress_findings}
use blast_radius.Rules.Index.{ResourceIndex, references, build, role_policy_sources}
use blast_radius.Rules.Matching.{Patterns, bucket_resource_matches}
use blast_radius.Rules.Iam.{S3AccessFinding, s3_access_findings, instance_role_addresses}
use blast_radius.Rules.Buckets.{public_bucket_findings}
use blast_radius.Rules.Tags.{is_sensitive_bucket}
use blast_radius.Builder.{
  max_graph_edges, max_resources, for_each, Build, resource_node, internet_node, data_node,
  annotated, ingress_edge, attachment_edge, role_edge, access_edge, public_edge, contains_edge,
}

-- What the standard library and coverage.py find, besides the graph.
pub record Outside : Type 0 where
  -- `references`' regular expression
  pub named : String → List String
  pub patterns : Patterns
  pub readers : Readers
  pub safe_source : Option String → String
  pub config_diagnostics : ParsedConfig → List Diagnostic

abbrev pub truncation_notice : Diagnostic
truncation_notice = diagnostic "GRAPH_TRUNCATED" "Graph exceeded 20000 edges."

-- The end of `build_graph`.
unfoldable pub with_notice : {G : Type 0} → Build G → Build G
with_notice s =
    if s.edge_limit_reached
    then record s { diagnostics = s.diagnostics ++ truncation_notice ∷ [] }
    else s

-- `config.of_type(type)`
abbrev pub typed : ParsedConfig → String → List TerraformResource
typed c type = of_type c (type ∷ [])

module _ {G : Type 0} (x : DiGraph G) where
  -- `_add_node`; the copy of the attributes is the same value.
  unfoldable pub add_node : ResourceNode → Build G → Build G
  add_node n s = record s { graph = x.add_node s.graph n.id n }

  abbrev at_least : Risk → Option GraphEdge → Bool
  at_least r none = false
  at_least r (some e) = leb (rank r) (rank e.risk)

  -- `_add_edge`
  unfoldable pub add_edge : GraphEdge → Build G → Build G
  add_edge e s =
      if is_some (x.edge s.graph e.source e.target)
      then (if at_least e.risk (x.edge s.graph e.source e.target)
          then s
          else record s { graph = x.add_edge s.graph e.source e.target e })
      else if leb max_graph_edges (x.edge_count s.graph)
      then record s { edge_limit_reached = true }
      else record s { graph = x.add_edge s.graph e.source e.target e }

  -- `if not graph.has_node(n): continue`, then `_add_edge`
  unfoldable pub add_edge_at : String → GraphEdge → Build G → Build G
  unfolding add_edge
  add_edge_at n e s = if x.has_node s.graph n then add_edge e s else s

  unfoldable pub add_typed : NodeType → List TerraformResource → Build G → Build G
  unfolding for_each add_node
  add_typed type = for_each (λ r. add_node (resource_node type false r))

  unfoldable pub add_bucket : TerraformResource → Build G → Build G
  unfolding add_node is_sensitive_bucket
  add_bucket b s =
      let s' = add_node (resource_node s3_bucket (is_sensitive_bucket b) b) s in
      if is_sensitive_bucket b then add_node (data_node b) s' else s'

  -- `_add_resource_nodes`
  unfoldable pub add_resource_nodes :
      List TerraformResource
      → List TerraformResource
      → List TerraformResource
      → List TerraformResource
      → Build G
      → Build G
  unfolding add_node add_typed for_each add_bucket
  add_resource_nodes security_groups instances roles buckets s = for_each add_bucket buckets (
      add_typed iam_role roles (
        add_typed ec2 instances
          (add_typed security_group security_groups (add_node internet_node s))))

  -- `_add_ingress_edges`
  unfoldable pub add_ingress_edges : List TerraformResource → Build G → Build G
  unfolding for_each add_edge public_ingress_findings
  add_ingress_edges =
      for_each (λ sg. for_each (λ f. add_edge (ingress_edge sg f)) (public_ingress_findings sg))

  -- `_add_sensitive_data_edges`
  unfoldable pub add_sensitive_data_edges : List TerraformResource → Build G → Build G
  unfolding for_each add_edge is_sensitive_bucket
  add_sensitive_data_edges =
      for_each (λ b s. if is_sensitive_bucket b then add_edge (contains_edge b) s else s)

  -- `_annotate_edges`
  unfoldable pub annotate_edges : Build G → Build G
  unfolding annotated
  annotate_edges s = record s { graph = x.edit_edges (annotated s.source_files) s.graph }

  module _ (o : Outside) where
    -- `_add_security_group_edges`
    unfoldable pub add_security_group_edges : TerraformResource → Build G → Build G
    unfolding for_each add_edge_at references get
    add_security_group_edges i =
        for_each (λ a. add_edge_at a (attachment_edge i a))
          (references o.named (get i "vpc_security_group_ids")
            ++ references o.named (get i "security_groups"))

    -- `_add_instance_role_edges`
    unfoldable pub add_instance_role_edges :
        List TerraformResource → TerraformResource → Build G → Build G
    unfolding for_each add_edge_at instance_role_addresses
    add_instance_role_edges profiles i =
        for_each (λ a. add_edge_at a (role_edge i a)) (instance_role_addresses o.named i profiles)

    -- `_add_instance_edges`
    unfoldable pub add_instance_edges :
        List TerraformResource → List TerraformResource → Build G → Build G
    unfolding for_each add_security_group_edges add_instance_role_edges
    add_instance_edges profiles =
        for_each (λ i s. add_instance_role_edges profiles i (add_security_group_edges i s))

    unfoldable pub access_targets : List TerraformResource → S3AccessFinding → List String
    unfolding bucket_resource_matches address
    access_targets buckets access =
        if access.targets_all_buckets
        then map address buckets
        else map address (
            keep
              (λ b.
                elem (address b) access.bucket_addresses
                || bucket_resource_matches o.patterns access.resources b false)
              buckets)

    unfoldable pub add_access_edges :
        List TerraformResource → TerraformResource → String × Value → Build G → Build G
    unfolding for_each add_edge_at s3_access_findings access_targets address
    add_access_edges buckets role (policy_address, document) =
        for_each
          (λ access.
            for_each (λ b. add_edge_at b (access_edge (address role) policy_address access b))
              (access_targets buckets access))
          (s3_access_findings o.patterns o.readers document)

    -- `_add_role_bucket_edges`
    unfoldable pub add_role_bucket_edges :
        List TerraformResource → List TerraformResource → ResourceIndex → Build G → Build G
    unfolding for_each add_access_edges role_policy_sources address
    add_role_bucket_edges roles buckets index =
        for_each
          (λ role.
            for_each (add_access_edges buckets role)
              (role_policy_sources o.named (address role) index))
          roles

    -- `_add_public_bucket_edges`
    unfoldable pub add_public_bucket_edges :
        List TerraformResource → ResourceIndex → Build G → Build G
    unfolding for_each add_edge public_bucket_findings
    add_public_bucket_edges buckets index =
        for_each
          (λ b.
            for_each (λ f. add_edge (public_edge b f))
              (public_bucket_findings o.patterns o.readers b index))
          buckets

    -- `{r.address: safe_source(r.source_file) for r in resources if r.source_file}`
    unfoldable pub source_files_of :
        List TerraformResource → List (String × String) → List (String × String)
    unfolding address
    source_files_of [] m = m
    source_files_of (r ∷ rs) m = source_files_of rs (elim r.source_file [
      | none ↦ m
      | some f ↦ if f == "" then m else insert (address r) (o.safe_source (some f)) m
    ])

    unfoldable pub prepared : ParsedConfig → ParsedConfig × Build G
    unfolding source_files_of address
    prepared c = (
      record {
        resources =
            keep (λ r. length (keep (λ t. address t == address r) c.resources) == 1) c.resources;
        source_dir = none;
        unsupported = [];
        diagnostics = [];
      },
      record {
        graph = x.empty;
        edge_limit_reached = false;
        diagnostics = o.config_diagnostics c;
        source_dir = o.safe_source c.source_dir;
        source_files = source_files_of c.resources [];
        unsupported = c.unsupported;
      },
    )

    -- `_prepare_config`: the resources with a unique address, and what `graph.graph` holds.
    unfoldable pub prepare_config : ParsedConfig → Result Error (ParsedConfig × Build G)
    unfolding check_structure prepared
    prepare_config c =
        if ltb max_resources (length c.resources)
        then err input_limit
        else if not (check_structure (list (items_of (map (λ r. dict r.attributes) c.resources))))
        then err input_limit
        else ok (prepared c)

    -- The nodes and edges of a prepared configuration.
    unfoldable pub populate : ParsedConfig → Build G → Build G
    unfolding of_type build add_resource_nodes add_ingress_edges add_instance_edges
        add_role_bucket_edges add_public_bucket_edges add_sensitive_data_edges
    populate c s =
        let security_groups = typed c "aws_security_group" in
        let instances = typed c "aws_instance" in
        let roles = typed c "aws_iam_role" in
        let profiles = typed c "aws_iam_instance_profile" in
        let buckets = typed c "aws_s3_bucket" in
        let index = build o.named c.resources in
        add_sensitive_data_edges buckets (
          add_public_bucket_edges buckets index (
            add_role_bucket_edges roles buckets index (
              add_instance_edges profiles instances (
                add_ingress_edges security_groups
                  (add_resource_nodes security_groups instances roles buckets s)))))

    unfoldable pub build_graph : ParsedConfig → Result Error (Build G)
    unfolding prepare_config populate annotate_edges with_notice
    build_graph config = do
      p ← prepare_config config
      ok (with_notice (annotate_edges (populate p.0 p.1)))
