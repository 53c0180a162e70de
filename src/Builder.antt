-- ===== src/Builder.antt =====
-- blastradius/graph/graph_builder.py: the attack graph of a configuration. The graph is a value of
-- the type that `DiGraph` describes; `Build` is that graph with what `graph.graph` holds. The
-- diagnostics of blastradius/parser/coverage.py and its `safe_source` are parameters.
pub mod Names
pub mod Steps
use blast_radius.Base.{
  ℕ, ◌+◌, String, Bool, true, false, not, ◌&&◌, ◌||◌, ◌==◌, nat_eq, string_eq, Option, some, none,
  List, [], ◌∷◌, ◌++◌, map, any, elem, keep, lookup, insert, length, leb, ltb, if◌then◌else◌,
  Result, ok, err, ◌>>=◌, guard,
}
use blast_radius.Python.{
  Value, Fields, null, bool, int, str, list, dict, end, field, items_of, str_of, or_else, ◌+++◌,
}
use blast_radius.Models.{
  internet_id, Diagnostic, diagnostic, TerraformResource, address, get, ParsedConfig, of_type,
  ResourceNode, GraphEdge, Risk, none as no_risk, low, medium, high, rank, NodeType, internet,
  security_group, ec2, iam_role, s3_bucket, sensitive_data, Relationship, ingress_allows,
  public_access, protects, assumes_role, can_access, contains, relationship_eq,
}
use blast_radius.Graph.{Error, input_limit, is_some}
use blast_radius.Limits.{check_structure}
use blast_radius.Digraph.{DiGraph}
use blast_radius.Policies.{Readers}
use blast_radius.Rules.{IngressFinding, ingress_evidence, public_ingress_findings}
use blast_radius.Rules.Index.{ResourceIndex, references, build, role_policy_sources}
use blast_radius.Rules.Matching.{Patterns, bucket_resource_matches}
use blast_radius.Rules.Iam.{
  S3AccessFinding, access_evidence, s3_access_findings, instance_role_addresses,
}
use blast_radius.Rules.Buckets.{PublicBucketFinding, public_bucket_findings}
use blast_radius.Rules.Tags.{is_sensitive_bucket, sensitive_tag}
use Names.{display_name, sensitive_node_id}

abbrev pub max_graph_edges : ℕ
max_graph_edges = 20000

abbrev pub max_resources : ℕ
max_resources = 1000

-- `for a in as: …`, over a state.
unfoldable pub for_each {ℓ κ} : {A : Type ℓ} {S : Type κ} → (A → S → S) → List A → S → S
for_each f [] s = s
for_each f (a ∷ l) s = for_each f l (f a s)

-- `GraphEdge(…)`, with the default fields.
abbrev pub plain_edge : String → String → Relationship → String → Risk → String → String → GraphEdge
plain_edge source target relationship reason risk resource evidence = record {
  source = source;
  target = target;
  relationship = relationship;
  reason = reason;
  risk = risk;
  terraform_resource = resource;
  evidence = evidence;
  metadata = end;
  confidence = "modeled";
  category = "reachability";
  source_file = "";
  remediation = "";
}

-- `ResourceNode(…)` of a resource, with the default fields.
abbrev pub resource_node : NodeType → Bool → TerraformResource → ResourceNode
resource_node type sensitive r = record {
  id = address r;
  type = type;
  name = display_name r;
  attributes = r.attributes;
  sensitive = sensitive;
  risk = no_risk;
}

abbrev pub internet_node : ResourceNode
internet_node = record {
  id = internet_id;
  type = internet;
  name = "Internet";
  attributes = end;
  sensitive = false;
  risk = no_risk;
}

abbrev pub data_node : TerraformResource → ResourceNode
data_node bucket = record {
  id = sensitive_node_id (address bucket);
  type = sensitive_data;
  name = "Sensitive Data";
  attributes = field "bucket" (str (address bucket)) end;
  sensitive = true;
  risk = high;
}

-- `_RELATIONSHIP_METADATA`: the category, where it is set, and the remediation.
abbrev pub relationship_metadata : Relationship → Option String × String
relationship_metadata ingress_allows =
    (some "exposure", "Restrict ingress to intended CIDRs and ports.")
relationship_metadata protects =
    (some "reachability", "Review the instance security-group attachment and network routes.")
relationship_metadata assumes_role =
    (some "privilege", "Use least-privilege instance roles and protect metadata credentials.")
relationship_metadata can_access =
    (none, "Narrow IAM actions and bucket ARNs; verify effective policies.")
relationship_metadata public_access =
    (some "exposure", "Remove public ACL/policy grants or apply effective public access controls.")
relationship_metadata contains =
    (some "impact", "Verify sensitivity classification and restrict access to this bucket.")

abbrev pub or_default : Option String → String → String
or_default none d = d
or_default (some s) d = s

pub record Build (G : Type 0) : Type 0 where
  pub graph : G
  pub edge_limit_reached : Bool
  pub diagnostics : List Diagnostic
  pub source_dir : String
  pub source_files : List (String × String)
  pub unsupported : List String

-- The body of the loop of `_annotate_edges`.
unfoldable pub annotated : List (String × String) → GraphEdge → GraphEdge
annotated source_files e = record e {
  category = or_default (relationship_metadata e.relationship).0 e.category;
  source_file = or_default (lookup e.terraform_resource source_files) "";
  remediation = (relationship_metadata e.relationship).1;
}

unfoldable pub ingress_edge : TerraformResource → IngressFinding → GraphEdge
unfolding ingress_evidence address
ingress_edge sg f =
    record (plain_edge internet_id (address sg) ingress_allows f.reason f.risk (address sg)
      (ingress_evidence f)) {
        metadata = field "cidr" (str f.cidr) (
            field "from_port" (int f.from_port) (
              field "to_port" (int f.to_port) (
                field "protocol" (str f.protocol)
                  (field "admin_port" (bool f.is_admin_port) end))));
      }

unfoldable pub attachment_edge : TerraformResource → String → GraphEdge
unfolding display_name address
attachment_edge resource sg_address =
    plain_edge sg_address (address resource) protects
      ("Security group is attached to " +++ display_name resource) low (address resource)
      ("vpc_security_group_ids = [" +++ sg_address +++ ".id]")

unfoldable pub role_edge : TerraformResource → String → GraphEdge
unfolding get str_of address
role_edge resource role_address =
    let profile = get resource "iam_instance_profile" in
    record (plain_edge (address resource) role_address assumes_role
      ("IAM role attached through instance profile ("
        +++ str_of (or_else profile (str "instance profile"))
        +++ "); compromised compute may obtain metadata credentials")
      medium (address resource) ("iam_instance_profile = " +++ str_of profile)) {
        confidence = "conditional";
      }

unfoldable pub access_edge : String → String → S3AccessFinding → String → GraphEdge
unfolding access_evidence
access_edge role_address policy_address access bucket_address =
    record (plain_edge role_address bucket_address can_access access.reason access.risk
      policy_address (access_evidence access)) {
        category = if access.data_read then "data_access" else "privilege";
        confidence = if access.conditional then "conditional" else "conservative";
        metadata = field "actions" (list (items_of (map str access.actions))) (
            field "data_read" (bool access.data_read)
              (field "resources" (list (items_of access.resources)) end));
      }

unfoldable pub public_edge : TerraformResource → PublicBucketFinding → GraphEdge
unfolding address
public_edge bucket f =
    record (plain_edge internet_id (address bucket) public_access f.reason f.risk
      f.terraform_resource f.evidence) {
        confidence = if f.conditional then "conditional" else "modeled";
      }

unfoldable pub contains_edge : TerraformResource → GraphEdge
unfolding address sensitive_node_id sensitive_tag
contains_edge bucket =
    plain_edge (address bucket) (sensitive_node_id (address bucket)) contains
      "Bucket is tagged as holding sensitive data" high (address bucket)
      ("tags = { " +++ or_default (sensitive_tag bucket) "None" +++ " }")
