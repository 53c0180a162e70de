-- ===== src/Examples/Building.antt =====
-- A configuration of an open security group, an instance with it, and a public bucket whose access
-- is blocked; the graph of it is kept in `Network`.
use blast_radius.Base.{
  ◌≡◌, refl, String, true, false, ◌==◌, string_eq, some, none, List, [], ◌∷◌, all, nat_eq, ok, err,
  if◌then◌else◌,
}
use blast_radius.Python.{Value, Fields, end, field, dict, list, str, bool, nil, cons}
use blast_radius.Models.{
  TerraformResource, get, ParsedConfig, internet_id, high, GraphEdge, ingress_allows,
}
use blast_radius.Graph.{input_limit}
use blast_radius.Policies.{Readers}
use blast_radius.Rules.Index.{ResourceIndex, empty_index}
use blast_radius.Rules.Matching.{Patterns}
use blast_radius.Rules.Buckets.{flag, bucket_public_access_block, public_bucket_findings}
use blast_radius.Rules.Buckets.Blocks.{public_bucket_findings-blocked}
use blast_radius.Builder.{Build, plain_edge}
use blast_radius.Builder.Steps.{Outside, build_graph}
use blast_radius.Builder.Steps.Promise.{is_within, IsBuilt, build_graph_lem}
use blast_radius.Examples.Network.{Network, network, network-DiGraphLaws, nothing}

abbrev exact : Patterns
exact = record {
  glob = λ value pattern. value == pattern;
  bucket_arn = λ s.
      if s == "${aws_s3_bucket.logs.arn}/*" then some ("aws_s3_bucket.logs", some "*") else none;
}

abbrev no_texts : Readers
no_texts = record {
  is_shallow = λ s. true;
  json_loads = λ s. none;
  interpolated = λ s. [];
  jsonencode_argument = λ s. none;
  evaluate = λ s. err "unsupported";
}

abbrev group_named : String → List String
group_named s = if s == "${aws_security_group.web.id}" then "aws_security_group.web" ∷ [] else []

abbrev outside : Outside
outside = record {
  named = group_named;
  patterns = exact;
  readers = no_texts;
  safe_source = λ s. "main.tf";
  config_diagnostics = λ c. [];
}

abbrev resource : String → String → Fields → TerraformResource
resource type name attributes = record {
  type = type;
  name = name;
  attributes = attributes;
  source_file = some "main.tf";
}

abbrev bucket : TerraformResource
bucket =
    resource "aws_s3_bucket" "logs"
      (field "bucket" (str "logs") (field "acl" (str "public-read") end))

abbrev block : TerraformResource
block =
    resource "aws_s3_bucket_public_access_block" "logs"
      (field "ignore_public_acls" (bool true) (field "restrict_public_buckets" (bool true) end))

abbrev blocked_index : ResourceIndex
blocked_index = record empty_index {
  bucket_access_blocks = ("aws_s3_bucket.logs", block ∷ []) ∷ [];
}

abbrev config : ParsedConfig
config = record {
  resources =
      resource "aws_security_group" "web"
        (field "ingress" (dict (field "cidr_blocks" (list (cons (str "0.0.0.0/0") nil)) end)) end)
      ∷ resource "aws_instance" "web" (
          field "vpc_security_group_ids" (list (cons (str "${aws_security_group.web.id}") nil)) end)
      ∷ bucket
      ∷ block
      ∷ [];
  source_dir = none;
  unsupported = [];
  diagnostics = [];
}

abbrev grant_document : Value
grant_document = dict (
    field "Statement"
      (dict (
        field "Effect" (str "Allow")
          (field "Action" (str "s3:*") (field "Resource" (str "*") end))))
      end)

abbrev started : Build Network
started = record {
  graph = nothing;
  edge_limit_reached = false;
  diagnostics = [];
  source_dir = "";
  source_files = [];
  unsupported = [];
}

abbrev open_port : GraphEdge
open_port =
    plain_edge internet_id "aws_security_group.web" ingress_allows "open" high
      "aws_security_group.web" "0.0.0.0/0"

build_graph_lem_example :
    (is_within config ≡ false → build_graph network outside config ≡ err input_limit)
    × (is_within config ≡ true
        → (s : Build Network) × (build_graph network outside config ≡ ok s)
          × IsBuilt network network-DiGraphLaws s)
build_graph_lem_example = build_graph_lem network network-DiGraphLaws outside config

ignored : flag "ignore_public_acls" (bucket_public_access_block bucket blocked_index) ≡ true
unfolding bucket_public_access_block get
ignored = refl

restricted : flag "restrict_public_buckets" (bucket_public_access_block bucket blocked_index) ≡ true
unfolding bucket_public_access_block get
restricted = refl

public_bucket_findings-blocked_example :
    all (λ f. f.conditional) (public_bucket_findings exact no_texts bucket blocked_index) ≡ true
public_bucket_findings-blocked_example =
    public_bucket_findings-blocked exact no_texts bucket blocked_index ignored restricted
