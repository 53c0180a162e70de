-- ===== src/Models.antt =====
-- blastradius/parser/models.py: the data that every stage shares.
mod Risks
mod Kinds
unfoldable pub use Risks.*
unfoldable pub use Kinds.*
use blast_radius.Base.{
  ℕ, String, Bool, true, false, not, Option, List, [], ◌∷◌, ◌==◌, string_eq, any, elem, keep, find,
  length,
}
use blast_radius.Python.{Value, Fields, null, end, dict, field_or, truthy, join, ◌+++◌}

abbrev pub internet_id : String
internet_id = "INTERNET"

pub record Diagnostic : Type 0 where
  pub code : String
  pub message : String
  pub severity : String
  pub resource : String
  pub attribute : String
  pub source_file : String
  pub blocks_analysis : Bool

-- `Diagnostic(code, message)`, with the default fields.
abbrev pub diagnostic : String → String → Diagnostic
diagnostic code message = record {
  code = code;
  message = message;
  severity = "warning";
  resource = "";
  attribute = "";
  source_file = "";
  blocks_analysis = true;
}

pub record TerraformResource : Type 0 where
  pub type : String
  pub name : String
  pub attributes : Fields
  pub source_file : Option String

unfoldable pub address : TerraformResource → String
address r = r.type +++ "." +++ r.name

-- `resource.get(key)`
unfoldable pub get : TerraformResource → String → Value
unfolding field_or
get r key = field_or r.attributes key null

abbrev mapping_or_empty : Value → Fields
mapping_or_empty (dict fs) = fs
mapping_or_empty _ = end

unfoldable pub tags : TerraformResource → Fields
unfolding get
tags r = mapping_or_empty (get r "tags")

pub record ParsedConfig : Type 0 where
  pub resources : List TerraformResource
  pub source_dir : Option String
  pub unsupported : List String
  pub diagnostics : List Diagnostic

unfoldable pub config_complete : ParsedConfig → Bool
config_complete c = not (any (λ d. d.blocks_analysis) c.diagnostics)

unfoldable pub of_type : ParsedConfig → List String → List TerraformResource
of_type c types = keep (λ r. elem r.type types) c.resources

unfoldable pub by_address : ParsedConfig → String → Option TerraformResource
unfolding address
by_address c a = find (λ r. address r == a) c.resources

pub record ResourceNode : Type 0 where
  pub id : String
  pub type : NodeType
  pub name : String
  pub attributes : Fields
  pub sensitive : Bool
  pub risk : Risk

pub record GraphEdge : Type 0 where
  pub source : String
  pub target : String
  pub relationship : Relationship
  pub reason : String
  pub risk : Risk
  pub terraform_resource : String
  pub evidence : String
  pub metadata : Fields
  pub confidence : String
  pub category : String
  pub source_file : String
  pub remediation : String

pub record AttackPath : Type 0 where
  pub nodes : List String
  pub edges : List GraphEdge
  pub severity : Risk
  pub explanation : String
  pub reaches_sensitive : Bool

unfoldable pub path_key : AttackPath → String
unfolding join
path_key p = join " -> " p.nodes

abbrev pub path_length : AttackPath → ℕ
path_length p = length p.nodes
