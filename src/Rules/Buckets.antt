-- ===== src/Rules/Buckets.antt =====
-- The direct exposure of a bucket: `bucket_public_access_block` and `public_bucket_findings` of
-- rules.py.
pub mod Blocks
use Prim.Native.Char.{char}
use blast_radius.Base.{
  ℕ, String, Bool, true, false, not, ◌&&◌, ◌||◌, ◌==◌, nat_eq, string_eq, list_eq, Option, some,
  none, List, [], ◌∷◌, ◌++◌, map, any, elem, keep, lookup, is_empty, if◌then◌else◌,
}
use blast_radius.Graph.{is_some}
use blast_radius.Python.{
  Value, Fields, null, bool, str, list, dict, field_or, has_field, text_of, repr, items_of, texts,
  codes, strip, lower, has_infix, join, ◌+++◌,
}
use blast_radius.Models.{Risk, high, critical, TerraformResource, address, get}
use blast_radius.Policies.{Readers, is_text, parse_policy_document, policy_statements}
use blast_radius.Rules.{as_list}
use blast_radius.Rules.Index.{ResourceIndex, listed}
use blast_radius.Rules.Matching.{Patterns, permits_object_read, bucket_resource_matches}

pub record PublicBucketFinding : Type 0 where
  pub reason : String
  pub evidence : String
  pub terraform_resource : String
  pub risk : Risk
  pub conditional : Bool

abbrev pub public_acls : List String
public_acls = "public-read" ∷ "public-read-write" ∷ []

-- `value is True`
abbrev pub is_true : Value → Bool
is_true (bool b) = b
is_true _ = false

abbrev control_names : List String
control_names =
    "block_public_acls" ∷ "ignore_public_acls" ∷ "block_public_policy" ∷ "restrict_public_buckets"
    ∷ []

abbrev pub controls_of : List TerraformResource → List (String × Bool)
controls_of (control ∷ []) = map (λ name. (name, is_true (get control name))) control_names
controls_of _ = []

unfoldable pub bucket_public_access_block : TerraformResource → ResourceIndex → List (String × Bool)
unfolding address
bucket_public_access_block bucket index =
    controls_of (listed (lookup (address bucket) index.bucket_access_blocks))

-- `controls.get(name)`, as a condition.
abbrev pub flag : String → List (String × Bool) → Bool
flag name controls = elim (lookup name controls) [ none ↦ false | some b ↦ b ]

unfoldable pub anonymous_principal : Value → Bool
unfolding field_or as_list
anonymous_principal (dict fs) = any (is_text "*") (as_list (field_or fs "AWS" null))
anonymous_principal v = is_text "*" v

abbrev quote : String
quote = String.◌∷◌ (char 34 tt) ""

abbrev is_public_acl : String → Bool
is_public_acl acl = elem (lower (strip (codes acl))) (map codes public_acls)

abbrev acl_finding : String → String → PublicBucketFinding
acl_finding owner acl = record {
  reason = "Bucket ACL is " +++ quote +++ acl +++ quote +++ ", allowing anonymous read access";
  evidence = "acl = " +++ quote +++ acl +++ quote;
  terraform_resource = owner;
  risk = if has_infix (codes acl) (codes "write") then critical else high;
  conditional = false;
}

-- One round of the loop over the sources of ACLs, each with its owner.
unfoldable pub acl_findings : List (String × Bool) → String → Value → List PublicBucketFinding
unfolding strip lower has_infix
acl_findings controls owner value = elim (text_of value) [
  | none ↦ []
  | some acl ↦
      if is_public_acl acl && not (flag "ignore_public_acls" controls)
      then acl_finding owner acl ∷ []
      else []
]

unfoldable pub all_acl_findings :
    List (String × Bool) → List (String × Value) → List PublicBucketFinding
unfolding acl_findings
all_acl_findings controls [] = []
all_acl_findings controls ((owner, value) ∷ sources) =
    acl_findings controls owner value ++ all_acl_findings controls sources

unfoldable pub acl_sources : TerraformResource → ResourceIndex → List (String × Value)
unfolding address get
acl_sources bucket index =
    (address bucket, get bucket "acl")
    ∷ map (λ r. (address r, get r "acl")) (listed (lookup (address bucket) index.bucket_acls))

abbrev policy_finding : String → Fields → List String → PublicBucketFinding
policy_finding owner statement actions = record {
  reason =
      "Bucket policy allows "
      +++ join ", " actions
      +++ " to Principal "
      +++ quote
      +++ "*"
      +++ quote
      +++ " (anyone on the internet)";
  evidence =
      quote
      +++ "Principal"
      +++ quote
      +++ ": "
      +++ quote
      +++ "*"
      +++ quote
      +++ ", "
      +++ quote
      +++ "Action"
      +++ quote
      +++ ": "
      +++ repr (list (items_of (map str actions)));
  terraform_resource = owner;
  risk = critical;
  conditional = has_field statement "Condition";
}

module _ (m : Patterns) (r : Readers) (bucket : TerraformResource)
    (controls : List (String × Bool)) where
  -- Whether a statement opens the bucket to anyone.
  unfoldable pub opens_bucket : Fields → Bool
  unfolding field_or anonymous_principal as_list texts permits_object_read bucket_resource_matches
      has_field
  opens_bucket statement =
      is_text "Allow" (field_or statement "Effect" null)
      && anonymous_principal (field_or statement "Principal" null)
      && permits_object_read m (texts (as_list (field_or statement "Action" null)))
      && bucket_resource_matches m
          (keep (λ v. is_some (text_of v)) (as_list (field_or statement "Resource" null))) bucket
          true
      && not (flag "restrict_public_buckets" controls && not (has_field statement "Condition"))

  unfoldable pub statements_open : String → List Fields → List PublicBucketFinding
  unfolding opens_bucket field_or as_list texts join repr has_field
  statements_open owner [] = []
  statements_open owner (s ∷ ss) =
      let rest = statements_open owner ss in
      if opens_bucket s
      then policy_finding owner s (texts (as_list (field_or s "Action" null))) ∷ rest
      else rest

  unfoldable pub policies_open : List TerraformResource → List PublicBucketFinding
  unfolding statements_open policy_statements parse_policy_document get address
  policies_open [] = []
  policies_open (p ∷ ps) =
      statements_open (address p) (policy_statements (parse_policy_document r (get p "policy")))
      ++ policies_open ps

unfoldable pub public_bucket_findings :
    Patterns → Readers → TerraformResource → ResourceIndex → List PublicBucketFinding
unfolding bucket_public_access_block all_acl_findings acl_sources policies_open address
public_bucket_findings m r bucket index =
    let controls = bucket_public_access_block bucket index in
    all_acl_findings controls (acl_sources bucket index)
    ++ policies_open m r bucket controls (listed (lookup (address bucket) index.bucket_policies))
