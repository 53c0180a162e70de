-- ===== src/Rules/Iam/Grants.antt =====
-- What the S3 grants say of a policy.
use blast_radius.Base.{
  string_eq, ◌≡◌, ◌↔◌, Bool, true, false, not, ◌&&◌, ◌||◌, String, dedupe, List, map, is_empty,
}
use blast_radius.Python.{Value, Fields, null, field_or, has_field}
use blast_radius.Models.{medium, critical}
use blast_radius.Policies.{is_text}
use blast_radius.Rules.Matching.{
  Patterns, statement_s3_actions, arn_bucket_reference, permits_object_read,
}
use blast_radius.Rules.{as_list}
use blast_radius.Rules.Iam.{S3AccessFinding, as_text, addresses_in, targets_all, has_wildcard}

-- An Allow statement with an S3 action.
abbrev pub grants_s3 : Fields → Bool
grants_s3 statement =
    is_text "Allow" (field_or statement "Effect" null)
    && not (is_empty (statement_s3_actions statement))

-- What an Allow statement grants: its S3 actions, the texts of its resources, and whether it has a
-- condition.
abbrev pub granted : Fields → List String × List Value × Bool
granted s = (
  statement_s3_actions s,
  map as_text (as_list (field_or s "Resource" null)),
  has_field s "Condition",
)

abbrev pub grant : S3AccessFinding → List String × List Value × Bool
grant f = (f.actions, f.resources, f.conditional)

pub record IsGrant (m : Patterns) (f : S3AccessFinding) : Type 0 where
  pub all_buckets : f.targets_all_buckets ≡ targets_all f.resources
  pub wildcard : f.has_wildcard_action ≡ has_wildcard f.actions
  pub buckets :
      f.bucket_addresses ≡ dedupe (addresses_in (map (arn_bucket_reference m) f.resources))
  pub read : f.data_read ≡ permits_object_read m f.actions
  pub escalated : (f.risk ≡ critical) ↔ ((f.targets_all_buckets && f.has_wildcard_action) ≡ true)
  pub least : (f.risk ≡ medium) ↔ ((f.targets_all_buckets || f.has_wildcard_action) ≡ false)
