-- ===== src/Rules/Iam.antt =====
-- The S3 grants of a role: `instance_role_addresses` and `s3_access_findings` of rules.py.
pub mod Grants
use Prim.Native.Char.{char}
use blast_radius.Base.{
  ℕ, String, Bool, true, false, not, ◌&&◌, ◌||◌, ◌==◌, nat_eq, string_eq, list_eq, Option, some,
  none, List, [], ◌∷◌, ◌++◌, map, any, elem, keep, find, dedupe, is_empty, if◌then◌else◌,
}
use blast_radius.Python.{
  Value, Fields, null, str, list, field_or, has_field, text_of, str_of, repr, items_of, codes,
  strip, starts_with, join, ◌+++◌,
}
use blast_radius.Models.{Risk, medium, high, critical, TerraformResource, address, get}
use blast_radius.Policies.{Readers, is_text, parse_policy_document, policy_statements}
use blast_radius.Rules.{as_list}
use blast_radius.Rules.Index.{add_new, references}
use blast_radius.Rules.Matching.{
  Patterns, statement_s3_actions, arn_bucket_reference, permits_object_read,
}

pub record S3AccessFinding : Type 0 where
  pub actions : List String
  pub bucket_addresses : List String
  pub targets_all_buckets : Bool
  pub has_wildcard_action : Bool
  pub risk : Risk
  pub reason : String
  pub resources : List Value
  pub data_read : Bool
  pub conditional : Bool

-- `S3AccessFinding.evidence`
unfoldable pub access_evidence : S3AccessFinding → String
unfolding repr
access_evidence f =
    let quote : String = String.◌∷◌ (char 34 tt) "" in
    quote
    +++ "Action"
    +++ quote
    +++ ": "
    +++ repr (list (items_of (map str f.actions)))
    +++ ", "
    +++ quote
    +++ "Resource"
    +++ quote
    +++ ": "
    +++ (if f.targets_all_buckets then quote +++ "*" +++ quote else "the bucket ARN")

-- `r if isinstance(r, str) else str(r)`
abbrev pub as_text : Value → Value
as_text v = elim (text_of v) [ none ↦ str (str_of v) | some s ↦ v ]

abbrev pub text_or_empty : Value → String
text_or_empty v = elim (text_of v) [ none ↦ "" | some s ↦ s ]

abbrev pub all_buckets : List String
all_buckets = "*" ∷ "arn:aws:s3:::*" ∷ "arn:aws:s3:::*/*" ∷ []

unfoldable pub targets_all : List Value → Bool
unfolding strip
targets_all resources =
    any (λ r. elem (strip (codes (text_or_empty r))) (map codes all_buckets)) resources

unfoldable pub has_wildcard : List String → Bool
has_wildcard actions = any (λ a. elem 42 (codes a) || elem 63 (codes a)) actions

abbrev pub grant_risk : Bool → Bool → Risk
grant_risk true true = critical
grant_risk true false = high
grant_risk false true = high
grant_risk false false = medium

abbrev pub addresses_in : List (Option (String × Bool)) → List String
addresses_in [] = []
addresses_in (none ∷ ts) = addresses_in ts
addresses_in (some t ∷ ts) = t.0 ∷ addresses_in ts

module _ (m : Patterns) where
  unfoldable pub grant_of : Fields → List String → List Value → S3AccessFinding
  unfolding targets_all has_wildcard arn_bucket_reference permits_object_read join has_field
  grant_of statement actions resources =
      let all = targets_all resources in
      let wildcard = has_wildcard actions in
      record {
        actions = actions;
        bucket_addresses = dedupe (addresses_in (map (arn_bucket_reference m) resources));
        targets_all_buckets = all;
        has_wildcard_action = wildcard;
        risk = grant_risk all wildcard;
        reason =
            "Role allows "
            +++ join ", " actions
            +++ (if all then " on all resources (*)" else " on the bucket");
        resources = resources;
        data_read = permits_object_read m actions;
        conditional = has_field statement "Condition";
      }

  -- One round of the loop over the statements.
  unfoldable pub statement_finding : Fields → List S3AccessFinding
  unfolding field_or statement_s3_actions as_list grant_of
  statement_finding statement =
      if not (is_text "Allow" (field_or statement "Effect" null))
      then []
      else if is_empty (statement_s3_actions statement)
      then []
      else grant_of statement (statement_s3_actions statement)
          (map as_text (as_list (field_or statement "Resource" null)))
        ∷ []

  unfoldable pub statement_findings : List Fields → List S3AccessFinding
  unfolding statement_finding
  statement_findings [] = []
  statement_findings (s ∷ ss) = statement_finding s ++ statement_findings ss

  unfoldable pub s3_access_findings : Readers → Value → List S3AccessFinding
  unfolding parse_policy_document policy_statements statement_findings
  s3_access_findings r document =
      statement_findings (policy_statements (parse_policy_document r document))

module _ (named : String → List String) where
  -- The loop over the references of a profile's role.
  unfoldable pub add_roles : List String → List String → List String
  unfolding starts_with
  add_roles roles [] = roles
  add_roles roles (ref ∷ refs) =
      add_roles
        (if starts_with (codes ref) (codes "aws_iam_role.") && not (elem ref roles)
          then roles ++ ref ∷ []
          else roles)
        refs

  -- The loop over the references of an instance's profile.
  unfoldable pub roles_from : List TerraformResource → List String → List String → List String
  unfolding starts_with add_roles references get address
  roles_from profiles roles [] = roles
  roles_from profiles roles (ref ∷ refs) =
      roles_from profiles
        (if starts_with (codes ref) (codes "aws_iam_role.")
          then roles ++ ref ∷ []
          else elim (find (λ p. address p == ref) profiles) [
            | none ↦ roles
            | some profile ↦ add_roles roles (references named (get profile "role"))
          ])
        refs

  unfoldable pub instance_role_addresses : TerraformResource → List TerraformResource → List String
  unfolding roles_from references get
  instance_role_addresses resource profiles =
      roles_from profiles [] (references named (get resource "iam_instance_profile"))
