-- ===== src/Rules/Matching.antt =====
-- The patterns of rules.py: ARNs, buckets and actions. The standard library's `fnmatchcase` and the
-- match of the ARN's regular expression are parameters.
use Prim.Native.Char.{code}
use blast_radius.Base.{
  String, Bool, true, false, not, ◌&&◌, ◌||◌, ◌==◌, nat_eq, string_eq, list_eq, Option, some, none,
  List, [], ◌∷◌, any, elem, keep, is_empty, if◌then◌else◌,
}
use blast_radius.Python.{
  Value, Fields, null, str, policy_str, text_of, str_of, truthy, field_or, codes, lower,
  starts_with, texts, ◌+++◌,
}
use blast_radius.Explain.{lower_text}
use blast_radius.Models.{TerraformResource, address, get}
use blast_radius.Rules.{as_list}
use blast_radius.Rules.Index.{add_new}

pub record Patterns : Type 0 where
  -- `fnmatchcase(value, pattern)`
  pub glob : String → String → Bool
  -- `_ARN_POSITION_BUCKET.match`: the bucket's address, and the object path after it
  pub bucket_arn : String → Option (String × Option String)

-- `pattern.replace("[", "[[]")`
unfoldable pub escape_brackets : String → String
escape_brackets String.[] = ""
escape_brackets (String.◌∷◌ c s) =
    let rest = escape_brackets s in if code c == 91 then "[[]" +++ rest else String.◌∷◌ c rest

-- `text.partition("/")`: what stands before the first slash.
unfoldable pub before_slash : String → String
before_slash String.[] = ""
before_slash (String.◌∷◌ c s) =
    let rest = before_slash s in if code c == 47 then "" else String.◌∷◌ c rest

-- What stands after the first slash; empty also where there is none.
unfoldable pub after_slash : String → String
after_slash String.[] = ""
after_slash (String.◌∷◌ c s) = let rest = after_slash s in if code c == 47 then s else rest

-- `policy_references` of blastradius/parser/values.py, of a text.
unfoldable pub text_references : Value → List String
unfolding add_new
text_references (policy_str s addresses) = add_new [] addresses
text_references _ = []

abbrev has_path : Option String → Bool
has_path none = false
has_path (some String.[]) = false
has_path (some (String.◌∷◌ c String.[])) = false
has_path (some (String.◌∷◌ c (String.◌∷◌ d s))) = true

-- `_statement_s3_actions`
unfoldable pub statement_s3_actions : Fields → List String
unfolding field_or as_list texts lower starts_with
statement_s3_actions statement =
    keep (λ a. a == "*" || starts_with (lower (codes a)) (codes "s3:"))
      (texts (as_list (field_or statement "Action" null)))

-- The texts that name the bucket, for a match with a pattern.
unfoldable pub bucket_arns : TerraformResource → List String
unfolding get truthy str_of texts
bucket_arns bucket = texts (
    get bucket "arn"
    ∷ (if truthy (get bucket "bucket")
        then str ("arn:aws:s3:::" +++ str_of (get bucket "bucket"))
        else null)
    ∷ [])

module _ (m : Patterns) where
  unfoldable pub aws_pattern_matches : String → String → Bool
  unfolding escape_brackets
  aws_pattern_matches value pattern = m.glob value (escape_brackets pattern)

  unfoldable pub permits_object_read : List String → Bool
  unfolding aws_pattern_matches lower_text
  permits_object_read actions =
      any
        (λ pattern.
          any (λ action. aws_pattern_matches action (lower_text pattern))
            ("s3:getobject" ∷ "s3:getobjectversion" ∷ []))
        actions

  abbrev arn_of_match : List String → Option (String × Option String) → Option (String × Bool)
  arn_of_match refs none = none
  arn_of_match refs (some (a, path)) = if elem a refs then some (a, has_path path) else none

  -- `arn_bucket_reference`
  unfoldable pub arn_bucket_reference : Value → Option (String × Bool)
  unfolding text_references
  arn_bucket_reference resource = elim (text_of resource) [
    | none ↦ none
    | some s ↦
        if is_empty (text_references resource)
        then none
        else arn_of_match (text_references resource) (m.bucket_arn s)
  ]

  abbrev names_bucket : String → Bool → Option (String × Bool) → Bool
  names_bucket a objects_only none = false
  names_bucket a objects_only (some t) = t.0 == a && (not objects_only || t.1)

  -- One round of the loop over the ARNs.
  abbrev arn_matches : Bool → String → String → Bool
  arn_matches objects_only pattern arn =
      not objects_only && aws_pattern_matches arn pattern
      || not (after_slash pattern == "") && aws_pattern_matches arn (before_slash pattern)

  -- One round of the loop over the patterns, each with its text.
  unfoldable pub pattern_matches : TerraformResource → Bool → Value → String → Bool
  unfolding arn_bucket_reference address bucket_arns after_slash before_slash aws_pattern_matches
  pattern_matches bucket objects_only pattern s =
      s == "*"
      || names_bucket (address bucket) objects_only (arn_bucket_reference pattern)
      || any (arn_matches objects_only s) (bucket_arns bucket)

  abbrev matches_value : TerraformResource → Bool → Value → Bool
  matches_value bucket objects_only pattern = elim (text_of pattern) [
    | none ↦ false
    | some s ↦ pattern_matches bucket objects_only pattern s
  ]

  unfoldable pub bucket_resource_matches : List Value → TerraformResource → Bool → Bool
  unfolding pattern_matches
  bucket_resource_matches patterns bucket objects_only =
      any (matches_value bucket objects_only) patterns
