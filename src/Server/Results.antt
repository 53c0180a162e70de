-- ===== src/Server/Results.antt =====
-- blastradius/server/results.py: what is accepted of a worker. What pydantic makes of a mapping, the
-- fields that are read here, is a parameter, and so is `str.splitlines`.
pub mod Accepted
use blast_radius.Base.{
  ℤ, pos, ◌-ℤ◌, int_eq, String, Bool, true, false, not, ◌&&◌, ◌||◌, ◌==◌, string_eq, Option, some,
  none, List, [], ◌∷◌, keep, if◌then◌else◌, list_eq,
}
use blast_radius.Python.{
  Value, Fields, Items, null, bool, int, str, policy_str, list, dict, nil, cons, end, field,
  field_or, text_of, codes, starts_with, ◌+++◌,
}
use blast_radius.Policies.{is_text, mapping_of}
use blast_radius.Decision.{Decision, block, review, safe, is_block}

-- `bool.__eq__`
abbrev pub same : Bool → Bool → Bool
same true b = b
same false b = not b

pub record Score : Type 0 where
  pub before : ℤ
  pub after : ℤ
  pub delta : ℤ

pub record Snapshot : Type 0 where
  pub complete : Bool
  pub paths_truncated : Bool
  pub score : ℤ

-- `Result`
pub record Report : Type 0 where
  pub schema_version : ℤ
  pub analysis_complete : Bool
  pub decision : String
  pub passed : Bool
  pub score : Score
  pub before : Snapshot
  pub after : Snapshot
  pub reports : Fields

-- What a worker responds, once it has been checked: the text of an error, or a result.
pub data Response : Type 0 where
  failed : String → Response
  succeeded : Fields → Response

abbrev pub decision_text : Decision → String
decision_text block = "BLOCK CHANGE"
decision_text review = "REVIEW REQUIRED"
decision_text safe = "SAFE TO MERGE"

-- `Decision(text)`
unfoldable pub decision_of : String → Option Decision
decision_of s =
    if s == "BLOCK CHANGE"
    then some block
    else if s == "REVIEW REQUIRED"
    then some review
    else if s == "SAFE TO MERGE"
    then some safe
    else none

abbrev pub is_safe : Decision → Bool
is_safe safe = true
is_safe _ = false

abbrev pub both_complete : Report → Bool
both_complete p = p.before.complete && p.after.complete

abbrev pub some_truncated : Report → Bool
some_truncated p = p.before.paths_truncated || p.after.paths_truncated

-- The first test of `validate_result`, which raises "inconsistent_result" where it fails.
unfoldable pub is_consistent : Report → Decision → Bool
unfolding ◌-ℤ◌
is_consistent p d =
    p.schema_version == pos 1
    && same p.analysis_complete (both_complete p)
    && not (both_complete p && some_truncated p)
    && not (is_safe d && not (both_complete p))
    && same p.passed (not (is_block d))
    && p.score.before == p.before.score
    && p.score.after == p.after.score
    && p.score.delta == p.score.after -ℤ p.score.before

-- `value is b`
abbrev pub is_bool : Bool → Value → Bool
is_bool b (bool c) = same c b
is_bool b _ = false

-- `runs[0]["properties"]` where `runs` is a list of one member.
unfoldable pub only_properties : Value → Option Fields
unfolding field_or
only_properties (list (cons run nil)) = elim (mapping_of run) [
  | none ↦ none
  | some fs ↦ mapping_of (field_or fs "properties" null)
]
only_properties _ = none

unfoldable pub sarif_properties : Fields → Option Fields
unfolding field_or only_properties
sarif_properties reports = elim (mapping_of (field_or reports "sarif" null)) [
  | none ↦ none
  | some sarif ↦ only_properties (field_or sarif "runs" null)
]

unfoldable pub sarif_agrees : Report → Decision → Bool
unfolding sarif_properties field_or
sarif_agrees p d = elim (sarif_properties p.reports) [
  | none ↦ false
  | some properties ↦
      is_text (decision_text d) (field_or properties "decision" null)
      && is_bool (both_complete p) (field_or properties "analysisComplete" null)
      && is_bool (some_truncated p) (field_or properties "pathsTruncated" null)
]

module _ (parse : Fields → Option Report) (splitlines : String → List String) where
  -- `[line for line in markdown.splitlines() if line.startswith("Decision: ")]` has the one line.
  unfoldable pub markdown_agrees : Report → Decision → Bool
  unfolding field_or starts_with
  markdown_agrees p d = elim (text_of (field_or p.reports "markdown" null)) [
    | none ↦ false
    | some markdown ↦
        keep (λ line. starts_with (codes line) (codes "Decision: ")) (splitlines markdown)
        == ("Decision: " +++ decision_text d) ∷ []
  ]

  abbrev pub agrees : Report → Option Decision → Bool
  agrees p none = false
  agrees p (some d) = is_consistent p d && markdown_agrees p d && sarif_agrees p d

  abbrev pub is_valid : Option Report → Bool
  is_valid none = false
  is_valid (some p) = agrees p (decision_of p.decision)

  -- `validate_result`: whether it raises nothing.
  unfoldable pub validate_result : Fields → Bool
  unfolding decision_of is_consistent markdown_agrees sarif_agrees
  validate_result result = is_valid (parse result)

  abbrev pub invalid : Response
  invalid = failed "invalid_worker_result"

  abbrev pub of_error : Option String → Response
  of_error none = invalid
  of_error (some s) = if s == "" then invalid else failed s

  abbrev pub of_result : Option Fields → Response
  of_result none = invalid
  of_result (some result) = if validate_result result then succeeded result else invalid

  -- The value of the only field.
  unfoldable pub of_field : String → Value → Response
  unfolding validate_result
  of_field key value =
      if key == "error"
      then of_error (text_of value)
      else if key == "result"
      then of_result (mapping_of value)
      else invalid

  unfoldable pub worker_response : Value → Response
  unfolding of_field
  worker_response (dict (field key value end)) = of_field key value
  worker_response _ = invalid
