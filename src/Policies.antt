-- ===== src/Policies.antt =====
-- The policy documents of blastradius/parser/values.py. What the standard library's `json` and `re`
-- find in a text is a parameter, and so is what the reader of expressions returns.
use blast_radius.Base.{
  String, Bool, true, false, not, ◌==◌, string_eq, Option, some, none, List, [], ◌∷◌, dedupe,
  if◌then◌else◌, Result, ok, err,
}
use blast_radius.Python.{
  Value, Items, Fields, null, bool, int, float, str, policy_str, list, dict, nil, cons, end, field,
  items_list, field_or, text_of, ◌+++◌,
}
use blast_radius.Limits.{check_structure}

-- What is read off a text.
pub record Readers : Type 0 where
  -- `check_text_depth` returns
  pub is_shallow : String → Bool
  -- `json.loads(text, object_pairs_hook=unique_object)`; `none` where it raises
  pub json_loads : String → Option Value
  -- the addresses in the `${aws_…}` templates of a text
  pub interpolated : String → List String
  -- `jsonencode_argument`
  pub jsonencode_argument : String → Option String
  -- `evaluate_expression`: the value and the reasons of its problems, or the text of the error
  pub evaluate : String → Result String (Value × List String)

abbrev pub is_dict : Value → Bool
is_dict (dict fs) = true
is_dict _ = false

abbrev pub mapping_of : Value → Option Fields
mapping_of (dict fs) = some fs
mapping_of _ = none

-- `value == text`
abbrev pub is_text : String → Value → Bool
is_text s v = elim (text_of v) [ none ↦ false | some t ↦ t == s ]

module _ (r : Readers) where
  unfoldable mutual
    -- `_with_provenance`
    pub with_provenance : Value → Value
    with_provenance (str s) = policy_str s (dedupe (r.interpolated s))
    with_provenance (policy_str s addresses) = policy_str s (dedupe (r.interpolated s))
    with_provenance (list vs) = list (items_with_provenance vs)
    with_provenance (dict fs) = dict (fields_with_provenance fs)
    with_provenance null = null
    with_provenance (bool b) = bool b
    with_provenance (int n) = int n
    with_provenance (float t n z) = float t n z

    pub items_with_provenance : Items → Items
    items_with_provenance nil = nil
    items_with_provenance (cons v vs) = cons (with_provenance v) (items_with_provenance vs)

    pub fields_with_provenance : Fields → Fields
    fields_with_provenance end = end
    fields_with_provenance (field k v fs) = field k (with_provenance v) (fields_with_provenance fs)

  -- The document, or the reason why there is none.
  abbrev pub Evaluated : Type 0
  Evaluated = Option Fields × Option String

  -- What is done with the value of an expression.
  unfoldable pub evaluated : Value → List String → Evaluated
  unfolding check_structure
  evaluated value [] =
      if not (check_structure value)
      then (
        none,
        some "expression could not be evaluated (Input structure exceeds value or nesting budget)",
      )
      else elim (mapping_of value) [
        | some fs ↦ (some fs, none)
        | none ↦ (none, some "jsonencode() did not produce an object")
      ]
  evaluated value (reason ∷ reasons) =
      if not (check_structure value)
      then (
        none,
        some "expression could not be evaluated (Input structure exceeds value or nesting budget)",
      )
      else (none, some reason)

  unfoldable pub evaluate_argument : Option String → Evaluated
  unfolding evaluated
  evaluate_argument none = (none, none)
  evaluate_argument (some argument) = elim (r.evaluate argument) [
    | err e ↦ (none, some ("expression could not be evaluated (" +++ e +++ ")"))
    | ok p ↦ evaluated p.0 p.1
  ]

  -- The JSON of a text that passes the budgets; `none` is one of the errors that are passed over. The
  -- `ValueError` of `json.loads` on an integer with more digits than `int` takes, which is raised on,
  -- is `none` too.
  unfoldable pub json_of : String → Option Value
  unfolding check_structure
  json_of raw = if not (r.is_shallow raw) then none else elim (r.json_loads raw) [
    | none ↦ none
    | some v ↦ if check_structure v then some v else none
  ]

  -- `_evaluate_policy_text`
  unfoldable pub evaluate_policy_text : String → Evaluated
  unfolding json_of with_provenance evaluate_argument
  evaluate_policy_text raw = elim (json_of raw) [
    | none ↦ evaluate_argument (r.jsonencode_argument raw)
    | some v ↦ elim (mapping_of v) [
      | none ↦ (none, none)
      | some fs ↦ (some (fields_with_provenance fs), none)
    ]
  ]

  -- `evaluate_policy_document`; the copy of the containers is the same value.
  unfoldable pub evaluate_policy_document : Value → Evaluated
  unfolding with_provenance evaluate_policy_text
  evaluate_policy_document (dict fs) = (some (fields_with_provenance fs), none)
  evaluate_policy_document (str s) = evaluate_policy_text s
  evaluate_policy_document (policy_str s addresses) = evaluate_policy_text s
  evaluate_policy_document _ = (none, none)

  -- `parse_policy_document`: `document or {}`
  unfoldable pub parse_policy_document : Value → Fields
  unfolding evaluate_policy_document
  parse_policy_document raw = elim (evaluate_policy_document raw).0 [ none ↦ end | some fs ↦ fs ]

unfoldable pub statement_values : Value → List Value
unfolding items_list
statement_values (dict fs) = dict fs ∷ []
statement_values (list vs) = items_list vs
statement_values _ = []

unfoldable pub dicts : List Value → List Fields
dicts [] = []
dicts (v ∷ vs) = elim (mapping_of v) [ none ↦ dicts vs | some fs ↦ fs ∷ dicts vs ]

-- `policy_statements`
unfoldable pub policy_statements : Fields → List Fields
unfolding field_or statement_values dicts
policy_statements policy = dicts (statement_values (field_or policy "Statement" (list nil)))
