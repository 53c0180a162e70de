-- ===== src/Rules/Tags.antt =====
-- `sensitive_tag` and `is_sensitive_bucket` of rules.py.
use Prim.Native.Char.{char}
use blast_radius.Base.{
  ℕ, String, Bool, ◌&&◌, ◌||◌, ◌==◌, nat_eq, list_eq, Option, some, none, List, [], ◌∷◌, map, elem,
  if◌then◌else◌,
}
use blast_radius.Graph.{is_some}
use blast_radius.Python.{Value, Fields, end, field, str_of, codes, strip, lower, has_infix, ◌+++◌}
use blast_radius.Models.{TerraformResource, tags}

abbrev pub sensitive_tag_keys : List String
sensitive_tag_keys = "sensitive" ∷ "blastradius_sensitive" ∷ []

abbrev pub sensitive_data_classes : List String
sensitive_data_classes = "pii" ∷ "phi" ∷ "secret" ∷ "confidential" ∷ "restricted" ∷ "sensitive" ∷ []

abbrev pub sensitive_levels : List String
sensitive_levels = "high" ∷ "critical" ∷ []

abbrev yes_words : List String
yes_words = "true" ∷ "yes" ∷ "1" ∷ []

-- `text.strip().lower()`
unfoldable pub normalized : String → List ℕ
unfolding strip lower
normalized s = lower (strip (codes s))

-- Whether one tag marks the data as sensitive.
unfoldable pub marks : String → Value → Bool
unfolding normalized str_of has_infix
marks key value =
    let k = normalized key in
    let v = normalized (str_of value) in
    elem k (map codes sensitive_tag_keys) && elem v (map codes yes_words)
    || k == codes "sensitivity" && elem v (map codes sensitive_levels)
    || has_infix k (codes "dataclass") && elem v (map codes sensitive_data_classes)

abbrev quote : String
quote = String.◌∷◌ (char 34 tt) ""

unfoldable pub sensitive_in : Fields → Option String
unfolding marks str_of
sensitive_in end = none
sensitive_in (field key value fs) =
    let rest = sensitive_in fs in
    if marks key value then some (key +++ " = " +++ quote +++ str_of value +++ quote) else rest

unfoldable pub sensitive_tag : TerraformResource → Option String
unfolding tags sensitive_in
sensitive_tag bucket = sensitive_in (tags bucket)

unfoldable pub is_sensitive_bucket : TerraformResource → Bool
unfolding sensitive_tag
is_sensitive_bucket bucket = is_some (sensitive_tag bucket)
