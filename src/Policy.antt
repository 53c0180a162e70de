-- ===== src/Policy.antt =====
-- blastradius/policy.py: the policy of a repository, read off a parsed mapping.
pub mod Laws
use blast_radius.Base.{
  ℕ, ℤ, pos, leb_ℤ, int_eq, String, Bool, true, false, not, ◌||◌, ◌&&◌, ◌==◌, nat_eq, string_eq,
  list_eq, Option, some, none, List, [], ◌∷◌, ◌++◌, map, all, any, elem, keep, is_empty,
  if◌then◌else◌, Result, ok, err, ◌>>=◌, ◌>>◌, guard,
}
use blast_radius.Python.{
  Value, Fields, null, bool, int, float, str, policy_str, list, dict, end, fields_list, field_or,
  or_else, truthy, codes, strip, starts_with,
}

pub record Policy : Type 0 where
  pub block_new_critical_paths : Bool
  pub block_new_sensitive_exposure : Bool
  pub block_public_admin_ports : Bool
  pub allow_public_https : Bool
  pub minimum_security_score : Option ℤ
  pub source : Option String
  pub warnings : List String
  pub terraform_dir : Option String

-- `Policy(source=source)`, with the default fields.
abbrev pub default_policy : Option String → Policy
default_policy source = record {
  block_new_critical_paths = true;
  block_new_sensitive_exposure = true;
  block_public_admin_ports = false;
  allow_public_https = true;
  minimum_security_score = none;
  source = source;
  warnings = [];
  terraform_dir = none;
}

-- `PolicyError`, by the raise that makes it.
pub data PolicyError : Type 0 where
  not_a_mapping unsupported_version bad_minimum empty_directory outside_directory : PolicyError
  unknown_keys : List String → PolicyError
  not_a_bool : String → PolicyError

-- `set(data) - {…}`
unfoldable pub unknown_in : List String → Fields → List String
unfolding fields_list
unknown_in known fs = keep (λ k. not (elem k known)) (map (λ e. e.0) (fields_list fs))

unfoldable pub coerce_bool : String → Value → Result PolicyError Bool
coerce_bool key (bool b) = ok b
coerce_bool key _ = err (not_a_bool key)

abbrev mapping : Value → Result PolicyError Fields
mapping (dict fs) = ok fs
mapping _ = err not_a_mapping

-- One round of the loop over the sections: `data.get(name) or {}`, a mapping with known keys.
unfoldable pub section : Fields → String → List String → Result PolicyError Fields
unfolding field_or unknown_in truthy
section fs name known = do
  section ← mapping (or_else (field_or fs name null) (dict end))
  guard (is_empty (unknown_in known section)) (unknown_keys (unknown_in known section))
  ok section

abbrev in_range : ℤ → Bool
in_range n = leb_ℤ (pos 0) n && leb_ℤ n (pos 100)

unfoldable pub minimum_of : Value → Result PolicyError (Option ℤ)
minimum_of null = ok none
minimum_of (int n) = if in_range n then ok (some n) else err bad_minimum
minimum_of _ = err bad_minimum

-- `text.replace("\\", "/")`, in code points.
unfoldable pub slashed : List ℕ → List ℕ
slashed [] = []
slashed (c ∷ s) = (if c == 92 then 47 else c) ∷ slashed s

abbrev onto_first : ℕ → List (List ℕ) → List (List ℕ)
onto_first c [] = (c ∷ []) ∷ []
onto_first c (w ∷ ws) = (c ∷ w) ∷ ws

-- `text.split("/")`, in code points.
unfoldable pub split_slash : List ℕ → List (List ℕ)
split_slash [] = [] ∷ []
split_slash (c ∷ s) = let rest = split_slash s in if c == 47 then [] ∷ rest else onto_first c rest

abbrev pub escapes : List ℕ → Bool
escapes s = starts_with s (codes "/") || elem 58 s || elem (codes "..") (split_slash s)

-- `str(PurePosixPath(text))`, which the standard library normalises, is the parameter.
module _ (posix_path : List ℕ → String) where
  unfoldable pub directory_of_text : String → Result PolicyError (Option String)
  unfolding strip slashed split_slash starts_with
  directory_of_text s =
      if is_empty (strip (codes s))
      then err empty_directory
      else if escapes (slashed (codes s))
      then err outside_directory
      else ok (some (posix_path (slashed (codes s))))

  unfoldable pub directory_of : Value → Result PolicyError (Option String)
  unfolding directory_of_text
  directory_of null = ok none
  directory_of (str s) = directory_of_text s
  directory_of (policy_str s addresses) = directory_of_text s
  directory_of _ = err empty_directory

  abbrev pub is_version_one : Value → Bool
  is_version_one (int n) = n == pos 1
  is_version_one _ = false

  unfoldable pub load_mapping : Fields → Option String → Result PolicyError Policy
  unfolding unknown_in field_or section minimum_of directory_of coerce_bool
  load_mapping fs source = do
    let unknown =
        unknown_in ("version" ∷ "gate" ∷ "allowed" ∷ "thresholds" ∷ "terraform_dir" ∷ []) fs
    _ ← guard (is_empty unknown) (unknown_keys unknown)
    _ ← guard (is_version_one (field_or fs "version" (int (pos 1)))) unsupported_version
    gate ← section fs "gate" (
        "block_new_critical_paths" ∷ "block_new_sensitive_exposure" ∷ "block_public_admin_ports"
        ∷ [])
    allowed ← section fs "allowed" ("public_https" ∷ [])
    thresholds ← section fs "thresholds" ("minimum_security_score" ∷ [])
    minimum ← minimum_of (field_or thresholds "minimum_security_score" null)
    directory ← directory_of (field_or fs "terraform_dir" null)
    critical ←
        coerce_bool "block_new_critical_paths"
          (field_or gate "block_new_critical_paths" (bool true))
    sensitive ←
        coerce_bool "block_new_sensitive_exposure"
          (field_or gate "block_new_sensitive_exposure" (bool true))
    admin ←
        coerce_bool "block_public_admin_ports"
          (field_or gate "block_public_admin_ports" (bool true))
    https ← coerce_bool "public_https" (field_or allowed "public_https" (bool true))
    ok (record {
      block_new_critical_paths = critical;
      block_new_sensitive_exposure = sensitive;
      block_public_admin_ports = admin;
      allow_public_https = https;
      minimum_security_score = minimum;
      source = source;
      warnings = [];
      terraform_dir = directory;
    })

  unfoldable pub load_policy_data : Value → Option String → Result PolicyError Policy
  unfolding load_mapping
  load_policy_data null source = ok (default_policy source)
  load_policy_data (dict fs) source = load_mapping fs source
  load_policy_data _ source = err not_a_mapping
