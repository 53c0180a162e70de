-- ===== src/Builder/Names.antt =====
-- `_display_name` and `sensitive_node_id` of graph_builder.py. Letters are A to Z.
use Prim.Native.Char.{Char, code}
use blast_radius.Base.{
  ℕ, ◌-◌, String, Bool, ◌&&◌, ◌||◌, ◌==◌, nat_eq, string_eq, Option, some, none, List, [], ◌∷◌, map,
  lookup, leb, if◌then◌else◌,
}
use blast_radius.Explain.{lower_text, nth_char}
use blast_radius.Python.{str, null, or_else, field_or, str_of, join, is_space, ◌+++◌}
use blast_radius.Models.{TerraformResource, get, tags}

abbrev acronyms : List (String × String)
acronyms =
    ("sg", "SG")
    ∷ ("iam", "IAM")
    ∷ ("s3", "S3")
    ∷ ("ec2", "EC2")
    ∷ ("db", "DB")
    ∷ ("ssh", "SSH")
    ∷ ("vpc", "VPC")
    ∷ []

abbrev is_break : ℕ → Bool
is_break c = is_space c || c == b'-' || c == b'_'

abbrev with_word : String → List String → List String
with_word String.[] ws = ws
with_word (String.◌∷◌ c w) ws = String.◌∷◌ c w ∷ ws

-- The first word of a text and the words after it, the first of which may be empty. Dashes and
-- underscores have been replaced by spaces.
unfoldable pub words_of : String → String × List String
words_of String.[] = ("", [])
words_of (String.◌∷◌ c s) =
    let rest = words_of s in
    if is_break (code c) then ("", with_word rest.0 rest.1) else (String.◌∷◌ c rest.0, rest.1)

unfoldable pub split_words : String → List String
unfolding words_of
split_words s = let r = words_of s in with_word r.0 r.1

upper_char : Char → Char
unfolding nth_char
upper_char c =
    if leb b'a' (code c) && leb (code c) b'z'
    then nth_char "ABCDEFGHIJKLMNOPQRSTUVWXYZ" (code c - b'a') c
    else c

-- `word.capitalize()`
unfoldable pub capitalize : String → String
unfolding upper_char lower_text
capitalize String.[] = ""
capitalize (String.◌∷◌ c s) = String.◌∷◌ (upper_char c) (lower_text s)

abbrev shown : Option String → String → String
shown none w = w
shown (some acronym) w = acronym

unfoldable pub display_name : TerraformResource → String
unfolding get tags field_or str_of split_words capitalize lower_text join
display_name r =
    let raw =
      or_else (get r "name")
        (or_else (field_or (tags r) "Name" null) (or_else (get r "bucket") (str r.name))) in
    join " "
      (map (λ w. shown (lookup (lower_text w) acronyms) (capitalize w)) (split_words (str_of raw)))

-- What follows the first dot. An address has one.
unfoldable pub after_dot : String → String
after_dot String.[] = ""
after_dot (String.◌∷◌ c s) = let rest = after_dot s in if code c == 46 then s else rest

unfoldable pub sensitive_node_id : String → String
unfolding after_dot
sensitive_node_id bucket_address = "sensitive_data." +++ after_dot bucket_address
