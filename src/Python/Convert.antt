-- ===== src/Python/Convert.antt =====
-- Truth, `or`, `int(x)` and `str(x)` of a value.
use Prim.Native.Nat.{ℕ, suc, ◌+◌, ◌*◌, ◌-◌}
use Prim.Native.Char.{char, code}
use Prim.Native.String.{String}
use mathlib.Core.Bool.{Bool, true, false, not, ◌&&◌, ◌||◌}
use mathlib.Core.Option.{Option, none, some}
use mathlib.Core.List.{List, [], ◌∷◌}
use blast_radius.Base.{◌==◌, nat_eq, string_eq, if◌then◌else◌, leb, elem}
use blast_radius.Base.{ℤ, pos, negsuc, neg_ℤ, int_eq}
use blast_radius.Python.Text.{◌+++◌, codes, decimal, strip}
use blast_radius.Python.Values.{
  Value, Items, Fields, null, bool, int, float, str, policy_str, list, dict, nil, cons, end, field,
}

unfoldable pub truthy : Value → Bool
truthy null = false
truthy (bool b) = b
truthy (int n) = not (n == pos 0)
truthy (float t n zero?) = not zero?
truthy (str s) = not (s == "")
truthy (policy_str s addresses) = not (s == "")
truthy (list nil) = false
truthy (list (cons v vs)) = true
truthy (dict end) = false
truthy (dict (field k v fs)) = true

-- `a or b`
abbrev pub or_else : Value → Value → Value
or_else a b = if truthy a then a else b

-- The digits of a Python literal, with single underscores between digits.
digits_from : ℕ → Bool → List ℕ → Option ℕ
digits_from n after_digit [] = if after_digit then some n else none
digits_from n after_digit (c ∷ s) =
    let is_digit = leb b'0' c && leb c b'9' in
    let is_sep = c == b'_' && after_digit in
    let rest = digits_from (if is_digit then n * 10 + (c - b'0') else n) is_digit s in
    if is_digit || is_sep then rest else none

signed : List ℕ → Option ℤ
unfolding digits_from neg_ℤ
signed [] = none
signed (c ∷ s) = elim (digits_from 0 false (if c == b'-' || c == b'+' then s else c ∷ s)) [
  | none ↦ none
  | some n ↦ some (if c == b'-' then neg_ℤ (pos n) else pos n)
]

-- `int(text)`, over the digits 0 to 9; `none` is a ValueError.
unfoldable pub int_of_text : String → Option ℤ
unfolding signed strip
int_of_text s = signed (strip (codes s))

-- `int(value)`; `none` is a ValueError, a TypeError or an OverflowError.
unfoldable pub int_of : Value → Option ℤ
unfolding int_of_text
int_of null = none
int_of (bool b) = some (if b then pos 1 else pos 0)
int_of (int n) = some n
int_of (float t n zero?) = n
int_of (str s) = int_of_text s
int_of (policy_str s addresses) = int_of_text s
int_of (list vs) = none
int_of (dict fs) = none

abbrev int_text : ℤ → String
int_text (pos n) = decimal n
int_text (negsuc n) = "-" +++ decimal (suc n)

abbrev backslash_with : ℕ → String
backslash_with c =
    String.◌∷◌ (char 92 tt)
      (if c == 10 then "n" else if c == 13 then "r" else if c == 9 then "t" else "")

-- The characters of `repr(text)` between its quotes; all but the quote, the backslash and the three
-- common controls stand for themselves.
escaped : ℕ → String → String
escaped quote String.[] = ""
escaped quote (String.◌∷◌ c s) =
    let rest = escaped quote s in
    if code c == 92 || code c == quote
    then String.◌∷◌ (char 92 tt) (String.◌∷◌ c rest)
    else if code c == 10 || code c == 13 || code c == 9
    then backslash_with (code c) +++ rest
    else String.◌∷◌ c rest

repr_text : String → String
unfolding escaped
repr_text s =
    if elem 39 (codes s) && not (elem 34 (codes s))
    then String.◌∷◌ (char 34 tt) (escaped 34 s) +++ String.◌∷◌ (char 34 tt) ""
    else String.◌∷◌ (char 39 tt) (escaped 39 s) +++ String.◌∷◌ (char 39 tt) ""

abbrev separated : String → String → String
separated a b = if b == "" then a else a +++ ", " +++ b

unfoldable mutual
  unfolding repr_text

  pub repr : Value → String
  repr null = "None"
  repr (bool true) = "True"
  repr (bool false) = "False"
  repr (int n) = int_text n
  repr (float t n zero?) = t
  repr (str s) = repr_text s
  repr (policy_str s addresses) = repr_text s
  repr (list vs) = "[" +++ repr_items vs +++ "]"
  repr (dict fs) = "{" +++ repr_fields fs +++ "}"

  pub repr_items : Items → String
  repr_items nil = ""
  repr_items (cons v vs) = separated (repr v) (repr_items vs)

  pub repr_fields : Fields → String
  repr_fields end = ""
  repr_fields (field k v fs) = separated (repr_text k +++ ": " +++ repr v) (repr_fields fs)

-- `str(value)`
unfoldable pub str_of : Value → String
unfolding repr
str_of (str s) = s
str_of (policy_str s addresses) = s
str_of v = repr v
