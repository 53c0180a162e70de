-- ===== src/Expression/Lexer.antt =====
-- The state of `_Reader`, and the parts of a text that it reads without calling itself.
use blast_radius.Base.{
  ℕ, zero, suc, ◌+◌, ◌*◌, ◌-◌, Bool, ◌&&◌, ◌||◌, ◌==◌, nat_eq, list_eq, Option, some, none, List,
  [], ◌∷◌, ◌++◌, length, leb, ltb, if◌then◌else◌, Result, ok, err, of_option, ◌>>=◌, take, drop,
  dedupe,
}
use blast_radius.Python.{codes, lstrip, strip, starts_with}

abbrev pub Text : Type 0
Text = List ℕ

-- `ExpressionError`, one for each `raise`; `out_of_fuel` has no counterpart.
pub data Error : Type 0 where
  node_budget nesting_budget unexpected_end key_not_identifier unterminated_string : Error
  expected unexpected_token : ℕ → Error
  invalid_escape invalid_unicode_escape invalid_code_point unterminated_template : Error
  invalid_number unterminated_call size_budget trailing_content out_of_fuel : Error

-- `_Reader`, with the reasons of the problems.
pub record Reader : Type 0 where
  pub text : Text
  pub problems : List Text
  pub nodes : ℕ

abbrev pub Read {ℓ} : Type ℓ → Type ℓ
Read A = Result Error (A × Reader)

abbrev pub max_expr_nodes : ℕ
max_expr_nodes = 2000

abbrev pub max_expr_depth : ℕ
max_expr_depth = 64

abbrev pub max_reason_length : ℕ
max_reason_length = 120

abbrev pub max_expr_chars : ℕ
max_expr_chars = 131072

-- `self.problems.append(Unresolved(reason))`
abbrev pub note : Text → Reader → Reader
note reason r = record r { problems = r.problems ++ take max_reason_length reason ∷ [] }

abbrev pub at : Text → Reader → Reader
at text r = record r { text = text }

abbrev pub drop_one : Text → Text
drop_one [] = []
drop_one (c ∷ s) = s

abbrev pub skip_ws : Reader → Reader
skip_ws r = record r { text = lstrip r.text }

-- the longest front of a text whose members pass, and the rest
unfoldable pub span : (ℕ → Bool) → Text → Text × Text
span p [] = ([], [])
span p (c ∷ s) =
    let rest = span p s in if◌then◌else◌ {A = Text × Text} (p c) (c ∷ rest.0, rest.1) ([], c ∷ s)

abbrev pub is_digit : ℕ → Bool
is_digit c = leb b'0' c && leb c b'9'

abbrev pub is_head : ℕ → Bool
is_head c = leb b'A' c && leb c b'Z' || leb b'a' c && leb c b'z' || c == b'_'

abbrev pub is_word : ℕ → Bool
is_word c = is_head c || is_digit c

-- `_IDENTIFIER.match(text)`, with the rest
unfoldable pub identifier : Text → Option (Text × Text)
unfolding span
identifier [] = none
identifier (c ∷ s) =
    let more = some (c ∷ (span is_word s).0, (span is_word s).1) in if is_head c then more else none

abbrev pub closing : Text → Text → Option (Text × Text)
closing [] rest = none
closing (d ∷ ds) [] = none
closing (d ∷ ds) (c ∷ rest) = if c == b']' then some (b'[' ∷ d ∷ ds ++ b']' ∷ [], rest) else none

abbrev pub dotted : Option (Text × Text) → Option (Text × Text)
dotted none = none
dotted (some (name, rest)) = some (b'.' ∷ name, rest)

-- `_TRAVERSAL_TAIL.match(text)`, with the rest
unfoldable pub tail_match : Text → Option (Text × Text)
unfolding identifier span
tail_match [] = none
tail_match (c ∷ s) =
    if c == b'.'
    then dotted (identifier s)
    else if c == b'['
    then closing (span is_digit s).0 (span is_digit s).1
    else none

abbrev pub tailed : (Text → Text → Text × Text) → Text → Text → Option (Text × Text) → Text × Text
tailed next head s none = (head, s)
tailed next head s (some (part, rest)) = next part rest

-- The loop of `_read_traversal`, with a turn for each code point that is left.
unfoldable pub traversal_from : ℕ → Text → Text → Text × Text
unfolding tail_match
traversal_from zero head s = (head, s)
traversal_from (suc turns) head s =
    tailed (λ part rest. traversal_from turns (head ++ part) rest) head s (tail_match s)

-- `_read_traversal`
unfoldable pub read_traversal : Text → Text → Text × Text
unfolding traversal_from
read_traversal head s = traversal_from (length s) head s

abbrev pub expected_at : ℕ → Reader → Text → Result Error Reader
expected_at token r [] = err (expected token)
expected_at token r (c ∷ s) = if c == token then ok (at s r) else err (expected token)

-- `_expect`
unfoldable pub expect : ℕ → Reader → Result Error Reader
unfolding lstrip
expect token r = expected_at token r (lstrip r.text)

abbrev pub hex_value : ℕ → Option ℕ
hex_value c =
    if is_digit c
    then some (c - b'0')
    else if leb b'a' c && leb c b'f'
    then some (c - b'a' + 10)
    else if leb b'A' c && leb c b'F'
    then some (c - b'A' + 10)
    else none

abbrev pub with_digit : (ℕ → Option (ℕ × Text)) → Option ℕ → Option (ℕ × Text)
with_digit next none = none
with_digit next (some d) = next d

-- `int(digits, 16)` of the first `width` code points, with the rest; none where these are too few or
-- no such digits.
unfoldable pub hex : ℕ → ℕ → Text → Option (ℕ × Text)
hex zero n s = some (n, s)
hex (suc width) n [] = none
hex (suc width) n (c ∷ s) = with_digit (λ d. hex width (n * 16 + d) s) (hex_value c)

abbrev pub code_point : Option (ℕ × Text) → Result Error (ℕ × Text)
code_point none = err invalid_unicode_escape
code_point (some (n, s)) =
    if ltb 0x10FFFF n || leb 0xD800 n && leb n 0xDFFF then err invalid_code_point else ok (n, s)

-- `_read_escape`
unfoldable pub read_escape : Text → Result Error (ℕ × Text)
unfolding hex
read_escape [] = err invalid_escape
read_escape (c ∷ s) =
    if c == b'n'
    then ok (10, s)
    else if c == b't'
    then ok (9, s)
    else if c == b'r'
    then ok (13, s)
    else if c == 34
    then ok (34, s)
    else if c == 92
    then ok (92, s)
    else if c == b'u'
    then code_point (hex 4 0 s)
    else if c == b'U'
    then code_point (hex 8 0 s)
    else err invalid_escape

abbrev pub longer : ℕ → Option (Text × Text) → Option (Text × Text)
longer c none = none
longer c (some (body, after)) = some (c ∷ body, after)

-- The text before the first closing brace, and after it.
unfoldable pub to_brace : Text → Option (Text × Text)
to_brace [] = none
to_brace (c ∷ s) = let rest = longer c (to_brace s) in if c == b'}' then some ([], s) else rest

-- A `PolicyString`: its text and its addresses.
abbrev pub Quoted : Type 0
Quoted = Text × List Text

abbrev pub marks : ℕ → Bool
marks c = c == b'$' || c == b'%'

module _ (is_traversal : Text → Bool) (traversal_addresses : Text → List Text) where
  -- What `_read_template` returns, with the addresses, of the body between the braces.
  unfoldable pub template : ℕ → Text → Reader → Text × List Text × Reader
  template marker body r =
      if marker == b'$' && is_traversal body
      then (codes "${" ++ body ++ codes "}", traversal_addresses body, r)
      else if marker == b'%'
      then ([], [], note (codes "unresolved template directive") r)
      else ([], [], note (codes "unresolved interpolation '" ++ take 60 body ++ codes "'") r)

  -- The loop of `_read_string` over what is left of the text, with a turn for each code point.
  unfoldable pub read_chars : ℕ → Text → List Text → Text → Reader → Read Quoted
  unfolding read_escape to_brace template strip starts_with
  read_chars zero out addresses s r = err unterminated_string
  read_chars (suc turns) out addresses [] r = err unterminated_string
  read_chars (suc turns) out addresses (c ∷ s) r =
      let escape =
        read_escape s >>= λ (d, rest). read_chars turns (out ++ d ∷ []) addresses rest r in
      let literal = read_chars turns (out ++ c ∷ b'{' ∷ []) addresses (drop 2 s) r in
      let filled = of_option unterminated_template (to_brace (drop 1 s)) >>= λ (body, rest).
      let (piece, more, r') = template c (strip body) r in
      read_chars turns (out ++ piece) (addresses ++ more) rest r' in
      let plain = read_chars turns (out ++ c ∷ []) addresses s r in
      if c == 34
      then ok ((out, dedupe addresses), at s r)
      else if c == 92
      then escape
      else if marks c && starts_with s (c ∷ b'{' ∷ [])
      then literal
      else if marks c && starts_with s (b'{' ∷ [])
      then filled
      else plain

  -- `_read_string`
  unfoldable pub read_string : Reader → Read Quoted
  unfolding expect read_chars
  read_string r = do r' ← expect 34 r; read_chars (length r'.text) [] [] r'.text r'

  -- The loop of `_skip_call` over what is left of the text, with a turn for each code point.
  unfoldable pub skip_from : ℕ → ℕ → Text → Reader → Result Error Reader
  unfolding read_string
  skip_from zero depth s r = err unterminated_call
  skip_from (suc turns) depth [] r = err unterminated_call
  skip_from (suc turns) depth (c ∷ s) r =
      let quoted = read_string (at (c ∷ s) r) >>= λ (q, r'). skip_from turns depth r'.text r' in
      let deeper = skip_from turns (depth + 1) s r in
      let shallower = skip_from turns (depth - 1) s r in
      let higher = if depth - 1 == 0 then ok (at s r) else shallower in
      let plain = skip_from turns depth s r in
      if c == 34 then quoted else if c == b'(' then deeper else if c == b')' then higher else plain

  -- `_skip_call`
  unfoldable pub skip_call : Reader → Result Error Reader
  unfolding expect skip_from
  skip_call r = do r' ← expect b'(' r; skip_from (length r'.text) 1 r'.text r'
