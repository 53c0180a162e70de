-- ===== src/Expression/Reader.antt =====
-- `read_value` of `_Reader`, its objects and lists, and `evaluate_expression`.
use blast_radius.Base.{
  ℕ, zero, suc, ◌+◌, ◌*◌, Bool, true, false, not, ◌&&◌, ◌||◌, ◌==◌, nat_eq, list_eq, Option, some,
  none, List, [], ◌∷◌, ◌++◌, length, is_empty, leb, ltb, if◌then◌else◌, Result, ok, err, guard,
  ◌>>=◌, ◌>>◌,
}
use blast_radius.Python.{codes, lstrip, starts_with}
use blast_radius.Expression.Lexer.{
  Text, Error, node_budget, nesting_budget, unexpected_end, key_not_identifier, unexpected_token,
  invalid_number, size_budget, trailing_content, out_of_fuel, Reader, Read, Quoted, max_expr_nodes,
  max_expr_depth, max_expr_chars, note, at, drop_one, skip_ws, span, is_digit, identifier,
  read_traversal, expect, read_string, skip_call,
}

-- What an expression evaluates to; a number is kept as its text.
mutual
  pub data Datum : Type 0 where
    null : Datum
    bool : Bool → Datum
    number : Text → Datum
    policy_string : Text → List Text → Datum
    list : Data → Datum
    object : Entries → Datum

  pub data Data : Type 0 where
    nil : Data
    cons : Datum → Data → Data

  pub data Entries : Type 0 where
    end : Entries
    entry : Text → Datum → Entries → Entries

-- `result.append(value)`
unfoldable pub append : Data → Datum → Data
append nil v = cons v nil
append (cons w ws) v = cons w (append ws v)

-- `result[key] = value`: a key that is there keeps its place.
unfoldable pub set : Text → Datum → Entries → Entries
set key v end = entry key v end
set key v (entry k w es) =
    let rest = entry k w (set key v es) in if k == key then entry key v es else rest

-- A front of a text, where it is one of the digits that must be there.
abbrev pub fraction : Text → Text × Text
fraction [] = ([], [])
fraction (c ∷ s) =
    let digits = span is_digit s in
    if◌then◌else◌ {A = Text × Text} (c == b'.' && not (is_empty digits.0)) (c ∷ digits.0, digits.1)
      ([], c ∷ s)

abbrev pub sign : Text → Text × Text
sign [] = ([], [])
sign (c ∷ s) = if◌then◌else◌ {A = Text × Text} (c == b'+' || c == b'-') (c ∷ [], s) ([], c ∷ s)

abbrev pub exponent : Text → Text × Text
exponent [] = ([], [])
exponent (c ∷ s) =
    let signed = sign s in
    let digits = span is_digit signed.1 in
    if◌then◌else◌ {A = Text × Text} ((c == b'e' || c == b'E') && not (is_empty digits.0))
      (c ∷ signed.0 ++ digits.0, digits.1) ([], c ∷ s)

abbrev pub minus : Text → Text × Text
minus [] = ([], [])
minus (c ∷ s) = if◌then◌else◌ {A = Text × Text} (c == b'-') (c ∷ [], s) ([], c ∷ s)

-- `_read_number`, with the rest
unfoldable pub read_number : Text → Result Error (Text × Text)
unfolding span
read_number s =
    let before = minus s in
    let whole = span is_digit before.1 in
    let part = fraction whole.1 in
    let power = exponent part.1 in
    if is_empty whole.0
    then err invalid_number
    else ok (before.0 ++ whole.0 ++ part.0 ++ power.0, power.1)

abbrev pub peek_is : ℕ → Text → Bool
peek_is c [] = false
peek_is c (d ∷ s) = d == c

-- `if self._peek() == ",": ...`
abbrev pub skip_comma : Reader → Reader
skip_comma r = if peek_is b',' r.text then at (drop_one r.text) r else r

abbrev pub of_string : Read Quoted → Read Datum
of_string q = q >>= λ (p, r). ok (policy_string p.0 p.1, r)

abbrev pub of_number : Reader → Result Error (Text × Text) → Read Datum
of_number r p = p >>= λ (token, rest). ok (number token, at rest r)

abbrev pub read_bare : Option (Text × Text) → Reader → Read Text
read_bare none r = err key_not_identifier
read_bare (some (key, rest)) r = ok (key, at rest r)

abbrev pub key_of : Read Quoted → Read Text
key_of q = q >>= λ (p, r). ok (p.0, r)

-- `_node`, the budget of nesting, and the blanks before a value.
unfoldable pub open_value : ℕ → Reader → Result Error Reader
unfolding lstrip
open_value depth r = do
  guard (ltb r.nodes max_expr_nodes) node_budget
  guard (leb depth max_expr_depth) nesting_budget
  ok (skip_ws (record r { nodes = r.nodes + 1 }))

abbrev pub at_end : Datum × Reader → Result Error (Datum × List Text)
at_end (v, r) = if is_empty (lstrip r.text) then ok (v, r.problems) else err trailing_content

module _ (is_traversal : Text → Bool) (traversal_addresses : Text → List Text) where
  -- What follows an identifier that is no literal.
  unfoldable pub read_reference : Text → Reader → Read Datum
  unfolding skip_call read_traversal starts_with lstrip
  read_reference name r =
      let r' = skip_ws r in
      let call = skip_call is_traversal traversal_addresses r' >>= λ r''.
      ok (null, note (codes "unsupported function '" ++ name ++ codes "'") r'') in
      let (traversal, rest) = read_traversal name r'.text in
      if peek_is b'(' r'.text
      then call
      else if starts_with traversal (codes "aws_")
      then ok (
        policy_string (codes "${" ++ traversal ++ codes "}") (traversal_addresses traversal),
        at rest r',
      )
      else ok (null, note (codes "unresolved reference '" ++ traversal ++ codes "'") (at rest r'))

  abbrev pub read_name : ℕ → Option (Text × Text) → Reader → Read Datum
  read_name c none r = err (unexpected_token c)
  read_name c (some (name, rest)) r =
      if name == codes "true"
      then ok (bool true, at rest r)
      else if name == codes "false"
      then ok (bool false, at rest r)
      else if name == codes "null"
      then ok (null, at rest r)
      else read_reference name (at rest r)

  -- The values that `read_value` reads without calling itself, from the code point `c`.
  unfoldable pub read_leaf : ℕ → Reader → Read Datum
  unfolding read_string read_number read_reference identifier
  read_leaf c r =
      if c == 34
      then of_string (read_string is_traversal traversal_addresses r)
      else if is_digit c || c == b'-'
      then of_number r (read_number r.text)
      else read_name c (identifier r.text) r

  -- The key of an entry.
  unfoldable pub read_key : Reader → Read Text
  unfolding read_string identifier
  read_key r =
      if peek_is 34 r.text
      then key_of (read_string is_traversal traversal_addresses r)
      else read_bare (identifier r.text) r

  -- A value by its first code point, given what reads an object and a list after it.
  unfoldable pub read_at : (Text → Read Datum) → (Text → Read Datum) → Text → Reader → Read Datum
  unfolding read_leaf
  read_at as_object as_list [] r = err unexpected_end
  read_at as_object as_list (c ∷ s) r =
      if c == b'{' then as_object s else if c == b'[' then as_list s else read_leaf c r

  -- Each call costs a unit of fuel.
  unfoldable mutual
    unfolding open_value read_at read_key expect lstrip

    pub read_value : ℕ → ℕ → Reader → Read Datum
    read_value zero depth r = err out_of_fuel
    read_value (suc fuel) depth r = open_value depth r >>= λ r'.
        read_at (λ s. read_object fuel depth end (at s r'))
          (λ s. read_list fuel depth nil (at s r')) r'.text r'

    -- The loop of `_read_object`, after its brace.
    pub read_object : ℕ → ℕ → Entries → Reader → Read Datum
    read_object zero depth entries r = err out_of_fuel
    read_object (suc fuel) depth entries r =
        let r0 = skip_ws r in
        let more = do
          (key, r1) ← read_key r0
          r2 ← expect b'=' r1
          (v, r3) ← read_value fuel (depth + 1) r2
          read_object fuel depth (set key v entries) (skip_comma (skip_ws r3))
        in if peek_is b'}' r0.text then ok (object entries, at (drop_one r0.text) r0) else more

    -- The loop of `_read_list`, after its bracket.
    pub read_list : ℕ → ℕ → Data → Reader → Read Datum
    read_list zero depth items r = err out_of_fuel
    read_list (suc fuel) depth items r =
        let r0 = skip_ws r in
        let more = do
          (v, r1) ← read_value fuel (depth + 1) r0
          read_list fuel depth (append items v) (skip_comma (skip_ws r1))
        in if peek_is b']' r0.text then ok (list items, at (drop_one r0.text) r0) else more

  -- `evaluate_expression`: the value and the reasons of the problems, on fuel that is enough.
  unfoldable pub evaluate_expression : Text → Result Error (Datum × List Text)
  unfolding read_value
  evaluate_expression text =
      if ltb max_expr_chars (length text)
      then err size_budget
      else read_value (2 * length text + 2) 0 (record { text = text; problems = []; nodes = 0 })
        >>= at_end
