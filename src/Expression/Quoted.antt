-- ===== src/Expression/Quoted.antt =====
-- A string as it is written in an expression, and that it reads back.
use blast_radius.Base.{
  ℕ, zero, suc, ◌≤◌, ◌<◌, ◌≡◌, refl, ap, ◌∙◌, Bool, false, ◌==◌, ==_iff, nat_eq, List, [], ◌∷◌,
  ◌++◌, length, length-append, if◌then◌else◌, ok, arith, Bool-cases, inl, inr,
}
use blast_radius.Python.{codes}
use mathlib.Core.List.{append_assoc, append-nil}
use blast_radius.Expression.Lexer.{Text, Reader, at, read_chars, read_string}

-- A code point that has a meaning in a string is escaped.
abbrev pub quote_char : ℕ → Text
quote_char c =
    if c == 34
    then 92 ∷ 34 ∷ []
    else if c == 92
    then 92 ∷ 92 ∷ []
    else if c == b'$'
    then codes "\\u0024"
    else if c == b'%'
    then codes "\\u0025"
    else c ∷ []

unfoldable pub quote_body : Text → Text
quote_body [] = 34 ∷ []
quote_body (c ∷ s) = quote_char c ++ quote_body s

abbrev pub quote : Text → Text
quote s = 34 ∷ quote_body s

length-quote_char : (c : ℕ) → 0 < length (quote_char c)
length-quote_char c = ground arith

module _ (is_traversal : Text → Bool) (traversal_addresses : Text → List Text) where
  plain_char :
      (turns c : ℕ) (out s : Text) (r : Reader)
      → (c == 34) ≡ false
      → (c == 92) ≡ false
      → (c == b'$') ≡ false
      → (c == b'%') ≡ false
      → read_chars is_traversal traversal_addresses (suc turns) out [] (c ∷ s) r
        ≡ read_chars is_traversal traversal_addresses turns (out ++ c ∷ []) [] s r
  unfolding read_chars
  plain_char turns c out s r e f g h = rw (e, f, g, h) refl

  char-quote_char :
      (turns c : ℕ) (out s : Text) (r : Reader)
      → read_chars is_traversal traversal_addresses (suc turns) out [] (quote_char c ++ s) r
        ≡ read_chars is_traversal traversal_addresses turns (out ++ c ∷ []) [] s r
  unfolding read_chars
  char-quote_char turns c out s r = elim (Bool-cases (c == 34)) [
    | inl e ↦ rw ((==_iff c 34).0 e) refl
    | inr e ↦ elim (Bool-cases (c == 92)) [
      | inl f ↦ rw ((==_iff c 92).0 f) refl
      | inr f ↦ elim (Bool-cases (c == b'$')) [
        | inl g ↦ rw ((==_iff c b'$').0 g) refl
        | inr g ↦ elim (Bool-cases (c == b'%')) [
          | inl h ↦ rw ((==_iff c b'%').0 h) refl
          | inr h ↦
              ap (λ t. read_chars is_traversal traversal_addresses (suc turns) out [] (t ++ s) r)
                (let k : quote_char c ≡ c ∷ [] = rw (e, f, g, h) refl in k)
              ∙ plain_char turns c out s r e f g h
        ]
      ]
    ]
  ]

  chars-quote_body :
      (turns : ℕ) (out s rest : Text) (r : Reader)
      → length (quote_body s) ≤ turns
      → read_chars is_traversal traversal_addresses turns out [] (quote_body s ++ rest) r
        ≡ ok ((out ++ s, []), at rest r)
  unfolding quote_body
  chars-quote_body zero out [] rest r h = absurd (omega arith)
  chars-quote_body (suc turns) out [] rest r h = unfold read_chars in rw append-nil refl
  chars-quote_body zero out (c ∷ s) rest r h =
      absurd (omega (arith, length-append (quote_char c) (quote_body s), length-quote_char c))
  chars-quote_body (suc turns) out (c ∷ s) rest r h =
      rw (append_assoc (quote_char c) (quote_body s) rest) (
        char-quote_char turns c out (quote_body s ++ rest) r
        ∙ chars-quote_body turns (out ++ c ∷ []) s rest r
            (omega (arith, length-append (quote_char c) (quote_body s), length-quote_char c))
        ∙ rw append_assoc refl)

  -- A quoted string reads back, with nothing but what follows left.
  pub read_string-quote :
      (s rest : Text) (r : Reader)
      → r.text ≡ quote s ++ rest
      → read_string is_traversal traversal_addresses r ≡ ok ((s, []), at rest r)
  unfolding read_string
  read_string-quote s rest r e = rw e (
      chars-quote_body (length (quote_body s ++ rest)) [] s rest (at (quote_body s ++ rest) r)
        (omega (arith, length-append (quote_body s) rest)))
