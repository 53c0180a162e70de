-- ===== src/Expression/Leaves.antt =====
-- What is written of a value that is no list and no object reads back.
use blast_radius.Base.{
  ℕ, ◌+◌, ◌≤◌, ◌<◌, ◌≡◌, refl, sym, subst, ap, ◌∙◌, Bool, true, false, ◌==◌, ==_iff, nat_eq,
  list_eq, List, [], ◌∷◌, ◌++◌, ok, arith, Bool-cases, inl, inr, all, is_empty, lt→ltb, le→leb,
  and-eq-true,
}
use blast_radius.Python.{codes, lstrip}
use mathlib.Core.List.{append-nil}
use blast_radius.Expression.Lexer.{Text, Reader, is_digit, span, read_string, Read}
use blast_radius.Expression.Reader.{
  Datum, null, bool, number, policy_string, list, object, read_number, minus, fraction, exponent,
  of_number, of_string, read_leaf, read_at, open_value,
}
use blast_radius.Expression.Quoted.{quote, quote_body, read_string-quote}
use blast_radius.Expression.Written.{write, IsPlain, stops, span-digits}

abbrev pub reader : Text → List Text → ℕ → Reader
reader t ps n = record { text = t; problems = ps; nodes = n }

abbrev pub is_leaf : Datum → Bool
is_leaf (list vs) = false
is_leaf (object es) = false
is_leaf _ = true

number-parts :
    (t s rest : Text)
    → minus t ≡ ([], t)
    → span is_digit t ≡ (s, rest)
    → fraction rest ≡ ([], rest)
    → exponent rest ≡ ([], rest)
    → is_empty s ≡ false
    → read_number t ≡ ok (s, rest)
unfolding read_number
number-parts t s rest e f g h k =
    rw (e, f, g, h, k) (ap (λ u. ok (u, rest)) (append-nil (s ++ []) ∙ append-nil s))

fraction-stops : (rest : Text) → stops rest ≡ true → fraction rest ≡ ([], rest)
fraction-stops [] h = refl
fraction-stops (c ∷ rest) h = rw ((==_iff c b',').0 h) refl

exponent-stops : (rest : Text) → stops rest ≡ true → exponent rest ≡ ([], rest)
exponent-stops [] h = refl
exponent-stops (c ∷ rest) h = rw ((==_iff c b',').0 h) refl

-- A digit is none of the marks.
digit_ne : (c m : ℕ) → is_digit c ≡ true → is_digit m ≡ false → (c == m) ≡ false
digit_ne c m h k = elim (Bool-cases (c == m)) [
  | inl e ↦
      absurd (let f : is_digit m ≡ true = subst (λ x. is_digit x ≡ true) ((==_iff c m).0 e) h in cc)
  | inr e ↦ e
]

number-digits :
    (c : ℕ) (s rest : Text)
    → all is_digit (c ∷ s) ≡ true
    → stops rest ≡ true
    → read_number (c ∷ s ++ rest) ≡ ok (c ∷ s, rest)
number-digits c s rest h m =
    number-parts (c ∷ s ++ rest) (c ∷ s) rest
      (rw (digit_ne c b'-' (and-eq-true (is_digit c) (all is_digit s) h).0 refl) refl)
      (span-digits (c ∷ s) rest h m) (fraction-stops rest m) (exponent-stops rest m) refl

module _ (is_traversal : Text → Bool) (traversal_addresses : Text → List Text) where
  pub opened :
      (d : ℕ) (t : Text) (ps : List Text) (n : ℕ)
      → n < 2000
      → d ≤ 64
      → lstrip t ≡ t
      → open_value d (reader t ps n) ≡ ok (reader t ps (n + 1))
  unfolding open_value
  opened d t ps n h k e = rw (lt→ltb n 2000 h, le→leb d 64 k, e) refl

  null-read :
      (rest : Text) (ps : List Text) (n : ℕ)
      → stops rest ≡ true
      → read_leaf is_traversal traversal_addresses b'n' (reader (codes "null" ++ rest) ps n)
        ≡ ok (null, reader rest ps n)
  unfolding read_leaf
  null-read [] ps n h = refl
  null-read (c ∷ rest) ps n h = rw ((==_iff c b',').0 h) refl

  true-read :
      (rest : Text) (ps : List Text) (n : ℕ)
      → stops rest ≡ true
      → read_leaf is_traversal traversal_addresses b't' (reader (codes "true" ++ rest) ps n)
        ≡ ok (bool true, reader rest ps n)
  unfolding read_leaf
  true-read [] ps n h = refl
  true-read (c ∷ rest) ps n h = rw ((==_iff c b',').0 h) refl

  false-read :
      (rest : Text) (ps : List Text) (n : ℕ)
      → stops rest ≡ true
      → read_leaf is_traversal traversal_addresses b'f' (reader (codes "false" ++ rest) ps n)
        ≡ ok (bool false, reader rest ps n)
  unfolding read_leaf
  false-read [] ps n h = refl
  false-read (c ∷ rest) ps n h = rw ((==_iff c b',').0 h) refl

  digit-leaf :
      (c : ℕ) (r : Reader)
      → is_digit c ≡ true
      → read_leaf is_traversal traversal_addresses c r ≡ of_number r (read_number r.text)
  unfolding read_leaf
  digit-leaf c r h = rw (digit_ne c 34 h refl, h) refl

  quote-leaf :
      (r : Reader)
      → read_leaf is_traversal traversal_addresses 34 r
        ≡ of_string (read_string is_traversal traversal_addresses r)
  unfolding read_leaf
  quote-leaf r = refl

  module _ (as_object as_list : Text → Read Datum) where
    abbrev reads_at : Text → Reader → Read Datum
    reads_at = read_at is_traversal traversal_addresses as_object as_list

    at-leaf :
        (c : ℕ) (s : Text) (r : Reader)
        → (c == b'{') ≡ false
        → (c == b'[') ≡ false
        → reads_at (c ∷ s) r ≡ read_leaf is_traversal traversal_addresses c r
    unfolding read_at
    at-leaf c s r h k = rw (h, k) refl

    pub at-write :
        (v : Datum) (rest : Text) (ps : List Text) (n : ℕ)
        → IsPlain v
        → is_leaf v ≡ true
        → stops rest ≡ true
        → reads_at (write v ++ rest) (reader (write v ++ rest) ps n) ≡ ok (v, reader rest ps n)
    unfolding write
    at-write null rest ps n p l h = at-leaf b'n' _ _ refl refl ∙ null-read rest ps n h
    at-write (bool true) rest ps n p l h = at-leaf b't' _ _ refl refl ∙ true-read rest ps n h
    at-write (bool false) rest ps n p l h = at-leaf b'f' _ _ refl refl ∙ false-read rest ps n h
    at-write (number []) rest ps n p l h = absurd (omega arith)
    at-write (number (c ∷ s)) rest ps n p l h =
        let d = (and-eq-true (is_digit c) (all is_digit s) p.0).0 in
        at-leaf c (s ++ rest) (reader (c ∷ s ++ rest) ps n) (digit_ne c b'{' d refl)
          (digit_ne c b'[' d refl)
        ∙ digit-leaf c (reader (c ∷ s ++ rest) ps n) d
        ∙ ap (of_number (reader (c ∷ s ++ rest) ps n)) (number-digits c s rest p.0 h)
    at-write (policy_string s addresses) rest ps n p l h =
        at-leaf 34 (quote_body s ++ rest) (reader (quote s ++ rest) ps n) refl refl
        ∙ quote-leaf (reader (quote s ++ rest) ps n)
        ∙ ap of_string (
            read_string-quote is_traversal traversal_addresses s rest
              (reader (quote s ++ rest) ps n) refl)
        ∙ ap (λ xs. ok (policy_string s xs, reader rest ps n)) (sym p)
    at-write (list vs) rest ps n p l h = cc
    at-write (object es) rest ps n p l h = cc
