-- ===== src/Expression/Shrinks.antt =====
-- What a run ensures that does not lack fuel, and that what is read of a text leaves less of it.
use blast_radius.Base.{
  ℕ, zero, suc, ◌+◌, ◌*◌, ◌≤◌, ◌<◌, ◌≡◌, refl, Bool, true, false, ◌&&◌, ◌||◌, ◌==◌, nat_eq, list_eq,
  Option, some, none, [], ◌∷◌, ◌++◌, length, leb, ltb, if◌then◌else◌, Result, ok, err, ◌>>=◌,
  of_option, arith, Bool-cases, inl, inr,
}
use blast_radius.Python.{lstrip}
use blast_radius.Expression.Lexer.{
  Text, Error, out_of_fuel, unterminated_template, Reader, span, is_digit, is_head, is_word,
  identifier, tail_match, closing, dotted, traversal_from, read_traversal, expect, expected_at, hex,
  hex_value, with_digit, tailed, code_point, read_escape, to_brace, longer,
}

-- The run does not lack fuel, and `P` holds of what it gives.
abbrev pub Ensures : {A : Type 0} → (A → Type 0) → Result Error A → Type 0
Ensures P (ok a) = P a
Ensures P (err out_of_fuel) = ⊥
Ensures P (err _) = Unit

pub Ensures-bind :
    {A B : Type 0} (P : A → Type 0) (Q : B → Type 0) (m : Result Error A) (f : A → Result Error B)
    → Ensures P m
    → ((a : A) → P a → Ensures Q (f a))
    → Ensures Q (m >>= f)
Ensures-bind P Q (ok a) f h k = k a h
Ensures-bind P Q (err out_of_fuel) f h k = absurd h
Ensures-bind P Q (err _) f h k = tt

pub lstrip-le : (s : Text) → length (lstrip s) ≤ length s
unfolding lstrip
lstrip-le [] = omega arith
lstrip-le (c ∷ s) = ground (arith, lstrip-le s)

pub span-le : (p : ℕ → Bool) (s : Text) → length (span p s).1 ≤ length s
unfolding span
span-le p [] = omega arith
span-le p (c ∷ s) = ground (arith, span-le p s)

-- What is left after a match is shorter than `n`.
abbrev pub IsSmaller : ℕ → Option (Text × Text) → Type 0
IsSmaller n none = Unit
IsSmaller n (some (found, rest)) = length rest < n

pub identifier-IsSmaller : (s : Text) → IsSmaller (length s) (identifier s)
unfolding identifier
identifier-IsSmaller [] = tt
identifier-IsSmaller (c ∷ s) = elim (Bool-cases (is_head c)) [
  | inl e ↦ rw e (omega (arith, span-le is_word s))
  | inr e ↦ rw e tt
]

pub dotted-IsSmaller :
    (n : ℕ) (o : Option (Text × Text)) → IsSmaller n o → IsSmaller (suc n) (dotted o)
dotted-IsSmaller n none h = tt
dotted-IsSmaller n (some (name, rest)) h = omega arith

pub closing-IsSmaller : (ds rest : Text) → IsSmaller (suc (length rest)) (closing ds rest)
closing-IsSmaller [] rest = tt
closing-IsSmaller (d ∷ ds) [] = tt
closing-IsSmaller (d ∷ ds) (c ∷ rest) = elim (Bool-cases (c == b']')) [
  | inl e ↦ rw e (omega arith)
  | inr e ↦ rw e tt
]

pub widen : (n m : ℕ) (o : Option (Text × Text)) → n ≤ m → IsSmaller n o → IsSmaller m o
widen n m none h k = tt
widen n m (some (found, rest)) h k = omega arith

pub tail_match-IsSmaller : (s : Text) → IsSmaller (length s) (tail_match s)
unfolding tail_match
tail_match-IsSmaller [] = tt
tail_match-IsSmaller (c ∷ s) = elim (Bool-cases (c == b'.')) [
  | inl e ↦ rw e (dotted-IsSmaller (length s) (identifier s) (identifier-IsSmaller s))
  | inr e ↦ elim (Bool-cases (c == b'[')) [
    | inl f ↦
        rw (e, f)
          (widen (suc (length (span is_digit s).1)) (suc (length s))
            (closing (span is_digit s).0 (span is_digit s).1) (omega (arith, span-le is_digit s))
            (closing-IsSmaller (span is_digit s).0 (span is_digit s).1))
    | inr f ↦ rw (e, f) tt
  ]
]

pub traversal_from-le :
    (turns : ℕ) (head s : Text) → length (traversal_from turns head s).1 ≤ length s
unfolding traversal_from
traversal_from-le zero head s = omega arith
traversal_from-le (suc turns) head s =
    go (tail_match s) (tail_match-IsSmaller s)
      (λ part rest. traversal_from-le turns (head ++ part) rest)
  where
    go :
        (o : Option (Text × Text))
        → IsSmaller (length s) o
        → ((part rest : Text) → length (traversal_from turns (head ++ part) rest).1 ≤ length rest)
        → length (tailed (λ part rest. traversal_from turns (head ++ part) rest) head s o).1
          ≤ length s
    go none h k = omega arith
    go (some (part, rest)) h k = omega (arith, k part rest)

pub read_traversal-le : (head s : Text) → length (read_traversal head s).1 ≤ length s
unfolding read_traversal
read_traversal-le head s = traversal_from-le (length s) head s

-- Less than `n` is left, and `m` nodes are counted.
abbrev pub Shorter : ℕ → ℕ → Reader → Type 0
Shorter n m r = (length r.text < n) × (r.nodes ≡ m)

abbrev pub Less : {A : Type 0} → ℕ → ℕ → A × Reader → Type 0
Less n m (a, r) = (length r.text < n) × (r.nodes ≡ m)

pub expected_at-Ensures :
    (token : ℕ) (r : Reader) (s : Text)
    → Ensures (Shorter (length s) r.nodes) (expected_at token r s)
expected_at-Ensures token r [] = tt
expected_at-Ensures token r (c ∷ s) = elim (Bool-cases (c == token)) [
  | inl e ↦ rw e (omega arith, refl)
  | inr e ↦ rw e tt
]

pub Ensures-weaken :
    {A : Type 0} (P Q : A → Type 0) (m : Result Error A)
    → ((a : A) → P a → Q a)
    → Ensures P m
    → Ensures Q m
Ensures-weaken P Q (ok a) h k = h a k
Ensures-weaken P Q (err out_of_fuel) h k = k
Ensures-weaken P Q (err _) h k = tt

pub expect-Ensures :
    (token : ℕ) (r : Reader) → Ensures (Shorter (length r.text) r.nodes) (expect token r)
unfolding expect
expect-Ensures token r =
    Ensures-weaken (Shorter (length (lstrip r.text)) r.nodes) (Shorter (length r.text) r.nodes)
      (expected_at token r (lstrip r.text)) (λ r' h. (omega (arith, lstrip-le r.text), h.1))
      (expected_at-Ensures token r (lstrip r.text))

abbrev pub IsLeft : ℕ → Option (ℕ × Text) → Type 0
IsLeft n none = Unit
IsLeft n (some (m, rest)) = length rest ≤ n

pub looser : (n : ℕ) (o : Option (ℕ × Text)) → IsLeft n o → IsLeft (suc n) o
looser n none h = tt
looser n (some (m, rest)) h = omega arith

pub hex-IsLeft : (width n : ℕ) (s : Text) → IsLeft (length s) (hex width n s)
unfolding hex
hex-IsLeft zero n s = omega arith
hex-IsLeft (suc width) n [] = tt
hex-IsLeft (suc width) n (c ∷ s) = go (hex_value c) (λ d. hex-IsLeft width (n * 16 + d) s)
  where
    go :
        (o : Option ℕ)
        → ((d : ℕ) → IsLeft (length s) (hex width (n * 16 + d) s))
        → IsLeft (suc (length s)) (with_digit (λ d. hex width (n * 16 + d) s) o)
    go none h = tt
    go (some d) h = looser (length s) (hex width (n * 16 + d) s) (h d)

pub code_point-Ensures :
    (n : ℕ) (o : Option (ℕ × Text)) → IsLeft n o → Ensures (λ p. length p.1 ≤ suc n) (code_point o)
code_point-Ensures n none h = tt
code_point-Ensures n (some (m, s)) h =
    elim (Bool-cases (ltb 0x10FFFF m || leb 0xD800 m && leb m 0xDFFF)) [
      | inl e ↦ rw e tt
      | inr e ↦ rw e (omega arith)
    ]

pub to_brace-IsSmaller : (s : Text) → IsSmaller (length s) (to_brace s)
unfolding to_brace
to_brace-IsSmaller [] = tt
to_brace-IsSmaller (c ∷ s) = elim (Bool-cases (c == b'}')) [
  | inl e ↦ rw e (omega arith)
  | inr e ↦ rw e (longer-IsSmaller (to_brace s) (to_brace-IsSmaller s))
]
  where
    longer-IsSmaller :
        (o : Option (Text × Text))
        → IsSmaller (length s) o
        → IsSmaller (suc (length s)) (longer c o)
    longer-IsSmaller none h = tt
    longer-IsSmaller (some (body, rest)) h = omega arith

pub Ensures-if :
    {A : Type 0} (P : A → Type 0) (b : Bool) (x y : Result Error A)
    → Ensures P x
    → Ensures P y
    → Ensures P (if b then x else y)
Ensures-if P true x y h k = h
Ensures-if P false x y h k = k

pub read_escape-Ensures : (s : Text) → Ensures (λ p. length p.1 ≤ length s) (read_escape s)
unfolding read_escape
read_escape-Ensures [] = tt
read_escape-Ensures (c ∷ s) =
    let P = λ (p : ℕ × Text). length p.1 ≤ suc (length s) in
    Ensures-if P (c == b'n') _ _ (omega arith) (
      Ensures-if P (c == b't') _ _ (omega arith) (
        Ensures-if P (c == b'r') _ _ (omega arith) (
          Ensures-if P (c == 34) _ _ (omega arith) (
            Ensures-if P (c == 92) _ _ (omega arith) (
              Ensures-if P (c == b'u') _ _
                (code_point-Ensures (length s) (hex 4 0 s) (hex-IsLeft 4 0 s))
                (Ensures-if P (c == b'U') _ _
                  (code_point-Ensures (length s) (hex 8 0 s) (hex-IsLeft 8 0 s)) tt))))))

pub of_option-Ensures :
    (n : ℕ) (o : Option (Text × Text))
    → IsSmaller n o
    → Ensures (λ p. length p.1 < n) (of_option unterminated_template o)
of_option-Ensures n none h = tt
of_option-Ensures n (some (body, rest)) h = h
