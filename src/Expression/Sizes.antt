-- ===== src/Expression/Sizes.antt =====
-- The size and the depth of a value, and what the parts of a value are read of.
use blast_radius.Base.{
  ℕ, suc, ◌+◌, ◌≤◌, ◌<◌, ◌≡◌, refl, Bool, true, false, ◌==◌, nat_eq, list_eq, [], ◌∷◌, length,
  is_empty, leb, ltb, leb→le, ltb→lt, arith, Bool-cases, inl, inr, max,
}
use blast_radius.Expression.Lexer.{Text, Reader, drop_one, span, is_digit}
use blast_radius.Expression.Reader.{
  Datum, Data, Entries, list, object, nil, cons, end, entry, append, set, fraction, sign, exponent,
  minus, read_number, peek_is, skip_comma, open_value,
}
use blast_radius.Expression.Shrinks.{Ensures, lstrip-le, span-le}

-- How many values there are.
abbrev mutual
  pub size : Datum → ℕ
  size (list vs) = suc (size_data vs)
  size (object es) = suc (size_entries es)
  size _ = 1

  pub size_data : Data → ℕ
  size_data nil = 0
  size_data (cons v vs) = size v + size_data vs

  pub size_entries : Entries → ℕ
  size_entries end = 0
  size_entries (entry k v es) = size v + size_entries es

-- How many lists and objects the deepest value stands in.
abbrev mutual
  pub depth : Datum → ℕ
  depth (list vs) = depth_data vs
  depth (object es) = depth_entries es
  depth _ = 0

  pub depth_data : Data → ℕ
  depth_data nil = 0
  depth_data (cons v vs) = max (suc (depth v)) (depth_data vs)

  pub depth_entries : Entries → ℕ
  depth_entries end = 0
  depth_entries (entry k v es) = max (suc (depth v)) (depth_entries es)

pub append-size : (vs : Data) (v : Datum) → size_data (append vs v) ≡ size_data vs + size v
unfolding append
append-size nil v = omega arith
append-size (cons w ws) v = omega (arith, append-size ws v)

pub append-depth :
    (vs : Data) (v : Datum) → depth_data (append vs v) ≡ max (depth_data vs) (suc (depth v))
unfolding append
append-depth nil v = omega arith
append-depth (cons w ws) v = omega (arith, append-depth ws v)

pub set-size :
    (key : Text) (v : Datum) (es : Entries) → size_entries (set key v es) ≤ size_entries es + size v
unfolding set
set-size key v end = omega arith
set-size key v (entry k w es) = elim (Bool-cases (k == key)) [
  | inl e ↦ rw e (omega arith)
  | inr e ↦ rw e (omega (arith, set-size key v es))
]

pub set-depth :
    (key : Text) (v : Datum) (es : Entries)
    → depth_entries (set key v es) ≤ max (depth_entries es) (suc (depth v))
unfolding set
set-depth key v end = omega arith
set-depth key v (entry k w es) = elim (Bool-cases (k == key)) [
  | inl e ↦ rw e (omega arith)
  | inr e ↦ rw e (omega (arith, set-depth key v es))
]

pub span-length : (p : ℕ → Bool) (s : Text) → length (span p s).0 + length (span p s).1 ≡ length s
unfolding span
span-length p [] = omega arith
span-length p (c ∷ s) = ground (arith, span-length p s)

pub minus-le : (s : Text) → length (minus s).1 ≤ length s
minus-le [] = omega arith
minus-le (c ∷ s) = ground arith

pub sign-le : (s : Text) → length (sign s).1 ≤ length s
sign-le [] = omega arith
sign-le (c ∷ s) = ground arith

pub fraction-le : (s : Text) → length (fraction s).1 ≤ length s
fraction-le [] = omega arith
fraction-le (c ∷ s) = ground (arith, span-le is_digit s)

pub exponent-le : (s : Text) → length (exponent s).1 ≤ length s
exponent-le [] = omega arith
exponent-le (c ∷ s) = ground (arith, span-le is_digit (sign s).1, sign-le s)

pub nonempty : (s : Text) → is_empty s ≡ false → 0 < length s
nonempty [] h = cc
nonempty (c ∷ s) h = omega arith

pub number-Ensures : (s : Text) → Ensures (λ p. length p.1 < length s) (read_number s)
unfolding read_number
number-Ensures s =
    let before = minus s in
    let whole = span is_digit before.1 in
    let part = fraction whole.1 in
    elim (Bool-cases (is_empty whole.0)) [
      | inl e ↦ rw e tt
      | inr e ↦ rw e (
          omega (
            arith,
            nonempty whole.0 e,
            span-length is_digit before.1,
            minus-le s,
            fraction-le whole.1,
            exponent-le part.1,
          ))
    ]

pub peek-drop : (c : ℕ) (s : Text) → peek_is c s ≡ true → length (drop_one s) < length s
peek-drop c [] h = cc
peek-drop c (d ∷ s) h = omega arith

pub skip_comma-le :
    (r : Reader) → (length (skip_comma r).text ≤ length r.text) × ((skip_comma r).nodes ≡ r.nodes)
skip_comma-le r = elim (Bool-cases (peek_is b',' r.text)) [
  | inl e ↦ rw e (omega (arith, peek-drop b',' r.text e), refl)
  | inr e ↦ rw e (omega arith, refl)
]

-- What `read_value` has at the start.
abbrev pub Opened : ℕ → ℕ → ℕ → Reader → Type 0
Opened n m d r = (length r.text ≤ n) × (r.nodes ≡ m + 1) × (r.nodes ≤ 2000) × (d ≤ 64)

pub open_value-Ensures :
    (d : ℕ) (r : Reader) → Ensures (Opened (length r.text) r.nodes d) (open_value d r)
unfolding open_value
open_value-Ensures d r = elim (Bool-cases (ltb r.nodes 2000)) [
  | inl e ↦ elim (Bool-cases (leb d 64)) [
    | inl f ↦
        rw (e, f) (lstrip-le r.text, refl, (omega (arith, ltb→lt r.nodes 2000 e)), leb→le d 64 f)
    | inr f ↦ rw (e, f) tt
  ]
  | inr e ↦ rw e tt
]
