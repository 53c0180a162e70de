-- ===== src/Expression/Written.antt =====
-- A value as it is written in an expression, and what a written value satisfies.
use blast_radius.Base.{
  ℕ, ◌<◌, ◌≡◌, refl, ap, Bool, true, false, ◌||◌, ◌==◌, ==_iff, nat_eq, list_eq, List, [], ◌∷◌,
  ◌++◌, length, arith, Bool-cases, inl, inr, all, elem, IsNodup, and-eq-true,
}
use blast_radius.Python.{codes, lstrip, is_space}
use blast_radius.Expression.Lexer.{Text, is_digit, span}
use blast_radius.Expression.Reader.{
  Datum, Data, Entries, null, bool, number, policy_string, list, object, nil, cons, end, entry,
  append, set, peek_is,
}
use blast_radius.Expression.Quoted.{quote, quote_body}

-- Each member of a list and each entry of an object has a comma behind it.
unfoldable mutual
  unfolding quote_body

  pub write : Datum → Text
  write null = codes "null"
  write (bool true) = codes "true"
  write (bool false) = codes "false"
  write (number digits) = digits
  write (policy_string s addresses) = quote s
  write (list vs) = b'[' ∷ write_data vs
  write (object es) = b'{' ∷ write_entries es

  pub write_data : Data → Text
  write_data nil = b']' ∷ []
  write_data (cons v vs) = write v ++ b',' ∷ write_data vs

  pub write_entries : Entries → Text
  write_entries end = b'}' ∷ []
  write_entries (entry k v es) = quote k ++ b'=' ∷ (write v ++ b',' ∷ write_entries es)

abbrev pub keys : Entries → List Text
keys end = []
keys (entry k v es) = k ∷ keys es

-- Numbers are digits, strings have no references, and the keys of an object are distinct.
abbrev mutual
  pub IsPlain : Datum → Type 0
  IsPlain null = Unit
  IsPlain (bool b) = Unit
  IsPlain (number digits) = (all is_digit digits ≡ true) × (0 < length digits)
  IsPlain (policy_string s addresses) = addresses ≡ []
  IsPlain (list vs) = ArePlain vs
  IsPlain (object es) = IsNodup (keys es) × AllPlain es

  pub ArePlain : Data → Type 0
  ArePlain nil = Unit
  ArePlain (cons v vs) = IsPlain v × ArePlain vs

  pub AllPlain : Entries → Type 0
  AllPlain end = Unit
  AllPlain (entry k v es) = IsPlain v × AllPlain es

-- What may follow a value.
abbrev pub stops : Text → Bool
stops [] = true
stops (c ∷ s) = c == b','

pub span-digits :
    (s rest : Text)
    → all is_digit s ≡ true
    → stops rest ≡ true
    → span is_digit (s ++ rest) ≡ (s, rest)
unfolding span
span-digits [] [] h k = refl
span-digits [] (c ∷ rest) h k = rw ((==_iff c b',').0 k) refl
span-digits (c ∷ s) rest h k = ground (arith, span-digits s rest)

digit_not_space : (c : ℕ) → is_digit c ≡ true → is_space c ≡ false
digit_not_space c h = ground arith

pub lstrip-write : (v : Datum) (t : Text) → IsPlain v → lstrip (write v ++ t) ≡ write v ++ t
unfolding write lstrip
lstrip-write null t h = refl
lstrip-write (bool true) t h = refl
lstrip-write (bool false) t h = refl
lstrip-write (number []) t h = absurd (omega arith)
lstrip-write (number (c ∷ s)) t h =
    rw (digit_not_space c (and-eq-true (is_digit c) (all is_digit s) h.0).0) refl
lstrip-write (policy_string s addresses) t h = refl
lstrip-write (list vs) t h = refl
lstrip-write (object es) t h = refl

pub peek-write : (v : Datum) (t : Text) → IsPlain v → peek_is b']' (write v ++ t) ≡ false
unfolding write
peek-write null t h = refl
peek-write (bool true) t h = refl
peek-write (bool false) t h = refl
peek-write (number []) t h = absurd (omega arith)
peek-write (number (c ∷ s)) t h = ground arith
peek-write (policy_string s addresses) t h = refl
peek-write (list vs) t h = refl
peek-write (object es) t h = refl

-- A list after what was read of it before.
abbrev pub join : Data → Data → Data
join nil ws = ws
join (cons v vs) ws = cons v (join vs ws)

pub join-nil : (vs : Data) → join vs nil ≡ vs
join-nil nil = refl
join-nil (cons v vs) = ap (λ ws. cons v ws) (join-nil vs)

pub join-append : (vs : Data) (v : Datum) (ws : Data) → join (append vs v) ws ≡ join vs (cons v ws)
unfolding append
join-append nil v ws = refl
join-append (cons w vs) v ws = ap (λ us. cons w us) (join-append vs v ws)

abbrev pub join_entries : Entries → Entries → Entries
join_entries end fs = fs
join_entries (entry k v es) fs = entry k v (join_entries es fs)

pub join_entries-end : (es : Entries) → join_entries es end ≡ es
join_entries-end end = refl
join_entries-end (entry k v es) = ap (λ fs. entry k v fs) (join_entries-end es)

pub join_entries-set :
    (es : Entries) (k : Text) (v : Datum) (fs : Entries)
    → elem k (keys es) ≡ false
    → join_entries (set k v es) fs ≡ join_entries es (entry k v fs)
unfolding set
join_entries-set end k v fs h = refl
join_entries-set (entry j w es) k v fs h = elim (Bool-cases (j == k)) [
  | inl e ↦ absurd (ground (arith, ==_iff j k, ==_iff k j))
  | inr e ↦ rw e (ap (λ gs. entry j w gs) (join_entries-set es k v fs (ground arith)))
]

pub keys-set :
    (j : Text) (es : Entries) (k : Text) (v : Datum)
    → elem j (keys (set k v es)) ≡ (elem j (keys es) || j == k)
unfolding set
keys-set j end k v = ground arith
keys-set j (entry i w es) k v = elim (Bool-cases (i == k)) [
  | inl e ↦ rw e (ground (arith, ==_iff i k, ==_iff j i, ==_iff j k))
  | inr e ↦ rw e (ground (arith, keys-set j es k v))
]
