-- ===== src/Expression/Steps.antt =====
-- A turn of the loops over what is written of lists and objects.
use blast_radius.Base.{
  ℕ, suc, ◌+◌, ◌≤◌, ◌<◌, ◌≡◌, refl, ap, ◌∙◌, Bool, true, false, ==_iff, nat_eq, list_eq, List, ◌∷◌,
  ◌++◌, length, length-append, ok, arith, elem,
}
use blast_radius.Python.{lstrip}
use mathlib.Core.List.{append_assoc}
use blast_radius.Expression.Lexer.{Text, Reader, Read}
use blast_radius.Expression.Reader.{
  Datum, Data, Entries, list, object, nil, cons, end, entry, append, set, read_at, read_value,
  read_object, read_list, read_key,
}
use blast_radius.Expression.Quoted.{quote, read_string-quote}
use blast_radius.Expression.Written.{
  write, write_data, write_entries, keys, IsPlain, stops, lstrip-write, peek-write, keys-set,
}
use blast_radius.Expression.Leaves.{reader, is_leaf, opened, at-write}

pub keys_set-fresh :
    (j key : Text) (v : Datum) (acc es : Entries)
    → elem key (keys es) ≡ false
    → elem j (keys es) ≡ true
    → elem j (keys acc) ≡ false
    → elem j (keys (set key v acc)) ≡ false
keys_set-fresh j key v acc es h k m = ground (arith, keys-set j acc key v, ==_iff j key)

pub elem-later : (j key : Text) (ks : List Text) → elem j ks ≡ true → elem j (key ∷ ks) ≡ true
elem-later j key ks h = ground arith

pub elem-first : (key : Text) (ks : List Text) → elem key (key ∷ ks) ≡ true
elem-first key ks = ground (arith, ==_iff key key)

module _ (is_traversal : Text → Bool) (traversal_addresses : Text → List Text) where
  pub opened-value :
      (fuel d n : ℕ) (t : Text) (ps : List Text)
      → n < 2000
      → d ≤ 64
      → lstrip t ≡ t
      → read_value is_traversal traversal_addresses (suc fuel) d (reader t ps n)
        ≡ read_at is_traversal traversal_addresses
            (λ s. read_object is_traversal traversal_addresses fuel d end (reader s ps (n + 1)))
            (λ s. read_list is_traversal traversal_addresses fuel d nil (reader s ps (n + 1)))
            t
            (reader t ps (n + 1))
  unfolding read_value
  opened-value fuel d n t ps h k e =
      rw (opened is_traversal traversal_addresses d t ps n h k e) refl

  pub member-read :
      (fuel d n m : ℕ) (acc : Data) (v : Datum) (u : Text) (ps : List Text)
      → IsPlain v
      → read_value is_traversal traversal_addresses fuel (d + 1) (reader (write v ++ b',' ∷ u) ps n)
        ≡ ok (v, reader (b',' ∷ u) ps m)
      → read_list is_traversal traversal_addresses
          (suc fuel)
          d
          acc
          (reader (write v ++ b',' ∷ u) ps n)
        ≡ read_list is_traversal traversal_addresses fuel d (append acc v) (reader u ps m)
  unfolding read_value
  member-read fuel d n m acc v u ps p e =
      rw (lstrip-write v (b',' ∷ u) p, peek-write v (b',' ∷ u) p, e) refl

  pub entry-read :
      (fuel d n m : ℕ) (acc : Entries) (key : Text) (v : Datum) (u : Text) (ps : List Text)
      → read_value is_traversal traversal_addresses fuel (d + 1) (reader (write v ++ b',' ∷ u) ps n)
        ≡ ok (v, reader (b',' ∷ u) ps m)
      → read_object is_traversal traversal_addresses
          (suc fuel)
          d
          acc
          (reader (quote key ++ b'=' ∷ (write v ++ b',' ∷ u)) ps n)
        ≡ read_object is_traversal traversal_addresses fuel d (set key v acc) (reader u ps m)
  unfolding read_value read_key
  entry-read fuel d n m acc key v u ps e =
      rw
        (
          read_string-quote is_traversal traversal_addresses key (b'=' ∷ (write v ++ b',' ∷ u))
              (reader (quote key ++ b'=' ∷ (write v ++ b',' ∷ u)) ps n) refl,
          e,
        )
        refl

  pub leaf-write :
      (fuel d n : ℕ) (v : Datum) (rest : Text) (ps : List Text)
      → stops rest ≡ true
      → IsPlain v
      → is_leaf v ≡ true
      → n < 2000
      → d ≤ 64
      → read_value is_traversal traversal_addresses (suc fuel) d (reader (write v ++ rest) ps n)
        ≡ ok (v, reader rest ps (n + 1))
  leaf-write fuel d n v rest ps h p l m k =
      opened-value fuel d n (write v ++ rest) ps m k (lstrip-write v rest p)
      ∙ at-write is_traversal traversal_addresses
          (λ s. read_object is_traversal traversal_addresses fuel d end (reader s ps (n + 1)))
          (λ s. read_list is_traversal traversal_addresses fuel d nil (reader s ps (n + 1))) v rest
          ps (n + 1) p l h

  pub list-at :
      (as_object as_list : Text → Read Datum) (vs : Data) (rest : Text) (r : Reader)
      → read_at is_traversal traversal_addresses as_object as_list (write (list vs) ++ rest) r
        ≡ as_list (write_data vs ++ rest)
  unfolding read_at write
  list-at as_object as_list vs rest r = refl

  pub object-at :
      (as_object as_list : Text → Read Datum) (es : Entries) (rest : Text) (r : Reader)
      → read_at is_traversal traversal_addresses as_object as_list (write (object es) ++ rest) r
        ≡ as_object (write_entries es ++ rest)
  unfolding read_at write
  object-at as_object as_list es rest r = refl

  pub data-length :
      (v : Datum) (vs : Data)
      → length (write_data (cons v vs)) ≡ length (write v) + suc (length (write_data vs))
  unfolding write
  data-length v vs = length-append (write v) (b',' ∷ write_data vs)

  pub data-append :
      (v : Datum) (vs : Data) (rest : Text)
      → write_data (cons v vs) ++ rest ≡ write v ++ b',' ∷ (write_data vs ++ rest)
  unfolding write
  data-append v vs rest = append_assoc (write v) (b',' ∷ write_data vs) rest

  pub entries-length :
      (key : Text) (v : Datum) (es : Entries)
      → suc (length (write v) + suc (length (write_entries es)))
        ≤ length (write_entries (entry key v es))
  unfolding write
  entries-length key v es = omega (
    arith,
    length-append (quote key) (b'=' ∷ (write v ++ b',' ∷ write_entries es)),
    length-append (write v) (b',' ∷ write_entries es),
  )

  pub entries-append :
      (key : Text) (v : Datum) (es : Entries) (rest : Text)
      → write_entries (entry key v es) ++ rest
        ≡ quote key ++ b'=' ∷ (write v ++ b',' ∷ (write_entries es ++ rest))
  unfolding write
  entries-append key v es rest =
      append_assoc (quote key) (b'=' ∷ (write v ++ b',' ∷ write_entries es)) rest
      ∙ ap (λ t. quote key ++ b'=' ∷ t) (append_assoc (write v) (b',' ∷ write_entries es) rest)

  pub list-length : (vs : Data) → length (write (list vs)) ≡ suc (length (write_data vs))
  unfolding write
  list-length vs = refl

  pub object-length : (es : Entries) → length (write (object es)) ≡ suc (length (write_entries es))
  unfolding write
  object-length es = refl

  pub nil-read :
      (fuel d n : ℕ) (acc : Data) (rest : Text) (ps : List Text)
      → read_list is_traversal traversal_addresses
          (suc fuel)
          d
          acc
          (reader (write_data nil ++ rest) ps n)
        ≡ ok (list acc, reader rest ps n)
  unfolding read_value write
  nil-read fuel d n acc rest ps = refl

  pub end-read :
      (fuel d n : ℕ) (acc : Entries) (rest : Text) (ps : List Text)
      → read_object is_traversal traversal_addresses
          (suc fuel)
          d
          acc
          (reader (write_entries end ++ rest) ps n)
        ≡ ok (object acc, reader rest ps n)
  unfolding read_value write
  end-read fuel d n acc rest ps = refl
