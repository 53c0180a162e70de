-- ===== src/Expression/Total.antt =====
-- That `evaluate_expression` ends, and the size and the nesting of what it gives.
use blast_radius.Base.{
  ℕ, zero, suc, ◌+◌, ◌*◌, ◌≤◌, ◌<◌, ◌≡◌, refl, Bool, ◌||◌, ◌==◌, nat_eq, list_eq, Option, some,
  none, List, [], ◌∷◌, length, is_empty, ltb, arith, Bool-cases, inl, inr,
}
use blast_radius.Python.{codes, lstrip, starts_with}
use blast_radius.Expression.Lexer.{
  Text, Reader, Read, Quoted, at, skip_ws, is_digit, identifier, read_traversal,
}
use blast_radius.Expression.Reader.{
  Datum, Data, Entries, nil, end, append, set, peek_is, skip_comma, read_reference, read_name,
  read_leaf, read_bare, read_key, open_value, read_at, read_value, read_object, read_list,
  evaluate_expression,
}
use blast_radius.Expression.Ends.{read_string-Ensures, skip_call-Ensures}
use blast_radius.Expression.Shrinks.{
  Ensures, Ensures-bind, Ensures-if, Ensures-weaken, Less, Shorter, IsSmaller, lstrip-le,
  identifier-IsSmaller, read_traversal-le, expect-Ensures,
}
use blast_radius.Expression.Sizes.{
  size, size_data, size_entries, depth, depth_data, depth_entries, append-size, append-depth,
  set-size, set-depth, number-Ensures, peek-drop, skip_comma-le, Opened, open_value-Ensures,
}

module _ (is_traversal : Text → Bool) (traversal_addresses : Text → List Text) where
  -- A leaf: one value, not nested.
  abbrev IsLeaf : ℕ → ℕ → Datum × Reader → Type 0
  IsLeaf n m (v, r) = (length r.text < n) × (r.nodes ≡ m) × (size v ≡ 1) × (depth v ≡ 0)

  reference-Ensures :
      (name : Text) (n : ℕ) (r : Reader)
      → length r.text < n
      → Ensures (IsLeaf n r.nodes) (read_reference is_traversal traversal_addresses name r)
  unfolding read_reference
  reference-Ensures name n r h =
      let r' = skip_ws r in
      let P = IsLeaf n r.nodes in
      Ensures-if P (peek_is b'(' r'.text) _ _
        (Ensures-bind (Shorter (length r'.text) r.nodes) P _ _
          (skip_call-Ensures is_traversal traversal_addresses r')
          (λ r'' k. (omega (arith, lstrip-le r.text), k.1, refl, refl)))
        (Ensures-if P (starts_with (read_traversal name r'.text).0 (codes "aws_")) _ _
          (omega (arith, read_traversal-le name r'.text, lstrip-le r.text), refl, refl, refl)
          (omega (arith, read_traversal-le name r'.text, lstrip-le r.text), refl, refl, refl))

  name-Ensures :
      (c n : ℕ) (o : Option (Text × Text)) (r : Reader)
      → IsSmaller n o
      → Ensures (IsLeaf n r.nodes) (read_name is_traversal traversal_addresses c o r)
  name-Ensures c n none r h = tt
  name-Ensures c n (some (name, rest)) r h =
      let P = IsLeaf n r.nodes in
      Ensures-if P (name == codes "true") _ _ (h, refl, refl, refl)
        (Ensures-if P (name == codes "false") _ _ (h, refl, refl, refl)
          (Ensures-if P (name == codes "null") _ _ (h, refl, refl, refl)
            (reference-Ensures name n (at rest r) h)))

  read_leaf-Ensures :
      (c : ℕ) (r : Reader)
      → Ensures (IsLeaf (length r.text) r.nodes) (read_leaf is_traversal traversal_addresses c r)
  unfolding read_leaf
  read_leaf-Ensures c r =
      let P = IsLeaf (length r.text) r.nodes in
      Ensures-if P (c == 34) _ _
        (Ensures-bind (Less {A = Quoted} (length r.text) r.nodes) P _ _
          (read_string-Ensures is_traversal traversal_addresses r) (λ q h. (h.0, h.1, refl, refl)))
        (Ensures-if P (is_digit c || c == b'-') _ _
          (Ensures-bind (λ p. length p.1 < length r.text) P _ _ (number-Ensures r.text)
            (λ p h. (h, refl, refl, refl)))
          (name-Ensures c (length r.text) (identifier r.text) r (identifier-IsSmaller r.text)))

  bare-Ensures :
      (n : ℕ) (o : Option (Text × Text)) (r : Reader)
      → IsSmaller n o
      → Ensures (Less {A = Text} n r.nodes) (read_bare o r)
  bare-Ensures n none r h = tt
  bare-Ensures n (some (key, rest)) r h = (h, refl)

  key-Ensures :
      (r : Reader)
      → Ensures
          (Less {A = Text} (length r.text) r.nodes)
          (read_key is_traversal traversal_addresses r)
  unfolding read_key
  key-Ensures r =
      let P = Less {A = Text} (length r.text) r.nodes in
      Ensures-if P (peek_is 34 r.text) _ _
        (Ensures-bind (Less {A = Quoted} (length r.text) r.nodes) P _ _
          (read_string-Ensures is_traversal traversal_addresses r) (λ q h. h))
        (bare-Ensures (length r.text) (identifier r.text) r (identifier-IsSmaller r.text))

  -- A value whose lists and objects, with the `d` that it stands in, are at most 64, read from `n` code
  -- points and `m` nodes; `spare` is the size of what was read of it before.
  abbrev Fits : ℕ → ℕ → ℕ → ℕ → Datum × Reader → Type 0
  Fits n m d spare (v, r) =
      (length r.text < n) × (m + size v ≤ r.nodes + spare) × (r.nodes ≤ 2000) × (depth v + d ≤ 64)

  at-Ensures :
      (n m d : ℕ) (as_object as_list : Text → Read Datum) (s : Text) (r : Reader)
      → Opened n m d r
      → ((rest : Text) → length rest < length s → Ensures (Fits n m d 0) (as_object rest))
      → ((rest : Text) → length rest < length s → Ensures (Fits n m d 0) (as_list rest))
      → Ensures (Fits n m d 0) (read_at is_traversal traversal_addresses as_object as_list s r)
  unfolding read_at
  at-Ensures n m d as_object as_list [] r k o l = tt
  at-Ensures n m d as_object as_list (c ∷ s) r k o l =
      Ensures-if (Fits n m d 0) (c == b'{') _ _ (o s (omega arith)) (
        Ensures-if (Fits n m d 0) (c == b'[') _ _ (l s (omega arith)) (
          Ensures-weaken (IsLeaf (length r.text) r.nodes) (Fits n m d 0) _
            (λ p h. omega (arith, k.0, k.1, k.2, k.3)) (read_leaf-Ensures c r)))

  -- The value is read, and the loop goes on with what is left.
  next-Ensures :
      (n m d spare spare' : ℕ) (v : Datum) (r : Reader) (res : Read Datum)
      → Fits n m (d + 1) 0 (v, r)
      → spare' ≤ spare + size v
      → (let r' = skip_comma (skip_ws r) in Ensures (Fits (length r'.text) r'.nodes d spare') res)
      → Ensures (Fits n m d spare) res
  next-Ensures n m d spare spare' v r res h l k =
      let c = skip_comma-le (skip_ws r) in
      Ensures-weaken _ (Fits n m d spare) res
        (λ p q. (omega (arith, c.0, lstrip-le r.text), omega (arith, c.1, l), q.2, q.3)) k

  mutual
    unfolding read_value

    value-Ensures :
        (fuel d : ℕ) (r : Reader)
        → 2 * length r.text < fuel
        → Ensures
            (Fits (length r.text) r.nodes d 0)
            (read_value is_traversal traversal_addresses fuel d r)
    value-Ensures zero d r h = absurd (omega arith)
    value-Ensures (suc fuel) d r h =
        Ensures-bind (Opened (length r.text) r.nodes d) (Fits (length r.text) r.nodes d 0)
          (open_value d r) _ (open_value-Ensures d r)
          (λ r' k.
            at-Ensures (length r.text) r.nodes d _ _ r'.text r' k
              (λ s e.
                Ensures-weaken (Fits (length s) r'.nodes d 1) (Fits (length r.text) r.nodes d 0) _
                  (λ p q. omega (arith, k.0, k.1))
                  (object-Ensures fuel d end (at s r') (omega (arith, k.0)) k.2
                    (omega (arith, k.3))))
              (λ s e.
                Ensures-weaken (Fits (length s) r'.nodes d 1) (Fits (length r.text) r.nodes d 0) _
                  (λ p q. omega (arith, k.0, k.1))
                  (list-Ensures fuel d nil (at s r') (omega (arith, k.0)) k.2
                    (omega (arith, k.3)))))

    object-Ensures :
        (fuel d : ℕ) (es : Entries) (r : Reader)
        → 2 * length r.text + 1 < fuel
        → r.nodes ≤ 2000
        → depth_entries es + d ≤ 64
        → Ensures
            (Fits (length r.text) r.nodes d (suc (size_entries es)))
            (read_object is_traversal traversal_addresses fuel d es r)
    object-Ensures zero d es r h m k = absurd (omega arith)
    object-Ensures (suc fuel) d es r h m k = elim (Bool-cases (peek_is b'}' (lstrip r.text))) [
      | inl e ↦
          rw e
            (omega (arith, peek-drop b'}' (lstrip r.text) e, lstrip-le r.text), omega arith, m, k)
      | inr e ↦ rw e (
          Ensures-bind (Less {A = Text} (length (lstrip r.text)) r.nodes)
            (Fits (length r.text) r.nodes d (suc (size_entries es))) _ _ (key-Ensures (skip_ws r))
            (λ (key, r1) a.
              Ensures-bind (Shorter (length r1.text) r1.nodes)
                (Fits (length r.text) r.nodes d (suc (size_entries es))) _ _
                (expect-Ensures b'=' r1)
                (λ r2 b.
                  Ensures-bind (Fits (length r2.text) r2.nodes (d + 1) 0)
                    (Fits (length r.text) r.nodes d (suc (size_entries es))) _ _
                    (value-Ensures fuel (d + 1) r2 (omega (arith, lstrip-le r.text, a.0, b.0)))
                    (λ p q.
                      next-Ensures (length r.text) r.nodes d (suc (size_entries es))
                        (suc (size_entries (set key p.0 es))) p.0 p.1 _
                        (
                          omega (arith, lstrip-le r.text, a.0, b.0, q.0),
                          omega (arith, a.1, b.1, q.1),
                          q.2,
                          q.3,
                        )
                        (omega (arith, set-size key p.0 es))
                        (let c = skip_comma-le (skip_ws p.1) in
                          object-Ensures fuel d (set key p.0 es) (skip_comma (skip_ws p.1))
                            (omega
                              (arith, c.0, lstrip-le p.1.text, lstrip-le r.text, a.0, b.0, q.0))
                            (omega (arith, c.1, q.2))
                            (omega (arith, set-depth key p.0 es, q.3)))))))
    ]

    list-Ensures :
        (fuel d : ℕ) (vs : Data) (r : Reader)
        → 2 * length r.text + 1 < fuel
        → r.nodes ≤ 2000
        → depth_data vs + d ≤ 64
        → Ensures
            (Fits (length r.text) r.nodes d (suc (size_data vs)))
            (read_list is_traversal traversal_addresses fuel d vs r)
    list-Ensures zero d vs r h m k = absurd (omega arith)
    list-Ensures (suc fuel) d vs r h m k = elim (Bool-cases (peek_is b']' (lstrip r.text))) [
      | inl e ↦
          rw e
            (omega (arith, peek-drop b']' (lstrip r.text) e, lstrip-le r.text), omega arith, m, k)
      | inr e ↦ rw e (
          Ensures-bind (Fits (length (lstrip r.text)) r.nodes (d + 1) 0)
            (Fits (length r.text) r.nodes d (suc (size_data vs))) _ _
            (value-Ensures fuel (d + 1) (skip_ws r) (omega (arith, lstrip-le r.text)))
            (λ p q.
              next-Ensures (length r.text) r.nodes d (suc (size_data vs))
                (suc (size_data (append vs p.0))) p.0 p.1 _
                (omega (arith, lstrip-le r.text, q.0), q.1, q.2, q.3)
                (omega (arith, append-size vs p.0))
                (let c = skip_comma-le (skip_ws p.1) in
                  list-Ensures fuel d (append vs p.0) (skip_comma (skip_ws p.1))
                    (omega (arith, c.0, lstrip-le p.1.text, lstrip-le r.text, q.0))
                    (omega (arith, c.1, q.2)) (omega (arith, append-depth vs p.0, q.3)))))
    ]

  -- `evaluate_expression` never lacks fuel: it gives a value or raises. The value has at most 2000 values
  -- in it, none of them in more than 64 lists and objects.
  pub evaluate_expression-ends :
      (text : Text)
      → Ensures
          (λ (p : Datum × List Text). (size p.0 ≤ 2000) × (depth p.0 ≤ 64))
          (evaluate_expression is_traversal traversal_addresses text)
  unfolding evaluate_expression
  evaluate_expression-ends text =
      let r : Reader = record { text = text; problems = []; nodes = 0 } in
      Ensures-if _ (ltb 131072 (length text)) _ _ tt (
        Ensures-bind (Fits (length text) 0 0 0) _ _ _
          (value-Ensures (2 * length text + 2) 0 r (omega arith))
          (λ p q.
            Ensures-if _ (is_empty (lstrip p.1.text)) _ _
              (omega (arith, q.1, q.2), omega (arith, q.3)) tt))
