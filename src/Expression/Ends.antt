-- ===== src/Expression/Ends.antt =====
-- That the reader ends on the fuel it is given: each part leaves less of the text than it found.
use blast_radius.Base.{
  ℕ, zero, suc, ◌+◌, ◌-◌, ◌≤◌, ◌<◌, ◌≡◌, refl, Bool, ◌&&◌, ◌==◌, nat_eq, list_eq, List, [], ◌∷◌,
  ◌++◌, length, length-drop, arith, Bool-cases, inl, inr, drop,
}
use blast_radius.Python.{starts_with, strip}
use blast_radius.Expression.Lexer.{
  Text, Reader, Quoted, at, expect, read_escape, to_brace, template, read_chars, read_string,
  skip_from, skip_call, marks,
}
use blast_radius.Expression.Shrinks.{
  Ensures, Ensures-bind, Shorter, Less, Ensures-weaken, expect-Ensures, to_brace-IsSmaller,
  Ensures-if, read_escape-Ensures, of_option-Ensures,
}

module _ (is_traversal : Text → Bool) (traversal_addresses : Text → List Text) where
  template-nodes :
      (marker : ℕ) (body : Text) (r : Reader)
      → (template is_traversal traversal_addresses marker body r).2.nodes ≡ r.nodes
  unfolding template
  template-nodes marker body r = elim (Bool-cases (marker == b'$' && is_traversal body)) [
    | inl e ↦ rw e refl
    | inr e ↦ elim (Bool-cases (marker == b'%')) [ inl f ↦ rw (e, f) refl | inr f ↦ rw (e, f) refl ]
  ]

  read_chars-Ensures :
      (turns : ℕ) (out : Text) (addresses : List Text) (s : Text) (r : Reader)
      → Ensures
          (Less (length s) r.nodes)
          (read_chars is_traversal traversal_addresses turns out addresses s r)
  unfolding read_chars
  read_chars-Ensures zero out addresses s r = tt
  read_chars-Ensures (suc turns) out addresses [] r = tt
  read_chars-Ensures (suc turns) out addresses (c ∷ s) r =
      let P = Less {A = Quoted} (suc (length s)) r.nodes in
      let shorter =
        λ (out : Text) (addresses : List Text) (rest : Text) (r' : Reader) (e : r'.nodes ≡ r.nodes)
            (h : length rest ≤ length s).
          Ensures-weaken (Less (length rest) r'.nodes) P
            (read_chars is_traversal traversal_addresses turns out addresses rest r')
            (λ q k. omega arith) (read_chars-Ensures turns out addresses rest r') in
      Ensures-if P (c == 34) _ _ (omega arith) (
        Ensures-if P (c == 92) _ _
          (Ensures-bind (λ p. length p.1 ≤ length s) P (read_escape s)
            (λ p.
              read_chars is_traversal traversal_addresses turns (out ++ p.0 ∷ []) addresses p.1 r)
            (read_escape-Ensures s) (λ p h. shorter (out ++ p.0 ∷ []) addresses p.1 r refl h))
          (Ensures-if P (marks c && starts_with s (c ∷ b'{' ∷ [])) _ _
            (shorter (out ++ c ∷ b'{' ∷ []) addresses (drop 2 s) r refl
              (omega (arith, length-drop 2 s)))
            (Ensures-if P (marks c && starts_with s (b'{' ∷ [])) _ _
              (Ensures-bind (λ p. length p.1 < length (drop 1 s)) P _ _
                (of_option-Ensures (length (drop 1 s)) (to_brace (drop 1 s))
                  (to_brace-IsSmaller (drop 1 s)))
                (λ p h.
                  shorter _ _ p.1 _ (template-nodes c (strip p.0) r)
                    (omega (arith, length-drop 1 s))))
              (shorter (out ++ c ∷ []) addresses s r refl (omega arith)))))

  pub read_string-Ensures :
      (r : Reader)
      → Ensures (Less (length r.text) r.nodes) (read_string is_traversal traversal_addresses r)
  unfolding read_string
  read_string-Ensures r =
      Ensures-bind (Shorter (length r.text) r.nodes) (Less {A = Quoted} (length r.text) r.nodes)
        (expect 34 r) _ (expect-Ensures 34 r)
        (λ r' h.
          Ensures-weaken (Less {A = Quoted} (length r'.text) r'.nodes)
            (Less (length r.text) r.nodes) _ (λ q k. omega arith)
            (read_chars-Ensures (length r'.text) [] [] r'.text r'))

  skip_from-Ensures :
      (turns depth : ℕ) (s : Text) (r : Reader)
      → Ensures
          (Shorter (length s) r.nodes)
          (skip_from is_traversal traversal_addresses turns depth s r)
  unfolding skip_from
  skip_from-Ensures zero depth s r = tt
  skip_from-Ensures (suc turns) depth [] r = tt
  skip_from-Ensures (suc turns) depth (c ∷ s) r =
      let P = Shorter (suc (length s)) r.nodes in
      let shorter =
        λ (depth : ℕ) (rest : Text) (r' : Reader) (e : r'.nodes ≡ r.nodes)
            (h : length rest ≤ length s).
          Ensures-weaken (Shorter (length rest) r'.nodes) P
            (skip_from is_traversal traversal_addresses turns depth rest r') (λ q k. omega arith)
            (skip_from-Ensures turns depth rest r') in
      Ensures-if P (c == 34) _ _
        (Ensures-bind (Less {A = Quoted} (suc (length s)) r.nodes) P _ _
          (read_string-Ensures (at (c ∷ s) r))
          (λ q h. shorter depth q.1.text q.1 h.1 (omega arith)))
        (Ensures-if P (c == b'(') _ _ (shorter (depth + 1) s r refl (omega arith)) (
          Ensures-if P (c == b')') _ _
            (Ensures-if P (depth - 1 == 0) _ _ (omega arith)
              (shorter (depth - 1) s r refl (omega arith)))
            (shorter depth s r refl (omega arith))))

  pub skip_call-Ensures :
      (r : Reader)
      → Ensures (Shorter (length r.text) r.nodes) (skip_call is_traversal traversal_addresses r)
  unfolding skip_call
  skip_call-Ensures r =
      Ensures-bind (Shorter (length r.text) r.nodes) (Shorter (length r.text) r.nodes)
        (expect b'(' r) _ (expect-Ensures b'(' r)
        (λ r' h.
          Ensures-weaken (Shorter (length r'.text) r'.nodes) (Shorter (length r.text) r.nodes) _
            (λ q k. omega arith) (skip_from-Ensures (length r'.text) 1 r'.text r'))
