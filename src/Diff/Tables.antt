-- ===== src/Diff/Tables.antt =====
-- The dictionaries of diff_engine.py: lists of values under a key that each value has.
use blast_radius.Base.{
  ◌≡◌, refl, sym, ap, ◌∙◌, subst, Bool, true, false, ◌&&◌, ◌||◌, ◌==◌, ==_iff, Eq, Option, none,
  some, Bool-cases, inl, inr, List, [], ◌∷◌, map, elem, keep, lookup, insert, arith, All, IsNodup,
}
use blast_radius.Diff.{keys}

-- Whether a value is found that passes.
abbrev pub passes : {A : Type 0} → (A → Bool) → Option A → Bool
passes p none = false
passes p (some a) = p a

module _ {A K : Type 0} ⦃eq : Eq K⦄ (key : A → K) where
  abbrev pub IsKeyed : List (K × A) → Type 0
  IsKeyed m = All (λ e. e.0 ≡ key e.1) m

  pub insert-IsKeyed : (a : A) (m : List (K × A)) → IsKeyed m → IsKeyed (insert (key a) a m)
  insert-IsKeyed a [] h = (refl, tt)
  insert-IsKeyed a ((j, b) ∷ m) h = elim (Bool-cases (j == key a)) [
    | inl e ↦ rw e (refl, h.1)
    | inr e ↦ rw e (h.0, insert-IsKeyed a m h.1)
  ]

  pub key-lookup : (k : K) (a : A) (m : List (K × A)) → IsKeyed m → lookup k m ≡ some a → key a ≡ k
  key-lookup k a [] h e = cc
  key-lookup k a ((j, b) ∷ m) h e = ground (arith, h.0, key-lookup k a m h.1, ==_iff j k)

module _ {A K : Type 0} ⦃eq : Eq K⦄ where
  pub keys-insert :
      (k j : K) (a : A) (m : List (K × A))
      → elem k (keys (insert j a m)) ≡ (k == j || elem k (keys m))
  keys-insert k j a [] = refl
  keys-insert k j a ((i, b) ∷ m) =
      ground (arith, keys-insert k j a m, ==_iff i j, ==_iff k i, ==_iff k j)

  pub insert-IsNodup :
      (j : K) (a : A) (m : List (K × A)) → IsNodup (keys m) → IsNodup (keys (insert j a m))
  insert-IsNodup j a [] h = (refl, tt)
  insert-IsNodup j a ((i, b) ∷ m) h =
      ground (arith, insert-IsNodup j a m, keys-insert i j a m, ==_iff i j, ==_iff j i)

  pub lookup-absent : (k : K) (m : List (K × A)) → elem k (keys m) ≡ false → lookup k m ≡ none
  lookup-absent k [] h = refl
  lookup-absent k ((j, a) ∷ m) h = ground (arith, lookup-absent k m, ==_iff j k, ==_iff k j)

module _ {A K : Type 0} ⦃eq : Eq K⦄ (key : A → K) (c : K → Bool) (q : A → Bool) where
  -- The keys of the values that are kept by their keys and by themselves.
  pub kept-elem :
      (k : K) (m : List (K × A))
      → IsKeyed key m
      → IsNodup (keys m)
      → elem k (map key (map (λ e. e.1) (keep (λ e. c e.0 && q e.1) m)))
        ≡ (c k && passes q (lookup k m))
  kept-elem k [] h n = ground arith
  kept-elem k ((j, a) ∷ m) h n =
      let rec = kept-elem k m h.1 n.1 in
      elim (Bool-cases (j == k)) [
        | inl i ↦
            let same : j ≡ k = (==_iff j k).0 i in
            let gone : lookup k m ≡ none =
              lookup-absent k m (subst (λ z. elem z (keys m) ≡ false) same n.0) in
            let after : elem k (map key (map (λ e. e.1) (keep (λ e. c e.0 && q e.1) m))) ≡ false =
              rec ∙ rw gone (ground arith) in
            let first : (k == key a) ≡ true = (==_iff k (key a)).1 (sym same ∙ h.0) in
            let kind : c j ≡ c k = ap c same in
            elim (Bool-cases (c j && q a)) [
              | inl e ↦ rw (e, i, first) (ground arith)
              | inr e ↦ rw (e, i, after) (ground arith)
            ]
        | inr i ↦
            let other : (k == key a) ≡ false = ground (arith, ==_iff k (key a), ==_iff j k, h.0) in
            elim (Bool-cases (c j && q a)) [ inl e ↦ rw (e, i, other) rec | inr e ↦ rw (e, i) rec ]
      ]
