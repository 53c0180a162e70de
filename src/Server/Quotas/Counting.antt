-- ===== src/Server/Quotas/Counting.antt =====
-- How the counts change with a row.
use blast_radius.Base.{
  ℕ, ◌+◌, ◌≤◌, ◌≡◌, Eq, Bool, ◌==◌, ==_iff, Option, none, some, List, [], ◌∷◌, keep, lookup, insert,
  arith, Bool-cases, inl, inr,
}
use blast_radius.Server.Quotas.{bit, count}

module _ {K V : Type 0} (p : K → V → Bool) where
  -- What a row that may be there counts for.
  abbrev pub weight : K → Option V → ℕ
  weight k none = 0
  weight k (some v) = bit (p k v)

  pub count-keep : (q : K × V → Bool) (rows : List (K × V)) → count p (keep q rows) ≤ count p rows
  count-keep q [] = omega arith
  count-keep q ((k, v) ∷ rows) = elim (Bool-cases (q (k, v))) [
    | inl e ↦ rw e (omega (arith, count-keep q rows))
    | inr e ↦ rw e (omega (arith, count-keep q rows))
  ]

  pub count-le :
      (q : K → V → Bool) (rows : List (K × V))
      → ((k : K) (v : V) → bit (p k v) ≤ bit (q k v))
      → count p rows ≤ count q rows
  count-le q [] h = omega arith
  count-le q ((k, v) ∷ rows) h = omega (arith, h k v, count-le q rows h)

  module _ ⦃e : Eq K⦄ where
    pub count-insert :
        (k : K) (v : V) (rows : List (K × V))
        → count p (insert k v rows) + weight k (lookup k rows) ≡ count p rows + bit (p k v)
    count-insert k v [] = omega arith
    count-insert k v ((i, w) ∷ rows) = elim (Bool-cases (i == k)) [
      | inl h ↦ rw h (rw ((==_iff i k).0 h) (omega arith))
      | inr h ↦ rw h (omega (arith, count-insert k v rows))
    ]
