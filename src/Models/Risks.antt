-- ===== src/Models/Risks.antt =====
-- `Risk` of blastradius/parser/models.py, with its rank and maximum.
use blast_radius.Base.{
  ℕ, ◌≤◌, ◌≡◌, ◌↔◌, Bool, true, List, [], ◌∷◌, arith, ltb, if◌then◌else◌, Eq, nat_beq, elem,
}

pub data Risk : Type 0 where
  none low medium high critical : Risk

-- The position in `_RISK_ORDER`.
abbrev pub rank : Risk → ℕ
rank none = 0
rank low = 1
rank medium = 2
rank high = 3
rank critical = 4

pub rank_injective : (a b : Risk) → rank a ≡ rank b → a ≡ b
rank_injective a b h = ground arith

abbrev pub risk_beq : Risk → Risk → Bool
risk_beq a b = nat_beq (rank a) (rank b)

pub risk_beq_iff : (a b : Risk) → (risk_beq a b ≡ true) ↔ (a ≡ b)
risk_beq_iff a b = ground arith

instance abbrev pub risk_eq : Eq Risk
risk_eq = record { beq = risk_beq; beq_iff = risk_beq_iff }

-- `max(risks, key=rank)`: the first of the risks with the greatest rank.
abbrev max_from : Risk → List Risk → Risk
max_from best [] = best
max_from best (r ∷ rs) = max_from (if ltb (rank best) (rank r) then r else best) rs

unfoldable pub max_risk : List Risk → Risk
max_risk [] = none
max_risk (r ∷ rs) = max_from r rs

max_from_bound :
    (best : Risk) (rs : List Risk) (r : Risk)
    → (rank best ≤ rank (max_from best rs)) × (elem r rs ≡ true → rank r ≤ rank (max_from best rs))
max_from_bound best [] r = ground arith
max_from_bound best (x ∷ rs) r =
    ground
      (arith, max_from_bound (if ltb (rank best) (rank x) then x else best) rs r, risk_beq_iff r x)

pub max_risk-bound : (x : Risk) (rs : List Risk) → elem x rs ≡ true → rank x ≤ rank (max_risk rs)
unfolding max_risk
max_risk-bound x [] h = cc
max_risk-bound x (r ∷ rs) h = ground (arith, max_from_bound r rs x, risk_beq_iff x r)
