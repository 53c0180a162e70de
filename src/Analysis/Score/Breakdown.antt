-- ===== src/Analysis/Score/Breakdown.antt =====
-- The breakdown of risk_score.py accounts for the score.
use blast_radius.Base.{Bool-cases, nat_eq, ◌==◌, inl, inr}
use blast_radius.Base.{
  ℕ, ◌*◌, ◌≤◌, min, ℤ, pos, ◌+ℤ◌, ◌-ℤ◌, neg_ℤ, ◌≤ℤ◌, ◌≡◌, ap, sym, subst, ◌∙◌, +ℤ_zero, zero_+ℤ,
  -ℤ-eq-+ℤ, +ℤ_assoc, List, [], ◌∷◌, ◌++◌, arith, String, ok, >>=-eq-ok, is_empty, false,
}
use blast_radius.Analysis.Outcome.{AnalysisResult, ScoreRow}
use blast_radius.Analysis.Score.Bounds.{score-le_of_sensitive}
use blast_radius.Analysis.Score.{
  Counts, deduct, deduct_all, clamp, score_counts, score_analysis, count_findings,
}

-- `sum(row["points"] for row in breakdown)`
pub points : List ScoreRow → ℤ
points [] = pos 0
points (r ∷ rs) = r.points +ℤ points rs

points-append : (rs : List ScoreRow) (r : ScoreRow) → points (rs ++ r ∷ []) ≡ points rs +ℤ r.points
unfolding points
points-append [] r = +ℤ_zero r.points ∙ sym (zero_+ℤ r.points)
points-append (q ∷ rs) r =
    ap (λ t. q.points +ℤ t) (points-append rs r) ∙ sym (+ℤ_assoc q.points (points rs) r.points)

-- what the loop keeps: the score is 100 plus the points of the breakdown
abbrev Accounts : ℤ × List ScoreRow → Type 0
Accounts s = s.0 ≡ pos 100 +ℤ points s.1

charge-Accounts :
    (m : ℕ) (label : String) (count : ℕ) (s : ℤ × List ScoreRow)
    → Accounts s
    → Accounts (
      s.0 -ℤ pos m,
      s.1 ++ record { finding = label; count = count; points = neg_ℤ (pos m) } ∷ [],
    )
charge-Accounts m label count (score, rows) h =
    -ℤ-eq-+ℤ score (pos m)
    ∙ ap (λ t. t +ℤ neg_ℤ (pos m)) h
    ∙ +ℤ_assoc (pos 100) (points rows) (neg_ℤ (pos m))
    ∙ ap (λ t. pos 100 +ℤ t)
        (sym
          (points-append rows (record { finding = label; count = count; points = neg_ℤ (pos m) })))

deduct-Accounts :
    (penalty limit : ℕ) (label : String) (count : ℕ) (s : ℤ × List ScoreRow)
    → Accounts s
    → Accounts (deduct penalty limit label count s)
unfolding deduct
deduct-Accounts penalty limit label count s h = elim (Bool-cases (count == 0)) [
  | inl zero? ↦ rw zero? h
  | inr more ↦ rw more (charge-Accounts (min (penalty * count) limit) label count s h)
]

deduct_all-Accounts : (c : Counts) → Accounts (deduct_all c)
unfolding deduct_all
deduct_all-Accounts c = deduct-Accounts 20 20 _ c.full_path _ (
    deduct-Accounts 25 25 _ c.sensitive_exposed _ (
      deduct-Accounts 10 20 _ c.broad_iam _ (
        deduct-Accounts 15 30 _ c.public_compute _ (
          deduct-Accounts 20 40 _ c.public_bucket _
            (deduct-Accounts 20 40 _ c.admin_port (pos 100, []) none_yet)))))
  where
    none_yet : Accounts (pos 100, [])
    none_yet = unfold points in sym (+ℤ_zero (pos 100))

-- The score that an analysis gets is 100 plus the points of its breakdown, held to the range from 0 to 100.
pub score-breakdown :
    (r : AnalysisResult) (out : ℤ × List ScoreRow)
    → score_analysis r ≡ ok out
    → out.0 ≡ clamp (pos 100 +ℤ points out.1)
unfolding score_analysis score_counts
score-breakdown r out h =
    let (counts, counted, same) = >>=-eq-ok (count_findings r) (λ c. ok (score_counts c)) h in
    ground (arith, deduct_all-Accounts counts)

full_path_of_sensitive :
    (r : AnalysisResult) (c : Counts)
    → count_findings r ≡ ok c
    → is_empty r.reachable_sensitive ≡ false
    → (1 ≤ c.sensitive_exposed) × (c.full_path ≡ 1)
unfolding count_findings
full_path_of_sensitive r c h e = ground arith

-- An analysis in which a sensitive resource is reachable scores at most 55.
pub score_of_sensitive :
    (r : AnalysisResult) (out : ℤ × List ScoreRow)
    → score_analysis r ≡ ok out
    → is_empty r.reachable_sensitive ≡ false
    → out.0 ≤ℤ pos 55
unfolding score_analysis
score_of_sensitive r out h e =
    let (counts, counted, same) = >>=-eq-ok (count_findings r) (λ c. ok (score_counts c)) h in
    let (exposed, full) = full_path_of_sensitive r counts counted e in
    let scored : score_counts counts ≡ out = cc in
    subst (λ t. t.0 ≤ℤ pos 55) scored (score-le_of_sensitive counts exposed full)
