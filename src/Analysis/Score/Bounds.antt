-- ===== src/Analysis/Score/Bounds.antt =====
-- The score of risk_score.py in closed form, its range and its monotonicity.
use blast_radius.Base.{
  ℕ, ◌+◌, ◌-◌, ◌*◌, ◌≤◌, min, ℤ, pos, ◌-ℤ◌, ◌≤ℤ◌, pos_part, neg_part, ◌≡◌, ap, List, arith, String,
}
use blast_radius.Analysis.Outcome.{ScoreRow}
use blast_radius.Analysis.Score.{Counts, deduct, deduct_all, clamp, score_counts}

-- The points that a count costs.
unfoldable pub cost : ℕ → ℕ → ℕ → ℕ
cost penalty cap count = min (penalty * count) cap

cost_mono : (penalty cap : ℕ) {a b : ℕ} → a ≤ b → cost penalty cap a ≤ cost penalty cap b
unfolding cost
cost_mono penalty cap h = grind arith

parts-deduct :
    (penalty cap : ℕ) (label : String) (count : ℕ) (s : ℤ × List ScoreRow)
    → pos_part (deduct penalty cap label count s).0 + cost penalty cap count + neg_part s.0
      ≡ neg_part (deduct penalty cap label count s).0 + pos_part s.0
unfolding deduct cost ◌-ℤ◌
parts-deduct penalty cap label count s = ground arith

abbrev pub total_cost : Counts → ℕ
total_cost c =
    cost 20 40 c.admin_port
    + cost 20 40 c.public_bucket
    + cost 15 30 c.public_compute
    + cost 10 20 c.broad_iam
    + cost 25 25 c.sensitive_exposed
    + cost 20 20 c.full_path

parts-deduct_all :
    (c : Counts) → pos_part (deduct_all c).0 + total_cost c ≡ 100 + neg_part (deduct_all c).0
unfolding deduct_all
parts-deduct_all c = omega (arith, parts-deduct)

clamp_lem : (s : ℤ) (t : ℕ) → pos_part s + t ≡ 100 + neg_part s → clamp s ≡ pos (100 - t)
unfolding clamp
clamp_lem s t h = ground arith

-- The score is 100 less the capped cost of each kind of finding, and 0 where the costs pass 100.
pub score-closed_form : (c : Counts) → (score_counts c).0 ≡ pos (100 - total_cost c)
unfolding score_counts
score-closed_form c = clamp_lem (deduct_all c).0 (total_cost c) (parts-deduct_all c)

pub record AtMost (c d : Counts) : Type 0 where
  pub admin_port : c.admin_port ≤ d.admin_port
  pub public_bucket : c.public_bucket ≤ d.public_bucket
  pub public_compute : c.public_compute ≤ d.public_compute
  pub broad_iam : c.broad_iam ≤ d.broad_iam
  pub sensitive_exposed : c.sensitive_exposed ≤ d.sensitive_exposed
  pub full_path : c.full_path ≤ d.full_path

total_cost_mono : (c d : Counts) → AtMost c d → total_cost c ≤ total_cost d
total_cost_mono c d h = omega (
  arith,
  cost_mono 20 40 h.admin_port,
  cost_mono 20 40 h.public_bucket,
  cost_mono 15 30 h.public_compute,
  cost_mono 10 20 h.broad_iam,
  cost_mono 25 25 h.sensitive_exposed,
  cost_mono 20 20 h.full_path,
)

-- Where every kind of finding occurs at least as often, the score is not higher.
pub score_antitone : (c d : Counts) → AtMost c d → (score_counts d).0 ≤ℤ (score_counts c).0
score_antitone c d h =
    rw (score-closed_form c, score-closed_form d) (omega (arith, total_cost_mono c d h))

pub score-le_of_sensitive :
    (c : Counts) → 1 ≤ c.sensitive_exposed → c.full_path ≡ 1 → (score_counts c).0 ≤ℤ pos 55
score-le_of_sensitive c exposed full =
    rw (score-closed_form c)
      (unfold cost in omega (arith, cost_mono 25 25 exposed, ap (cost 20 20) full))
