-- ===== src/Analysis/Score.antt =====
-- blastradius/security/risk_score.py: the score of an analysis.
pub mod Bounds
pub mod Breakdown
use blast_radius.Base.{
  ℕ, zero, suc, ◌+◌, ◌*◌, min, ℤ, pos, ◌-ℤ◌, neg_ℤ, max_ℤ, min_ℤ, leb_ℤ, String, Bool, not, ◌&&◌,
  ◌||◌, ◌==◌, nat_eq, string_eq, List, [], ◌∷◌, ◌++◌, length, is_empty, leb, if◌then◌else◌, Result,
  ok, err, ◌>>=◌, keep_ok,
}
use blast_radius.Models.{
  internet_id, Risk, low, medium, high, critical, rank, risk_eq, NodeType, ec2, node_type_eq,
  Relationship, ingress_allows, can_access, public_access, relationship_eq, GraphEdge,
}
use blast_radius.Graph.{Error, Graph, node_of}
use blast_radius.Analysis.Outcome.{AnalysisResult, ScoreRow, critical_paths}

-- `counts`, one field for each key of `PENALTIES`.
pub record Counts : Type 0 where
  pub admin_port : ℕ
  pub public_bucket : ℕ
  pub public_compute : ℕ
  pub broad_iam : ℕ
  pub sensitive_exposed : ℕ
  pub full_path : ℕ

abbrev no_counts : Counts
no_counts = record {
  admin_port = 0;
  public_bucket = 0;
  public_compute = 0;
  broad_iam = 0;
  sensitive_exposed = 0;
  full_path = 0;
}

abbrev one_if : Bool → ℕ
one_if b = if b then 1 else 0

-- The body of the loop over the edges.
unfoldable pub count_edge : String → GraphEdge → Counts → Counts
count_edge source e c = record c {
  admin_port =
      c.admin_port
      + one_if (source == internet_id && e.relationship == ingress_allows && e.risk == critical);
  broad_iam = c.broad_iam + one_if (e.relationship == can_access && leb (rank high) (rank e.risk));
  public_bucket =
      c.public_bucket + one_if (source == internet_id && e.relationship == public_access);
}

unfoldable pub count_edges : List (String × String × GraphEdge) → Counts → Counts
unfolding count_edge
count_edges [] c = c
count_edges ((source, target, e) ∷ rest) c = count_edges rest (count_edge source e c)

-- `node_of(graph, n).type == kind`
unfoldable pub has_type : Graph → NodeType → String → Result Error Bool
unfolding node_of
has_type g kind n = do node ← node_of g n; ok (node.type == kind)

unfoldable pub count_findings : AnalysisResult → Result Error Counts
unfolding count_edges has_type critical_paths
count_findings r = do
  computes ← keep_ok (has_type r.graph ec2) r.exposed_resources
  ok (record (count_edges r.graph.edges no_counts) {
    public_compute = length computes;
    sensitive_exposed = length r.reachable_sensitive;
    full_path = one_if (not (is_empty (critical_paths r)) || not (is_empty r.reachable_sensitive));
  })

-- One round of the loop over `PENALTIES`.
unfoldable pub deduct : ℕ → ℕ → String → ℕ → ℤ × List ScoreRow → ℤ × List ScoreRow
deduct penalty cap label count (score, breakdown) = if count == 0 then (score, breakdown) else (
  score -ℤ pos (min (penalty * count) cap),
  breakdown
      ++ record { finding = label; count = count; points = neg_ℤ (pos (min (penalty * count) cap)) }
        ∷ [],
)

unfoldable pub deduct_all : Counts → ℤ × List ScoreRow
deduct_all c = deduct 20 20 "Complete internet -> sensitive-data attack path" c.full_path (
    deduct 25 25 "Sensitive resource reachable from the internet" c.sensitive_exposed (
      deduct 10 20 "Broad IAM permission to data storage" c.broad_iam (
        deduct 15 30 "Compute instance reachable from the internet" c.public_compute (
          deduct 20 40 "Storage bucket readable directly from the internet" c.public_bucket
            (deduct 20 40 "Administrative port open to 0.0.0.0/0" c.admin_port (pos 100, []))))))

unfoldable pub clamp : ℤ → ℤ
unfolding max_ℤ min_ℤ
clamp score = max_ℤ (pos 0) (min_ℤ (pos 100) score)

unfoldable pub score_counts : Counts → ℤ × List ScoreRow
unfolding deduct_all clamp
score_counts c = (clamp (deduct_all c).0, (deduct_all c).1)

unfoldable pub score_analysis : AnalysisResult → Result Error (ℤ × List ScoreRow)
unfolding count_findings score_counts
score_analysis r = do counts ← count_findings r; ok (score_counts counts)

unfoldable pub score_band : ℤ → Risk
score_band score =
    if leb_ℤ (pos 85) score
    then low
    else if leb_ℤ (pos 65) score
    then medium
    else if leb_ℤ (pos 40) score
    then high
    else critical
