-- ===== src/Analysis/Outcome.antt =====
-- `AnalysisResult` of attack_paths.py, its properties, the construction of one attack path and the
-- risk level.
use blast_radius.Base.{
  ℕ, ℤ, String, Bool, not, ◌&&◌, ◌||◌, ◌==◌, List, [], ◌∷◌, any, keep, is_empty, leb, map,
  if◌then◌else◌, Result, ok, ◌>>=◌, traverse,
}
use blast_radius.Models.{
  Risk, low, medium, high, critical, rank, max_risk, NodeType, ec2, iam_role, s3_bucket,
  sensitive_data, node_type_eq, ResourceNode, GraphEdge, AttackPath, Diagnostic,
}
use blast_radius.Graph.{Graph, Error, node_of, edge_of}
use blast_radius.Explain.{path_severity, explain_path}

abbrev pub resource_types : List NodeType
resource_types = ec2 ∷ iam_role ∷ s3_bucket ∷ []

-- One row of the score's breakdown.
pub record ScoreRow : Type 0 where
  pub finding : String
  pub count : ℕ
  pub points : ℤ

pub record AnalysisResult : Type 0 where
  pub graph : Graph
  pub reachable : List String
  pub exposed_resources : List String
  pub reachable_sensitive : List String
  pub sensitive_resources : List String
  pub attack_paths : List AttackPath
  pub risk_level : Risk
  pub score : ℤ
  pub score_breakdown : List ScoreRow
  pub label : String
  pub diagnostics : List Diagnostic
  pub paths_truncated : Bool
  pub path_work : ℕ

unfoldable pub complete : AnalysisResult → Bool
complete r = not r.paths_truncated && not (any (λ d. d.blocks_analysis) r.diagnostics)

unfoldable pub critical_paths : AnalysisResult → List AttackPath
critical_paths r = keep (λ p. p.reaches_sensitive) r.attack_paths

-- `zip(nodes, nodes[1:])`
abbrev pub hops : List String → List (String × String)
hops [] = []
hops (a ∷ []) = []
hops (a ∷ b ∷ rest) = (a, b) ∷ hops (b ∷ rest)

unfoldable pub path_edges : Graph → List String → Result Error (List GraphEdge)
unfolding edge_of
path_edges g nodes = traverse (λ h. edge_of g h.0 h.1) (hops nodes)

unfoldable pub attack_path_of : List String → List GraphEdge → List ResourceNode → AttackPath
unfolding path_severity
attack_path_of node_ids edges resource_nodes =
    let reaches_sensitive = any (λ n. n.type == sensitive_data) resource_nodes in
    record {
      nodes = node_ids;
      edges = edges;
      severity = path_severity edges reaches_sensitive;
      explanation = explain_path resource_nodes edges;
      reaches_sensitive = reaches_sensitive;
    }

unfoldable pub build_attack_path : Graph → List String → Result Error AttackPath
unfolding path_edges node_of attack_path_of
build_attack_path g node_ids = do
  edges ← path_edges g node_ids
  resource_nodes ← traverse (node_of g) node_ids
  ok (attack_path_of node_ids edges resource_nodes)

unfoldable pub determine_risk_level : AnalysisResult → Risk
unfolding critical_paths max_risk
determine_risk_level r =
    if not (is_empty (critical_paths r)) || not (is_empty r.reachable_sensitive)
    then critical
    else if not (is_empty r.attack_paths)
    then (if leb (rank high) (rank (max_risk (map (λ p. p.severity) r.attack_paths)))
        then high
        else medium)
    else if not (is_empty r.exposed_resources)
    then medium
    else low
