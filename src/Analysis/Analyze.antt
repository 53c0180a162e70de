-- ===== src/Analysis/Analyze.antt =====
-- `analyze` of attack_paths.py.
pub mod Targets
pub mod Whole
pub mod Surveyed
pub mod Returns
use blast_radius.Base.{
  ℕ, zero, suc, ◌+◌, ◌<◌, String, Bool, true, false, not, ◌||◌, ◌&&◌, ◌==◌, nat_eq, string_eq,
  Option, none, some, pos, List, [], ◌∷◌, ◌++◌, elem, keep, length, leb, ltb, is_empty,
  if◌then◌else◌, Result, ok, err, ◌>>=◌, ◌>>◌, guard, of_option, keep_ok, dedupe, sorted, sort_by,
  text_le,
}
use blast_radius.Models.{
  internet_id, AttackPath, NodeType, ec2, sensitive_data, node_type_eq, low, rank, path_key,
  path_length, Diagnostic, diagnostic,
}
use blast_radius.Graph.{Graph, Error, input_limit, node_of, nodes_of_type}
use blast_radius.Analysis.Outcome.{
  AnalysisResult, resource_types, build_attack_path, determine_risk_level,
}
use blast_radius.Analysis.Score.{has_type, score_analysis}
use blast_radius.Analysis.Bfs.{Parents, breadth_first, witness_route}
use blast_radius.Analysis.Enumerate.{Dfs, enumerate, max_paths, max_path_work}

-- What the loop over the targets has gathered.
pub record Tally : Type 0 where
  pub paths : List AttackPath
  pub path_work : ℕ
  pub truncated : Bool

-- `witness[-1] == INTERNET_ID`, on the witness in its final order.
abbrev pub from_internet : List String → Bool
from_internet [] = false
from_internet (n ∷ ns) = n == internet_id

abbrev pub tally_of : Dfs → Tally
tally_of t = record { paths = t.paths; path_work = t.path_work; truncated = t.truncated }

-- One round for a target whose witness has been read off the parents; with whether the loop goes on.
unfoldable pub enumerate_from : Graph → String → List String → Tally → Result Error (Tally × Bool)
unfolding build_attack_path enumerate
enumerate_from g target witness s =
    if not (from_internet witness)
    then ok (record s { truncated = true }, true)
    else if leb max_paths (length s.paths) || leb max_path_work s.path_work
    then ok (record s { truncated = true }, false)
    else (do
      p ← build_attack_path g witness
      t ← enumerate g target witness (s.paths ++ p ∷ []) s.path_work s.truncated
      ok (tally_of t, true))

unfoldable pub each_target : Graph → Parents → List String → Tally → Result Error Tally
unfolding witness_route enumerate_from
each_target g parent [] s = ok s
each_target g parent (target ∷ targets) s = do
  witness ← witness_route parent target
  r ← enumerate_from g target witness s
  elim r.1 [ true ↦ each_target g parent targets r.0 | false ↦ ok r.0 ]

-- `node_of(graph, n).sensitive and node_of(graph, n).type != NodeType.SENSITIVE_DATA`
unfoldable pub is_sensitive_resource : Graph → String → Result Error Bool
unfolding node_of
is_sensitive_resource g n = do
  node ← node_of g n
  ok (node.sensitive && not (node.type == sensitive_data))

-- `node_of(graph, n).type in RESOURCE_TYPES`
unfoldable pub is_resource : Graph → String → Result Error Bool
unfolding node_of
is_resource g n = do node ← node_of g n; ok (elem node.type resource_types)

unfoldable pub choose_targets : Graph → List String → List String → Result Error (List String)
unfolding nodes_of_type has_type sorted
choose_targets g reachable exposed =
    let markers =
      sorted (keep (λ n. elem n reachable) (dedupe (nodes_of_type g (sensitive_data ∷ [])))) in
    if not (is_empty markers)
    then ok markers
    else (do computes ← keep_ok (has_type g ec2) exposed; ok (sorted computes))

-- The sort key `(-severity.rank, len, key)`.
unfoldable pub path_le : AttackPath → AttackPath → Bool
unfolding path_key text_le
path_le p q =
    ltb (rank q.severity) (rank p.severity)
    || rank p.severity == rank q.severity
      && (ltb (path_length p) (path_length q)
          || path_length p == path_length q && text_le (path_key p) (path_key q))

abbrev pub truncation_notice : Diagnostic
truncation_notice =
    diagnostic "PATHS_TRUNCATED"
      "Path enumeration reached a work, depth or output budget; path counts are lower bounds."

-- `AnalysisResult(graph=graph, label=label, diagnostics=…)`, with the default fields.
abbrev pub blank_result : Graph → String → AnalysisResult
blank_result g label = record {
  graph = g;
  reachable = [];
  exposed_resources = [];
  reachable_sensitive = [];
  sensitive_resources = [];
  attack_paths = [];
  risk_level = low;
  score = pos 100;
  score_breakdown = [];
  label = label;
  diagnostics = g.diagnostics;
  paths_truncated = false;
  path_work = 0;
}

-- The end of `analyze`: the risk level is read off the sorted paths, then the score off the result.
unfoldable pub finish : AnalysisResult → Result Error AnalysisResult
unfolding determine_risk_level score_analysis
finish r =
    let r' = record r { risk_level = determine_risk_level r } in
    score_analysis r' >>= λ s. ok (record r' { score = s.0; score_breakdown = s.1 })

unfoldable pub with_paths : AnalysisResult → Tally → AnalysisResult
unfolding sort_by path_le
with_paths r t = record r {
  attack_paths = sort_by path_le t.paths;
  path_work = t.path_work;
  paths_truncated = t.truncated;
  diagnostics = r.diagnostics ++ (if t.truncated then truncation_notice ∷ [] else []);
}

-- The result with everything but the paths, the risk level and the score.
unfoldable pub survey : Graph → String → Result Error AnalysisResult
unfolding is_resource is_sensitive_resource sorted
survey g label = do
  let reachable = sorted (g.descendants internet_id)
  exposed ← keep_ok (is_resource g) reachable
  sensitive ← keep_ok (is_sensitive_resource g) g.nodes
  let sensitive_resources = sorted sensitive
  ok (record (blank_result g label) {
    reachable = reachable;
    exposed_resources = exposed;
    sensitive_resources = sensitive_resources;
    reachable_sensitive = keep (λ n. elem n reachable) sensitive_resources;
  })

unfoldable pub over_limit : Graph → Bool
over_limit g = ltb 2500 (length g.nodes) || ltb 20000 (length g.edges)

unfoldable pub analyze : Graph → String → Result Error AnalysisResult
unfolding over_limit survey choose_targets breadth_first each_target with_paths finish
analyze g label =
    if over_limit g
    then err input_limit
    else if not (elem internet_id g.nodes)
    then ok (blank_result g label)
    else (do
      r ← survey g label
      targets ← choose_targets g r.reachable r.exposed_resources
      parent ← breadth_first g
      t ← each_target g parent targets (record { paths = []; path_work = 0; truncated = false })
      finish (with_paths r t))
