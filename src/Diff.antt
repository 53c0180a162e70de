-- ===== src/Diff.antt =====
-- blastradius/graph/diff_engine.py: the comparison of two analyses.
pub mod Tables
pub mod Gains
pub mod Laws
use blast_radius.Base.{
  ℕ, ℤ, ◌-ℤ◌, ltb_ℤ, String, Bool, true, false, not, ◌||◌, ◌&&◌, ◌==◌, nat_eq, string_eq, pair_eq,
  Option, some, none, List, [], ◌∷◌, ◌++◌, map, any, all, elem, keep, length, ltb, leb, is_empty,
  lookup, insert, dedupe, sorted, sort_by, text_le, if◌then◌else◌, Result, ok, ◌>>=◌, of_option,
  traverse,
}
use blast_radius.Python.{◌+++◌}
use blast_radius.Models.{AttackPath, GraphEdge, path_key, path_length, rank}
use blast_radius.Graph.{Graph, Error, lookup_error, has_edge}
use blast_radius.Explain.{summarize_regression}
use blast_radius.Analysis.Outcome.{AnalysisResult, complete, hops}

pub data Verdict : Type 0 where
  regression improved unchanged incomplete : Verdict

pub record GraphDiff : Type 0 where
  pub before : AnalysisResult
  pub after : AnalysisResult
  pub new_nodes : List String
  pub removed_nodes : List String
  pub new_edges : List GraphEdge
  pub removed_edges : List GraphEdge
  pub newly_exposed : List String
  pub no_longer_exposed : List String
  pub newly_reachable_sensitive : List String
  pub no_longer_reachable_sensitive : List String
  pub new_attack_paths : List AttackPath
  pub removed_attack_paths : List AttackPath
  pub verdict : Verdict
  pub summary : String

unfoldable pub diff_complete : GraphDiff → Bool
unfolding complete
diff_complete d = complete d.before && complete d.after

unfoldable pub new_critical_paths : GraphDiff → List AttackPath
new_critical_paths d = keep (λ p. p.reaches_sensitive) d.new_attack_paths

unfoldable pub removed_critical_paths : GraphDiff → List AttackPath
removed_critical_paths d = keep (λ p. p.reaches_sensitive) d.removed_attack_paths

unfoldable pub score_delta : GraphDiff → ℤ
score_delta d = d.after.score -ℤ d.before.score

abbrev pub edge_key : GraphEdge → String × String
edge_key e = (e.source, e.target)

unfoldable pub edge_map_from :
    List (String × String × GraphEdge)
    → List ((String × String) × GraphEdge)
    → List ((String × String) × GraphEdge)
edge_map_from [] m = m
edge_map_from ((a, b, e) ∷ rest) m = edge_map_from rest (insert (edge_key e) e m)

-- `_edges`
unfoldable pub edge_map : AnalysisResult → List ((String × String) × GraphEdge)
unfolding edge_map_from
edge_map r = edge_map_from r.graph.edges []

unfoldable pub path_map_from :
    List AttackPath → List (String × AttackPath) → List (String × AttackPath)
unfolding path_key
path_map_from [] m = m
path_map_from (p ∷ rest) m = path_map_from rest (insert (path_key p) p m)

-- `{p.key: p for p in result.attack_paths}`
unfoldable pub path_map : AnalysisResult → List (String × AttackPath)
unfolding path_map_from
path_map r = path_map_from r.attack_paths []

unfoldable pub contains_path : AnalysisResult → AttackPath → Bool
contains_path r p = all (λ h. has_edge r.graph h.0 h.1) (hops p.nodes)

-- `sorted(set(xs) - set(ys))`
unfoldable pub minus : List String → List String → List String
unfolding sorted
minus xs ys = sorted (keep (λ x. not (elem x ys)) (dedupe xs))

unfoldable pub key_le : String × String → String × String → Bool
unfolding text_le
key_le (a, b) (c, d) = if a == c then text_le b d else text_le a c

abbrev pub keys : {A : Type 0} {K : Type 0} → List (K × A) → List K
keys m = map (λ e. e.0) m

-- `[m[k] for k in sorted(set(m) - set(n))]`; the keys of a dictionary are distinct.
unfoldable pub edges_minus :
    List ((String × String) × GraphEdge)
    → List ((String × String) × GraphEdge)
    → Result Error (List GraphEdge)
unfolding sort_by key_le
edges_minus m n =
    traverse (λ k. of_option lookup_error (lookup k m))
      (sort_by key_le (keep (λ k. not (elem k (keys n))) (keys m)))

-- The sort key `(-severity.rank, len)`.
abbrev pub worse_first : AttackPath → AttackPath → Bool
worse_first p q =
    ltb (rank q.severity) (rank p.severity)
    || rank p.severity == rank q.severity && leb (path_length p) (path_length q)

-- The paths of one analysis whose key the other does not have and whose edges it does not have.
unfoldable pub paths_minus : AnalysisResult → AnalysisResult → List AttackPath
unfolding path_map contains_path sort_by
paths_minus r other = sort_by worse_first (
    map (λ e. e.1)
      (keep (λ e. not (elem e.0 (keys (path_map other))) && not (contains_path other e.1))
        (path_map r)))

unfoldable pub determine_verdict : GraphDiff → Verdict
unfolding diff_complete new_critical_paths removed_critical_paths
determine_verdict d =
    if not (is_empty d.newly_reachable_sensitive) || not (is_empty (new_critical_paths d))
    then regression
    else if not (diff_complete d)
    then incomplete
    else if not (is_empty d.no_longer_reachable_sensitive)
        || not (is_empty (removed_critical_paths d))
    then improved
    else if ltb_ℤ d.after.score d.before.score
        || not (is_empty d.new_attack_paths)
        || not (is_empty d.newly_exposed)
    then regression
    else if ltb_ℤ d.before.score d.after.score
        || not (is_empty d.removed_attack_paths)
        || not (is_empty d.no_longer_exposed)
    then improved
    else unchanged

unfoldable pub summary_of : GraphDiff → String
unfolding diff_complete summarize_regression
summary_of d =
    summarize_regression d.new_attack_paths (length d.before.reachable_sensitive)
      (length d.after.reachable_sensitive)
    +++ (if diff_complete d
        then ""
        else " Analysis is incomplete; absent or removed paths do not establish safety.")

-- The differences, before the verdict and the summary are set.
unfoldable pub differences :
    AnalysisResult → AnalysisResult → List GraphEdge → List GraphEdge → GraphDiff
unfolding minus paths_minus
differences before after new_edges removed_edges = record {
  before = before;
  after = after;
  new_nodes = minus after.graph.nodes before.graph.nodes;
  removed_nodes = minus before.graph.nodes after.graph.nodes;
  new_edges = new_edges;
  removed_edges = removed_edges;
  newly_exposed = minus after.exposed_resources before.exposed_resources;
  no_longer_exposed = minus before.exposed_resources after.exposed_resources;
  newly_reachable_sensitive = minus after.reachable_sensitive before.reachable_sensitive;
  no_longer_reachable_sensitive = minus before.reachable_sensitive after.reachable_sensitive;
  new_attack_paths = paths_minus after before;
  removed_attack_paths = paths_minus before after;
  verdict = unchanged;
  summary = "";
}

unfoldable pub judged : GraphDiff → GraphDiff
unfolding determine_verdict summary_of
judged d = record d { verdict = determine_verdict d; summary = summary_of d }

unfoldable pub compare : AnalysisResult → AnalysisResult → Result Error GraphDiff
unfolding edge_map edges_minus differences judged
compare before after = do
  new_edges ← edges_minus (edge_map after) (edge_map before)
  removed_edges ← edges_minus (edge_map before) (edge_map after)
  ok (judged (differences before after new_edges removed_edges))

-- `diff.new_critical_paths or diff.new_attack_paths`
abbrev highlighted_paths : GraphDiff → List AttackPath
highlighted_paths d =
    if is_empty (new_critical_paths d) then d.new_attack_paths else new_critical_paths d

abbrev pub path_nodes : List AttackPath → List String
path_nodes [] = []
path_nodes (p ∷ ps) = p.nodes ++ path_nodes ps

abbrev pub path_hops : List AttackPath → List (String × String)
path_hops [] = []
path_hops (p ∷ ps) = map edge_key p.edges ++ path_hops ps

unfoldable pub highlight_nodes : GraphDiff → List String
unfolding new_critical_paths
highlight_nodes d = dedupe (path_nodes (highlighted_paths d))

unfoldable pub highlight_edges : GraphDiff → List (String × String)
unfolding new_critical_paths
highlight_edges d = dedupe (path_hops (highlighted_paths d))
