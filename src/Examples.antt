-- ===== src/Examples.antt =====
-- Concrete inputs: a compute instance with a public port, tagged as sensitive data beside it.
mod Network
mod Building
mod Returned
mod Serving
mod Reading
mod Spending
mod Leasing
use blast_radius.Base.{
  ◌≡◌, ◌≢◌, ◌↔◌, ◌≤◌, ◌-◌, ℤ, pos, ◌≤ℤ◌, ◌+ℤ◌, refl, sym, subst, String, Bool, true, false, ◌&&◌,
  ◌==◌, ==_iff, string_eq, Option, none, some, List, [], ◌∷◌, elem, if◌then◌else◌, arith, inl, inr,
  ◌⊎◌, Bool-cases, ok, length, All, is_empty, ℕ, ltb_ℤ, list_eq, ◌-ℤ◌,
}
use blast_radius.Python.{Value, end, field, dict, int, str}
use blast_radius.Models.{
  internet_id, AttackPath, TerraformResource, Risk, high, medium, low, NodeType, internet,
  sensitive_data, ingress_allows, ResourceNode, GraphEdge,
}
use blast_radius.Analysis.Bfs.{Parents, breadth_first, has_parent, witness_route}
use blast_radius.Analysis.Bfs.Route.{breadth_first_correct, witness_route_correct}
use blast_radius.Analysis.Routes.{IsRoute, Starts}
use blast_radius.Analysis.Bfs.Ends.{breadth_first_ends}
use blast_radius.Analysis.Enumerate.{Dfs, enumerate, max_paths, max_path_work}
use blast_radius.Analysis.Enumerate.Ends.{enumerate-ends}
use blast_radius.Analysis.Enumerate.Complete.{IsSimpleWalk, enumerate_complete}
use blast_radius.Analysis.Enumerate.Sound.{Adds, enumerate_sound}
use blast_radius.Analysis.Analyze.{Tally, each_target, blank_result}
use blast_radius.Analysis.Analyze.Whole.{Gathered, each_target_ok}
use blast_radius.Analysis.Outcome.{
  AnalysisResult, ScoreRow, build_attack_path, attack_path_of, complete,
}
use blast_radius.Diff.{
  GraphDiff, unchanged, incomplete, compare, judged, differences, determine_verdict, diff_complete,
  new_critical_paths, score_delta,
}
use blast_radius.Diff.Laws.{
  Compares, IsQuiet, compare_lem, compare_self, compare-swap, determine_verdict-safe,
}
use blast_radius.Rules.{covers_admin_port, public_ingress_findings}
use blast_radius.Rules.Ingress.{IsSound, public_ingress_findings-IsSound}
use blast_radius.Policy.{Policy, default_policy, load_policy_data}
use blast_radius.Policy.Laws.{IsLoaded, load_policy_data-IsLoaded}
use blast_radius.Decision.{
  safe, DeploymentDecision, decide, violations_of, verdict_on, notes_of, reasons_of, exit_code,
}
use blast_radius.Rules.Index.{listed, build}
use blast_radius.Rules.Index.Scan.{applies, role_policies-build}
use blast_radius.Plans.{Organization, Feature, entitled_to}
use blast_radius.Plans.Entitled.{plans_with, entitled_to_lem}
use blast_radius.Base.{lookup, keep}
use blast_radius.Limits.{check_structure}
use blast_radius.Limits.Budget.{size, is_shallow, check_structure_lem}
use blast_radius.Base.{leb}
use blast_radius.Decision.Laws.{decide-safe, decide-default_block}
use blast_radius.Analysis.Score.{Counts, score_counts, score_analysis, clamp}
use blast_radius.Analysis.Score.Bounds.{AtMost, score_antitone, score-closed_form, total_cost}
use blast_radius.Analysis.Score.Breakdown.{points, score-breakdown, score_of_sensitive}
use blast_radius.Models.{none as no_risk, rank, max_risk, risk_eq}
use blast_radius.Graph.{Graph, IsDigraph, Walk, here, step, has_edge, is_some}

abbrev pub data_id : String
data_id = "data.logs"

abbrev node_at : String → NodeType → Bool → ResourceNode
node_at id t s = record {
  id = id;
  type = t;
  name = id;
  attributes = end;
  sensitive = s;
  risk = low;
}

abbrev pub the_edge : GraphEdge
the_edge = record {
  source = internet_id;
  target = data_id;
  relationship = ingress_allows;
  reason = "Security group allows 0.0.0.0/0 on port 443";
  risk = medium;
  terraform_resource = "";
  evidence = "";
  metadata = end;
  confidence = "";
  category = "";
  source_file = "";
  remediation = "";
}

abbrev is_the_edge : String → String → Bool
is_the_edge a b = a == internet_id && b == data_id

abbrev pub small : Graph
small = record {
  nodes = internet_id ∷ data_id ∷ [];
  node = λ n.
      if n == internet_id
      then some (node_at internet_id internet false)
      else if n == data_id
      then some (node_at data_id sensitive_data true)
      else none;
  edges = (internet_id, data_id, the_edge) ∷ [];
  edge = λ a b. if is_the_edge a b then some the_edge else none;
  successors = λ a. if a == internet_id then data_id ∷ [] else [];
  descendants = λ a. if a == internet_id then data_id ∷ [] else [];
  diagnostics = [];
}

small-edge : (a b : String) → has_edge small a b ≡ is_the_edge a b
small-edge a b = go (is_the_edge a b)
  where
    go : (c : Bool) → is_some (if c then some the_edge else none) ≡ c
    go true = refl
    go false = refl

small_irrefl : (a : String) → elem a (small.descendants a) ≡ false
small_irrefl a = elim (Bool-cases (a == internet_id)) [
  | inl e ↦
      subst (λ x. elem x (small.descendants x) ≡ false) (sym ((==_iff a internet_id).0 e)) refl
  | inr e ↦ rw e refl
]

small-node : (n : String) → elem n small.nodes ≡ true → is_some (small.node n) ≡ true
small-node n h = ground arith

small-Walk_cases :
    (a b : String)
    → Walk small a b
    → (a ≡ b) ⊎ ((a == internet_id) ≡ true) × ((b == data_id) ≡ true)
small-Walk_cases a b here = inl refl
small-Walk_cases a c (step {b} w e) = elim (small-Walk_cases a b w) [
  | inl same ↦ inr (ground (arith, small-edge b c, same))
  | inr other ↦ inr (other.0, ground (arith, small-edge b c))
]

pub small-IsDigraph : IsDigraph small
small-IsDigraph = record {
  node_stored = small-node;
  successors_lem = λ a b. ground (arith, small-edge a b);
  target_mem = λ a b h. ground (arith, small-edge a b);
  descendants_irrefl = λ a. small_irrefl a;
  descendants_sound = λ a b h. step here (ground (arith, small-edge a b));
  descendants_complete = λ a b w ne. elim (small-Walk_cases a b w) [
    | inl same ↦ absurd (ne same)
    | inr other ↦ ground (arith)
  ];
}

abbrev the_path : List String
the_path = internet_id ∷ data_id ∷ []

abbrev parents : Parents
parents = (internet_id, internet_id) ∷ (data_id, internet_id) ∷ []

small-breadth_first : breadth_first small ≡ ok parents
unfolding breadth_first
small-breadth_first = refl

small-Walk : Walk small internet_id data_id
small-Walk = step here refl

data_ne : data_id ≢ internet_id
data_ne = λ e. cc

small-IsRoute : IsRoute small data_id the_path
small-IsRoute = record {
  start = refl;
  finish = refl;
  edges = (refl, tt);
  simple = (refl, (refl, tt));
  short = omega arith;
}

small-IsSimpleWalk : IsSimpleWalk small small-IsDigraph data_id the_path
small-IsSimpleWalk = record {
  start = refl;
  finish = refl;
  edges = (refl, tt);
  simple = (refl, (refl, tt));
}

breadth_first_correct_example :
    (has_parent data_id parents ≡ true) ↔ ∥ Walk small internet_id data_id ∥₁
breadth_first_correct_example =
    breadth_first_correct small parents data_id small-IsDigraph small-breadth_first

witness_route_correct_example :
    (route : List String) × (witness_route parents data_id ≡ ok route)
    × (IsRoute small data_id route ⊎ (¬ Starts internet_id route) × (length route ≡ 33))
witness_route_correct_example =
    witness_route_correct small parents data_id small-IsDigraph small-breadth_first small-Walk

abbrev the_attack : AttackPath
the_attack =
    attack_path_of the_path (the_edge ∷ [])
      (node_at internet_id internet false ∷ node_at data_id sensitive_data true ∷ [])

small-build_attack_path : build_attack_path small the_attack.nodes ≡ ok the_attack
unfolding build_attack_path attack_path_of
small-build_attack_path = refl

abbrev at_end : Dfs
at_end = record {
  stack = [];
  route = [];
  visited = [];
  emitted = the_path ∷ [];
  paths = the_attack ∷ [];
  path_work = 2;
  truncated = false;
}

small-enumerate : enumerate small data_id the_path (the_attack ∷ []) 0 false ≡ ok at_end
unfolding enumerate
small-enumerate = refl

enumerate_sound_example : Adds small small-IsDigraph data_id [] at_end
enumerate_sound_example =
    enumerate_sound small small-IsDigraph data_id the_attack [] 0 false at_end data_ne
      (unfold attack_path_of in small-IsRoute) small-build_attack_path
      (unfold attack_path_of in small-enumerate)

enumerate_complete_example : elem the_path at_end.emitted ≡ true
enumerate_complete_example =
    enumerate_complete small small-IsDigraph data_id the_path the_path (the_attack ∷ []) 0 false
      at_end data_ne small-enumerate refl small-IsSimpleWalk

abbrev nothing_yet : Tally
nothing_yet = record { paths = []; path_work = 0; truncated = false }

enumerate-ends_example :
    (t : Dfs) × (enumerate small data_id the_path [] 0 false ≡ ok t)
    × (t.path_work ≤ max_path_work)
    × (length t.paths ≤ max_paths)
enumerate-ends_example =
    enumerate-ends small small-IsDigraph data_id the_path [] 0 false refl data_ne (omega arith)
      (omega arith)

each_target_ok_example :
    (u : Tally) × (each_target small parents (data_id ∷ []) nothing_yet ≡ ok u)
    × Gathered small small-IsDigraph refl (data_id ∷ []) nothing_yet u
each_target_ok_example =
    each_target_ok small small-IsDigraph refl parents (data_id ∷ []) nothing_yet small-breadth_first
      ((data_ne, small-Walk), tt) (record { work = omega arith; paths = omega arith })

breadth_first_ends_example : (p : Parents) × (breadth_first small ≡ ok p)
breadth_first_ends_example = breadth_first_ends small small-IsDigraph refl

abbrev few : Counts
few = record {
  admin_port = 1;
  public_bucket = 0;
  public_compute = 1;
  broad_iam = 0;
  sensitive_exposed = 0;
  full_path = 0;
}

abbrev many : Counts
many = record {
  admin_port = 1;
  public_bucket = 2;
  public_compute = 5;
  broad_iam = 0;
  sensitive_exposed = 3;
  full_path = 1;
}

few-AtMost-many : AtMost few many
few-AtMost-many = record {
  admin_port = omega arith;
  public_bucket = omega arith;
  public_compute = omega arith;
  broad_iam = omega arith;
  sensitive_exposed = omega arith;
  full_path = omega arith;
}

score_antitone_example : (score_counts many).0 ≤ℤ (score_counts few).0
score_antitone_example = score_antitone few many few-AtMost-many

score-closed_form_example : (score_counts few).0 ≡ pos (100 - total_cost few)
score-closed_form_example = score-closed_form few

-- An analysis of the small graph, with its data as a reachable sensitive resource.
abbrev exposed : AnalysisResult
exposed = record (blank_result small "after") { reachable_sensitive = data_id ∷ [] }

abbrev exposed_score : ℤ × List ScoreRow
exposed_score =
    score_counts
      (record few { admin_port = 0; public_compute = 0; sensitive_exposed = 1; full_path = 1 })

exposed-scored : score_analysis exposed ≡ ok exposed_score
unfolding score_analysis
exposed-scored = refl

score-breakdown_example : exposed_score.0 ≡ clamp (pos 100 +ℤ points exposed_score.1)
score-breakdown_example = score-breakdown exposed exposed_score exposed-scored

score_of_sensitive_example : exposed_score.0 ≤ℤ pos 55
score_of_sensitive_example = score_of_sensitive exposed exposed_score exposed-scored refl

abbrev calm : AnalysisResult
calm = blank_result small "before"

abbrev no_diff : GraphDiff
no_diff = judged (differences exposed exposed [] [])

abbrev worse : GraphDiff
worse = judged (differences calm exposed [] [])

abbrev better : GraphDiff
better = judged (differences exposed calm [] [])

exposed-compare : compare exposed exposed ≡ ok no_diff
unfolding compare
exposed-compare = refl

worse-compare : compare calm exposed ≡ ok worse
unfolding compare
worse-compare = refl

better-compare : compare exposed calm ≡ ok better
unfolding compare
better-compare = refl

compare_lem_example : (d : GraphDiff) × (compare calm exposed ≡ ok d) × Compares calm exposed d
compare_lem_example = compare_lem calm exposed

compare_self_example : (d : GraphDiff) × (compare exposed exposed ≡ ok d) × IsQuiet exposed d
compare_self_example = compare_self exposed

compare-swap_example :
    (better.new_nodes ≡ worse.removed_nodes)
    × (better.new_edges ≡ worse.removed_edges)
    × (better.newly_exposed ≡ worse.no_longer_exposed)
    × (better.newly_reachable_sensitive ≡ worse.no_longer_reachable_sensitive)
    × (better.new_attack_paths ≡ worse.removed_attack_paths)
compare-swap_example = compare-swap calm exposed worse better worse-compare better-compare

no_diff-verdict : determine_verdict no_diff ≡ unchanged
unfolding judged differences determine_verdict
no_diff-verdict = refl

determine_verdict-safe_example :
    (diff_complete no_diff ≡ true)
    × (no_diff.newly_reachable_sensitive ≡ [])
    × (new_critical_paths no_diff ≡ [])
determine_verdict-safe_example = determine_verdict-safe no_diff (inl no_diff-verdict)

-- The decision on a diff without a policy and without new ingress.
abbrev decision_on : GraphDiff → DeploymentDecision
decision_on d =
    let p = default_policy Option.none in
    let violations = violations_of d p [] in
    record {
      decision = (verdict_on d violations).0;
      headline = (verdict_on d violations).1;
      reasons = reasons_of d;
      policy_notes = notes_of d p violations;
      policy = p;
    }

no_diff-decide : decide no_diff Option.none ≡ ok (decision_on no_diff)
unfolding decide judged differences
no_diff-decide = refl

worse-decide : decide worse Option.none ≡ ok (decision_on worse)
unfolding decide judged differences
worse-decide = refl

no_diff-safe : (decision_on no_diff).decision ≡ safe
unfolding verdict_on violations_of judged differences ◌-ℤ◌
no_diff-safe = refl

decide-safe_example :
    (diff_complete no_diff ≡ true)
    × (no_diff.new_attack_paths ≡ [])
    × (no_diff.newly_exposed ≡ [])
    × (no_diff.newly_reachable_sensitive ≡ [])
    × (ltb_ℤ (score_delta no_diff) (pos 0) ≡ false)
decide-safe_example =
    decide-safe no_diff Option.none (decision_on no_diff) no_diff-decide no_diff-safe

decide-default_block_example :
    (exit_code (decision_on worse).decision ≡ 1)
    ↔ ((is_empty (new_critical_paths worse) && is_empty worse.newly_reachable_sensitive) ≡ false)
decide-default_block_example = decide-default_block worse (decision_on worse) worse-decide

abbrev policy_file : Value
policy_file = dict (
    field "thresholds" (dict (field "minimum_security_score" (int (pos 70)) end))
      (field "terraform_dir" (str "infra") end))

abbrev in_infra : List ℕ → String
in_infra s = "infra"

abbrev loaded : Policy
loaded = record {
  block_new_critical_paths = true;
  block_new_sensitive_exposure = true;
  block_public_admin_ports = true;
  allow_public_https = true;
  minimum_security_score = some (pos 70);
  source = Option.none;
  warnings = [];
  terraform_dir = some "infra";
}

policy_file-loads : load_policy_data in_infra policy_file Option.none ≡ ok loaded
unfolding load_policy_data
policy_file-loads = refl

load_policy_data-IsLoaded_example : IsLoaded in_infra policy_file loaded
load_policy_data-IsLoaded_example =
    load_policy_data-IsLoaded in_infra policy_file Option.none loaded policy_file-loads

abbrev ssh_group : TerraformResource
ssh_group = record {
  type = "aws_security_group";
  name = "ssh";
  attributes =
      field "ingress"
        (dict (
          field "from_port" (int (pos 22))
            (field "to_port" (int (pos 22)) (field "cidr_blocks" (str "0.0.0.0/0") end))))
        end;
  source_file = Option.none;
}

public_ingress_findings-IsSound_example : All IsSound (public_ingress_findings ssh_group)
public_ingress_findings-IsSound_example = public_ingress_findings-IsSound ssh_group

abbrev names_itself : String → List String
names_itself s = s ∷ []

abbrev role_policy : TerraformResource
role_policy = record {
  type = "aws_iam_role_policy";
  name = "read";
  attributes = field "role" (str "aws_iam_role.app") end;
  source_file = Option.none;
}

role_policies-build_example :
    listed
      (lookup "aws_iam_role.app" (build names_itself (role_policy ∷ ssh_group ∷ [])).role_policies)
    ≡ keep (applies names_itself "aws_iam_role.app") (role_policy ∷ ssh_group ∷ [])
role_policies-build_example =
    role_policies-build names_itself "aws_iam_role.app" (role_policy ∷ ssh_group ∷ [])

abbrev small_enterprise : Organization
small_enterprise = record { plan = "enterprise"; plan_limits = ("members", 3) ∷ [] }

entitled_to_lem_example :
    entitled_to small_enterprise Feature.audit
    ≡ elem small_enterprise.plan (plans_with Feature.audit)
entitled_to_lem_example = entitled_to_lem small_enterprise Feature.audit

check_structure_lem_example :
    check_structure policy_file ≡ (leb (size policy_file) 100000 && is_shallow 0 policy_file)
check_structure_lem_example = check_structure_lem policy_file
