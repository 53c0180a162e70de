-- ===== src/Decision.antt =====
-- blastradius/security/decision.py: the merge decision for a diff under a policy.
pub mod Laws
use blast_radius.Base.{
  ℕ, suc, ◌+◌, ℤ, pos, negsuc, pos_part, neg_part, ltb_ℤ, leb, int_eq, pair_eq, String, Bool, true,
  false, not, ◌||◌, ◌&&◌, ◌==◌, nat_eq, string_eq, Option, some, none, List, [], ◌∷◌, ◌++◌, map,
  any, elem, keep, length, ltb, is_empty, if◌then◌else◌, Result, ok, ◌>>=◌, traverse, concat,
}
use blast_radius.Python.{◌+++◌, join, decimal, str_of, int}
use blast_radius.Models.{
  Risk, none as no_risk, medium, high, critical, rank, risk_eq, NodeType, security_group,
  node_type_eq, TerraformResource, ResourceNode,
}
use blast_radius.Graph.{Graph, Error, node_of}
use blast_radius.Analysis.Outcome.{AnalysisResult}
use blast_radius.Diff.{
  GraphDiff, diff_complete, new_critical_paths, removed_critical_paths, score_delta,
}
use blast_radius.Rules.{IngressFinding, public_ingress_findings}
use blast_radius.Policy.{Policy, default_policy}

pub data Decision : Type 0 where
  block review safe : Decision

abbrev pub is_block : Decision → Bool
is_block block = true
is_block _ = false

-- `Decision.exit_code`
unfoldable pub exit_code : Decision → ℕ
exit_code d = if is_block d then 1 else 0

pub record DecisionReason : Type 0 where
  pub label : String
  pub detail : String
  pub severity : Risk
  pub delta : ℕ

unfoldable pub is_negative : DecisionReason → Bool
is_negative r = ltb 0 r.delta && leb (rank medium) (rank r.severity)

pub record DeploymentDecision : Type 0 where
  pub decision : Decision
  pub headline : String
  pub reasons : List DecisionReason
  pub policy_notes : List String
  pub policy : Policy

unfoldable pub blocking_reasons : DeploymentDecision → List DecisionReason
blocking_reasons d = keep (λ r. ltb 0 r.delta && r.severity == critical) d.reasons

unfoldable pub plural : ℕ → String → String
unfolding decimal
plural count noun = decimal count +++ " " +++ noun +++ (if count == 1 then "" else "s")

unfoldable pub score_reason : ℤ → DecisionReason
unfolding decimal
score_reason (negsuc n) = record {
  label = "Security score delta";
  detail = "Score dropped by " +++ decimal (suc n) +++ " points";
  severity = medium;
  delta = suc n;
}
score_reason (pos n) = record {
  label = "Security score delta";
  detail = if ltb 0 n then "Score improved by " +++ decimal n +++ " points" else "Score unchanged";
  severity = no_risk;
  delta = 0;
}

abbrev reason_for : String → ℕ → Risk → String → String → DecisionReason
reason_for label count severity detail otherwise = record {
  label = label;
  detail = if ltb 0 count then detail else otherwise;
  severity = if ltb 0 count then severity else no_risk;
  delta = count;
}

unfoldable pub reasons_of : GraphDiff → List DecisionReason
unfolding new_critical_paths score_reason score_delta plural join
reasons_of d =
    reason_for "New critical attack paths" (length (new_critical_paths d)) critical
      (plural (length (new_critical_paths d)) "new path"
        +++ " from the internet to data marked sensitive")
      "No new internet-to-sensitive-data path"
    ∷ reason_for "Newly reachable sensitive resources" (length d.newly_reachable_sensitive) critical
        (join ", " d.newly_reachable_sensitive) "No sensitive resource became reachable"
    ∷ reason_for "Newly internet-reachable resources" (length d.newly_exposed) high
        (join ", " d.newly_exposed) "No resource became internet-reachable"
    ∷ score_reason (score_delta d)
    ∷ []

-- A fact of `ingress_facts`: the node, the range, the ports, the protocol, whether it is administrative.
abbrev pub Fact : Type 0
Fact = String × IngressFinding

abbrev same_fact : Fact → Fact → Bool
same_fact (n, f) (m, g) =
    n == m
    && f.cidr == g.cidr
    && f.from_port == g.from_port
    && f.to_port == g.to_port
    && f.protocol == g.protocol
    && (if f.is_admin_port then g.is_admin_port else not g.is_admin_port)

unfoldable pub node_facts : Graph → String → Result Error (List Fact)
unfolding node_of public_ingress_findings
node_facts g n = do
  node ← node_of g n
  ok (
      if node.type == security_group
      then map (λ f. (node.id, f))
          (public_ingress_findings (record {
            type = "aws_security_group";
            name = node.id;
            attributes = node.attributes;
            source_file = none;
          }))
      else [])

unfoldable pub ingress_facts : AnalysisResult → Result Error (List Fact)
unfolding node_facts
ingress_facts r = do facts ← traverse (node_facts r.graph) r.graph.nodes; ok (concat facts)

-- `ingress_facts(diff.after) - ingress_facts(diff.before)`
unfoldable pub new_ingress : GraphDiff → Result Error (List Fact)
unfolding ingress_facts
new_ingress d = do
  after ← ingress_facts d.after
  before ← ingress_facts d.before
  ok (keep (λ f. not (any (same_fact f) before)) after)

abbrev is_https : Fact → Bool
is_https (n, f) =
    f.from_port == pos 443 && f.to_port == pos 443 && (f.protocol == "tcp" || f.protocol == "6")

abbrev pub noted : Bool → String → List String
noted b note = if b then note ∷ [] else []

abbrev below_minimum : ℤ → Option ℤ → List String
below_minimum score none = []
below_minimum score (some minimum) =
    noted (ltb_ℤ score minimum)
      ("Security score " +++ str_of (int score) +++ " is below minimum " +++ str_of (int minimum))

unfoldable pub violations_of : GraphDiff → Policy → List Fact → List String
unfolding new_critical_paths str_of
violations_of d p facts =
    noted (not (is_empty (new_critical_paths d)) && p.block_new_critical_paths)
      "New critical attack paths are prohibited"
    ++ noted (not (is_empty d.newly_reachable_sensitive) && p.block_new_sensitive_exposure)
        "New sensitive resource exposure is prohibited"
    ++ noted (p.block_public_admin_ports && any (λ f. f.1.is_admin_port) facts)
        "New public administrative ingress (SSH/RDP/all ports) is prohibited"
    ++ noted (not p.allow_public_https && any is_https facts)
        "New public HTTPS ingress is prohibited by policy"
    ++ below_minimum d.after.score p.minimum_security_score

unfoldable pub notes_of : GraphDiff → Policy → List String → List String
unfolding new_critical_paths diff_complete
notes_of d p violations =
    p.warnings
    ++ noted (not (is_empty (new_critical_paths d)) && not p.block_new_critical_paths)
        "Critical-path blocking disabled by explicit policy; findings remain visible"
    ++ noted (not (is_empty d.newly_reachable_sensitive) && not p.block_new_sensitive_exposure)
        "Sensitive-exposure blocking disabled by explicit policy; findings remain visible"
    ++ violations
    ++ noted (not (diff_complete d))
        "Analysis incomplete: resolve coverage diagnostics before treating this change as safe."

unfoldable pub verdict_on : GraphDiff → List String → Decision × String
unfolding new_critical_paths removed_critical_paths diff_complete score_delta plural join
verdict_on d violations =
    if not (is_empty violations)
    then (
      block,
      if not (is_empty (new_critical_paths d)) || not (is_empty d.newly_reachable_sensitive)
          then "This change opens a new path from the public internet to data marked sensitive."
          else join "; " violations +++ ".",
    )
    else if not (diff_complete d)
    then (review, "Security-critical inputs or paths are incomplete; manual review is required.")
    else if not (is_empty d.new_attack_paths)
        || not (is_empty d.newly_reachable_sensitive)
        || not (is_empty d.newly_exposed)
        || ltb_ℤ (score_delta d) (pos 0)
    then (
      review,
      "This change introduces security findings requiring review; see the exposure and policy details.",
    )
    else (
      safe,
      if is_empty (removed_critical_paths d)
          then "This change introduces no new internet-reachable resources or attack paths."
          else plural (length (removed_critical_paths d)) "critical attack path"
            +++ " removed and no new exposure introduced.",
    )

abbrev pub policy_or_default : Option Policy → Policy
policy_or_default none = default_policy none
policy_or_default (some p) = p

unfoldable pub decide : GraphDiff → Option Policy → Result Error DeploymentDecision
unfolding reasons_of new_ingress violations_of notes_of verdict_on
decide d given = do
  let p = policy_or_default given
  facts ← new_ingress d
  let violations = violations_of d p facts
  ok (record {
    decision = (verdict_on d violations).0;
    headline = (verdict_on d violations).1;
    reasons = reasons_of d;
    policy_notes = notes_of d p violations;
    policy = p;
  })
