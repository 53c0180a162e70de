-- ===== src/Decision/Laws.antt =====
-- What a merge decision promises.
use blast_radius.Base.{
  pos, ltb_ℤ, ◌≡◌, ◌↔◌, refl, ap, String, Bool, true, false, not, ◌&&◌, Option, none, List, [], ◌∷◌,
  ◌++◌, is_empty, List-cases, arith, ok, >>=-eq-ok,
}
use blast_radius.Diff.{GraphDiff, diff_complete, new_critical_paths, score_delta}
use blast_radius.Policy.{Policy, default_policy}
use blast_radius.Decision.{
  safe, is_block, DeploymentDecision, decide, new_ingress, violations_of, verdict_on, Fact,
  exit_code, policy_or_default, noted,
}

verdict_of :
    (d : GraphDiff) (given : Option Policy) (r : DeploymentDecision)
    → decide d given ≡ ok r
    → (facts : List Fact) × (new_ingress d ≡ ok facts)
      × (r.decision ≡ (verdict_on d (violations_of d (policy_or_default given) facts)).0)
unfolding decide
verdict_of d given r h = let (facts, e, same) = >>=-eq-ok (new_ingress d) _ h in (facts, e, cc)

-- A change is called safe only where both analyses are complete, it has no new attack path, no newly
-- exposed and no newly reachable sensitive resource, and its score has not dropped.
pub decide-safe :
    (d : GraphDiff) (given : Option Policy) (r : DeploymentDecision)
    → decide d given ≡ ok r
    → r.decision ≡ safe
    → (diff_complete d ≡ true)
      × (d.new_attack_paths ≡ [])
      × (d.newly_exposed ≡ [])
      × (d.newly_reachable_sensitive ≡ [])
      × (ltb_ℤ (score_delta d) (pos 0) ≡ false)
unfolding verdict_on
decide-safe d given r h s =
    let (facts, e, same) = verdict_of d given r h in
    ground (
      arith,
      List-cases d.new_attack_paths,
      List-cases d.newly_exposed,
      List-cases d.newly_reachable_sensitive,
      List-cases (violations_of d (policy_or_default given) facts),
    )

block_of_violations :
    (d : GraphDiff) (vs : List String) → is_block (verdict_on d vs).0 ≡ not (is_empty vs)
unfolding verdict_on
block_of_violations d [] = ground arith
block_of_violations d (v ∷ vs) = refl

default_violations :
    (d : GraphDiff) (facts : List Fact)
    → is_empty (violations_of d (default_policy none) facts)
      ≡ (is_empty (new_critical_paths d) && is_empty d.newly_reachable_sensitive)
unfolding violations_of
default_violations d facts =
    go (is_empty (new_critical_paths d)) (is_empty d.newly_reachable_sensitive)
  where
    go :
        (a b : Bool)
        → is_empty (
            noted (not a && true) "New critical attack paths are prohibited"
            ++ noted (not b && true) "New sensitive resource exposure is prohibited"
            ++ []
            ++ []
            ++ [])
          ≡ (a && b)
    go true true = refl
    go true false = refl
    go false b = refl

-- Without a policy, a change is blocked exactly when it has a new critical path or a newly reachable
-- sensitive resource.
pub decide-default_block :
    (d : GraphDiff) (r : DeploymentDecision)
    → decide d none ≡ ok r
    → (exit_code r.decision ≡ 1)
      ↔ ((is_empty (new_critical_paths d) && is_empty d.newly_reachable_sensitive) ≡ false)
unfolding exit_code
decide-default_block d r h =
    let (facts, e, same) = verdict_of d none r h in
    ground (
      arith,
      block_of_violations d (violations_of d (default_policy none) facts),
      default_violations d facts,
      ap is_block same,
    )
