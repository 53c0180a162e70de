-- ===== src/Rules/Ingress.antt =====
-- What the findings on public ingress say.
use blast_radius.Base.{
  ℤ, ◌≡◌, ◌↔◌, inl, inr, refl, String, true, string_eq, Option, some, none, List, [], ◌∷◌, map, All,
  All-append, keep, concat, Bool-cases, arith, ◌≤◌,
}
use blast_radius.Graph.{is_some}
use blast_radius.Python.{
  Value, null, bool, int, float, str, policy_str, list, dict, field_or, str_of, texts,
}
use blast_radius.Models.{medium, critical, rank, TerraformResource, get}
use blast_radius.Rules.{
  IngressFinding, is_public_cidr, covers_admin_port, finding_of, public_cidrs_of, ports_of,
  rule_findings, public_ingress_findings, as_list, findings_at,
}

-- A finding names a public range, is critical exactly when the rule covers an administrative port,
-- and is medium at least.
pub record IsSound (f : IngressFinding) : Type 0 where
  pub public : is_public_cidr f.cidr ≡ true
  pub admin : f.is_admin_port ≡ is_some (covers_admin_port f.from_port f.to_port f.protocol)
  pub escalated : (f.risk ≡ critical) ↔ (f.is_admin_port ≡ true)
  pub at_least : rank medium ≤ rank f.risk

finding_of-IsSound :
    (f t : ℤ) (p c : String) → is_public_cidr c ≡ true → IsSound (finding_of f t p c)
unfolding finding_of
finding_of-IsSound f t p c h = record {
  public = h;
  admin = refl;
  escalated = ground arith;
  at_least = ground arith;
}

All-IsSound :
    (f t : ℤ) (p : String) (cs : List String)
    → All (λ c. is_public_cidr c ≡ true) cs
    → All IsSound (map (finding_of f t p) cs)
All-IsSound f t p [] h = tt
All-IsSound f t p (c ∷ cs) h = (finding_of-IsSound f t p c h.0, All-IsSound f t p cs h.1)

kept_public : (cs : List String) → All (λ c. is_public_cidr c ≡ true) (keep is_public_cidr cs)
kept_public [] = tt
kept_public (c ∷ cs) = elim (Bool-cases (is_public_cidr c)) [
  | inl e ↦ rw e (e, kept_public cs)
  | inr e ↦ rw e (kept_public cs)
]

rule-IsSound : (v : Value) → All IsSound (rule_findings v)
unfolding rule_findings public_cidrs_of
rule-IsSound null = tt
rule-IsSound (bool b) = tt
rule-IsSound (int n) = tt
rule-IsSound (float t n z) = tt
rule-IsSound (str s) = tt
rule-IsSound (policy_str s a) = tt
rule-IsSound (list vs) = tt
rule-IsSound (dict rule) = go (ports_of rule)
  where
    go :
        (p : Option (ℤ × ℤ))
        → All IsSound
            (findings_at (str_of (field_or rule "protocol" (str "tcp"))) (public_cidrs_of rule) p)
    go none = tt
    go (some p) =
        All-IsSound p.0 p.1 (str_of (field_or rule "protocol" (str "tcp"))) (public_cidrs_of rule) (
          All-append _ (keep is_public_cidr (texts (as_list (field_or rule "cidr_blocks" null))))
            (keep is_public_cidr (texts (as_list (field_or rule "ipv6_cidr_blocks" null))))
            (kept_public (texts (as_list (field_or rule "cidr_blocks" null))))
            (kept_public (texts (as_list (field_or rule "ipv6_cidr_blocks" null)))))

All-rules : (vs : List Value) → All IsSound (concat (map rule_findings vs))
All-rules [] = tt
All-rules (v ∷ vs) =
    All-append _ (rule_findings v) (concat (map rule_findings vs)) (rule-IsSound v) (All-rules vs)

-- Every finding on a security group names a public address range, is marked administrative exactly
-- when its rule covers an administrative port, is critical exactly then, and is medium at least.
pub public_ingress_findings-IsSound :
    (r : TerraformResource) → All IsSound (public_ingress_findings r)
unfolding public_ingress_findings
public_ingress_findings-IsSound r = All-rules (as_list (get r "ingress"))
