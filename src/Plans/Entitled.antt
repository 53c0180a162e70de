-- ===== src/Plans/Entitled.antt =====
-- Who is entitled to what.
use blast_radius.Base.{
  String, Bool, true, false, not, ◌&&◌, ◌==◌, ==_iff, string_eq, List, [], ◌∷◌, elem, Bool-cases,
  subst, ℕ, is_empty, ◌∙◌, inl, inr, ◌≡◌, refl, arith, if◌then◌else◌, lookup,
}
use blast_radius.Plans.{
  Plan, Feature, advanced_policy, sarif, team, organization_policy, audit, has_feature,
  Organization, entitlements, entitled_to, free_plan, plans, value_or,
}

abbrev pub plans_with : Feature → List String
plans_with advanced_policy = "pro" ∷ "team" ∷ "enterprise" ∷ []
plans_with sarif = "pro" ∷ "team" ∷ "enterprise" ∷ []
plans_with _ = "team" ∷ "enterprise" ∷ []

abbrev FeaturesAt : Feature → String → Type 0
FeaturesAt feature name =
    has_feature (value_or free_plan (lookup name plans)) feature ≡ elem name (plans_with feature)

at_known :
    (feature : Feature)
    → FeaturesAt feature "free"
      × FeaturesAt feature "pro"
      × FeaturesAt feature "team"
      × FeaturesAt feature "enterprise"
at_known advanced_policy = (refl, refl, refl, refl)
at_known sarif = (refl, refl, refl, refl)
at_known team = (refl, refl, refl, refl)
at_known organization_policy = (refl, refl, refl, refl)
at_known audit = (refl, refl, refl, refl)

at_unknown :
    (feature : Feature) (name : String)
    → ("free" == name) ≡ false
    → ("pro" == name) ≡ false
    → ("team" == name) ≡ false
    → ("enterprise" == name) ≡ false
    → FeaturesAt feature name
at_unknown advanced_policy name f p t e =
    rw (f, p, t, e)
      (ground (
        arith,
        ==_iff name "pro",
        ==_iff name "team",
        ==_iff name "enterprise",
        ==_iff "pro" name,
        ==_iff "team" name,
        ==_iff "enterprise" name,
      ))
at_unknown sarif name f p t e =
    rw (f, p, t, e)
      (ground (
        arith,
        ==_iff name "pro",
        ==_iff name "team",
        ==_iff name "enterprise",
        ==_iff "pro" name,
        ==_iff "team" name,
        ==_iff "enterprise" name,
      ))
at_unknown team name f p t e =
    rw (f, p, t, e)
      (ground (
        arith,
        ==_iff name "team",
        ==_iff name "enterprise",
        ==_iff "team" name,
        ==_iff "enterprise" name,
      ))
at_unknown organization_policy name f p t e =
    rw (f, p, t, e)
      (ground (
        arith,
        ==_iff name "team",
        ==_iff name "enterprise",
        ==_iff "team" name,
        ==_iff "enterprise" name,
      ))
at_unknown audit name f p t e =
    rw (f, p, t, e)
      (ground (
        arith,
        ==_iff name "team",
        ==_iff name "enterprise",
        ==_iff "team" name,
        ==_iff "enterprise" name,
      ))

at_plan : (feature : Feature) (name : String) → FeaturesAt feature name
at_plan feature name =
    let (at_free, at_pro, at_team, at_enterprise) = at_known feature in
    elim (Bool-cases ("free" == name)) [
      | inl e ↦ subst (FeaturesAt feature) ((==_iff "free" name).0 e) at_free
      | inr f ↦ elim (Bool-cases ("pro" == name)) [
        | inl e ↦ subst (FeaturesAt feature) ((==_iff "pro" name).0 e) at_pro
        | inr p ↦ elim (Bool-cases ("team" == name)) [
          | inl e ↦ subst (FeaturesAt feature) ((==_iff "team" name).0 e) at_team
          | inr t ↦ elim (Bool-cases ("enterprise" == name)) [
            | inl e ↦ subst (FeaturesAt feature) ((==_iff "enterprise" name).0 e) at_enterprise
            | inr e ↦ at_unknown feature name f p t e
          ]
        ]
      ]
    ]

limits_keep_features :
    (b : Bool) (plan : Plan) (a c d e : ℕ) (feature : Feature)
    → has_feature
        (if b
          then record plan { projects = a; analyses_per_month = c; retention_days = d; members = e }
          else plan)
        feature
      ≡ has_feature plan feature
limits_keep_features true plan a c d e advanced_policy = refl
limits_keep_features true plan a c d e sarif = refl
limits_keep_features true plan a c d e team = refl
limits_keep_features true plan a c d e organization_policy = refl
limits_keep_features true plan a c d e audit = refl
limits_keep_features false plan a c d e feature = refl

-- Advanced policies and SARIF need one of the paid plans, and the other features need the team or the
-- enterprise plan; an unknown plan has no feature, and an organization's own limits change none.
pub entitled_to_lem :
    (org : Organization) (feature : Feature)
    → entitled_to org feature ≡ elem org.plan (plans_with feature)
unfolding entitled_to entitlements
entitled_to_lem org feature =
    limits_keep_features (org.plan == "enterprise" && not (is_empty org.plan_limits))
      (value_or free_plan (lookup org.plan plans)) _ _ _ _ feature
    ∙ at_plan feature org.plan
