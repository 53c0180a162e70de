-- ===== src/Plans.antt =====
-- blastradius/server/plans.py: the plans, and what an organization is entitled to.
pub mod Entitled
use blast_radius.Base.{
  ℕ, String, Bool, true, false, ◌&&◌, ◌==◌, string_eq, Option, some, none, List, [], ◌∷◌, lookup,
  is_empty, not, if◌then◌else◌,
}

pub record Plan : Type 0 where
  pub code : String
  pub monthly_price_usd : Option ℕ
  pub projects : ℕ
  pub analyses_per_month : ℕ
  pub retention_days : ℕ
  pub members : ℕ
  pub advanced_policy : Bool
  pub sarif : Bool
  pub team : Bool
  pub organization_policy : Bool
  pub audit : Bool

-- `Feature`
pub data Feature : Type 0 where
  advanced_policy sarif team organization_policy audit : Feature

-- `plan.features[feature]`
abbrev pub has_feature : Plan → Feature → Bool
has_feature p advanced_policy = p.advanced_policy
has_feature p sarif = p.sarif
has_feature p team = p.team
has_feature p organization_policy = p.organization_policy
has_feature p audit = p.audit

abbrev pub limits : Plan → List (String × ℕ)
limits p =
    ("projects", p.projects)
    ∷ ("analyses_per_month", p.analyses_per_month)
    ∷ ("retention_days", p.retention_days)
    ∷ ("members", p.members)
    ∷ []

abbrev pub free_plan : Plan
free_plan = record {
  code = "free";
  monthly_price_usd = some 0;
  projects = 1;
  analyses_per_month = 25;
  retention_days = 7;
  members = 1;
  advanced_policy = false;
  sarif = false;
  team = false;
  organization_policy = false;
  audit = false;
}

abbrev pub pro_plan : Plan
pro_plan = record free_plan {
  code = "pro";
  monthly_price_usd = some 49;
  projects = 5;
  analyses_per_month = 500;
  retention_days = 90;
  advanced_policy = true;
  sarif = true;
}

abbrev pub team_plan : Plan
team_plan = record {
  code = "team";
  monthly_price_usd = some 149;
  projects = 25;
  analyses_per_month = 5000;
  retention_days = 365;
  members = 25;
  advanced_policy = true;
  sarif = true;
  team = true;
  organization_policy = true;
  audit = true;
}

abbrev pub enterprise_plan : Plan
enterprise_plan = record team_plan { code = "enterprise"; monthly_price_usd = none }

-- `PLANS`
abbrev pub plans : List (String × Plan)
plans =
    ("free", free_plan)
    ∷ ("pro", pro_plan)
    ∷ ("team", team_plan)
    ∷ ("enterprise", enterprise_plan)
    ∷ []

-- What `entitlements` reads of an `Organization`; no limits are the empty list.
pub record Organization : Type 0 where
  pub plan : String
  pub plan_limits : List (String × ℕ)

abbrev pub value_or {ℓ} : {A : Type ℓ} → A → Option A → A
value_or a none = a
value_or a (some b) = b

unfoldable pub entitlements : Organization → Plan
entitlements org =
    let plan = value_or free_plan (lookup org.plan plans) in
    if org.plan == "enterprise" && not (is_empty org.plan_limits)
    then record plan {
      projects = value_or plan.projects (lookup "projects" org.plan_limits);
      analyses_per_month =
          value_or plan.analyses_per_month (lookup "analyses_per_month" org.plan_limits);
      retention_days = value_or plan.retention_days (lookup "retention_days" org.plan_limits);
      members = value_or plan.members (lookup "members" org.plan_limits);
    }
    else plan

-- `require_feature` returns; where it does not, it raises 402.
unfoldable pub entitled_to : Organization → Feature → Bool
unfolding entitlements
entitled_to org feature = has_feature (entitlements org) feature
