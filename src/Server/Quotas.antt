-- ===== src/Server/Quotas.antt =====
-- blastradius/server/quotas.py: the counts and the quotas of an organization. The rows are what the
-- functions and the routes read of the tables; times are whole seconds, and a call reads one time.
pub mod Routes
pub mod Life
pub mod Counting
pub mod Within
pub mod Charges
pub mod Kept
pub mod Workspaces
pub mod Sound
use blast_radius.Base.{
  ℕ, zero, suc, ◌+◌, String, Bool, true, false, not, ◌&&◌, ◌==◌, string_eq, pair_eq, Option, none,
  some, List, [], ◌∷◌, leb, ltb, if◌then◌else◌, lookup, insert, Result, ok, err,
}
use blast_radius.Plans.{Organization, Plan, entitlements}

pub record Project : Type 0 where
  pub organization_id : String
  pub archived_at : Option ℕ

pub record Invitation : Type 0 where
  pub organization_id : String
  pub role : String
  pub accepted_at : Option ℕ
  pub revoked_at : Option ℕ
  pub expires_at : ℕ

pub record Usage : Type 0 where
  pub analyses : ℕ
  pub exports : ℕ

-- The tables by their keys: the ids, a user with an organization, and an organization with a period. A
-- membership is its role.
pub record Tables : Type 0 where
  pub projects : List (String × Project)
  pub invitations : List (String × Invitation)
  pub members : List ((String × String) × String)
  pub usage : List ((String × String) × Usage)

-- The kinds that `quota` is called with.
pub data Kind : Type 0 where
  projects members analyses_per_month : Kind

-- The `HTTPException` of the quotas, and of the routes that ask for them.
pub data Error : Type 0 where
  quota_exceeded : Kind → Error
  not_found not_entitled insufficient_role last_owner organization_limit_exceeded : Error

pub record Counts : Type 0 where
  pub projects : ℕ
  pub members : ℕ
  pub pending_invitations : ℕ

abbrev pub bit : Bool → ℕ
bit true = 1
bit false = 0

module _ {K V : Type 0} where
  -- `func.count()` of the rows that a query takes
  abbrev pub count : (K → V → Bool) → List (K × V) → ℕ
  count p [] = 0
  count p ((k, v) ∷ rows) = bit (p k v) + count p rows

abbrev pub is_none {ℓ} : {A : Type ℓ} → Option A → Bool
is_none none = true
is_none (some a) = false

-- The conditions of the queries of `grouped_counts`.
abbrev pub is_active : String → String → Project → Bool
is_active org_id id p = p.organization_id == org_id && is_none p.archived_at

abbrev pub is_member : String → String × String → String → Bool
is_member org_id (user_id, id) role = id == org_id

abbrev pub is_pending : ℕ → String → String → Invitation → Bool
is_pending now org_id id i =
    i.organization_id == org_id
    && is_none i.accepted_at
    && is_none i.revoked_at
    && ltb now i.expires_at

-- `counts`
unfoldable pub counts : ℕ → String → Tables → Counts
counts now org_id db = record {
  projects = count (is_active org_id) db.projects;
  members = count (is_member org_id) db.members;
  pending_invitations = count (is_pending now org_id) db.invitations;
}

-- `entitlements(org).limits[kind]`
abbrev pub limit : Plan → Kind → ℕ
limit p projects = p.projects
limit p members = p.members
limit p analyses_per_month = p.analyses_per_month

abbrev pub used_of : Option Usage → Usage
used_of none = record { analyses = 0; exports = 0 }
used_of (some u) = u

abbrev pub put_usage : String → String → Usage → Tables → Tables
put_usage org_id period u db = record db { usage = insert (org_id, period) u db.usage }

-- `usage_row`: where there is none, it is added.
unfoldable pub usage_row : String → String → Tables → Usage × Tables
usage_row org_id period db =
    let u = used_of (lookup (org_id, period) db.usage) in (u, put_usage org_id period u db)

module _ (now : ℕ) (period org_id : String) (org : Organization) where
  abbrev pub spend : Usage × Tables → Result Error Tables
  spend (u, db) =
      if leb (limit (entitlements org) analyses_per_month) u.analyses
      then err (quota_exceeded analyses_per_month)
      else ok (put_usage org_id period (record u { analyses = u.analyses + 1 }) db)

  -- `quota`
  unfoldable pub quota : Kind → Tables → Result Error Tables
  unfolding counts usage_row
  quota analyses_per_month db = spend (usage_row org_id period db)
  quota projects db =
      if leb (limit (entitlements org) projects) (counts now org_id db).projects
      then err (quota_exceeded projects)
      else ok db
  quota members db =
      let c = counts now org_id db in
      if leb (limit (entitlements org) members) (c.members + c.pending_invitations)
      then err (quota_exceeded members)
      else ok db
