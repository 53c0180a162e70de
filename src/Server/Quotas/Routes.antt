-- ===== src/Server/Quotas/Routes.antt =====
-- What changes the rows that the quotas count, once its caller is authorized: of app.py
-- `create_organization`, `create_project`, `delete_project`, the quota of `create_analysis` and the export
-- of `report`; of lifecycle.py `delete_organization`, `update_member`, `remove_member`, `invite`,
-- `revoke_invite`, `accept_invite`, `update_project` and an export; `provision` of auth.py; and the quota
-- of the GitHub worker.
use blast_radius.Base.{
  ℕ, ◌+◌, String, Bool, not, ◌&&◌, ◌==◌, string_eq, nat_eq, pair_eq, Option, none, some, [], ◌||◌,
  false, leb, ltb, keep, if◌then◌else◌, lookup, insert, Result, ok, err, guard, ◌>>=◌, ◌>>◌,
}
use blast_radius.Plans.{Organization, Feature, entitlements, entitled_to}
use blast_radius.Server.Quotas.{
  Project, Invitation, Tables, Error, quota_exceeded, not_found, not_entitled, insufficient_role,
  last_owner, organization_limit_exceeded, count, projects, members, Kind, is_none, counts, limit,
  usage_row, put_usage, quota,
}

abbrev pub put_project : String → Project → Tables → Tables
put_project id p db = record db { projects = insert id p db.projects }

abbrev pub put_invitation : String → Invitation → Tables → Tables
put_invitation id i db = record db { invitations = insert id i db.invitations }

-- `project.archived_at or time.time()`
abbrev pub archived_or : ℕ → Option ℕ → ℕ
archived_or now none = now
archived_or now (some t) = if t == 0 then now else t

-- The defaults of the columns
abbrev pub new_organization : Organization
new_organization = record { plan = "free"; plan_limits = [] }

module _ (organization : String → Organization) (now : ℕ) (period : String) where
  -- `quota` for an organization by its id
  abbrev pub quota_of : Kind → String → Tables → Result Error Tables
  quota_of kind org_id = quota now period org_id (organization org_id) kind

  -- `create_project`, with the id of the new row
  unfoldable pub create_project : String → String → Tables → Result Error Tables
  unfolding quota
  create_project id org_id db = do
    db' ← quota_of projects org_id db
    ok (put_project id (record { organization_id = org_id; archived_at = none }) db')

  abbrev pub updated : String → Bool → Option Project → Tables → Result Error Tables
  updated id archived none db = err not_found
  updated id archived (some p) db = do
    db' ←
        if not archived && not (is_none p.archived_at)
        then quota_of projects p.organization_id db
        else ok db
    ok (
        put_project id
          (record p {
            archived_at = if archived then some (archived_or now p.archived_at) else none;
          })
          db')

  -- `update_project`, with `body.archived`; the other columns are left out.
  unfoldable pub update_project : String → Bool → Tables → Result Error Tables
  unfolding quota
  update_project id archived db = updated id archived (lookup id db.projects) db

  abbrev pub require_team : String → Result Error (Unit {0})
  require_team org_id = guard (entitled_to (organization org_id) Feature.team) not_entitled

  -- `invite`, with the id of the new row
  unfoldable pub invite : String → String → String → Tables → Result Error Tables
  unfolding quota entitled_to
  invite id org_id role db = do
    require_team org_id
    db' ← quota_of members org_id db
    ok (
        put_invitation id
          (record {
            organization_id = org_id;
            role = role;
            accepted_at = none;
            revoked_at = none;
            expires_at = now + 604800;
          })
          db')

  abbrev pub revoked : String → String → Option Invitation → Tables → Result Error Tables
  revoked id org_id none db = err not_found
  revoked id org_id (some i) db = do
    guard (i.organization_id == org_id) not_found
    ok (put_invitation id (record i { revoked_at = some now }) db)

  -- `revoke_invite`
  unfoldable pub revoke_invite : String → String → Tables → Result Error Tables
  revoke_invite id org_id db = revoked id org_id (lookup id db.invitations) db

  -- `user` is the id of the user, and `invited` whether the user has a verified address that is the one
  -- invited.
  module _ (user_id : String) (invited : Bool) where
    abbrev pub accepted : String → Option Invitation → Tables → Result Error Tables
    accepted id none db = err not_found
    accepted id (some i) db =
        let org_id = i.organization_id in
        let c = counts now org_id db in
        do
          guard (is_none i.revoked_at && is_none i.accepted_at && ltb now i.expires_at && invited)
              not_found
          require_team org_id
          guard (is_none (lookup (user_id, org_id) db.members)) not_found
          guard
              (leb (c.members + c.pending_invitations)
                (limit (entitlements (organization org_id)) members))
              (quota_exceeded members)
          ok (record (put_invitation id (record i { accepted_at = some now }) db) {
            members = insert (user_id, org_id) i.role db.members;
          })

    -- `accept_invite`, with the id of the row that has the token
    unfoldable pub accept_invite : String → Tables → Result Error Tables
    unfolding counts entitled_to
    accept_invite id db = accepted id (lookup id db.invitations) db

  abbrev pub is_owner : Option String → Bool
  is_owner none = false
  is_owner (some role) = role == "owner"

  abbrev pub owners : String → Tables → ℕ
  owners org_id db = count (λ key role. key.1 == org_id && role == "owner") db.members

  abbrev pub require_team_for : Option String → String → Result Error (Unit {0})
  require_team_for none org_id = ok tt
  require_team_for (some role) org_id = require_team org_id

  -- `actor_owner` is whether the caller is an owner, and `role` the new role, if one is given.
  module _ (actor_owner : Bool) (user_id org_id : String) (role : Option String) where
    abbrev pub targeted : Option String → Tables → Result Error (Unit {0})
    targeted none db = err not_found
    targeted (some old) db = do
      guard (actor_owner || not (old == "owner" || is_owner role)) insufficient_role
      require_team_for role org_id
      guard (not (old == "owner") || is_owner role || ltb 1 (owners org_id db)) last_owner

    -- `member_target`
    unfoldable pub member_target : Tables → Result Error (Unit {0})
    unfolding entitled_to
    member_target db = targeted (lookup (user_id, org_id) db.members) db

  -- `remove_member`
  unfoldable pub remove_member : Bool → String → String → Tables → Result Error Tables
  unfolding member_target
  remove_member actor_owner user_id org_id db = do
    member_target actor_owner user_id org_id none db
    ok (record db { members = keep (λ row. not (row.0 == (user_id, org_id))) db.members })

  -- `update_member`
  unfoldable pub update_member : Bool → String → String → String → Tables → Result Error Tables
  unfolding member_target
  update_member actor_owner user_id org_id role db = do
    member_target actor_owner user_id org_id (some role) db
    ok (record db { members = insert (user_id, org_id) role db.members })

  abbrev pub add_owner : String → String → Tables → Tables
  add_owner user_id org_id db = record db { members = insert (user_id, org_id) "owner" db.members }

  -- `create_organization`, with the id of the new row
  unfoldable pub create_organization : String → String → Tables → Result Error Tables
  create_organization user_id org_id db = do
    guard (ltb (count (λ key role. key.0 == user_id && role == "owner") db.members) 5)
        organization_limit_exceeded
    ok (add_owner user_id org_id db)

  -- `provision`, with whether the user is there already, and the ids of the new rows
  unfoldable pub provision : Bool → String → String → Tables → Tables
  provision known user_id org_id db = if known then db else add_owner user_id org_id db

  -- The rows that go with an organization.
  unfoldable pub delete_organization : String → Tables → Tables
  delete_organization org_id db = record {
    projects = keep (λ row. not (row.1.organization_id == org_id)) db.projects;
    invitations = keep (λ row. not (row.1.organization_id == org_id)) db.invitations;
    members = keep (λ row. not (row.0.1 == org_id)) db.members;
    usage = keep (λ row. not (row.0.0 == org_id)) db.usage;
  }

  unfoldable pub delete_project : String → Tables → Tables
  delete_project id db = record db { projects = keep (λ row. not (row.0 == id)) db.projects }

  -- `usage_row(session, org).exports += 1`, in `report`
  unfoldable pub export : String → Tables → Tables
  unfolding usage_row
  export org_id db =
      let (u, db') = usage_row org_id period db in
      put_usage org_id period (record u { exports = u.exports + 1 }) db'
