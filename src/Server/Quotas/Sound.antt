-- ===== src/Server/Quotas/Sound.antt =====
-- That the organizations stay within their limits along the transactions.
use blast_radius.Base.{
  ℕ, ◌+◌, ◌≤◌, ◌≡◌, refl, sym, ap, ◌∙◌, subst, String, Bool, true, ◌&&◌, ◌==◌, string_eq, nat_eq,
  pair_eq, Option, none, some, leb, ltb, lookup, insert, ok, guard, guard-eq-ok, >>=-eq-ok, arith,
}
use blast_radius.Plans.{Organization}
use blast_radius.Server.Quotas.{
  Invitation, Tables, quota_exceeded, not_found, members, is_none, counts, bit, count, is_member,
  is_pending,
}
use blast_radius.Server.Quotas.Routes.{
  put_invitation, update_project, require_team, revoke_invite, accepted, accept_invite,
}
use blast_radius.Server.Quotas.Life.{
  Step, creates_project, updates_project, invites, revokes, accepts, removes, updates_member,
  creates_organization, provisions, deletes_organization, deletes_project, analyses, exports, Reach,
  here, later, next,
}
use blast_radius.Server.Quotas.Counting.{weight, count-insert}
use blast_radius.Server.Quotas.Within.{Within, allowed, later-Within}
use blast_radius.Server.Quotas.Kept.{
  ok-injective, create-Within, updated-Within, invite-Within, revoked-Within, analyses-Within,
  export-Within,
}
use blast_radius.Server.Quotas.Workspaces.{
  remove-Within, update-Within, organization-Within, provision-Within, delete_organization-Within,
  delete_project-Within,
}

module _ (organization : String → Organization) (now : ℕ) where
  -- A pending invitation becomes a membership.
  seats-moved :
      (user_id id role : String) (i : Invitation) (db : Tables) (o : String)
      → lookup id db.invitations ≡ some i
      → (is_none i.revoked_at && is_none i.accepted_at && ltb now i.expires_at) ≡ true
      → count (is_member o) (insert (user_id, i.organization_id) role db.members)
          + count
              (is_pending now o)
              (insert id (record i { accepted_at = some now }) db.invitations)
        ≤ count (is_member o) db.members + count (is_pending now o) db.invitations
  seats-moved user_id id role i db o e f =
      let member : String × String = (user_id, i.organization_id) in
      let used : Invitation = record i { accepted_at = some now } in
      let a = count-insert (is_member o) member role db.members in
      let b : count (is_pending now o) (insert id used db.invitations) + bit (is_pending now o id i)
          ≡ count (is_pending now o) db.invitations + bit (is_pending now o id used) =
        ap
          (λ r.
            count (is_pending now o) (insert id used db.invitations)
            + weight (is_pending now o) id r)
          (sym e)
        ∙ count-insert (is_pending now o) id used db.invitations in
      let c : bit (is_pending now o id i) ≡ bit (i.organization_id == o) = ground arith in
      let d : bit (is_pending now o id used) ≡ 0 = ground arith in omega arith

  swap-Within :
      (user_id id role : String) (i : Invitation) (db : Tables)
      → lookup id db.invitations ≡ some i
      → (is_none i.revoked_at && is_none i.accepted_at && ltb now i.expires_at) ≡ true
      → Within organization now db
      → Within organization now
          (record (put_invitation id (record i { accepted_at = some now }) db) {
            members = insert (user_id, i.organization_id) role db.members;
          })
  unfolding counts
  swap-Within user_id id role i db e f w = record {
    projects = w.projects;
    seats = λ o. omega (arith, seats-moved user_id id role i db o e f, w.seats o);
    analyses = w.analyses;
  }

  module _ (period : String) where
    accepted-Within :
        (user_id : String) (invited : Bool) (id : String) (old : Option Invitation)
        (db db' : Tables)
        → lookup id db.invitations ≡ old
        → accepted organization now period user_id invited id old db ≡ ok db'
        → Within organization now db
        → Within organization now db'
    accepted-Within user_id invited id none db db' e h w = cc
    accepted-Within user_id invited id (some i) db db' e h w =
        let org_id = i.organization_id in
        let c = counts now org_id db in
        let usable =
          is_none i.revoked_at && is_none i.accepted_at && ltb now i.expires_at && invited in
        let (_, g, h1) = >>=-eq-ok (guard usable not_found) _ h in
        let (_, _, h2) = >>=-eq-ok (require_team organization now period org_id) _ h1 in
        let (_, _, h3) =
          >>=-eq-ok (guard (is_none (lookup (user_id, org_id) db.members)) not_found) _ h2 in
        let (_, _, h4) =
          >>=-eq-ok
            (guard (leb (c.members + c.pending_invitations) (allowed organization members org_id))
              (quota_exceeded members))
            _ h3 in
        let pending : (is_none i.revoked_at && is_none i.accepted_at && ltb now i.expires_at)
            ≡ true =
          (let k = guard-eq-ok usable not_found g in ground arith) in
        subst (Within organization now) (ok-injective h4)
          (swap-Within user_id id i.role i db e pending w)

    Step-Within :
        {db db' : Tables}
        → Step organization now period db db'
        → Within organization now db
        → Within organization now db'
    unfolding update_project revoke_invite accept_invite
    Step-Within (creates_project id org_id {db} {db'} h) w =
        create-Within organization now period id org_id db db' h w
    Step-Within (updates_project id archived {db} {db'} h) w =
        updated-Within organization now period id archived (lookup id db.projects) db db' refl h w
    Step-Within (invites id org_id role {db} {db'} h) w =
        invite-Within organization now period id org_id role db db' h w
    Step-Within (revokes id org_id {db} {db'} h) w =
        revoked-Within organization now period id org_id (lookup id db.invitations) db db' h w
    Step-Within (accepts user_id invited id {db} {db'} h) w =
        accepted-Within user_id invited id (lookup id db.invitations) db db' refl h w
    Step-Within (removes actor_owner user_id org_id {db} {db'} h) w =
        remove-Within organization now period actor_owner user_id org_id db db' h w
    Step-Within (updates_member actor_owner user_id org_id role {db} {db'} h) w =
        update-Within organization now period actor_owner user_id org_id role db db' h w
    Step-Within (creates_organization user_id org_id {db} {db'} n h) w =
        organization-Within organization now period user_id org_id db db' n h w
    Step-Within (provisions known user_id org_id db n) w =
        provision-Within organization now period known user_id org_id db n w
    Step-Within (deletes_organization org_id db) w =
        delete_organization-Within organization now period org_id db w
    Step-Within (deletes_project id db) w = delete_project-Within organization now period id db w
    Step-Within (analyses org_id {db} {db'} h) w =
        analyses-Within organization now period org_id db db' h w
    Step-Within (exports org_id db) w = export-Within organization now period org_id db w

module _ (organization : String → Organization) where
  -- As time passes, and along any transactions on projects, members, invitations, organizations, new
  -- accounts, analyses and exports, no organization gets more active projects, more members with the
  -- invitations that are pending, or more analyses in a month than its plan allows, where it has no more to
  -- begin with, its plan stays, and a new organization has the default plan and an id of its own.
  pub Reach-Within :
      {now : ℕ} {db : Tables} {now' : ℕ} {db' : Tables}
      → Reach organization now db now' db'
      → Within organization now db
      → Within organization now' db'
  Reach-Within here w = w
  Reach-Within (later {now'} {now''} {db'} r k) w =
      later-Within organization now' now'' db' k (Reach-Within r w)
  Reach-Within (next {now'} period r t) w =
      Step-Within organization now' period t (Reach-Within r w)
