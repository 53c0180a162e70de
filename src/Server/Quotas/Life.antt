-- ===== src/Server/Quotas/Life.antt =====
-- The transactions on what the quotas count, in any order: `Step` is one of them at a time and in a
-- month, `Reach` any number, as time passes.
use blast_radius.Base.{ℕ, ◌≤◌, ◌≡◌, String, Bool, ◌==◌, string_eq, ok}
use blast_radius.Plans.{Organization}
use blast_radius.Server.Quotas.{Tables, analyses_per_month, count, is_member}
use blast_radius.Server.Quotas.Routes.{
  new_organization, quota_of, create_project, update_project, invite, revoke_invite, accept_invite,
  remove_member, update_member, create_organization, provision, delete_organization, delete_project,
  export,
}

module _ (organization : String → Organization) (now : ℕ) (period : String) where
  -- A new organization has the default plan, and its id is in no membership and no invitation.
  pub record IsNew (org_id : String) (db : Tables) : Type 0 where
    pub plan : organization org_id ≡ new_organization
    pub no_members : count (is_member org_id) db.members ≡ 0
    pub no_invitations : count (λ id i. i.organization_id == org_id) db.invitations ≡ 0

  -- What a transaction may do to the tables. Each function of this package that adds or removes a row that
  -- is counted, or changes a column that decides that, is among them.
  pub data Step : Tables → Tables → Type 0 where
    creates_project :
        (id org_id : String) {db db' : Tables}
        → create_project organization now period id org_id db ≡ ok db'
        → Step db db'
    updates_project :
        (id : String) (archived : Bool) {db db' : Tables}
        → update_project organization now period id archived db ≡ ok db'
        → Step db db'
    invites :
        (id org_id role : String) {db db' : Tables}
        → invite organization now period id org_id role db ≡ ok db'
        → Step db db'
    revokes :
        (id org_id : String) {db db' : Tables}
        → revoke_invite organization now period id org_id db ≡ ok db'
        → Step db db'
    accepts :
        (user_id : String) (invited : Bool) (id : String) {db db' : Tables}
        → accept_invite organization now period user_id invited id db ≡ ok db'
        → Step db db'
    removes :
        (actor_owner : Bool) (user_id org_id : String) {db db' : Tables}
        → remove_member organization now period actor_owner user_id org_id db ≡ ok db'
        → Step db db'
    updates_member :
        (actor_owner : Bool) (user_id org_id role : String) {db db' : Tables}
        → update_member organization now period actor_owner user_id org_id role db ≡ ok db'
        → Step db db'
    creates_organization :
        (user_id org_id : String) {db db' : Tables}
        → IsNew org_id db
        → create_organization organization now period user_id org_id db ≡ ok db'
        → Step db db'
    provisions :
        (known : Bool) (user_id org_id : String) (db : Tables)
        → IsNew org_id db
        → Step db (provision organization now period known user_id org_id db)
    deletes_organization :
        (org_id : String) (db : Tables)
        → Step db (delete_organization organization now period org_id db)
    deletes_project :
        (id : String) (db : Tables) → Step db (delete_project organization now period id db)
    analyses :
        (org_id : String) {db db' : Tables}
        → quota_of organization now period analyses_per_month org_id db ≡ ok db'
        → Step db db'
    exports : (org_id : String) (db : Tables) → Step db (export organization now period org_id db)

module _ (organization : String → Organization) where
  -- Transactions one after the other, in time.
  pub data Reach (now : ℕ) (db : Tables) : ℕ → Tables → Type 0 where
    here : Reach now db now db
    later :
        {now' now'' : ℕ} {db' : Tables}
        → Reach now db now' db'
        → now' ≤ now''
        → Reach now db now'' db'
    next :
        {now' : ℕ} (period : String) {db' db'' : Tables}
        → Reach now db now' db'
        → Step organization now' period db' db''
        → Reach now db now' db''
