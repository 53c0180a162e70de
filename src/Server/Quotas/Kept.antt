-- ===== src/Server/Quotas/Kept.antt =====
-- That each transaction leaves the organizations within their limits.
use blast_radius.Base.{
  ℕ, ◌+◌, ◌≤◌, ◌⊎◌, ◌<◌, ◌≡◌, ap, ◌∙◌, subst, String, Bool, true, false, not, ◌&&◌, ◌==◌, ==_iff,
  string_eq, nat_eq, pair_eq, Option, none, some, leb, if◌then◌else◌, lookup, Result, ok, guard,
  >>=-eq-ok, arith, Bool-cases, inl, inr,
}
use blast_radius.Plans.{Organization}
use blast_radius.Server.Quotas.{
  Project, Invitation, Tables, not_found, projects, members, analyses_per_month, is_none, counts,
  usage_row, used_of, quota, bit, is_active, is_pending,
}
use blast_radius.Server.Quotas.Routes.{
  put_project, put_invitation, archived_or, quota_of, create_project, updated, require_team, invite,
  revoked, export,
}
use blast_radius.Server.Quotas.Counting.{weight}
use blast_radius.Server.Quotas.Within.{
  if-ok, Within, allowed, quota-projects, quota-members, put_project-Within, put_invitation-Within,
  put_usage-Within,
}

activity :
    (archived b old : Bool) (t : ℕ)
    → (not archived && not old) ≡ false
    → bit (b && is_none (if archived then some t else none)) ≤ bit (b && old)
activity true b old t h = ground arith
activity false b true t h = ground arith
activity false b false t h = cc

pub ok-injective : {E A : Type 0} {x y : A} → ◌≡◌ {A = Result E A} (ok x) (ok y) → x ≡ y
ok-injective h = cc

module _ (organization : String → Organization) (now : ℕ) where
  project_room :
      (id : String) (p : Project) (db : Tables)
      → (counts now p.organization_id db).projects < allowed organization projects p.organization_id
      → (o : String)
      → (bit (is_active o id p) ≤ weight (is_active o) id (lookup id db.projects))
        ⊎ ((counts now o db).projects < allowed organization projects o)
  project_room id p db r o = elim (Bool-cases (p.organization_id == o)) [
    | inl e ↦ inr (
        subst (λ z. (counts now z db).projects < allowed organization projects z)
          ((==_iff p.organization_id o).0 e) r)
    | inr e ↦ inl (rw e (omega arith))
  ]

  seat_room :
      (id : String) (i : Invitation) (db : Tables)
      → (counts now i.organization_id db).members
          + (counts now i.organization_id db).pending_invitations
        < allowed organization members i.organization_id
      → (o : String)
      → (bit (is_pending now o id i) ≤ weight (is_pending now o) id (lookup id db.invitations))
        ⊎ ((counts now o db).members + (counts now o db).pending_invitations
            < allowed organization members o)
  seat_room id i db r o = elim (Bool-cases (i.organization_id == o)) [
    | inl e ↦ inr (
        subst
          (λ z.
            (counts now z db).members + (counts now z db).pending_invitations
            < allowed organization members z)
          ((==_iff i.organization_id o).0 e) r)
    | inr e ↦ inl (rw e (omega arith))
  ]

  module _ (period : String) where
    pub create-Within :
        (id org_id : String) (db db' : Tables)
        → create_project organization now period id org_id db ≡ ok db'
        → Within organization now db
        → Within organization now db'
    unfolding create_project
    create-Within id org_id db db' h w =
        let row : Project = record { organization_id = org_id; archived_at = none } in
        let (db1, e, f) = >>=-eq-ok (quota_of organization now period projects org_id db) _ h in
        let (same, room) = quota-projects organization now period org_id db db1 e in
        subst (Within organization now) (ap (put_project id row) same ∙ ok-injective f)
          (put_project-Within organization now id row db (project_room id row db room) w)

    quota_if :
        (b : Bool) (o : String) (db db' : Tables)
        → (if b then quota_of organization now period projects o db else ok db) ≡ ok db'
        → (db ≡ db') × ((b ≡ true) → (counts now o db).projects < allowed organization projects o)
    quota_if true o db db' h =
        let (same, room) = quota-projects organization now period o db db' h in (same, λ _. room)
    quota_if false o db db' h = (ok-injective h, λ e. cc)

    pub updated-Within :
        (id : String) (archived : Bool) (old : Option Project) (db db' : Tables)
        → lookup id db.projects ≡ old
        → updated organization now period id archived old db ≡ ok db'
        → Within organization now db
        → Within organization now db'
    updated-Within id archived none db db' e h w = cc
    updated-Within id archived (some p) db db' e h w =
        let b = not archived && not (is_none p.archived_at) in
        let row : Project = record p {
          archived_at = if archived then some (archived_or now p.archived_at) else none;
        } in
        let (db1, f, g) =
          >>=-eq-ok
            (if b then quota_of organization now period projects p.organization_id db else ok db) _
            h in
        let (same, room) = quota_if b p.organization_id db db1 f in
        subst (Within organization now) (ap (put_project id row) same ∙ ok-injective g) (
          put_project-Within organization now id row db
            (λ o. elim (Bool-cases b) [
              | inl k ↦ project_room id row db (room k) o
              | inr k ↦ inl (
                  rw e (
                    activity archived (p.organization_id == o) (is_none p.archived_at)
                      (archived_or now p.archived_at) k))
            ])
            w)

    pub invite-Within :
        (id org_id role : String) (db db' : Tables)
        → invite organization now period id org_id role db ≡ ok db'
        → Within organization now db
        → Within organization now db'
    unfolding invite
    invite-Within id org_id role db db' h w =
        let row : Invitation = record {
          organization_id = org_id;
          role = role;
          accepted_at = none;
          revoked_at = none;
          expires_at = now + 604800;
        } in
        let (_, t, g) = >>=-eq-ok (require_team organization now period org_id) _ h in
        let (db1, e, f) = >>=-eq-ok (quota_of organization now period members org_id db) _ g in
        let (same, room) = quota-members organization now period org_id db db1 e in
        subst (Within organization now) (ap (put_invitation id row) same ∙ ok-injective f)
          (put_invitation-Within organization now id row db (seat_room id row db room) w)

    pub revoked-Within :
        (id org_id : String) (old : Option Invitation) (db db' : Tables)
        → revoked organization now period id org_id old db ≡ ok db'
        → Within organization now db
        → Within organization now db'
    revoked-Within id org_id none db db' h w = cc
    revoked-Within id org_id (some i) db db' h w =
        let (_, t, g) = >>=-eq-ok (guard (i.organization_id == org_id) not_found) _ h in
        subst (Within organization now) (ok-injective g) (
          put_invitation-Within organization now id (record i { revoked_at = some now }) db
            (λ o. inl (ground arith)) w)

    pub analyses-Within :
        (org_id : String) (db db' : Tables)
        → quota_of organization now period analyses_per_month org_id db ≡ ok db'
        → Within organization now db
        → Within organization now db'
    unfolding quota usage_row
    analyses-Within org_id db db' h w =
        let u = used_of (lookup (org_id, period) db.usage) in
        let (e, f) =
          if-ok (leb (allowed organization analyses_per_month org_id) u.analyses) _ _ db' h in
        subst (Within organization now) f (
          put_usage-Within organization now org_id period (record u { analyses = u.analyses + 1 }) _
            (ground arith)
            (put_usage-Within organization now org_id period u db (w.analyses org_id period) w))

    pub export-Within :
        (org_id : String) (db : Tables)
        → Within organization now db
        → Within organization now (export organization now period org_id db)
    unfolding export usage_row
    export-Within org_id db w =
        let u = used_of (lookup (org_id, period) db.usage) in
        put_usage-Within organization now org_id period (record u { exports = u.exports + 1 }) _
          (w.analyses org_id period)
          (put_usage-Within organization now org_id period u db (w.analyses org_id period) w)
