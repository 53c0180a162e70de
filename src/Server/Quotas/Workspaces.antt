-- ===== src/Server/Quotas/Workspaces.antt =====
-- That the routes on members, organizations and deletions leave the organizations within their limits.
use blast_radius.Base.{
  ℕ, ◌+◌, ◌≤◌, ◌≡◌, refl, sym, ap, ◌∙◌, subst, String, Bool, true, false, not, ◌&&◌, ◌==◌, ==_iff,
  string_eq, pair_eq, Eq, Option, none, some, List, [], ◌∷◌, ltb, keep, lookup, insert, ok, guard,
  >>=-eq-ok, arith, Bool-cases, inl, inr, if◌then◌else◌,
}
use blast_radius.Plans.{Organization, entitlements}
use blast_radius.Server.Quotas.{
  Invitation, Usage, Tables, members, analyses_per_month, organization_limit_exceeded, counts,
  used_of, bit, count, is_active, is_member, is_pending,
}
use blast_radius.Server.Quotas.Routes.{
  targeted, member_target, remove_member, update_member, add_owner, create_organization, provision,
  delete_organization, delete_project,
}
use blast_radius.Server.Quotas.Life.{IsNew}
use blast_radius.Server.Quotas.Counting.{weight, count-keep, count-le, count-insert}
use blast_radius.Server.Quotas.Within.{Within, allowed, bit-le}
use blast_radius.Server.Quotas.Kept.{ok-injective}

lookup-keep :
    {K V : Type 0} ⦃e : Eq K⦄ (p : K → Bool) (k : K) (m : List (K × V))
    → lookup k (keep (λ row. p row.0) m) ≡ (if p k then lookup k m else none)
lookup-keep p k [] = ground arith
lookup-keep p k ((j, v) ∷ m) = elim (Bool-cases (j == k)) [
  | inl e ↦ let same : p j ≡ p k = ap p ((==_iff j k).0 e) in ground (arith, lookup-keep p k m)
  | inr e ↦ ground (arith, lookup-keep p k m)
]

used_kept :
    (b : Bool) (old : Option Usage) {n : ℕ}
    → (used_of old).analyses ≤ n
    → (used_of (if b then old else none)).analyses ≤ n
used_kept true old h = h
used_kept false old h = omega arith

module _ (organization : String → Organization) (now : ℕ) where
  pending-sent :
      (org_id id : String) (i : Invitation)
      → bit (is_pending now org_id id i) ≤ bit (i.organization_id == org_id)
  pending-sent org_id id i = elim (Bool-cases (i.organization_id == org_id)) [
    | inl e ↦ rw e (bit-le _)
    | inr e ↦ rw e (omega arith)
  ]

  module _ (period : String) where
    new-allowed :
        (org_id : String) (db : Tables)
        → IsNew organization now period org_id db
        → allowed organization members org_id ≡ 1
    unfolding entitlements
    new-allowed org_id db n = ap (λ x. (entitlements x).members) n.plan

    -- The only member of a new organization.
    new_seats :
        (user_id org_id : String) (db : Tables)
        → IsNew organization now period org_id db
        → count (is_member org_id) (insert (user_id, org_id) "owner" db.members)
            + count (is_pending now org_id) db.invitations
          ≤ allowed organization members org_id
    new_seats user_id org_id db n =
        let key : String × String = (user_id, org_id) in
        let added = count-insert (is_member org_id) key "owner" db.members in
        let pending =
          count-le (is_pending now org_id) (λ id i. i.organization_id == org_id) db.invitations
            (λ id i. pending-sent org_id id i) in
        omega (
          arith,
          bit-le (org_id == org_id),
          new-allowed org_id db n,
          n.no_members,
          n.no_invitations,
        )

    add_owner-Within :
        (user_id org_id : String) (db : Tables)
        → IsNew organization now period org_id db
        → Within organization now db
        → Within organization now (add_owner organization now period user_id org_id db)
    unfolding counts
    add_owner-Within user_id org_id db n w = record {
      projects = w.projects;
      seats = λ o. elim (Bool-cases (org_id == o)) [
        | inl e ↦
            subst
              (λ z.
                count (is_member z) (insert (user_id, org_id) "owner" db.members)
                  + count (is_pending now z) db.invitations
                ≤ allowed organization members z)
              ((==_iff org_id o).0 e) (new_seats user_id org_id db n)
        | inr e ↦
            let key : String × String = (user_id, org_id) in
            let added = count-insert (is_member o) key "owner" db.members in
            let none_more : bit (org_id == o) ≡ 0 = rw e refl in omega (arith, w.seats o)
      ];
      analyses = w.analyses;
    }

    targeted-some :
        (actor_owner : Bool) (user_id org_id : String) (role : Option String) (old : Option String)
        (db : Tables) {u : Unit {0}}
        → targeted organization now period actor_owner user_id org_id role old db ≡ ok u
        → (r : String) × (old ≡ some r)
    targeted-some actor_owner user_id org_id role none db h = cc
    targeted-some actor_owner user_id org_id role (some r) db h = (r, refl)

    pub remove-Within :
        (actor_owner : Bool) (user_id org_id : String) (db db' : Tables)
        → remove_member organization now period actor_owner user_id org_id db ≡ ok db'
        → Within organization now db
        → Within organization now db'
    unfolding counts remove_member
    remove-Within actor_owner user_id org_id db db' h w =
        let (_, _, f) =
          >>=-eq-ok (member_target organization now period actor_owner user_id org_id none db) _
            h in
        subst (Within organization now) (ok-injective f) (record {
          projects = w.projects;
          seats = λ o. omega (
            arith,
            w.seats o,
            count-keep (is_member o) (λ row. not (row.0 == (user_id, org_id))) db.members,
          );
          analyses = w.analyses;
        })

    pub update-Within :
        (actor_owner : Bool) (user_id org_id role : String) (db db' : Tables)
        → update_member organization now period actor_owner user_id org_id role db ≡ ok db'
        → Within organization now db
        → Within organization now db'
    unfolding counts update_member member_target
    update-Within actor_owner user_id org_id role db db' h w =
        let (_, e, f) =
          >>=-eq-ok
            (member_target organization now period actor_owner user_id org_id (some role) db) _ h in
        let key : String × String = (user_id, org_id) in
        let (r, found) =
          targeted-some actor_owner user_id org_id (some role) (lookup key db.members) db e in
        subst (Within organization now) (ok-injective f) (record {
          projects = w.projects;
          seats = λ o.
              let same : count (is_member o) (insert key role db.members) + bit (org_id == o)
                  ≡ count (is_member o) db.members + bit (org_id == o) =
                ap
                  (λ x.
                    count (is_member o) (insert key role db.members) + weight (is_member o) key x)
                  (sym found)
                ∙ count-insert (is_member o) key role db.members in
              omega (arith, w.seats o);
          analyses = w.analyses;
        })

    pub organization-Within :
        (user_id org_id : String) (db db' : Tables)
        → IsNew organization now period org_id db
        → create_organization organization now period user_id org_id db ≡ ok db'
        → Within organization now db
        → Within organization now db'
    unfolding create_organization
    organization-Within user_id org_id db db' n h w =
        let (_, _, f) =
          >>=-eq-ok
            (guard
              (ltb
                (count (λ (key : String × String) role. key.0 == user_id && role == "owner")
                  db.members)
                5)
              organization_limit_exceeded)
            _ h in
        subst (Within organization now) (ok-injective f) (add_owner-Within user_id org_id db n w)

    pub provision-Within :
        (known : Bool) (user_id org_id : String) (db : Tables)
        → IsNew organization now period org_id db
        → Within organization now db
        → Within organization now (provision organization now period known user_id org_id db)
    unfolding provision
    provision-Within true user_id org_id db n w = w
    provision-Within false user_id org_id db n w = add_owner-Within user_id org_id db n w

    pub delete_organization-Within :
        (org_id : String) (db : Tables)
        → Within organization now db
        → Within organization now (delete_organization organization now period org_id db)
    unfolding counts delete_organization
    delete_organization-Within org_id db w = record {
      projects = λ o. omega (
        arith,
        w.projects o,
        count-keep (is_active o) (λ row. not (row.1.organization_id == org_id)) db.projects,
      );
      seats = λ o. omega (
        arith,
        w.seats o,
        count-keep (is_member o) (λ row. not (row.0.1 == org_id)) db.members,
        count-keep (is_pending now o) (λ row. not (row.1.organization_id == org_id)) db.invitations,
      );
      analyses = λ o month.
          let key : String × String = (o, month) in
          subst (λ r. (used_of r).analyses ≤ allowed organization analyses_per_month o)
            (sym (lookup-keep (λ k. not (k.0 == org_id)) key db.usage))
            (used_kept (not (o == org_id)) (lookup key db.usage) (w.analyses o month));
    }

    pub delete_project-Within :
        (id : String) (db : Tables)
        → Within organization now db
        → Within organization now (delete_project organization now period id db)
    unfolding counts delete_project
    delete_project-Within id db w = record {
      projects = λ o.
          omega
            (arith, w.projects o, count-keep (is_active o) (λ row. not (row.0 == id)) db.projects);
      seats = w.seats;
      analyses = w.analyses;
    }
