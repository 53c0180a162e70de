-- ===== src/Server/Quotas/Within.antt =====
-- That the organizations stay within the limits of their plans.
use blast_radius.Base.{
  ℕ, ◌+◌, ◌≤◌, ◌⊎◌, ◌<◌, ◌≡◌, refl, sym, subst, String, Bool, true, false, ◌==◌, ==_iff, string_eq,
  nat_eq, pair_eq, Option, some, leb, ltb, if◌then◌else◌, lookup, lookup-insert, ok, err, arith,
  Bool-cases, inl, inr,
}
use blast_radius.Plans.{Organization, entitlements}
use blast_radius.Server.Quotas.{
  Project, Invitation, Usage, Tables, Kind, projects, members, analyses_per_month, counts, limit,
  put_usage, used_of, quota, bit, is_active, is_pending,
}
use blast_radius.Server.Quotas.Routes.{put_project, put_invitation, quota_of}
use blast_radius.Server.Quotas.Counting.{weight, count-le, count-insert}

pub if-ok :
    {E A : Type 0} (b : Bool) (e : E) (x y : A)
    → (if b then err e else ok x) ≡ ok y
    → (b ≡ false) × (x ≡ y)
if-ok true e x y h = cc
if-ok false e x y h = (refl, cc)

pub bit-le : (b : Bool) → bit b ≤ 1
bit-le true = omega arith
bit-le false = omega arith

pending-later :
    (now now' : ℕ) (o id : String) (i : Invitation)
    → now ≤ now'
    → bit (is_pending now' o id i) ≤ bit (is_pending now o id i)
pending-later now now' o id i h = elim (Bool-cases (ltb now' i.expires_at)) [
  | inl e ↦ rw (e, let f : ltb now i.expires_at ≡ true = ground arith in f) (omega arith)
  | inr e ↦ rw e (ground arith)
]

module _ (organization : String → Organization) where
  abbrev pub allowed : Kind → String → ℕ
  allowed kind org_id = limit (entitlements (organization org_id)) kind

  abbrev pub analyses_in : String → String → Tables → ℕ
  analyses_in org_id period db = (used_of (lookup (org_id, period) db.usage)).analyses

  -- No organization has more than its plan allows: active projects, members with the invitations that
  -- are pending, and analyses in a month.
  pub record Within (now : ℕ) (db : Tables) : Type 0 where
    pub projects : (o : String) → (counts now o db).projects ≤ allowed projects o
    pub seats :
        (o : String)
        → (counts now o db).members + (counts now o db).pending_invitations ≤ allowed members o
    pub analyses : (o period : String) → analyses_in o period db ≤ allowed analyses_per_month o

  pub quota-projects :
      (now : ℕ) (period o : String) (db db' : Tables)
      → quota_of organization now period projects o db ≡ ok db'
      → (db ≡ db') × ((counts now o db).projects < allowed projects o)
  unfolding quota
  quota-projects now period o db db' h =
      let (e, f) = if-ok (leb (allowed projects o) (counts now o db).projects) _ db db' h in
      (f, ground arith)

  pub quota-members :
      (now : ℕ) (period o : String) (db db' : Tables)
      → quota_of organization now period members o db ≡ ok db'
      → (db ≡ db')
        × ((counts now o db).members + (counts now o db).pending_invitations < allowed members o)
  unfolding quota
  quota-members now period o db db' h =
      let c = counts now o db in
      let (e, f) = if-ok (leb (allowed members o) (c.members + c.pending_invitations)) _ db db' h in
      (f, ground arith)

  pub put_project-Within :
      (now : ℕ) (id : String) (p : Project) (db : Tables)
      → ((o : String)
          → (bit (is_active o id p) ≤ weight (is_active o) id (lookup id db.projects))
            ⊎ ((counts now o db).projects < allowed projects o))
      → Within now db
      → Within now (put_project id p db)
  unfolding counts
  put_project-Within now id p db k h = record {
    projects = λ o. elim (k o) [
      | inl e ↦ omega (arith, count-insert (is_active o) id p db.projects, h.projects o)
      | inr e ↦
          omega (arith, count-insert (is_active o) id p db.projects, bit-le (is_active o id p))
    ];
    seats = h.seats;
    analyses = h.analyses;
  }

  pub put_invitation-Within :
      (now : ℕ) (id : String) (i : Invitation) (db : Tables)
      → ((o : String)
          → (bit (is_pending now o id i) ≤ weight (is_pending now o) id (lookup id db.invitations))
            ⊎ ((counts now o db).members + (counts now o db).pending_invitations
                < allowed members o))
      → Within now db
      → Within now (put_invitation id i db)
  unfolding counts
  put_invitation-Within now id i db k h = record {
    projects = h.projects;
    seats = λ o. elim (k o) [
      | inl e ↦ omega (arith, count-insert (is_pending now o) id i db.invitations, h.seats o)
      | inr e ↦ omega (
        arith,
        count-insert (is_pending now o) id i db.invitations,
        bit-le (is_pending now o id i),
      )
    ];
    analyses = h.analyses;
  }

  asked_usage :
      (spent asked : String × String) (u : Usage) (old : Option Usage)
      → u.analyses ≤ allowed analyses_per_month spent.0
      → (used_of old).analyses ≤ allowed analyses_per_month asked.0
      → (used_of (if spent == asked then some u else old)).analyses
        ≤ allowed analyses_per_month asked.0
  asked_usage spent asked u old k h = elim (Bool-cases (spent == asked)) [
    | inl e ↦
        rw e (subst (λ q. u.analyses ≤ allowed analyses_per_month q.0) ((==_iff spent asked).0 e) k)
    | inr e ↦ rw e h
  ]

  pub put_usage-Within :
      (now : ℕ) (org_id period : String) (u : Usage) (db : Tables)
      → u.analyses ≤ allowed analyses_per_month org_id
      → Within now db
      → Within now (put_usage org_id period u db)
  unfolding counts
  put_usage-Within now org_id period u db k h = record {
    projects = h.projects;
    seats = h.seats;
    analyses = λ o month.
        let spent : String × String = (org_id, period) in
        let asked : String × String = (o, month) in
        subst (λ r. (used_of r).analyses ≤ allowed analyses_per_month o)
          (sym (lookup-insert spent asked u db.usage))
          (asked_usage spent asked u (lookup asked db.usage) k (h.analyses o month));
  }

  pub later-Within : (now now' : ℕ) (db : Tables) → now ≤ now' → Within now db → Within now' db
  unfolding counts
  later-Within now now' db k h = record {
    projects = h.projects;
    seats = λ o. omega (
      arith,
      h.seats o,
      count-le (is_pending now' o) (is_pending now o) db.invitations
          (λ id i. pending-later now now' o id i k),
    );
    analyses = h.analyses;
  }
