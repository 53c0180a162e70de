-- ===== src/Server/Quotas/Charges.antt =====
-- What `quota` decides, and what it charges.
use blast_radius.Base.{
  ℕ, ◌+◌, ◌≤◌, ◌<◌, ◌≡◌, refl, ap, ◌∙◌, String, false, ◌==◌, ==_refl, string_eq, pair_eq, some,
  List, leb, if◌then◌else◌, lookup, insert, lookup-insert, Result, ok, err, arith, Bool-cases, inl,
  inr,
}
use blast_radius.Plans.{Organization, entitlements}
use blast_radius.Server.Quotas.{
  Usage, Tables, Error, Kind, quota_exceeded, projects, members, analyses_per_month, counts, limit,
  usage_row, put_usage, used_of, quota,
}

module _ (now : ℕ) (period org_id : String) (org : Organization) where
  abbrev month_of : Tables → Usage
  month_of db = used_of (lookup (org_id, period) db.usage)

  -- What an organization has of a kind.
  abbrev pub demand : Kind → Tables → ℕ
  demand projects db = (counts now org_id db).projects
  demand members db = (counts now org_id db).members + (counts now org_id db).pending_invitations
  demand analyses_per_month db = (month_of db).analyses

  -- One analysis is charged to the month, and nothing else.
  pub record OneMore (db db' : Tables) : Type 0 where
    pub projects : db'.projects ≡ db.projects
    pub members : db'.members ≡ db.members
    pub invitations : db'.invitations ≡ db.invitations
    pub analyses : (month_of db').analyses ≡ (month_of db).analyses + 1
    pub exports : (month_of db').exports ≡ (month_of db).exports
    pub others :
        (key : String × String)
        → ((org_id, period) == key) ≡ false
        → lookup key db'.usage ≡ lookup key db.usage

  abbrev pub Charged : Kind → Tables → Tables → Type 0
  Charged analyses_per_month db db' = OneMore db db'
  Charged projects db db' = db' ≡ db
  Charged members db db' = db' ≡ db

  abbrev pub Decided : Kind → Tables → Result Error Tables → Type 0
  Decided kind db (err e) =
      (e ≡ quota_exceeded kind) × (limit (entitlements org) kind ≤ demand kind db)
  Decided kind db (ok db') = (demand kind db < limit (entitlements org) kind) × Charged kind db db'

  put_twice :
      (key other : String × String) (u v : Usage) (m : List ((String × String) × Usage))
      → lookup other (insert key v (insert key u m))
        ≡ (if key == other then some v else lookup other m)
  put_twice key other u v m = elim (Bool-cases (key == other)) [
    | inl e ↦ lookup-insert key other v (insert key u m) ∙ rw e refl
    | inr e ↦
        lookup-insert key other v (insert key u m) ∙ rw (e, lookup-insert key other u m, e) refl
  ]

  charged :
      (u v : Usage) (db : Tables)
      → u ≡ month_of db
      → v ≡ record u { analyses = u.analyses + 1 }
      → OneMore db (put_usage org_id period v (put_usage org_id period u db))
  charged u v db e f =
      let key : String × String = (org_id, period) in
      let found : lookup key (insert key v (insert key u db.usage)) ≡ some v =
        put_twice key key u v db.usage ∙ rw (==_refl key) refl in
      record {
        projects = refl;
        members = refl;
        invitations = refl;
        analyses = ap (λ r. (used_of r).analyses) found ∙ rw (f, e) refl;
        exports = ap (λ r. (used_of r).exports) found ∙ rw (f, e) refl;
        others = λ other g. put_twice key other u v db.usage ∙ rw g refl;
      }

  -- The quota of a kind is exceeded exactly where the organization has as much of it as its plan allows.
  -- Where it is not, an analysis is charged to the organization's month and nothing else; the other kinds
  -- charge nothing.
  pub quota_lem :
      (kind : Kind) (db : Tables) → Decided kind db (quota now period org_id org kind db)
  unfolding quota usage_row
  quota_lem projects db =
      elim (Bool-cases (leb (limit (entitlements org) projects) (demand projects db))) [
        | inl e ↦ rw e (refl, ground arith)
        | inr e ↦ rw e (ground arith, refl)
      ]
  quota_lem members db =
      elim (Bool-cases (leb (limit (entitlements org) members) (demand members db))) [
        | inl e ↦ rw e (refl, ground arith)
        | inr e ↦ rw e (ground arith, refl)
      ]
  quota_lem analyses_per_month db =
      elim (Bool-cases
        (leb (limit (entitlements org) analyses_per_month) (demand analyses_per_month db))) [
          | inl e ↦ rw e (refl, ground arith)
          | inr e ↦ rw e (ground arith, charged _ _ db refl refl)
        ]
