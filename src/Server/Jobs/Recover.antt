-- ===== src/Server/Jobs/Recover.antt =====
-- `recover` of jobs.py: what a batch changes, and that the loop ends.
use blast_radius.Base.{
  ℕ, zero, suc, ◌<◌, ◌≡◌, refl, sym, ap, ◌∙◌, String, Bool, true, false, Option, some, none, List,
  [], ◌∷◌, lookup, lookup-insert, arith, Bool-cases, Option-cases, List-cases, inl, inr, ◌==◌,
  string_eq, ==_iff, ==_refl, if◌then◌else◌, elem, elem-keep, elem-sorted, sorted, take_all, length,
  length-keep, length-map, ltb, ltb→lt, elem-take,
}
use blast_radius.Server.Jobs.Kinds.{Job, Rows, is_pending, put_job}
use blast_radius.Server.Jobs.Run.{
  restarted, fail_job, fail_one, fail_all, batch, pends, pending_ids, recover,
}
use blast_radius.Server.Jobs.Full.{terminal_events-jobs}
use blast_radius.Server.Jobs.Keys.{ids_of, insert-keys, elem-keys, length-keep_lt}

module _ (now : ℕ) where
  abbrev pub restarted? : Option Job → Option Job
  restarted? none = none
  restarted? (some job) = some (restarted now job)

  -- What becomes of an analysis.
  abbrev pub recovered : Option Job → Option Job
  recovered none = none
  recovered (some job) = some (if is_pending job.status then restarted now job else job)

  fail_job-lookup :
      (id j : String) (o : Option Job) (rows : Rows)
      → lookup id rows.jobs ≡ o
      → lookup j (fail_job now id o rows).jobs
        ≡ (if id == j then restarted? o else lookup j rows.jobs)
  fail_job-lookup id j none rows e = elim (Bool-cases (id == j)) [
    | inl q ↦ rw (q, ← (==_iff id j).0 q) e
    | inr q ↦ rw q refl
  ]
  fail_job-lookup id j (some job) rows e =
      rw (terminal_events-jobs id (restarted now job) (put_job id (restarted now job) rows))
        (lookup-insert id j (restarted now job) rows.jobs)

  fail_one-lookup :
      (id j : String) (rows : Rows)
      → lookup j (fail_one now id rows).jobs
        ≡ (if id == j then restarted? (lookup j rows.jobs) else lookup j rows.jobs)
  unfolding fail_one
  fail_one-lookup id j rows = elim (Bool-cases (id == j)) [
    | inl q ↦ fail_job-lookup id j (lookup id rows.jobs) rows refl ∙ rw (q, (==_iff id j).0 q) refl
    | inr q ↦ fail_job-lookup id j (lookup id rows.jobs) rows refl ∙ rw q refl
  ]

  twice : (o : Option Job) → restarted? (restarted? o) ≡ restarted? o
  twice none = refl
  twice (some job) = refl

  -- A batch restarts its analyses, and changes no other.
  pub fail_all-lookup :
      (ids : List String) (j : String) (rows : Rows)
      → lookup j (fail_all now ids rows).jobs
        ≡ (if elem j ids then restarted? (lookup j rows.jobs) else lookup j rows.jobs)
  unfolding fail_all
  fail_all-lookup [] j rows = refl
  fail_all-lookup (id ∷ ids) j rows = ground (
    arith,
    fail_all-lookup ids j (fail_one now id rows),
    fail_one-lookup id j rows,
    twice (lookup j rows.jobs),
    ==_iff id j,
    ==_iff j id,
  )

  fail_one-keys : (id : String) (rows : Rows) → ids_of (fail_one now id rows) ≡ ids_of rows
  unfolding fail_one
  fail_one-keys id rows = go (lookup id rows.jobs) refl
    where
      go :
          (o : Option Job) → lookup id rows.jobs ≡ o → ids_of (fail_job now id o rows) ≡ ids_of rows
      go none e = refl
      go (some job) e =
          rw (terminal_events-jobs id (restarted now job) (put_job id (restarted now job) rows))
            (insert-keys id job (restarted now job) rows.jobs e)

  fail_all-keys : (ids : List String) (rows : Rows) → ids_of (fail_all now ids rows) ≡ ids_of rows
  unfolding fail_all
  fail_all-keys [] rows = refl
  fail_all-keys (id ∷ ids) rows = fail_all-keys ids (fail_one now id rows) ∙ fail_one-keys id rows

pub batch-pends :
    (j : String) (rows : Rows) → elem j (batch rows) ≡ true → pends (lookup j rows.jobs) ≡ true
unfolding batch pending_ids
batch-pends j rows h = ground (
  arith,
  elem-take j 100 (sorted (pending_ids rows)) h,
  elem-sorted j (pending_ids rows),
  elem-keep j (λ id. pends (lookup id rows.jobs)) (ids_of rows),
)

elem-pends :
    (j : String) (rows : Rows) → pends (lookup j rows.jobs) ≡ true → elem j (ids_of rows) ≡ true
elem-pends j rows h = elim (Option-cases (lookup j rows.jobs)) [
  | inl e ↦ absurd (ground arith)
  | inr (job, e) ↦ elem-keys j job rows.jobs e
]

elem-pending_ids :
    (j : String) (rows : Rows) → elem j (pending_ids rows) ≡ pends (lookup j rows.jobs)
unfolding pending_ids
elem-pending_ids j rows =
    ground (arith, elem-keep j (λ id. pends (lookup id rows.jobs)) (ids_of rows), elem-pends j rows)

-- A batch of fewer than 100 holds every analysis that pends.
batch_all :
    (j : String) (rows : Rows)
    → ltb (length (batch rows)) 100 ≡ true
    → elem j (batch rows) ≡ pends (lookup j rows.jobs)
unfolding batch
batch_all j rows h =
    ap (elem j) (take_all 100 (sorted (pending_ids rows)) (ltb→lt _ _ h))
    ∙ elem-sorted j (pending_ids rows)
    ∙ elem-pending_ids j rows

module _ (now : ℕ) where
  failed-pends : (o : Option Job) → pends (restarted? now o) ≡ false
  failed-pends none = refl
  failed-pends (some job) = refl

  batched-pends :
      (o : Option Job) (b : Bool)
      → pends (if b then restarted? now o else o) ≡ true
      → pends o ≡ true
  batched-pends o true h = absurd (ground (arith, failed-pends o))
  batched-pends o false h = h

  batched-last :
      (o : Option Job) (b : Bool)
      → b ≡ pends o
      → (if b then restarted? now o else o) ≡ recovered now o
  batched-last none b h = ground arith
  batched-last (some job) b h = ground arith

  batched-full :
      (o : Option Job) (b : Bool)
      → (b ≡ true → pends o ≡ true)
      → recovered now (if b then restarted? now o else o) ≡ recovered now o
  batched-full none b h = ground arith
  batched-full (some job) true h = rw (h refl) refl
  batched-full (some job) false h = refl

  -- The analyses that a full batch leaves pending are fewer.
  batch-shrinks :
      (id : String) (ids : List String) (rows : Rows)
      → batch rows ≡ id ∷ ids
      → length (pending_ids (fail_all now (batch rows) rows)) < length (pending_ids rows)
  unfolding pending_ids
  batch-shrinks id ids rows e =
      let rows' = fail_all now (batch rows) rows in
      let member : elem id (batch rows) ≡ true = ground (arith, ==_refl id) in
      let p = λ (j : String). pends (lookup j rows.jobs) in
      let q = λ (j : String). pends (lookup j rows'.jobs) in
      rw (fail_all-keys now (batch rows) rows) (
        length-keep_lt p q id (ids_of rows)
          (λ j h.
            batched-pends (lookup j rows.jobs) (elem j (batch rows))
              (sym (ap pends (fail_all-lookup now (batch rows) j rows)) ∙ h))
          (elem-pends id rows (batch-pends id rows member)) (batch-pends id rows member)
          (ap pends (fail_all-lookup now (batch rows) id rows)
            ∙ rw member (failed-pends (lookup id rows.jobs))))

  abbrev pub Recovers : Rows → Rows → Type 0
  Recovers rows rows' = (id : String) → lookup id rows'.jobs ≡ recovered now (lookup id rows.jobs)

  last_batch :
      (rows : Rows)
      → ltb (length (batch rows)) 100 ≡ true
      → Recovers rows (fail_all now (batch rows) rows)
  last_batch rows h id =
      fail_all-lookup now (batch rows) id rows
      ∙ batched-last (lookup id rows.jobs) (elem id (batch rows)) (batch_all id rows h)

  full_batch :
      (rows rows' : Rows) → Recovers (fail_all now (batch rows) rows) rows' → Recovers rows rows'
  full_batch rows rows' h id =
      h id
      ∙ ap (recovered now) (fail_all-lookup now (batch rows) id rows)
      ∙ batched-full (lookup id rows.jobs) (elem id (batch rows)) (batch-pends id rows)

  recover-ends :
      (turns : ℕ) (rows : Rows)
      → length (pending_ids rows) < turns
      → (rows' : Rows) × (recover now turns rows ≡ some rows') × Recovers rows rows'
  unfolding recover
  recover-ends zero rows h = absurd (omega arith)
  recover-ends (suc turns) rows h = elim (Bool-cases (ltb (length (batch rows)) 100)) [
    | inl e ↦ (fail_all now (batch rows) rows, rw e refl, last_batch rows e)
    | inr e ↦ elim (List-cases (batch rows)) [
      | inl f ↦ absurd (ground arith)
      | inr (id, ids, f) ↦
          let (rows', r, k) =
            recover-ends turns (fail_all now (batch rows) rows)
              (omega (arith, batch-shrinks id ids rows f)) in
          (rows', rw e r, full_batch rows rows' k)
    ]
  ]

  -- With a turn more than there are analyses, `recover` ends. Every analysis that was queued or running
  -- has then failed with "server_restarted", without a result or a decision; no other has changed, and
  -- none was added or removed.
  pub recover_correct :
      (rows : Rows)
      → (rows' : Rows) × (recover now (suc (length rows.jobs)) rows ≡ some rows')
        × Recovers rows rows'
  recover_correct rows = recover-ends (suc (length rows.jobs)) rows (
      unfold pending_ids in
      omega (
        arith,
        length-keep (λ id. pends (lookup id rows.jobs)) (ids_of rows),
        length-map (λ (row : String × Job). row.0) rows.jobs,
      ))
