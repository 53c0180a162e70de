-- ===== src/Server/Jobs/Moves.antt =====
-- That each step only moves the analyses that it leaves, and keeps those that have ended.
use blast_radius.Base.{
  ℕ, ◌≤◌, ◌≡◌, refl, sym, subst, String, Bool, true, false, not, Option, some, none, List, [], ◌∷◌,
  lookup, lookup-insert, insert, arith, Bool-cases, inl, inr, ◌⊎◌, ◌==◌, string_eq, ==_iff,
  if◌then◌else◌, keep,
}
use blast_radius.Python.{Fields}
use blast_radius.Server.Results.{Report, Response, failed, succeeded, worker_response}
use blast_radius.Server.Jobs.Kinds.{
  Status, queued, running, succeeded as done, failed as broken, Job, Rows, record_event, put_job,
  is_queued, is_pending, Manager, terminal_events,
}
use blast_radius.Server.Jobs.Steps.{
  closed, settle, settled, finish_once, finish_tries, finish, Fault, none_raised, lease_lost,
  raised, reserve,
}
use blast_radius.Server.Jobs.Run.{begin, begin_job, restarted, fail_all, batch}
use blast_radius.Server.Jobs.Full.{terminal_events-jobs, mark_ready-jobs}
use blast_radius.Base.{ap, ◌∙◌, elem}
use blast_radius.Server.Jobs.Run.{pends}
use blast_radius.Server.Jobs.Recover.{restarted?, fail_all-lookup, batch-pends}
use blast_radius.Server.Jobs.Life.{
  new_job, start_github, Step, create, delete, starts_github, records, forgets, changes_runs,
  begins, finishes, recovers, reserves, releases, drains, stops, rank, Moved, Moves,
}

Moves-refl : (jobs : List (String × Job)) → Moves jobs jobs
Moves-refl jobs id job e = (job, e, (omega arith, λ p. refl))

Moved-trans : (a b c : Job) → Moved a b → Moved b c → Moved a c
Moved-trans a b c h k = (
  omega (arith, h.0, k.0),
  λ p. let e = h.1 p in subst (λ x. is_pending x.status ≡ false → c ≡ x) e k.1 p,
)

Moves-trans : (a b c : List (String × Job)) → Moves a b → Moves b c → Moves a c
Moves-trans a b c h k id job e =
    let (job', e', m) = h id job e in
    let (job'', e'', m') = k id job' e' in (job'', e'', Moved-trans job job' job'' m m')

lookup-same :
    (id j : String) (a b : Job) (jobs : List (String × Job))
    → lookup id jobs ≡ some a
    → lookup j jobs ≡ some b
    → (id == j) ≡ true
    → a ≡ b
lookup-same id j a b jobs e f q =
    let g = sym e ∙ ap (λ x. lookup x jobs) ((==_iff id j).0 q) ∙ f in cc

Moves-insert :
    (id : String) (job job' : Job) (jobs : List (String × Job))
    → lookup id jobs ≡ some job
    → Moved job job'
    → Moves jobs (insert id job' jobs)
Moves-insert id job job' jobs e m j k f = elim (Bool-cases (id == j)) [
  | inl q ↦ (
    job',
    ground (arith, lookup-insert id j job' jobs),
    subst (λ x. Moved x job') (lookup-same id j job k jobs e f q) m,
  )
  | inr q ↦ (k, ground (arith, lookup-insert id j job' jobs), (omega arith, λ p. refl))
]

pending-Moved :
    (job job' : Job) → is_pending job.status ≡ true → rank job'.status ≡ 2 → Moved job job'
pending-Moved job job' p r = go job.status p
  where
    go :
        (s : Status)
        → is_pending s ≡ true
        → (rank s ≤ rank job'.status) × (is_pending s ≡ false → job' ≡ job)
    go queued p = (omega (arith, r), λ q. cc)
    go running p = (omega (arith, r), λ q. cc)
    go done p = cc
    go broken p = cc

queued-Moved : (job job' : Job) → is_queued job.status ≡ true → Moved job job'
queued-Moved job job' q = go job.status q
  where
    go :
        (s : Status)
        → is_queued s ≡ true
        → (rank s ≤ rank job'.status) × (is_pending s ≡ false → job' ≡ job)
    go queued q = (omega arith, λ p. cc)
    go running q = cc
    go done q = cc
    go broken q = cc

pub closed-rank : (now : ℕ) (r : Response) (job : Job) → rank (closed now r job).status ≡ 2
unfolding closed
closed-rank now (failed e) job = refl
closed-rank now (succeeded r) job = refl

module _ (now : ℕ) where
  pub settle-jobs :
      (id : String) (run_id : Option String) (r : Response) (job : Job) (rows : Rows)
      → (settle now id run_id r job rows).jobs ≡ insert id (closed now r job) rows.jobs
  settle-jobs id run_id r job rows =
      mark_ready-jobs run_id (closed now r job)
        (terminal_events id (closed now r job) (put_job id (closed now r job) rows))
      ∙ terminal_events-jobs id (closed now r job) (put_job id (closed now r job) rows)

  settled-Moves :
      (id : String) (run_id : Option String) (r : Response) (o : Option Job) (rows : Rows)
      → lookup id rows.jobs ≡ o
      → Moves rows.jobs (settled now id run_id r o rows).1.jobs
  settled-Moves id run_id r none rows e = Moves-refl rows.jobs
  settled-Moves id run_id r (some job) rows e = elim (Bool-cases (is_pending job.status)) [
    | inl p ↦
        rw (p, settle-jobs id run_id r job rows)
          (Moves-insert id job (closed now r job) rows.jobs e
            (pending-Moved job (closed now r job) p (closed-rank now r job)))
    | inr p ↦ rw p (Moves-refl rows.jobs)
  ]

  finish_once-Moves :
      (id : String) (run_id : Option String) (r : Response) (rows : Rows)
      → Moves rows.jobs (finish_once now id run_id r rows).1.jobs
  unfolding finish_once
  finish_once-Moves id run_id r rows = settled-Moves id run_id r (lookup id rows.jobs) rows refl

  finish_tries-Moves :
      (faults : List Fault) (id : String) (run_id : Option String) (r : Response) (s : Manager)
      → Moves s.rows.jobs (finish_tries now faults id run_id r s).1.rows.jobs
  unfolding finish_tries
  finish_tries-Moves [] id run_id r s = Moves-refl s.rows.jobs
  finish_tries-Moves (none_raised ∷ faults) id run_id r s = finish_once-Moves id run_id r s.rows
  finish_tries-Moves (lease_lost ∷ faults) id run_id r s = Moves-refl s.rows.jobs
  finish_tries-Moves (raised ∷ faults) id run_id r s =
      finish_tries-Moves faults id run_id (failed "worker_failed") s

  begin_job-Moves :
      (id : String) (o : Option Job) (rows : Rows)
      → lookup id rows.jobs ≡ o
      → Moves rows.jobs (begin_job now id o rows).1.jobs
  unfolding record_event
  begin_job-Moves id none rows e = Moves-refl rows.jobs
  begin_job-Moves id (some job) rows e = elim (Bool-cases (is_queued job.status)) [
    | inl q ↦ rw q (
        Moves-insert id job (record job { status = running; started_at = some now }) rows.jobs e
          (queued-Moved job (record job { status = running; started_at = some now }) q))
    | inr q ↦ rw q (Moves-refl rows.jobs)
  ]

  begin-Moves : (id : String) (rows : Rows) → Moves rows.jobs (begin now id rows).1.jobs
  unfolding begin
  begin-Moves id rows = begin_job-Moves id (lookup id rows.jobs) rows refl

recover-Moved :
    (now : ℕ) (o : Option Job) (job : Job)
    → o ≡ some job
    → (b : Bool) → (b ≡ true → pends o ≡ true)
    → (job' : Job) × ((if b then restarted? now o else o) ≡ some job') × Moved job job'
recover-Moved now o job e true h = (
  restarted now job,
  rw e refl,
  pending-Moved job (restarted now job) (ap pends (sym e) ∙ h refl) refl,
)
recover-Moved now o job e false h = (job, e, (omega arith, λ p. refl))

batch-Moves : (now : ℕ) (rows : Rows) → Moves rows.jobs (fail_all now (batch rows) rows).jobs
batch-Moves now rows id job e =
    let (job', f, m) =
      recover-Moved now (lookup id rows.jobs) job e (elem id (batch rows)) (batch-pends id rows) in
    (job', fail_all-lookup now (batch rows) id rows ∙ f, m)

create-Moves :
    (id : String) (job : Job) (jobs : List (String × Job))
    → lookup id jobs ≡ none
    → Moves jobs (insert id job jobs)
create-Moves id job jobs e j k f = elim (Bool-cases (id == j)) [
  | inl q ↦ absurd (let g = sym e ∙ ap (λ x. lookup x jobs) ((==_iff id j).0 q) ∙ f in cc)
  | inr q ↦ (k, ground (arith, lookup-insert id j job jobs), (omega arith, λ p. refl))
]

start_github-Moves :
    (now : ℕ) (run_id id : String) (rows : Rows)
    → lookup id rows.jobs ≡ none
    → Moves rows.jobs (start_github now run_id id rows).jobs
unfolding start_github
start_github-Moves now run_id id rows h =
    create-Moves id (record new_job { status = running; started_at = some now }) rows.jobs h

record_event-Moves :
    (name id : String) (rows : Rows) → Moves rows.jobs (record_event name id rows).jobs
unfolding record_event
record_event-Moves name id rows = Moves-refl rows.jobs

-- What a step makes of an analysis: it is gone, or has moved.
abbrev pub Left : Option Job → Job → Type 0
Left o job = (o ≡ none) ⊎ ((job' : Job) × (o ≡ some job') × Moved job job')

pub keep-lookup :
    (id j : String) (jobs : List (String × Job))
    → lookup j (keep (λ row. not (row.0 == id)) jobs) ≡ (if id == j then none else lookup j jobs)
keep-lookup id j [] = ground arith
keep-lookup id j ((k, job) ∷ jobs) =
    ground (arith, keep-lookup id j jobs, ==_iff k id, ==_iff k j, ==_iff id j)

delete-Left :
    (id j : String) (job : Job) (jobs : List (String × Job))
    → lookup j jobs ≡ some job
    → Left (lookup j (keep (λ row. not (row.0 == id)) jobs)) job
delete-Left id j job jobs e = elim (Bool-cases (id == j)) [
  | inl q ↦ inl (keep-lookup id j jobs ∙ rw q refl)
  | inr q ↦ inr (job, keep-lookup id j jobs ∙ rw q e, (omega arith, λ p. refl))
]

pub reserve-rows : (healthy : Bool) (s : Manager) → (reserve healthy s).1.rows ≡ s.rows
unfolding reserve
reserve-rows healthy s = ground arith

module _ (parse : Fields → Option Report) (splitlines : String → List String) where
  -- A step deletes an analysis or moves it: its status does not go back, and where it has ended, the
  -- step changes none of its columns.
  pub Step-Left :
      {s t : Manager} (id : String) (job : Job)
      → Step parse splitlines s t
      → lookup id s.rows.jobs ≡ some job
      → Left (lookup id t.rows.jobs) job
  unfolding finish
  Step-Left id job (create new s h) e = inr (create-Moves new new_job s.rows.jobs h id job e)
  Step-Left id job (delete old s) e = delete-Left old id job s.rows.jobs e
  Step-Left id job (starts_github now run_id new s h) e =
      inr (start_github-Moves now run_id new s.rows h id job e)
  Step-Left id job (records name other s) e = inr (record_event-Moves name other s.rows id job e)
  Step-Left id job (forgets stays s) e = inr (job, e, (omega arith, λ p. refl))
  Step-Left id job (changes_runs runs s) e = inr (job, e, (omega arith, λ p. refl))
  Step-Left id job (begins now other s) e = inr (begin-Moves now other s.rows id job e)
  Step-Left id job (finishes now (a, b, c) other run_id response s) e = inr (
      finish_tries-Moves now (a ∷ b ∷ c ∷ []) other run_id
        (worker_response parse splitlines response) s id job e)
  Step-Left id job (recovers now s) e = inr (batch-Moves now s.rows id job e)
  Step-Left id job (reserves healthy s) e =
      inr (job, rw (reserve-rows healthy s) e, (omega arith, λ p. refl))
  Step-Left id job (releases s) e = inr (job, e, (omega arith, λ p. refl))
  Step-Left id job (drains s) e = inr (job, e, (omega arith, λ p. refl))
  Step-Left id job (stops s) e = inr (job, e, (omega arith, λ p. refl))
