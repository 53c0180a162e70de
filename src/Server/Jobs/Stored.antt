-- ===== src/Server/Jobs/Stored.antt =====
-- What is stored of an analysis, and that the transactions of jobs.py keep it.
use blast_radius.Base.{
  ℕ, ◌≡◌, ◌≢◌, refl, subst, String, true, Option, some, none, List, [], ◌∷◌, lookup, lookup-insert,
  arith, Bool-cases, inl, inr, ◌==◌, string_eq, keep, length-keep, Bool,
}
use blast_radius.Python.{Fields, Value}
use blast_radius.Server.Results.{Report, Response, failed, succeeded, worker_response}
use blast_radius.Server.Results.Accepted.{IsAccepted, Says, worker_response-Says}
use blast_radius.Server.Jobs.Kinds.{
  Status, queued, running, succeeded as done, failed as broken, Job, Run, Rows, record_event,
  terminal_events, put_job, is_queued, is_pending,
}
use blast_radius.Server.Jobs.Steps.{closed, mark_ready, settle, settled}
use blast_radius.Server.Jobs.Run.{begin, begin_job, restarted, fail_job, fail_one, fail_all}
use blast_radius.Server.Jobs.Full.{
  IsFull, record_event-IsFull, terminal_events-jobs, terminal_events-IsFull, mark_ready-jobs,
  mark_ready-events, restarted_not_empty,
}

module _ (parse : Fields → Option Report) (splitlines : String → List String) where
  -- The columns of an analysis agree with its status.
  abbrev pub Stored : Status → Job → Type 0
  Stored queued job =
      (job.error ≡ none) × (job.result ≡ none) × (job.decision ≡ none) × (job.completed_at ≡ none)
  Stored running job =
      (job.error ≡ none) × (job.result ≡ none) × (job.decision ≡ none) × (job.completed_at ≡ none)
  Stored done job =
      (job.error ≡ none)
      × ((r : Fields) × (job.result ≡ some r) × IsAccepted parse splitlines r)
      × (job.completed_at ≢ none)
  Stored broken job =
      ((e : String) × (job.error ≡ some e) × (e ≢ ""))
      × (job.result ≡ none)
      × (job.decision ≡ none)
      × (job.completed_at ≢ none)

  abbrev pub IsStored : Job → Type 0
  IsStored job = Stored job.status job

  -- Each analysis is stored so, and the events are within their limit.
  pub record AllStored (rows : Rows) : Type 0 where
    pub stored : (id : String) (job : Job) → lookup id rows.jobs ≡ some job → IsStored job
    pub full : IsFull rows.events

  abbrev pub IsSaid : Response → Type 0
  IsSaid (failed e) = e ≢ ""
  IsSaid (succeeded r) = IsAccepted parse splitlines r

  pub worker_response-IsSaid : (v : Value) → IsSaid (worker_response parse splitlines v)
  worker_response-IsSaid v =
      go (worker_response parse splitlines v) (worker_response-Says parse splitlines v)
    where
      go : (r : Response) → Says parse splitlines v r → IsSaid r
      go (failed e) h = h
      go (succeeded r) h = h.accepted

  closed-IsStored : (now : ℕ) (r : Response) (job : Job) → IsSaid r → IsStored (closed now r job)
  unfolding closed
  closed-IsStored now (failed e) job h = ((e, refl, h), refl, refl, λ k. cc)
  closed-IsStored now (succeeded r) job h = (refl, (r, refl, h), λ k. cc)

  restarted-IsStored : (now : ℕ) (job : Job) → IsStored (restarted now job)
  restarted-IsStored now job =
      (("server_restarted", refl, λ k. restarted_not_empty k), refl, refl, λ k. cc)

  queued-Stored : (job : Job) → is_queued job.status ≡ true → IsStored job → Stored running job
  queued-Stored job q h = go job.status q h
    where
      go : (s : Status) → is_queued s ≡ true → Stored s job → Stored running job
      go queued q h = h
      go running q h = cc
      go done q h = cc
      go broken q h = cc

  -- A row that is assigned is stored so where the new one is.
  put_job-IsStored :
      (id : String) (job : Job) (rows : Rows)
      → IsStored job
      → ((j : String) (k : Job) → lookup j rows.jobs ≡ some k → IsStored k)
      → (j : String) (k : Job) → lookup j (put_job id job rows).jobs ≡ some k
      → IsStored k
  put_job-IsStored id job rows s h j k e = elim (Bool-cases (id == j)) [
    | inl f ↦ subst IsStored (ground (arith, lookup-insert id j job rows.jobs)) s
    | inr f ↦ h j k (ground (arith, lookup-insert id j job rows.jobs))
  ]

  pub put_job-AllStored :
      (id : String) (job : Job) {rows : Rows}
      → IsStored job
      → AllStored rows
      → AllStored (put_job id job rows)
  put_job-AllStored id job {rows} s h = record {
    stored = put_job-IsStored id job rows s h.stored;
    full = h.full;
  }

  pub record_event-AllStored :
      (name id : String) {rows : Rows} → AllStored rows → AllStored (record_event name id rows)
  unfolding record_event
  record_event-AllStored name id {rows} h = record {
    stored = h.stored;
    full = record_event-IsFull name id rows h.full;
  }

  pub forget-AllStored :
      (stays : String × String → Bool) {rows : Rows}
      → AllStored rows
      → AllStored (record rows { events = keep stays rows.events })
  forget-AllStored stays {rows} h = record {
    stored = h.stored;
    full = omega (arith, length-keep stays rows.events, h.full);
  }

  pub runs-AllStored :
      (runs : List (String × Run)) {rows : Rows}
      → AllStored rows
      → AllStored (record rows { runs = runs })
  runs-AllStored runs h = record { stored = h.stored; full = h.full }

  terminal_events-AllStored :
      (id : String) (job : Job) {rows : Rows}
      → AllStored rows
      → AllStored (terminal_events id job rows)
  terminal_events-AllStored id job {rows} h = record {
    stored = rw (terminal_events-jobs id job rows) h.stored;
    full = terminal_events-IsFull id job rows h.full;
  }

  mark_ready-AllStored :
      (run_id : Option String) (job : Job) {rows : Rows}
      → AllStored rows
      → AllStored (mark_ready run_id job rows)
  mark_ready-AllStored run_id job {rows} h = record {
    stored = rw (mark_ready-jobs run_id job rows) h.stored;
    full = rw (mark_ready-events run_id job rows) h.full;
  }

  module _ (now : ℕ) where
    settle-AllStored :
        (id : String) (run_id : Option String) (r : Response) (job : Job) {rows : Rows}
        → IsSaid r
        → AllStored rows
        → AllStored (settle now id run_id r job rows)
    settle-AllStored id run_id r job said h = mark_ready-AllStored run_id (closed now r job) (
        terminal_events-AllStored id (closed now r job)
          (put_job-AllStored id (closed now r job) (closed-IsStored now r job said) h))

    pub settled-AllStored :
        (id : String) (run_id : Option String) (r : Response) (o : Option Job) {rows : Rows}
        → IsSaid r
        → AllStored rows
        → AllStored (settled now id run_id r o rows).1
    settled-AllStored id run_id r none said h = h
    settled-AllStored id run_id r (some job) said h = elim (Bool-cases (is_pending job.status)) [
      | inl e ↦ rw e (settle-AllStored id run_id r job said h)
      | inr e ↦ rw e h
    ]

    begin_job-AllStored :
        (id : String) (o : Option Job) {rows : Rows}
        → lookup id rows.jobs ≡ o
        → AllStored rows
        → AllStored (begin_job now id o rows).1
    begin_job-AllStored id none e h = h
    begin_job-AllStored id (some job) e h = elim (Bool-cases (is_queued job.status)) [
      | inl q ↦ rw q (
          record_event-AllStored "analysis_started" id (
            put_job-AllStored id (record job { status = running; started_at = some now })
              (queued-Stored job q (h.stored id job e)) h))
      | inr q ↦ rw q h
    ]

    pub begin-AllStored :
        (id : String) {rows : Rows} → AllStored rows → AllStored (begin now id rows).1
    unfolding begin
    begin-AllStored id {rows} h = begin_job-AllStored id (lookup id rows.jobs) refl h

    fail_job-AllStored :
        (id : String) (o : Option Job) {rows : Rows}
        → AllStored rows
        → AllStored (fail_job now id o rows)
    fail_job-AllStored id none h = h
    fail_job-AllStored id (some job) h =
        terminal_events-AllStored id (restarted now job)
          (put_job-AllStored id (restarted now job) (restarted-IsStored now job) h)

    fail_one-AllStored :
        (id : String) {rows : Rows} → AllStored rows → AllStored (fail_one now id rows)
    unfolding fail_one
    fail_one-AllStored id {rows} h = fail_job-AllStored id (lookup id rows.jobs) h

    pub fail_all-AllStored :
        (ids : List String) {rows : Rows} → AllStored rows → AllStored (fail_all now ids rows)
    unfolding fail_all
    fail_all-AllStored [] h = h
    fail_all-AllStored (id ∷ ids) h = fail_all-AllStored ids (fail_one-AllStored id h)
