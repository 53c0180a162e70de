-- ===== src/Server/Jobs/Steps.antt =====
-- The functions of `JobManager` that reserve a slot and store how an analysis ended.
use blast_radius.Base.{
  ℕ, ◌+◌, ◌-◌, String, Bool, true, false, not, ◌&&◌, Option, some, none, List, [], ◌∷◌, ltb,
  if◌then◌else◌, lookup, insert, string_eq,
}
use blast_radius.Python.{Fields, Value, null, field_or, text_of}
use blast_radius.Server.Results.{Report, Response, failed, succeeded, worker_response}
use blast_radius.Server.Jobs.Kinds.{
  Status, succeeded as done, failed as broken, is_pending, Job, ready, Rows, Manager,
  terminal_events, put_job,
}

-- What becomes of a transaction: it commits, the lease is found lost, or it raises another error.
pub data Fault : Type 0 where
  none_raised lease_lost raised : Fault

-- What becomes of the three attempts of `finish`.
abbrev pub Attempts : Type 0
Attempts = Fault × Fault × Fault

-- How `finish` ends: it returns "deleted_or_terminal" or the status of the analysis, or it raises
-- `LeaseLost` or, after three attempts, `RuntimeError`.
pub data Finished : Type 0 where
  gone : Finished
  ended : Status → Finished
  lost_lease : Finished
  not_persisted : Finished

-- `reserve`, where `healthy` is `lease_healthy()`; with whether a slot was taken.
unfoldable pub reserve : Bool → Manager → Bool × Manager
reserve healthy s =
    if not s.draining && healthy && not s.persistence_failed && ltb 0 s.slots
    then (true, record s { slots = s.slots - 1 })
    else (false, s)

-- `self.slots.release()`
abbrev pub release : Manager → Manager
release s = record s { slots = s.slots + 1 }

-- `result["decision"]`
abbrev pub decision_in : Fields → Option String
decision_in result = text_of (field_or result "decision" null)

-- `run.status, run.error = RunStatus.READY, job.error`, where there is such a run.
unfoldable pub mark_ready : Option String → Job → Rows → Rows
mark_ready none job rows = rows
mark_ready (some id) job rows = elim (lookup id rows.runs) [
  | none ↦ rows
  | some run ↦ record rows {
    runs = insert id (record { status = ready; error = job.error }) rows.runs;
  }
]

module _ (now : ℕ) where
  -- The row of an analysis once its response is known. `persist_result` stores a result with its
  -- decision; the other columns and rows that it fills are left out.
  unfoldable pub closed : Response → Job → Job
  closed (failed e) job = record job {
    status = broken;
    error = some e;
    result = none;
    decision = none;
    completed_at = some now;
  }
  closed (succeeded r) job = record job {
    status = done;
    error = none;
    result = some r;
    decision = decision_in r;
    completed_at = some now;
  }

  abbrev pub settle : String → Option String → Response → Job → Rows → Rows
  settle id run_id response job rows =
      let job' = closed response job in
      mark_ready run_id job' (terminal_events id job' (put_job id job' rows))

  abbrev pub settled : String → Option String → Response → Option Job → Rows → Finished × Rows
  settled id run_id response none rows = (gone, rows)
  settled id run_id response (some job) rows =
      if is_pending job.status
      then (ended (closed response job).status, settle id run_id response job rows)
      else (gone, rows)

  -- The transaction of `finish`.
  unfoldable pub finish_once : String → Option String → Response → Rows → Finished × Rows
  unfolding closed mark_ready terminal_events
  finish_once id run_id response rows = settled id run_id response (lookup id rows.jobs) rows

  -- The loop of `finish` over the attempts that are left; an attempt after an error stores a failure.
  unfoldable pub finish_tries :
      List Fault → String → Option String → Response → Manager → Finished × Manager
  unfolding finish_once
  finish_tries [] id run_id response s = (not_persisted, record s { persistence_failed = true })
  finish_tries (fault ∷ faults) id run_id response s =
      let again = finish_tries faults id run_id (failed "worker_failed") s in
      elim fault [
        | none_raised ↦
            let r = finish_once id run_id response s.rows in (r.0, record s { rows = r.1 })
        | lease_lost ↦ (lost_lease, s)
        | raised ↦ again
      ]

  module _ (parse : Fields → Option Report) (splitlines : String → List String) where
    unfoldable pub finish : Attempts → String → Option String → Value → Manager → Finished × Manager
    unfolding finish_tries worker_response
    finish (a, b, c) id run_id response =
        finish_tries (a ∷ b ∷ c ∷ []) id run_id (worker_response parse splitlines response)
