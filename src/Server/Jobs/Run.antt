-- ===== src/Server/Jobs/Run.antt =====
-- `_run`, `submit` and `recover` of `JobManager`.
use blast_radius.Base.{
  ℕ, zero, suc, String, Bool, true, false, Option, some, none, List, [], ◌∷◌, keep, length, ltb,
  if◌then◌else◌, lookup, map, string_eq, take, sorted,
}
use blast_radius.Python.{Fields, Value, str, dict, field, end}
use blast_radius.Server.Results.{Report}
use blast_radius.Server.Jobs.Kinds.{
  running, failed, is_pending, is_queued, Job, Rows, Manager, record_event, terminal_events,
  put_job,
}
use blast_radius.Server.Jobs.Steps.{
  Fault, none_raised, lease_lost, raised, Finished, gone, ended, lost_lease, not_persisted, release,
  Attempts, finish,
}

-- `{"error": code}`
abbrev pub error_response : String → Value
error_response code = dict (field "error" (str code) end)

module _ (now : ℕ) where
  abbrev pub begin_job : String → Option Job → Rows → Bool × Rows
  begin_job id none rows = (false, rows)
  begin_job id (some job) rows =
      if is_queued job.status
      then (
        true,
        record_event "analysis_started" id
            (put_job id (record job { status = running; started_at = some now }) rows),
      )
      else (false, rows)

  -- The first transaction of `_run`, with whether an analysis that was queued now runs.
  unfoldable pub begin : String → Rows → Bool × Rows
  unfolding record_event
  begin id rows = begin_job id (lookup id rows.jobs) rows

-- How `_run` ends: nothing was queued, `finish` returned, `LeaseLost` was raised, or it failed, with
-- what the `finish` of the handler did, if it was called.
pub data Outcome : Type 0 where
  deleted : Outcome
  finished : Finished → Outcome
  service_lease_lost : Outcome
  failed_run : Option Finished → Outcome

-- `SERVER_RESTARTED` where the manager is stopping.
unfoldable pub executed : Option Value → Bool → Option Value
executed worker stopping = if stopping then some (error_response "server_restarted") else worker

module _ (now : ℕ) (parse : Fields → Option Report) (splitlines : String → List String) where
  -- `except Exception`, with what becomes of the attempts of its `finish`.
  unfoldable pub handle : Attempts → String → Manager → Outcome × Manager
  unfolding finish
  handle attempts id s =
      let r = finish now parse splitlines attempts id none (error_response "worker_failed") s in
      if s.persistence_failed then (failed_run none, s) else (failed_run (some r.0), r.1)

  -- The response is known, or `execute` raised; `finish` may raise too.
  unfoldable pub after_finish : Attempts → String → Finished × Manager → Outcome × Manager
  unfolding handle
  after_finish attempts id (gone, s) = (finished gone, s)
  after_finish attempts id (ended status, s) = (finished (ended status), s)
  after_finish attempts id (lost_lease, s) = (service_lease_lost, s)
  after_finish attempts id (not_persisted, s) = handle attempts id s

  -- What `execute` gives: a value, or none where it raises.
  unfoldable pub respond : Option Value → Attempts → Attempts → String → Manager → Outcome × Manager
  unfolding after_finish finish handle
  respond none first second id s = handle second id s
  respond (some response) first second id s =
      after_finish second id (finish now parse splitlines first id none response s)

  unfoldable pub started :
      Option Value → Attempts → Attempts → String → Bool → Manager → Outcome × Manager
  unfolding respond executed
  started worker first second id false s = (deleted, s)
  started worker first second id true s = respond (executed worker s.stopping) first second id s

  -- The body of `_run` before its `finally`.
  unfoldable pub attempt :
      Fault → Option Value → Attempts → Attempts → String → Manager → Outcome × Manager
  unfolding begin started handle
  attempt none_raised worker first second id s =
      let b = begin now id s.rows in started worker first second id b.0 (record s { rows = b.1 })
  attempt lease_lost worker first second id s = (service_lease_lost, s)
  attempt raised worker first second id s = handle second id s

  unfoldable pub run :
      Fault → Option Value → Attempts → Attempts → String → Manager → Outcome × Manager
  unfolding attempt
  run fault worker first second id s =
      let r = attempt fault worker first second id s in (r.0, release r.1)

  -- `submit`, where the executor takes the call or raises; with whether it took it.
  unfoldable pub submit : Bool → Attempts → String → Manager → Bool × Manager
  unfolding finish
  submit true attempts id s = (true, s)
  submit false attempts id s =
      (false, (finish now parse splitlines attempts id none (error_response "dispatch_failed") s).1)

abbrev pub pends : Option Job → Bool
pends none = false
pends (some job) = is_pending job.status

-- The ids of the analyses that are queued or running.
unfoldable pub pending_ids : Rows → List String
pending_ids rows = keep (λ id. pends (lookup id rows.jobs)) (map (λ row. row.0) rows.jobs)

-- The first 100 of them in the order of the ids.
unfoldable pub batch : Rows → List String
unfolding pending_ids sorted
batch rows = take 100 (sorted (pending_ids rows))

module _ (now : ℕ) where
  abbrev pub restarted : Job → Job
  restarted job = record job {
    status = failed;
    error = some "server_restarted";
    completed_at = some now;
    result = none;
    decision = none;
  }

  abbrev pub fail_job : String → Option Job → Rows → Rows
  fail_job id none rows = rows
  fail_job id (some job) rows = terminal_events id (restarted job) (put_job id (restarted job) rows)

  -- The body of the `for` of `recover`.
  unfoldable pub fail_one : String → Rows → Rows
  unfolding terminal_events
  fail_one id rows = fail_job id (lookup id rows.jobs) rows

  unfoldable pub fail_all : List String → Rows → Rows
  unfolding fail_one
  fail_all [] rows = rows
  fail_all (id ∷ ids) rows = fail_all ids (fail_one id rows)

  -- The loop of `recover`, with a turn for each batch; none where the turns run out.
  unfoldable pub recover : ℕ → Rows → Option Rows
  unfolding batch fail_all
  recover zero rows = none
  recover (suc turns) rows =
      let ids = batch rows in
      let rows' = fail_all ids rows in
      let rest = recover turns rows' in if ltb (length ids) 100 then some rows' else rest
