-- ===== src/Server/Jobs/Sound.antt =====
-- What is stored in every state that the steps reach, and that `_run` is made of such steps.
use blast_radius.Base.{
  ℕ, ◌≢◌, refl, String, Bool, true, false, Option, some, none, List, [], ◌∷◌, lookup, insert, arith,
  Bool-cases, inl, inr, ◌==◌, string_eq, if◌then◌else◌,
}
use blast_radius.Python.{Fields, Value}
use blast_radius.Server.Results.{Report, Response, failed, worker_response}
use blast_radius.Server.Jobs.Kinds.{Rows, Manager, running, pending}
use blast_radius.Server.Jobs.Steps.{
  finish_once, finish_tries, finish, Attempts, Fault, none_raised, lease_lost, raised, Finished,
  gone, ended, lost_lease, not_persisted,
}
use blast_radius.Server.Jobs.Run.{
  begin, batch, Outcome, error_response, handle, after_finish, respond, executed, started, attempt,
  run, failed_run,
}
use blast_radius.Server.Jobs.Stored.{
  AllStored, record_event-AllStored, forget-AllStored, runs-AllStored, IsSaid,
  worker_response-IsSaid, settled-AllStored, put_job-AllStored, begin-AllStored, fail_all-AllStored,
}
use blast_radius.Server.Jobs.Life.{
  new_job, remove_job, start_github, Step, create, delete, starts_github, records, forgets,
  changes_runs, begins, finishes, recovers, reserves, releases, drains, stops, Reach, here, next,
}
use blast_radius.Server.Jobs.Moves.{keep-lookup, reserve-rows}

abbrev worker_failed : String
worker_failed = "worker_failed"

worker_failed_not_empty : worker_failed ≢ ""
worker_failed_not_empty k = cc

module _ (parse : Fields → Option Report) (splitlines : String → List String) where
  remove_job-AllStored :
      (id : String) {rows : Rows}
      → AllStored parse splitlines rows
      → AllStored parse splitlines (remove_job id rows)
  remove_job-AllStored id {rows} h = record {
    stored = λ j job e. elim (Bool-cases (id == j)) [
      | inl q ↦ absurd (ground (arith, keep-lookup id j rows.jobs))
      | inr q ↦ h.stored j job (ground (arith, keep-lookup id j rows.jobs))
    ];
    full = h.full;
  }

  start_github-AllStored :
      (now : ℕ) (run_id id : String) {rows : Rows}
      → AllStored parse splitlines rows
      → AllStored parse splitlines (start_github now run_id id rows)
  unfolding start_github
  start_github-AllStored now run_id id {rows} h =
      record_event-AllStored parse splitlines "analysis_started" id (
        put_job-AllStored parse splitlines id
          (record new_job { status = running; started_at = some now }) (refl, refl, refl, refl)
          (runs-AllStored parse splitlines
            (insert run_id (record { status = pending; error = none }) rows.runs) h))

  finish_tries-AllStored :
      (now : ℕ) (faults : List Fault) (id : String) (run_id : Option String) (r : Response)
      (s : Manager)
      → IsSaid parse splitlines r
      → AllStored parse splitlines s.rows
      → AllStored parse splitlines (finish_tries now faults id run_id r s).1.rows
  unfolding finish_tries finish_once
  finish_tries-AllStored now [] id run_id r s said h = h
  finish_tries-AllStored now (none_raised ∷ faults) id run_id r s said h =
      settled-AllStored parse splitlines now id run_id r (lookup id s.rows.jobs) said h
  finish_tries-AllStored now (lease_lost ∷ faults) id run_id r s said h = h
  finish_tries-AllStored now (raised ∷ faults) id run_id r s said h =
      finish_tries-AllStored now faults id run_id (failed "worker_failed") s worker_failed_not_empty
        h

  Step-AllStored :
      {s t : Manager}
      → Step parse splitlines s t
      → AllStored parse splitlines s.rows
      → AllStored parse splitlines t.rows
  unfolding finish
  Step-AllStored (create id s e) h =
      put_job-AllStored parse splitlines id new_job (refl, refl, refl, refl) h
  Step-AllStored (delete id s) h = remove_job-AllStored id h
  Step-AllStored (starts_github now run_id id s e) h = start_github-AllStored now run_id id h
  Step-AllStored (records name id s) h = record_event-AllStored parse splitlines name id h
  Step-AllStored (forgets stays s) h = forget-AllStored parse splitlines stays h
  Step-AllStored (changes_runs runs s) h = runs-AllStored parse splitlines runs h
  Step-AllStored (begins now id s) h = begin-AllStored parse splitlines now id h
  Step-AllStored (finishes now (a, b, c) id run_id response s) h =
      finish_tries-AllStored now (a ∷ b ∷ c ∷ []) id run_id
        (worker_response parse splitlines response) s
        (worker_response-IsSaid parse splitlines response) h
  Step-AllStored (recovers now s) h = fail_all-AllStored parse splitlines now (batch s.rows) h
  Step-AllStored (reserves healthy s) h = rw (reserve-rows healthy s) h
  Step-AllStored (releases s) h = h
  Step-AllStored (drains s) h = h
  Step-AllStored (stops s) h = h

  -- From rows that are stored so, every sequence of steps keeps them so: the columns of each analysis
  -- agree with its status. One that succeeded has a result that agrees with itself, no error and the
  -- time when it ended; one that failed has an error that is not empty, the time, no result and no
  -- decision; any other has none of these. There are never more than 100,000 events.
  pub Reach-AllStored :
      {s t : Manager}
      → Reach parse splitlines s t
      → AllStored parse splitlines s.rows
      → AllStored parse splitlines t.rows
  Reach-AllStored here h = h
  Reach-AllStored (next r st) h = Step-AllStored st (Reach-AllStored r h)

  module _ (now : ℕ) (id : String) where
    handle-Reach :
        (attempts : Attempts) {s t : Manager}
        → Reach parse splitlines s t
        → Reach parse splitlines s (handle now parse splitlines attempts id t).1
    unfolding handle
    handle-Reach attempts {s} {t} r =
        handled t.persistence_failed
          (finish now parse splitlines attempts id none (error_response "worker_failed") t).0 r
          (next r (finishes now attempts id none (error_response "worker_failed") t))
      where
        handled :
            (b : Bool) {u : Manager} (f : Finished)
            → Reach parse splitlines s t
            → Reach parse splitlines s u
            → Reach parse splitlines s
                (if◌then◌else◌ {A = Outcome × Manager} b
                  (failed_run none, t)
                  (failed_run (some f), u)).1
        handled true f r r' = r
        handled false f r r' = r'

    after_finish-Reach :
        (attempts : Attempts) (f : Finished) {s t : Manager}
        → Reach parse splitlines s t
        → Reach parse splitlines s (after_finish now parse splitlines attempts id (f, t)).1
    unfolding after_finish
    after_finish-Reach attempts gone r = r
    after_finish-Reach attempts (ended status) r = r
    after_finish-Reach attempts lost_lease r = r
    after_finish-Reach attempts not_persisted r = handle-Reach attempts r

    respond-Reach :
        (worker : Option Value) (first second : Attempts) {s t : Manager}
        → Reach parse splitlines s t
        → Reach parse splitlines s (respond now parse splitlines worker first second id t).1
    unfolding respond
    respond-Reach none first second r = handle-Reach second r
    respond-Reach (some v) first second {s} {t} r =
        after_finish-Reach second (finish now parse splitlines first id none v t).0
          (next r (finishes now first id none v t))

    started-Reach :
        (worker : Option Value) (first second : Attempts) (b : Bool) {s t : Manager}
        → Reach parse splitlines s t
        → Reach parse splitlines s (started now parse splitlines worker first second id b t).1
    unfolding started
    started-Reach worker first second true {s} {t} r =
        respond-Reach (executed worker t.stopping) first second r
    started-Reach worker first second false r = r

    attempt-Reach :
        (fault : Fault) (worker : Option Value) (first second : Attempts) (s : Manager)
        → Reach parse splitlines s (attempt now parse splitlines fault worker first second id s).1
    unfolding attempt
    attempt-Reach none_raised worker first second s =
        started-Reach worker first second (begin now id s.rows).0 (next here (begins now id s))
    attempt-Reach lease_lost worker first second s = here
    attempt-Reach raised worker first second s = handle-Reach second here

    run-Reach :
        (fault : Fault) (worker : Option Value) (first second : Attempts) (s : Manager)
        → Reach parse splitlines s (run now parse splitlines fault worker first second id s).1
    unfolding run
    run-Reach fault worker first second s =
        next (attempt-Reach fault worker first second s)
          (releases (attempt now parse splitlines fault worker first second id s).1)
