-- ===== src/Server/Jobs/Life.antt =====
-- The steps that requests, workers and the cleanup take, in any order. An analysis is added by
-- `create_analysis` or by the GitHub worker (`starts_github`); a cascade deletes one after the other.
-- `records` is any other event, from app.py, auth.py, beta.py, lifecycle.py and github_routes.py, with the
-- empty text where it has no analysis, which `opaque_id` takes for none; `forgets` the retention of
-- beta.py, and `changes_runs` what publication and recovery do to the runs of GitHub.
use blast_radius.Base.{
  ℕ, ◌≤◌, ◌≡◌, String, Bool, true, false, not, Option, some, none, List, lookup, insert, ◌==◌,
  string_eq, keep,
}
use blast_radius.Python.{Fields, Value}
use blast_radius.Server.Results.{Report}
use blast_radius.Server.Jobs.Kinds.{
  Status, queued, running, succeeded as done, failed as broken, Job, Rows, put_job, is_pending,
  Manager, Run, pending, record_event,
}
use blast_radius.Server.Jobs.Steps.{finish, Attempts, reserve, release}
use blast_radius.Server.Jobs.Run.{begin, fail_all, batch}

-- A new row of `create_analysis`: the columns' defaults.
abbrev pub new_job : Job
new_job = record {
  status = queued;
  error = none;
  result = none;
  decision = none;
  started_at = none;
  completed_at = none;
}

-- The transaction of the GitHub worker that adds a running analysis, with its run.
unfoldable pub start_github : ℕ → String → String → Rows → Rows
unfolding record_event
start_github now run_id id rows = record_event "analysis_started" id (
    put_job id (record new_job { status = running; started_at = some now })
      (record rows { runs = insert run_id (record { status = pending; error = none }) rows.runs }))

-- `delete(Analysis)`
abbrev pub remove_job : String → Rows → Rows
remove_job id rows = record rows { jobs = keep (λ row. not (row.0 == id)) rows.jobs }

module _ (parse : Fields → Option Report) (splitlines : String → List String) where
  pub data Step : Manager → Manager → Type 0 where
    create :
        (id : String) (s : Manager)
        → lookup id s.rows.jobs ≡ none
        → Step s (record s { rows = put_job id new_job s.rows })
    delete : (id : String) (s : Manager) → Step s (record s { rows = remove_job id s.rows })
    starts_github :
        (now : ℕ) (run_id id : String) (s : Manager)
        → lookup id s.rows.jobs ≡ none
        → Step s (record s { rows = start_github now run_id id s.rows })
    records :
        (name id : String) (s : Manager) → Step s (record s { rows = record_event name id s.rows })
    forgets :
        (stays : String × String → Bool) (s : Manager)
        → Step s (record s { rows = record s.rows { events = keep stays s.rows.events } })
    changes_runs :
        (runs : List (String × Run)) (s : Manager)
        → Step s (record s { rows = record s.rows { runs = runs } })
    begins :
        (now : ℕ) (id : String) (s : Manager) → Step s (record s { rows = (begin now id s.rows).1 })
    finishes :
        (now : ℕ) (attempts : Attempts) (id : String) (run_id : Option String) (response : Value)
        (s : Manager)
        → Step s (finish now parse splitlines attempts id run_id response s).1
    recovers :
        (now : ℕ) (s : Manager) → Step s (record s { rows = fail_all now (batch s.rows) s.rows })
    reserves : (healthy : Bool) (s : Manager) → Step s (reserve healthy s).1
    releases : (s : Manager) → Step s (release s)
    drains : (s : Manager) → Step s (record s { draining = true })
    stops : (s : Manager) → Step s (record s { stopping = true })

  pub data Reach (s : Manager) : Manager → Type 0 where
    here : Reach s s
    next : {t u : Manager} → Reach s t → Step t u → Reach s u

abbrev pub rank : Status → ℕ
rank queued = 0
rank running = 1
rank done = 2
rank broken = 2

-- The status does not go back, and an analysis that has ended keeps all its columns.
abbrev pub Moved : Job → Job → Type 0
Moved job job' = (rank job.status ≤ rank job'.status) × (is_pending job.status ≡ false → job' ≡ job)

-- Each row that is there stays there, moved.
abbrev pub Moves : List (String × Job) → List (String × Job) → Type 0
Moves jobs jobs' =
    (id : String) (job : Job)
    → lookup id jobs ≡ some job
    → (job' : Job) × (lookup id jobs' ≡ some job') × Moved job job'
