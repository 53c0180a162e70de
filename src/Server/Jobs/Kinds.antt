-- ===== src/Server/Jobs/Kinds.antt =====
-- The rows, the events and the flags that jobs.py works on.
use blast_radius.Base.{
  ℕ, ◌+◌, ◌-◌, String, Bool, true, false, ◌==◌, string_eq, Option, some, none, List, [], ◌∷◌, ◌++◌,
  length, leb, if◌then◌else◌, insert, drop,
}
use blast_radius.Python.{Fields}

-- `AnalysisStatus`
pub data Status : Type 0 where
  queued running succeeded failed : Status

abbrev pub is_pending : Status → Bool
is_pending queued = true
is_pending running = true
is_pending succeeded = false
is_pending failed = false

abbrev pub is_queued : Status → Bool
is_queued queued = true
is_queued _ = false

-- The columns of `Analysis` that jobs.py assigns.
pub record Job : Type 0 where
  pub status : Status
  pub error : Option String
  pub result : Option Fields
  pub decision : Option String
  pub started_at : Option ℕ
  pub completed_at : Option ℕ

-- `RunStatus`, and the columns of `GitHubRun` that `finish` assigns.
pub data RunStatus : Type 0 where
  pending ready published expired : RunStatus

pub record Run : Type 0 where
  pub status : RunStatus
  pub error : Option String

-- The rows, by their ids, and the product events, the oldest first, each with its analysis.
pub record Rows : Type 0 where
  pub jobs : List (String × Job)
  pub runs : List (String × Run)
  pub events : List (String × String)

-- `JobManager`: the free slots and the flags, with the rows.
pub record Manager : Type 0 where
  pub rows : Rows
  pub slots : ℕ
  pub persistence_failed : Bool
  pub draining : Bool
  pub stopping : Bool

abbrev pub event_limit : ℕ
event_limit = 100000

-- `record_event`: where the events are at the limit, the oldest make room.
unfoldable pub record_event : String → String → Rows → Rows
record_event name analysis_id rows = record rows {
  events =
      (if leb event_limit (length rows.events)
        then drop (length rows.events - event_limit + 1) rows.events
        else rows.events)
      ++ (name, analysis_id) ∷ [];
}

abbrev pub decision_event : Option String → Option String
decision_event none = none
decision_event (some d) =
    if d == "BLOCK CHANGE"
    then some "block_result"
    else if d == "REVIEW REQUIRED"
    then some "review_result"
    else if d == "SAFE TO MERGE"
    then some "safe_result"
    else none

abbrev pub also_record : Option String → String → Rows → Rows
also_record none id rows = rows
also_record (some name) id rows = record_event name id rows

abbrev pub events_of : Status → String → Job → Rows → Rows
events_of queued id job rows = rows
events_of running id job rows = rows
events_of failed id job rows = record_event "analysis_failed" id rows
events_of succeeded id job rows =
    also_record (decision_event job.decision) id (record_event "analysis_completed" id rows)

-- `terminal_events`
unfoldable pub terminal_events : String → Job → Rows → Rows
unfolding record_event
terminal_events id job rows = events_of job.status id job rows

-- An assignment to the columns of a row.
abbrev pub put_job : String → Job → Rows → Rows
put_job id job rows = record rows { jobs = insert id job rows.jobs }
