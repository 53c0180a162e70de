-- ===== src/Examples/Serving.antt =====
-- A worker's result that agrees with itself, and the life of one analysis.
use blast_radius.Base.{
  ◌≡◌, ◌≢◌, refl, pos, String, true, false, Option, some, none, List, [], ◌∷◌, lookup, string_eq,
  length, suc, arith,
}
use blast_radius.Python.{Value, Fields, str, bool, list, dict, field, end, cons, nil}
use blast_radius.Server.Results.{Report, succeeded, worker_response}
use blast_radius.Server.Results.Accepted.{Says, worker_response-Says}
use blast_radius.Server.Jobs.Run.{begin}
use blast_radius.Server.Jobs.{
  Job, Rows, Manager, none_raised, raised, lease_lost, Attempts, finish, recover, run, running,
  is_pending, is_queued,
}
use blast_radius.Server.Jobs.Stored.{AllStored}
use blast_radius.Server.Jobs.Life.{new_job, create, begins, finishes, here, next}
use blast_radius.Server.Jobs.Moves.{Left, Step-Left}
use blast_radius.Server.Jobs.Recover.{Recovers, recover_correct}
use blast_radius.Server.Jobs.Sound.{Reach-AllStored}
use blast_radius.Server.Jobs.Ends.{finish_lem, IsOver, run_ends}
use blast_radius.Server.Jobs.Finishes.{Finishes, final_response, verdict_of}

abbrev safe_report : Report
safe_report = record {
  schema_version = pos 1;
  analysis_complete = true;
  decision = "SAFE TO MERGE";
  passed = true;
  score = record { before = pos 90; after = pos 95; delta = pos 5 };
  before = record { complete = true; paths_truncated = false; score = pos 90 };
  after = record { complete = true; paths_truncated = false; score = pos 95 };
  reports = field "markdown" (str "Decision: SAFE TO MERGE") (
      field "sarif"
        (dict (
          field "runs"
            (list (
              cons
                (dict (
                  field "properties"
                    (dict (
                      field "decision" (str "SAFE TO MERGE") (
                        field "analysisComplete" (bool true)
                          (field "pathsTruncated" (bool false) end))))
                    end))
                nil))
            end))
        end);
}

abbrev parse_safe : Fields → Option Report
parse_safe result = some safe_report

abbrev one_line : String → List String
one_line s = s ∷ []

abbrev safe_result : Fields
safe_result = field "decision" (str "SAFE TO MERGE") end

abbrev safe_response : Value
safe_response = dict (field "result" (dict safe_result) end)

accepts_safe : worker_response parse_safe one_line safe_response ≡ succeeded safe_result
unfolding worker_response
accepts_safe = refl

worker_response-Says_example :
    Says parse_safe one_line safe_response (worker_response parse_safe one_line safe_response)
worker_response-Says_example = worker_response-Says parse_safe one_line safe_response

abbrev idle : Manager
idle = record {
  rows = record { jobs = []; runs = []; events = [] };
  slots = 2;
  persistence_failed = false;
  draining = false;
  stopping = false;
}

abbrev waiting : Manager
waiting = record idle { rows = record idle.rows { jobs = ("a", new_job) ∷ [] } }

abbrev working : Manager
working = record waiting { rows = (begin 5 "a" waiting.rows).1 }

-- The second attempt stores that the worker failed.
abbrev attempts : Attempts
attempts = (raised, none_raised, raised)

abbrev over : Manager
over = (finish 9 parse_safe one_line attempts "a" none safe_response working).1

no_row : (id : String) (job : Job) → lookup id idle.rows.jobs ≢ some job
no_row id job e = cc

idle-AllStored : AllStored parse_safe one_line idle.rows
idle-AllStored = record { stored = λ id job e. absurd (no_row id job e); full = omega arith }

Reach-AllStored_example : AllStored parse_safe one_line over.rows
Reach-AllStored_example =
    Reach-AllStored parse_safe one_line {s = idle} {t = over}
      (next (next (next here (create "a" idle refl)) (begins 5 "a" waiting))
        (finishes 9 attempts "a" none safe_response working))
      idle-AllStored

running_job : Option Job
running_job = lookup "a" working.rows.jobs

Step-Left_example :
    Left (lookup "a" over.rows.jobs) (record new_job { status = running; started_at = some 5 })
unfolding begin
Step-Left_example =
    Step-Left parse_safe one_line {s = working} {t = over} "a"
      (record new_job { status = running; started_at = some 5 })
      (finishes 9 attempts "a" none safe_response working) refl

recover_correct_example :
    (rows' : Rows) × (recover 7 (suc (length working.rows.jobs)) working.rows ≡ some rows')
    × Recovers 7 working.rows rows'
recover_correct_example = recover_correct 7 working.rows

finish_lem_example :
    Finishes 9 "a" none
      (final_response attempts (worker_response parse_safe one_line safe_response))
      working
      (verdict_of attempts)
      (finish 9 parse_safe one_line attempts "a" none safe_response working)
finish_lem_example = finish_lem 9 parse_safe one_line "a" attempts none safe_response working

abbrev commits : Attempts
commits = (none_raised, none_raised, none_raised)

not_lost : none_raised ≢ lease_lost
not_lost e = cc

waiting_queued :
    (job : Job)
    → lookup "a" waiting.rows.jobs ≡ some job
    → is_pending job.status ≡ true
    → is_queued job.status ≡ true
waiting_queued job e p = ground arith

run_ends_example :
    IsOver 9 parse_safe one_line "a"
      (run 9 parse_safe one_line none_raised (some safe_response) attempts commits "a" waiting).1
run_ends_example =
    run_ends 9 parse_safe one_line "a" attempts commits refl refl none_raised (some safe_response)
      waiting not_lost refl waiting_queued
