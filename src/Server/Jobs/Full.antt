-- ===== src/Server/Jobs/Full.antt =====
-- That the events stay within their limit, and which rows they leave.
use blast_radius.Base.{
  ◌≤◌, ◌≡◌, ◌≢◌, refl, String, Option, some, none, List, [], ◌∷◌, length, length-append,
  length-drop, arith, Bool-cases, inl, inr, string_eq, leb, drop, ◌-◌, ◌+◌,
}
use blast_radius.Server.Jobs.Kinds.{
  Status, queued, running, succeeded as done, failed as broken, Job, Rows, event_limit,
  record_event, terminal_events, decision_event, also_record, events_of,
}
use blast_radius.Server.Jobs.Steps.{mark_ready}

abbrev pub IsFull : List (String × String) → Type 0
IsFull events = length events ≤ event_limit

module _ (name id : String) (rows : Rows) (h : IsFull rows.events) where
  pub record_event-IsFull : IsFull (record_event name id rows).events
  unfolding record_event
  record_event-IsFull = elim (Bool-cases (leb event_limit (length rows.events))) [
    | inl e ↦ rw e (
        omega (
          arith,
          length-append (drop (length rows.events - event_limit + 1) rows.events) ((name, id) ∷ []),
          length-drop (length rows.events - event_limit + 1) rows.events,
        ))
    | inr e ↦ rw e (ground (arith, length-append rows.events ((name, id) ∷ [])))
  ]

pub also_record-IsFull :
    (o : Option String) (id : String) (rows : Rows)
    → IsFull rows.events
    → IsFull (also_record o id rows).events
also_record-IsFull none id rows h = h
also_record-IsFull (some name) id rows h = record_event-IsFull name id rows h

pub also_record-jobs :
    (o : Option String) (id : String) (rows : Rows) → (also_record o id rows).jobs ≡ rows.jobs
unfolding record_event
also_record-jobs none id rows = refl
also_record-jobs (some name) id rows = refl

pub events_of-jobs :
    (s : Status) (id : String) (job : Job) (rows : Rows)
    → (events_of s id job rows).jobs ≡ rows.jobs
unfolding record_event
events_of-jobs queued id job rows = refl
events_of-jobs running id job rows = refl
events_of-jobs broken id job rows = refl
events_of-jobs done id job rows =
    also_record-jobs (decision_event job.decision) id (record_event "analysis_completed" id rows)

pub terminal_events-jobs :
    (id : String) (job : Job) (rows : Rows) → (terminal_events id job rows).jobs ≡ rows.jobs
unfolding terminal_events
terminal_events-jobs id job rows = events_of-jobs job.status id job rows

pub events_of-IsFull :
    (s : Status) (id : String) (job : Job) (rows : Rows)
    → IsFull rows.events
    → IsFull (events_of s id job rows).events
events_of-IsFull queued id job rows h = h
events_of-IsFull running id job rows h = h
events_of-IsFull broken id job rows h = record_event-IsFull _ id rows h
events_of-IsFull done id job rows h =
    also_record-IsFull (decision_event job.decision) id _ (record_event-IsFull _ id rows h)

pub terminal_events-IsFull :
    (id : String) (job : Job) (rows : Rows)
    → IsFull rows.events
    → IsFull (terminal_events id job rows).events
unfolding terminal_events
terminal_events-IsFull id job rows h = events_of-IsFull job.status id job rows h

pub mark_ready-jobs :
    (run_id : Option String) (job : Job) (rows : Rows)
    → (mark_ready run_id job rows).jobs ≡ rows.jobs
unfolding mark_ready
mark_ready-jobs none job rows = refl
mark_ready-jobs (some id) job rows = ground arith

pub mark_ready-events :
    (run_id : Option String) (job : Job) (rows : Rows)
    → (mark_ready run_id job rows).events ≡ rows.events
unfolding mark_ready
mark_ready-events none job rows = refl
mark_ready-events (some id) job rows = ground arith

abbrev pub restart_code : String
restart_code = "server_restarted"

pub restarted_not_empty : restart_code ≢ ""
restarted_not_empty k = cc
