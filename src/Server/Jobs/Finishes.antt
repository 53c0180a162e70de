-- ===== src/Server/Jobs/Finishes.antt =====
-- What `finish` leaves, by what becomes of its attempts.
use blast_radius.Base.{
  ℕ, ◌≡◌, refl, sym, subst, ap, ◌∙◌, String, Bool, true, false, Option, some, none, ◌==◌, List, [],
  ◌∷◌, lookup, lookup-insert, arith, Bool-cases, inl, inr, string_eq, ==_refl, if◌then◌else◌,
}
use blast_radius.Server.Results.{Response, failed, succeeded}
use blast_radius.Server.Jobs.Kinds.{
  Status, queued, running, succeeded as done, failed as broken, Job, Manager, Rows, ready,
  is_pending, record_event, also_record, events_of, decision_event, terminal_events, put_job,
}
use blast_radius.Server.Jobs.Steps.{
  closed, mark_ready, settle, settled, finish_once, finish_tries, Attempts, Fault, none_raised,
  lease_lost, raised, Finished, gone, ended, lost_lease, not_persisted,
}
use blast_radius.Server.Jobs.Run.{pends}
use blast_radius.Server.Jobs.Moves.{settle-jobs}

-- What becomes of the attempts as a whole: the first that raises no error to be retried decides.
abbrev pub verdict : List Fault → Fault
verdict [] = raised
verdict (none_raised ∷ faults) = none_raised
verdict (lease_lost ∷ faults) = lease_lost
verdict (raised ∷ faults) = verdict faults

abbrev pub verdict_of : Attempts → Fault
verdict_of (a, b, c) = verdict (a ∷ b ∷ c ∷ [])

abbrev pub status_of : Option Job → Option Status
status_of none = none
status_of (some job) = some job.status

-- The response that the last attempt stores: after an error, it is a failure.
abbrev pub response_of : List Fault → Response → Response
response_of (raised ∷ faults) r = failed "worker_failed"
response_of _ r = r

abbrev pub final_response : Attempts → Response → Response
final_response (a, b, c) = response_of (a ∷ b ∷ c ∷ [])

-- What `finish` returns, of the row before and after.
abbrev pub Reported : Finished → Option Job → Option Job → Type 0
Reported gone before after = (pends before ≡ false) × (after ≡ before)
Reported (ended status) before after = (pends before ≡ true) × (status_of after ≡ some status)
Reported lost_lease before after = ⊥
Reported not_persisted before after = ⊥

abbrev pub is_run : Option String → String → Bool
is_run none j = false
is_run (some id) j = id == j

module _ (now : ℕ) (id : String) (run_id : Option String) (response : Response) (s : Manager) where
  -- What an attempt that commits leaves.
  pub record Commits (f : Finished) (t : Manager) : Type 0 where
    pub over : pends (lookup id t.rows.jobs) ≡ false
    pub reported : Reported f (lookup id s.rows.jobs) (lookup id t.rows.jobs)
    pub stored :
        (job : Job)
        → lookup id s.rows.jobs ≡ some job
        → is_pending job.status ≡ true
        → lookup id t.rows.jobs ≡ some (closed now response job)
    pub nothing : f ≡ gone → t ≡ s
    pub others : (j : String) → (id == j) ≡ false → lookup j t.rows.jobs ≡ lookup j s.rows.jobs
    pub runs : (j : String) → is_run run_id j ≡ false → lookup j t.rows.runs ≡ lookup j s.rows.runs
    pub flags : t ≡ record s { rows = t.rows }

  abbrev pub Finishes : Fault → Finished × Manager → Type 0
  Finishes none_raised (f, t) = Commits f t
  Finishes lease_lost r = r ≡ (lost_lease, s)
  Finishes raised r = r ≡ (not_persisted, record s { persistence_failed = true })

pub mark_ready-runs :
    (run_id : Option String) (job : Job) (rows : Rows) (j : String)
    → is_run run_id j ≡ false
    → lookup j (mark_ready run_id job rows).runs ≡ lookup j rows.runs
unfolding mark_ready
mark_ready-runs none job rows j h = refl
mark_ready-runs (some id) job rows j h =
    ground (arith, lookup-insert id j (record { status = ready; error = job.error }) rows.runs)

pub also_record-runs :
    (o : Option String) (id : String) (rows : Rows) → (also_record o id rows).runs ≡ rows.runs
unfolding record_event
also_record-runs none id rows = refl
also_record-runs (some name) id rows = refl

pub events_of-runs :
    (t : Status) (id : String) (job : Job) (rows : Rows)
    → (events_of t id job rows).runs ≡ rows.runs
unfolding record_event
events_of-runs queued id job rows = refl
events_of-runs running id job rows = refl
events_of-runs broken id job rows = refl
events_of-runs done id job rows =
    also_record-runs (decision_event job.decision) id (record_event "analysis_completed" id rows)

pub settle-runs :
    (now : ℕ) (id : String) (run_id : Option String) (r : Response) (job : Job) (rows : Rows)
    (j : String)
    → is_run run_id j ≡ false
    → lookup j (settle now id run_id r job rows).runs ≡ lookup j rows.runs
unfolding terminal_events
settle-runs now id run_id r job rows j h =
    let job' = closed now r job in
    mark_ready-runs run_id job' (terminal_events id job' (put_job id job' rows)) j h
    ∙ ap (lookup j) (events_of-runs job'.status id job' (put_job id job' rows))

pub some-injective : {a b : Job} → some a ≡ some b → a ≡ b
some-injective h = cc

pub closed-pending :
    (now : ℕ) (r : Response) (job : Job) → is_pending (closed now r job).status ≡ false
unfolding closed
closed-pending now (failed e) job = refl
closed-pending now (succeeded r) job = refl

module _ (now : ℕ) (id : String) (run_id : Option String) where
  unsettled-Commits :
      (r : Response) (s : Manager)
      → pends (lookup id s.rows.jobs) ≡ false
      → Commits now id run_id r s gone s
  unsettled-Commits r s e = record {
    over = e;
    reported = (e, refl);
    stored = λ job k p. absurd (let q : pends (some job) ≡ false = ap pends (sym k) ∙ e in cc);
    nothing = λ _. refl;
    others = λ j _. refl;
    runs = λ j _. refl;
    flags = refl;
  }

  settle-Commits :
      (r : Response) (job : Job) (s : Manager)
      → lookup id s.rows.jobs ≡ some job
      → is_pending job.status ≡ true
      → Commits now id run_id r s
          (ended (closed now r job).status)
          (record s { rows = settle now id run_id r job s.rows })
  settle-Commits r job s e p =
      let at : (j : String)
          → lookup j (settle now id run_id r job s.rows).jobs
            ≡ (if id == j then some (closed now r job) else lookup j s.rows.jobs) =
        λ j.
          ap (lookup j) (settle-jobs now id run_id r job s.rows)
          ∙ lookup-insert id j (closed now r job) s.rows.jobs in
      let here : lookup id (settle now id run_id r job s.rows).jobs ≡ some (closed now r job) =
        at id ∙ rw (==_refl id) refl in
      record {
        over = rw here (closed-pending now r job);
        reported = (ap pends e ∙ p, ap status_of here);
        stored = λ old k q. here ∙ ap (λ o. some (closed now r o)) (some-injective (sym e ∙ k));
        nothing = λ k. cc;
        others = λ j k. at j ∙ rw k refl;
        runs = λ j k. settle-runs now id run_id r job s.rows j k;
        flags = refl;
      }

  settled-Commits :
      (r : Response) (o : Option Job) (s : Manager)
      → lookup id s.rows.jobs ≡ o
      → let q = settled now id run_id r o s.rows in
        Commits now id run_id r s q.0 (record s { rows = q.1 })
  settled-Commits r none s e = unsettled-Commits r s (ap pends e)
  settled-Commits r (some job) s e = elim (Bool-cases (is_pending job.status)) [
    | inl p ↦ rw p (settle-Commits r job s e p)
    | inr p ↦ rw p (unsettled-Commits r s (ap pends e ∙ p))
  ]

  response_of-failed :
      (faults : List Fault) → response_of faults (failed "worker_failed") ≡ failed "worker_failed"
  response_of-failed [] = refl
  response_of-failed (none_raised ∷ faults) = refl
  response_of-failed (lease_lost ∷ faults) = refl
  response_of-failed (raised ∷ faults) = refl

  pub finish_tries-Finishes :
      (faults : List Fault) (r : Response) (s : Manager)
      → Finishes now id run_id
          (response_of faults r)
          s
          (verdict faults)
          (finish_tries now faults id run_id r s)
  unfolding finish_tries finish_once
  finish_tries-Finishes [] r s = refl
  finish_tries-Finishes (none_raised ∷ faults) r s =
      settled-Commits r (lookup id s.rows.jobs) s refl
  finish_tries-Finishes (lease_lost ∷ faults) r s = refl
  finish_tries-Finishes (raised ∷ faults) r s =
      subst
        (λ x.
          Finishes now id run_id x s (verdict faults)
            (finish_tries now faults id run_id (failed "worker_failed") s))
        (response_of-failed faults) (finish_tries-Finishes faults (failed "worker_failed") s)
