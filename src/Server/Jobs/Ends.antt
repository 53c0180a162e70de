-- ===== src/Server/Jobs/Ends.antt =====
-- How `finish` and `_run` end.
use blast_radius.Base.{
  ℕ, ◌+◌, ◌≡◌, ◌≢◌, refl, sym, subst, ap, ◌∙◌, String, Bool, true, false, Option, some, none, List,
  [], ◌∷◌, lookup, arith, Bool-cases, inl, inr, string_eq, if◌then◌else◌,
}
use blast_radius.Python.{Fields, Value}
use blast_radius.Server.Results.{Report, Response, failed, worker_response}
use blast_radius.Server.Jobs.Kinds.{Job, Manager, is_pending, is_queued}
use blast_radius.Server.Jobs.Steps.{
  finish_tries, finish, Attempts, Fault, none_raised, lease_lost, raised, Finished, gone, ended,
  lost_lease, not_persisted,
}
use blast_radius.Server.Jobs.Run.{
  begin, begin_job, pends, Outcome, failed_run, error_response, handle, after_finish, respond,
  executed, started, attempt, run,
}
use blast_radius.Server.Jobs.Finishes.{
  verdict_of, final_response, Reported, Finishes, finish_tries-Finishes,
}

module _ (now : ℕ) (parse : Fields → Option Report) (splitlines : String → List String)
    (id : String) where
  -- `finish` does as the first of its three attempts does that raises no error to be retried. Where that
  -- one commits, the analysis does not pend; if it pended, it is closed with the response, or with
  -- "worker_failed" where an attempt raised before, and its new status is returned; if not, or where it is
  -- not there, nothing at all is changed. No other analysis, no other GitHub run, slot or flag changes. A
  -- lost lease is raised on, with nothing changed. Where all three raise, nothing but the flag of failed
  -- persistence is set, and that is raised.
  pub finish_lem :
      (attempts : Attempts) (run_id : Option String) (response : Value) (s : Manager)
      → Finishes now id run_id
          (final_response attempts (worker_response parse splitlines response))
          s
          (verdict_of attempts)
          (finish now parse splitlines attempts id run_id response s)
  unfolding finish
  finish_lem (a, b, c) run_id response s =
      finish_tries-Finishes now id run_id (a ∷ b ∷ c ∷ [])
        (worker_response parse splitlines response) s

  finish_tries-slots :
      (faults : List Fault) (r : Response) (s : Manager)
      → (finish_tries now faults id none r s).1.slots ≡ s.slots
  unfolding finish_tries
  finish_tries-slots [] r s = refl
  finish_tries-slots (none_raised ∷ faults) r s = refl
  finish_tries-slots (lease_lost ∷ faults) r s = refl
  finish_tries-slots (raised ∷ faults) r s = finish_tries-slots faults (failed "worker_failed") s

  finish-slots :
      (attempts : Attempts) (response : Value) (s : Manager)
      → (finish now parse splitlines attempts id none response s).1.slots ≡ s.slots
  unfolding finish
  finish-slots (a, b, c) response s =
      finish_tries-slots (a ∷ b ∷ c ∷ []) (worker_response parse splitlines response) s

  handle-slots :
      (attempts : Attempts) (s : Manager)
      → (handle now parse splitlines attempts id s).1.slots ≡ s.slots
  unfolding handle
  handle-slots attempts s = ground (arith, finish-slots attempts (error_response "worker_failed") s)

  after_finish-slots :
      (attempts : Attempts) (f : Finished) (s : Manager)
      → (after_finish now parse splitlines attempts id (f, s)).1.slots ≡ s.slots
  unfolding after_finish
  after_finish-slots attempts gone s = refl
  after_finish-slots attempts (ended status) s = refl
  after_finish-slots attempts lost_lease s = refl
  after_finish-slots attempts not_persisted s = handle-slots attempts s

  respond-slots :
      (worker : Option Value) (first second : Attempts) (s : Manager)
      → (respond now parse splitlines worker first second id s).1.slots ≡ s.slots
  unfolding respond
  respond-slots none first second s = handle-slots second s
  respond-slots (some v) first second s =
      let r = finish now parse splitlines first id none v s in
      after_finish-slots second r.0 r.1 ∙ finish-slots first v s

  started-slots :
      (worker : Option Value) (first second : Attempts) (b : Bool) (s : Manager)
      → (started now parse splitlines worker first second id b s).1.slots ≡ s.slots
  unfolding started
  started-slots worker first second true s =
      respond-slots (executed worker s.stopping) first second s
  started-slots worker first second false s = refl

  attempt-slots :
      (fault : Fault) (worker : Option Value) (first second : Attempts) (s : Manager)
      → (attempt now parse splitlines fault worker first second id s).1.slots ≡ s.slots
  unfolding attempt
  attempt-slots none_raised worker first second s =
      started-slots worker first second (begin now id s.rows).0
        (record s { rows = (begin now id s.rows).1 })
  attempt-slots lease_lost worker first second s = refl
  attempt-slots raised worker first second s = handle-slots second s

  -- Whatever its transactions and its worker do, `_run` releases one slot.
  pub run-slots :
      (fault : Fault) (worker : Option Value) (first second : Attempts) (s : Manager)
      → (run now parse splitlines fault worker first second id s).1.slots ≡ s.slots + 1
  unfolding run
  run-slots fault worker first second s =
      ap (λ n. n + 1) (attempt-slots fault worker first second s)

  abbrev pub IsOver : Manager → Type 0
  IsOver t = pends (lookup id t.rows.jobs) ≡ false

  finish-committed :
      (attempts : Attempts) (response : Value) (s : Manager)
      → verdict_of attempts ≡ none_raised
      → Finishes now id none
          (final_response attempts (worker_response parse splitlines response))
          s
          none_raised
          (finish now parse splitlines attempts id none response s)
  finish-committed attempts response s v =
      subst
        (λ x.
          Finishes now id none (final_response attempts (worker_response parse splitlines response))
            s x (finish now parse splitlines attempts id none response s))
        v (finish_lem attempts none response s)

  handle-IsOver :
      (attempts : Attempts) (s : Manager)
      → verdict_of attempts ≡ none_raised
      → s.persistence_failed ≡ false
      → IsOver (handle now parse splitlines attempts id s).1
  unfolding handle
  handle-IsOver attempts s v p =
      let r = finish now parse splitlines attempts id none (error_response "worker_failed") s in
      subst
        (λ b.
          IsOver
            (if◌then◌else◌ {A = Outcome × Manager} b (failed_run none, s)
              (failed_run (some r.0), r.1)).1)
        (sym p) (finish-committed attempts (error_response "worker_failed") s v).over

  after_finish-IsOver :
      (attempts : Attempts) (f : Finished) (t : Manager) (before after : Option Job)
      → Reported f before after
      → IsOver t
      → IsOver (after_finish now parse splitlines attempts id (f, t)).1
  unfolding after_finish
  after_finish-IsOver attempts gone t before after h k = k
  after_finish-IsOver attempts (ended status) t before after h k = k
  after_finish-IsOver attempts lost_lease t before after h k = absurd h
  after_finish-IsOver attempts not_persisted t before after h k = absurd h

  module _ (first second : Attempts) (v : verdict_of first ≡ none_raised)
      (w : verdict_of second ≡ none_raised) where
    respond-IsOver :
        (worker : Option Value) (s : Manager)
        → s.persistence_failed ≡ false
        → IsOver (respond now parse splitlines worker first second id s).1
    unfolding respond
    respond-IsOver none s p = handle-IsOver second s w p
    respond-IsOver (some response) s p =
        let r = finish now parse splitlines first id none response s in
        let done = finish-committed first response s v in
        after_finish-IsOver second r.0 r.1 (lookup id s.rows.jobs) (lookup id r.1.rows.jobs)
          done.reported done.over

    started-IsOver :
        (worker : Option Value) (b : Bool) (s : Manager)
        → s.persistence_failed ≡ false
        → (b ≡ false → IsOver s)
        → IsOver (started now parse splitlines worker first second id b s).1
    unfolding started
    started-IsOver worker true s p h = respond-IsOver (executed worker s.stopping) s p
    started-IsOver worker false s p h = h refl

    begin_job-IsOver :
        (o : Option Job) (s : Manager)
        → lookup id s.rows.jobs ≡ o
        → ((job : Job) → o ≡ some job → is_pending job.status ≡ true → is_queued job.status ≡ true)
        → (begin_job now id o s.rows).0 ≡ false
        → pends (lookup id (begin_job now id o s.rows).1.jobs) ≡ false
    begin_job-IsOver none s e q h = ap pends e
    begin_job-IsOver (some job) s e q h = elim (Bool-cases (is_queued job.status)) [
      | inl a ↦ absurd (ground arith)
      | inr a ↦ rw a (
          ap pends e ∙ elim (Bool-cases (is_pending job.status)) [
            | inl c ↦ absurd (ground (arith, q job refl c))
            | inr c ↦ c
          ])
    ]

    -- Where the lease is not lost, each `finish` has an attempt that commits, no persistence failed
    -- before, and no other run has the analysis, `_run` leaves it ended: whatever the worker gives or
    -- raises, and also where the first transaction raises.
    pub run_ends :
        (fault : Fault) (worker : Option Value) (s : Manager)
        → fault ≢ lease_lost
        → s.persistence_failed ≡ false
        → ((job : Job)
            → lookup id s.rows.jobs ≡ some job
            → is_pending job.status ≡ true
            → is_queued job.status ≡ true)
        → IsOver (run now parse splitlines fault worker first second id s).1
    unfolding run attempt begin
    run_ends none_raised worker s l p q =
        started-IsOver worker (begin now id s.rows).0 (record s { rows = (begin now id s.rows).1 })
          p (begin_job-IsOver (lookup id s.rows.jobs) s refl q)
    run_ends lease_lost worker s l p q = absurd (l refl)
    run_ends raised worker s l p q = handle-IsOver second s w p
