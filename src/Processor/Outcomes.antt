-- ===== src/Processor/Outcomes.antt =====
-- What Process records: one outcome for each job that it settles, none for one that it could not.
use goqueue.Base.{
  Bool-cases, Option-cases, count_if, count_if-append, ◌-ℤ◌, Text, ℕ, ◌+◌, ◌≡◌, refl, inl, inr,
  Bool, true, false, Option, some, List, [], ◌∷◌, ◌++◌, arith,
}
use goqueue.Errors.{GoError, error_string, Result, ok, err, Result-cases}
use goqueue.Retry.{Duration, Floats}
use goqueue.Job.{Time, Job}
use goqueue.Job.Lifecycle.{complete, FailureOutcome, fail, kill}
use goqueue.Processor.{Registry, resolve, JobPort}
use goqueue.Processor.Service.{
  outcome_success, Event, job_processed, job_failed, job_retried, job_took, World, Readings,
  failure_reason, retention, run_handler, Step, after_write, process_complete, settle_failure,
  process_fail, process_kill, record_outcome, execute, process,
}

abbrev pub is_outcome : Event → Bool
is_outcome (job_processed queue task_type outcome) = true
is_outcome (job_failed queue task_type reason) = false
is_outcome (job_retried queue task_type) = false
is_outcome (job_took queue task_type duration) = false

-- The outcomes that the metrics have counted.
abbrev pub outcomes : List Event → ℕ
outcomes events = count_if is_outcome events

-- What a step adds to the outcomes.
abbrev pub settled : Result (Unit {0}) → ℕ
settled (ok u) = 1
settled (err e) = 0

module _ {S : Type 0} (port : JobPort S) where
  abbrev Counted : World S → Step port → Type 0
  Counted w step = outcomes step.1.recorded ≡ outcomes w.recorded + settled step.0

  after_write-outcomes :
      (r : Result (Unit {0}) × S) (n : ℕ) (before afterwards : List Event)
      → outcomes before ≡ n
      → outcomes afterwards ≡ 1
      → outcomes (after_write port r before afterwards).1.recorded
        ≡ n + settled (after_write port r before afterwards).0
  after_write-outcomes (err e, s) n before afterwards h k = omega (arith, h)
  after_write-outcomes (ok u, s) n before afterwards h k =
      omega (arith, count_if-append is_outcome before afterwards, h, k)

  process_complete-outcomes :
      (retain : Duration) (now : Time) (job : Job) (w : World S)
      → Counted w (process_complete port retain now job w)
  unfolding process_complete
  process_complete-outcomes retain now job w = elim (Result-cases (complete job now)) [
    | inl (done, e) ↦
        rw (e, process_complete)
          (after_write-outcomes (port.complete_job done (retention retain) w.store)
            (outcomes w.recorded) w.recorded
            (job_processed done.queue done.task_type outcome_success ∷ []) refl refl)
    | inr (e, h) ↦ rw (h, process_complete) (omega arith)
  ]

  settle_failure-outcomes :
      (outcome : FailureOutcome) (job : Job) (cause : GoError) (w : World S)
      → Counted w (settle_failure port outcome job cause w)
  unfolding settle_failure
  settle_failure-outcomes outcome job cause w =
      let measured = w.recorded ++ job_failed job.queue job.task_type (failure_reason cause) ∷ [] in
      let same : outcomes measured ≡ outcomes w.recorded = omega (
        arith,
        count_if-append is_outcome w.recorded
            (job_failed job.queue job.task_type (failure_reason cause) ∷ []),
      ) in
      elim (Bool-cases outcome.should_retry) [
        | inl e ↦ rw e (
            after_write-outcomes (port.retry_job job outcome.retry_at w.store) (outcomes w.recorded)
              measured _ same refl)
        | inr e ↦ rw e (
            after_write-outcomes (port.kill_job job w.store) (outcomes w.recorded) measured _ same
              refl)
      ]

  process_fail-outcomes :
      (F : Floats) (now : Time) (job : Job) (cause : GoError) (w : World S)
      → Counted w (process_fail port F now job cause w)
  unfolding process_fail
  process_fail-outcomes F now job cause w = elim (Result-cases (fail F job (some cause) now)) [
    | inl ((o, failed), e) ↦ rw (e, process_fail) (settle_failure-outcomes o failed cause w)
    | inr (e, h) ↦ rw (h, process_fail) (omega arith)
  ]

  process_kill-outcomes :
      (now : Time) (job : Job) (cause : GoError) (w : World S)
      → Counted w (process_kill port now job cause w)
  unfolding process_kill
  process_kill-outcomes now job cause w = elim (Result-cases (kill job (error_string cause) now)) [
    | inl (killed, e) ↦
        rw (e, process_kill)
          (after_write-outcomes (port.kill_job killed w.store) (outcomes w.recorded) w.recorded _
            refl refl)
    | inr (e, h) ↦ rw (h, process_kill) (omega arith)
  ]

  record_outcome-outcomes :
      (F : Floats) (retain : Duration) (at : Readings) (job : Job) (outcome : Option GoError)
      → (w : World S) → Counted w (record_outcome port F retain at job outcome w)
  unfolding record_outcome
  record_outcome-outcomes F retain at job outcome w =
      let took = job_took job.queue job.task_type (at.ended -ℤ at.started) ∷ [] in
      let timed : World S = record w { recorded = w.recorded ++ took } in
      let same : outcomes timed.recorded ≡ outcomes w.recorded =
        omega (arith, count_if-append is_outcome w.recorded took) in
      elim (Option-cases outcome) [
        | inl e ↦ rw e (omega (arith, same, process_complete-outcomes retain at.now job timed))
        | inr (cause, e) ↦
            rw e (omega (arith, same, process_fail-outcomes F at.now job cause timed))
      ]

  execute-outcomes :
      (F : Floats) (show : Duration → Text) (handlers : Registry) (retain : Duration)
      → (at : Readings) (job : Job) (w : World S)
      → Counted w (execute port F show handlers retain at job w)
  unfolding execute
  execute-outcomes F show handlers retain at job w =
      elim (Result-cases (resolve job.task_type handlers)) [
        | inl (h, e) ↦
            rw (e, execute) (record_outcome-outcomes F retain at job (run_handler show h job) w)
        | inr (e, h) ↦ rw (h, execute) (process_kill-outcomes at.now job e w)
      ]

  -- Whatever the ports, the handlers and the job: a call of Process that returns no error adds one
  -- outcome to the metrics, and one that returns an error adds none.
  pub process-outcomes :
      (F : Floats) (show : Duration → Text) (handlers : Registry) (retain : Duration)
      → (at : Readings) (job : Job) (w : World S)
      → outcomes (process port F show handlers retain at job w).1.recorded
        ≡ outcomes w.recorded + settled (process port F show handlers retain at job w).0
  unfolding process
  process-outcomes F show handlers retain at job w =
      elim (Result-cases (port.save_job job w.store).0) [
        | inl (u, e) ↦
            rw (e, process)
              (execute-outcomes F show handlers retain at job
                (record w { store = (port.save_job job w.store).1 }))
        | inr (e, h) ↦ rw (h, process) (omega arith)
      ]
