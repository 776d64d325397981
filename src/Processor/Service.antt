-- ===== src/Processor/Service.antt =====
-- pkg/application/processor/service.go. The measurements that the service takes are the events that it
-- records; what it logs is left out. `fmt` prints the timeout, so that text is a parameter, and each
-- reading of the clock is an argument.
use goqueue.Base.{
  if◌then◌else◌, pos, ◌-ℤ◌, ltb_ℤ, Text, bytes, ◌*◌, Option, none, some, List, [], ◌∷◌, ◌++◌,
}
use goqueue.Errors.{internal, GoError, app, error_string, as_app, Result, ok, err}
use goqueue.Values.Codes.{job_timeout, handler_panic}
use goqueue.Retry.{Duration, second, Floats}
use goqueue.Job.{Time, Job}
use goqueue.Job.Lifecycle.{complete, FailureOutcome, fail, kill}
use goqueue.Processor.{JobContext, returned, panicked, Handler, Registry, resolve, JobPort}

-- pkg/domain/metrics/recorder.go
pub data Outcome : Type 0 where
  outcome_success outcome_failure outcome_dead : Outcome

pub data Event : Type 0 where
  job_processed : Text → Text → Outcome → Event
  job_failed : Text → Text → Text → Event
  job_retried : Text → Text → Event
  job_took : Text → Text → Duration → Event

-- The store behind the ports, and what was recorded.
pub record World (S : Type 0) : Type 0 where
  pub store : S
  pub recorded : List Event

-- The readings of the clock before the handler, after it, and when the outcome is recorded.
pub record Readings : Type 0 where
  pub started : Time
  pub ended : Time
  pub now : Time

-- `failureReason`
unfoldable pub failure_reason : GoError → Text
failure_reason e = elim (as_app e) [ none ↦ bytes "handler_error" | some a ↦ a.code ]

-- `NewJobProcessorService` replaces a retention that is not positive.
unfoldable pub retention : Duration → Duration
retention d = if ltb_ℤ (pos 0) d then d else pos (3600 * second)

abbrev context_of : Job → JobContext
context_of job = record {
  id = job.id;
  queue = job.queue;
  task_type = job.task_type;
  payload = job.payload;
  attempt = job.attempts_made;
  max_retries = job.retry_policy.max_retries;
}

-- `runHandler`: a panic and a deadline that has passed become errors of their own.
unfoldable pub run_handler : (Duration → Text) → Handler → Job → Option GoError
run_handler show h job = elim (h (context_of job)) [
  | panicked value ↦ some (app internal handler_panic (bytes "handler panicked: " ++ value))
  | returned e deadline ↦
      if deadline
      then some (
          app internal job_timeout
            (bytes "handler exceeded its " ++ show job.timeout ++ bytes " timeout"))
      else e
]

module _ {S : Type 0} (port : JobPort S) where
  abbrev pub Step : Type 0
  Step = Result (Unit {0}) × World S

  -- Where the write went well the events are recorded.
  abbrev pub after_write : Result (Unit {0}) × S → (before afterwards : List Event) → Step
  after_write (err e, s) before afterwards = (err e, record { store = s; recorded = before })
  after_write (ok u, s) before afterwards =
      (ok tt, record { store = s; recorded = before ++ afterwards })

  -- `complete`
  unfoldable pub process_complete : Duration → Time → Job → World S → Step
  process_complete retain now job w = elim (complete job now) [
    | err e ↦ (err e, w)
    | ok done ↦
        after_write (port.complete_job done (retention retain) w.store) w.recorded
          (job_processed done.queue done.task_type outcome_success ∷ [])
  ]

  -- The part of `fail` behind the decision of the aggregate.
  unfoldable pub settle_failure : FailureOutcome → Job → GoError → World S → Step
  settle_failure outcome job cause w =
      let measured = w.recorded ++ job_failed job.queue job.task_type (failure_reason cause) ∷ [] in
      if outcome.should_retry
      then after_write (port.retry_job job outcome.retry_at w.store) measured (
          job_retried job.queue job.task_type
          ∷ job_processed job.queue job.task_type outcome_failure
          ∷ [])
      else after_write (port.kill_job job w.store) measured
          (job_processed job.queue job.task_type outcome_dead ∷ [])

  -- `fail`
  unfoldable pub process_fail : Floats → Time → Job → GoError → World S → Step
  unfolding settle_failure
  process_fail F now job cause w = elim (fail F job (some cause) now) [
    | err e ↦ (err e, w)
    | ok (outcome, failed) ↦ settle_failure outcome failed cause w
  ]

  -- `kill`
  unfoldable pub process_kill : Time → Job → GoError → World S → Step
  process_kill now job cause w = elim (kill job (error_string cause) now) [
    | err e ↦ (err e, w)
    | ok killed ↦ after_write (port.kill_job killed w.store) w.recorded (
        job_failed killed.queue killed.task_type (failure_reason cause)
        ∷ job_processed killed.queue killed.task_type outcome_dead
        ∷ [])
  ]

  -- The part of `Process` behind the handler, which gave an error or nil.
  unfoldable pub record_outcome :
      Floats → Duration → Readings → Job → Option GoError → World S → Step
  unfolding process_complete process_fail
  record_outcome F retain at job outcome w =
      let w' : World S = record w {
        recorded = w.recorded ++ job_took job.queue job.task_type (at.ended -ℤ at.started) ∷ [];
      } in
      elim outcome [
        | none ↦ process_complete retain at.now job w'
        | some cause ↦ process_fail F at.now job cause w'
      ]

  -- The part of `Process` behind its first write.
  unfoldable pub execute :
      Floats → (Duration → Text) → Registry → Duration → Readings → Job → World S → Step
  unfolding record_outcome process_kill
  execute F show handlers retain at job w = elim (resolve job.task_type handlers) [
    | err e ↦ process_kill at.now job e w
    | ok h ↦ record_outcome F retain at job (run_handler show h job) w
  ]

  -- `Process`
  unfoldable pub process :
      Floats → (Duration → Text) → Registry → Duration → Readings → Job → World S → Step
  unfolding execute
  process F show handlers retain at job w =
      let (r, s) = port.save_job job w.store in
      elim r [
        | err e ↦ (err e, record w { store = s })
        | ok u ↦ execute F show handlers retain at job (record w { store = s })
      ]
