-- ===== src/Job/Initial.antt =====
-- The state in which `NewJob` returns a job, and when it returns one.
use goqueue.Base.{
  ◌==◌, if◌then◌else◌, length, pos, ◌≤ℤ◌, ◌<ℤ◌, eq_ℤ_iff, bytes, is_empty, ◌≤◌, ◌≡◌, ◌≢◌, ◌↔◌, inl,
  inr, false, none, [], arith,
}
use goqueue.Values.Names.{default_queue_name}
use goqueue.Values.Priorities.{priority_normal}
use goqueue.Errors.{GoError, ok, err, Result-cases}
use goqueue.Values.States.{scheduled, pending}
use goqueue.Retry.{backoff_name, RetryPolicy, strategy_name}
use goqueue.Job.{zero_time, Job}
use goqueue.Job.Creation.{max_payload_bytes, max_timeout, NewJobParams, new_job}

-- The parameters that `new_job` accepts.
pub record IsAcceptable (p : NewJobParams) : Type 0 where
  pub has_id : is_empty p.id ≡ false
  pub has_type : is_empty p.task_type ≡ false
  pub small_payload : length p.payload ≤ max_payload_bytes
  pub timeout_nonneg : pos 0 ≤ℤ p.timeout
  pub timeout_small : p.timeout ≤ℤ max_timeout
  pub has_clock : p.now ≢ zero_time

accepted : (p : NewJobParams) → IsAcceptable p → (j : Job) × (new_job p ≡ ok j)
accepted p a = elim (Result-cases (new_job p)) [
  | inl (j, h) ↦ (j, h)
  | inr (e, h) ↦ absurd (refused e h)
]
  where
    refused : (e : GoError) → new_job p ≡ err e → ⊥
    refused e h = unfold new_job in ground (arith, eq_ℤ_iff p.now zero_time)

acceptable : (p : NewJobParams) (j : Job) → new_job p ≡ ok j → IsAcceptable p
unfolding new_job
acceptable p j h = ground (arith, eq_ℤ_iff p.now zero_time)

-- `new_job` returns a job exactly where the id and the task type are given, the payload has at most
-- 256 KiB, the timeout lies between 0 and 24 hours, and the creation time is not the zero time.
pub new_job-ok_iff : (p : NewJobParams) → ((j : Job) × (new_job p ≡ ok j)) ↔ IsAcceptable p
new_job-ok_iff p = (λ (j, h). acceptable p j h, accepted p)

-- A new job is due at the requested time where that lies behind its creation, and is then scheduled;
-- otherwise it is pending and due at its creation. Its timeout is positive and at most 24 hours. It is in
-- the queue and has the priority that were asked for, and those of the defaults where none was; it has
-- no execution behind it and no lease.
pub record IsInitial (p : NewJobParams) (j : Job) : Type 0 where
  pub scheduled_later :
      p.now <ℤ p.process_at
      → p.process_at ≢ zero_time
      → (j.state ≡ scheduled) × (j.process_at ≡ p.process_at)
  pub pending_now : p.process_at ≤ℤ p.now → (j.state ≡ pending) × (j.process_at ≡ p.now)
  pub created_now : j.created_at ≡ p.now
  pub timeout_positive : pos 0 <ℤ j.timeout
  pub timeout_within : j.timeout ≤ℤ max_timeout
  pub queued : j.queue ≡ (if is_empty p.queue then default_queue_name else p.queue)
  pub has_queue : is_empty j.queue ≡ false
  pub prioritised : j.priority ≡ (if p.priority == 0 then priority_normal else p.priority)
  pub unused : (j.attempts_made ≡ 0) × (j.attempts ≡ [])
  pub unleased : (j.lease_expiry ≡ none) × (j.worker_id ≡ [])

-- Every job that `new_job` returns is in the initial state that IsInitial describes.
pub new_job-IsInitial : (p : NewJobParams) {j : Job} → new_job p ≡ ok j → IsInitial p j
unfolding new_job default_queue_name bytes
new_job-IsInitial p h = ground (arith, eq_ℤ_iff p.process_at zero_time)

named_strategy : (p : RetryPolicy) → is_empty (strategy_name p) ≡ false
unfolding strategy_name backoff_name bytes
named_strategy p = ground arith

-- `new_job` keeps the retry policy that it is given, also the zero value: the default policy is never
-- put in its place.
pub new_job_keeps_policy :
    (p : NewJobParams) {j : Job} → new_job p ≡ ok j → j.retry_policy ≡ p.retry_policy
unfolding new_job
new_job_keeps_policy p h = ground (arith, named_strategy p.retry_policy)
