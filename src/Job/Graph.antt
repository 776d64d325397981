-- ===== src/Job/Graph.antt =====
-- Every lifecycle method of job.go follows the graph that job_state.go declares, and refuses exactly
-- where its own rule says so.
use goqueue.Base.{Text, is_empty, ◌≡◌, Bool, true, false, ◌&&◌, ◌||◌, not, Option, arith}
use goqueue.Errors.{GoError, Result, ok, err}
use goqueue.Values.States.{JobState, pending, active, completed, dead, can_transition_to, state_eq}
use goqueue.Retry.{Duration, Floats}
use goqueue.Job.{Time, Job}
use goqueue.Job.Lifecycle.{
  guard, promote, lease, complete, FailureOutcome, fail, kill, requeue, reclaim_expired_lease,
}

-- A call of one of the seven methods, with its arguments.
pub data Call : Type 0 where
  promote_at : Time → Call
  lease_to : Text → Time → Duration → Call
  complete_at : Time → Call
  fail_with : Option GoError → Time → Call
  kill_for : Text → Time → Call
  requeue_at : Time → Call
  reclaim_at : Time → Call

abbrev second_of : Result (FailureOutcome × Job) → Result Job
second_of (ok (outcome, j)) = ok j
second_of (err e) = err e

unfoldable pub apply : Floats → Job → Call → Result Job
unfolding promote lease complete fail kill requeue reclaim_expired_lease guard
apply F j (promote_at now) = promote j now
apply F j (lease_to worker now grace) = lease j worker now grace
apply F j (complete_at now) = complete j now
apply F j (fail_with cause now) = second_of (fail F j cause now)
apply F j (kill_for reason now) = kill j reason now
apply F j (requeue_at now) = requeue j now
apply F j (reclaim_at now) = reclaim_expired_lease j now

-- A call that succeeds moves the job along an edge of the lifecycle graph.
pub apply-can_transition_to :
    (F : Floats) (j : Job) (c : Call) {k : Job}
    → apply F j c ≡ ok k
    → can_transition_to j.state k.state ≡ true
unfolding apply can_transition_to
apply-can_transition_to F j c h = ground arith

-- Which calls a job in each state accepts; only a lease looks at more than the state.
abbrev accepts : JobState → Call → Bool
accepts s (promote_at now) = not (state_eq s completed || state_eq s pending)
accepts s (lease_to worker now grace) = state_eq s pending && not (is_empty worker)
accepts s (complete_at now) = state_eq s active
accepts s (fail_with cause now) = state_eq s active
accepts s (kill_for reason now) = not (state_eq s completed || state_eq s dead)
accepts s (requeue_at now) = state_eq s dead
accepts s (reclaim_at now) = state_eq s active

abbrev pub is_ok : Result Job → Bool
is_ok (ok j) = true
is_ok (err e) = false

-- A call succeeds exactly where `accepts` says so: promotion from any state but pending and completed,
-- a lease of a pending job to a named worker, completion, failure and reclaim of an active job, a kill
-- of a job that is neither completed nor dead, a requeue of a dead job.
pub apply-accepts : (F : Floats) (j : Job) (c : Call) → is_ok (apply F j c) ≡ accepts j.state c
unfolding apply can_transition_to
apply-accepts F j (promote_at now) = ground arith
apply-accepts F j (lease_to worker now grace) = ground arith
apply-accepts F j (complete_at now) = ground arith
apply-accepts F j (fail_with cause now) = ground arith
apply-accepts F j (kill_for reason now) = ground arith
apply-accepts F j (requeue_at now) = ground arith
apply-accepts F j (reclaim_at now) = ground arith

-- What identifies a job and says how to run it.
pub record SameJob (j k : Job) : Type 0 where
  pub same_id : k.id ≡ j.id
  pub same_queue : k.queue ≡ j.queue
  pub same_task_type : k.task_type ≡ j.task_type
  pub same_payload : k.payload ≡ j.payload
  pub same_priority : k.priority ≡ j.priority
  pub same_policy : k.retry_policy ≡ j.retry_policy
  pub same_key : k.idempotency_key ≡ j.idempotency_key
  pub same_timeout : k.timeout ≡ j.timeout
  pub same_creation : k.created_at ≡ j.created_at

-- No call changes what identifies a job: its id, queue, task type, payload, priority, retry policy,
-- idempotency key, timeout and creation time.
pub apply-SameJob : (F : Floats) (j : Job) (c : Call) {k : Job} → apply F j c ≡ ok k → SameJob j k
unfolding apply
apply-SameJob F j (promote_at now) h = ground arith
apply-SameJob F j (lease_to worker now grace) h = ground arith
apply-SameJob F j (complete_at now) h = ground arith
apply-SameJob F j (fail_with cause now) h = ground arith
apply-SameJob F j (kill_for reason now) h = ground arith
apply-SameJob F j (requeue_at now) h = ground arith
apply-SameJob F j (reclaim_at now) h = ground arith
