-- ===== src/Job/Lifecycle.antt =====
-- The lifecycle transitions of job.go.
use goqueue.Base.{
  if◌then◌else◌, ◌+ℤ◌, wrap64, u32, Text, bytes, is_empty, ℕ, ◌+◌, Bool, true, false, not, Option,
  none, some, List, [], ◌∷◌, ◌++◌,
}
use goqueue.Errors.{GoError, error_string, invalid, Result, ok, ◌>>◌, reject_if}
use goqueue.Values.Codes.{illegal_state_transition, job_not_retryable}
use goqueue.Values.States.{
  JobState, pending, active, retrying, completed, dead, can_transition_to, state_eq, state_string,
}
use goqueue.Retry.{Duration, Floats, allows_retry, next_delay}
use goqueue.Job.{Time, zero_time, time_is_zero, Attempt, Job}

-- `guard`
unfoldable pub guard : Job → JobState → Result (Unit {0})
guard j target = reject_if (not (can_transition_to j.state target)) (
    invalid illegal_state_transition (
      bytes "cannot transition from "
      ++ state_string j.state
      ++ bytes " to "
      ++ state_string target))

-- `closeCurrentAttempt`: the last attempt is stamped, if it is open.
unfoldable pub close_current_attempt : Time → Text → List Attempt → List Attempt
close_current_attempt finished_at message [] = []
close_current_attempt finished_at message (a ∷ []) =
    (if time_is_zero a.finished_at
      then record a { finished_at = finished_at; error = message }
      else a)
    ∷ []
close_current_attempt finished_at message (a ∷ b ∷ rest) =
    a ∷ close_current_attempt finished_at message (b ∷ rest)

unfoldable pub promote : Job → Time → Result Job
promote j now = do
  guard j pending
  ok (record j { state = pending; process_at = now; lease_expiry = none })

unfoldable pub lease : Job → Text → Time → Duration → Result Job
lease j worker now grace = do
  guard j active
  reject_if (is_empty worker)
      (invalid illegal_state_transition (bytes "worker id is required to lease a job"))
  let expiry = now +ℤ wrap64 (j.timeout +ℤ grace)
  let made = u32 (j.attempts_made + 1)
  let opened : Attempt = record {
    number = made;
    started_at = now;
    finished_at = zero_time;
    error = [];
    attempt_worker = worker;
  }
  ok (record j {
    state = active;
    worker_id = worker;
    lease_expiry = some expiry;
    attempts_made = made;
    attempts = j.attempts ++ opened ∷ [];
  })

unfoldable pub complete : Job → Time → Result Job
complete j now = do
  guard j completed
  ok (record j {
    state = completed;
    completed_at = some now;
    lease_expiry = none;
    last_error = [];
    attempts = close_current_attempt now [] j.attempts;
  })

pub record FailureOutcome : Type 0 where
  pub should_retry : Bool
  pub retry_at : Time
  pub attempt : ℕ

-- The message of an error that may be nil.
unfoldable pub message_of : Option GoError → Text
message_of none = []
message_of (some cause) = error_string cause

-- The part of `Fail` behind its guard.
fail_active : Floats → Job → Text → Time → FailureOutcome × Job
fail_active F j message now =
    let closed = record j {
      last_error = message;
      attempts = close_current_attempt now message j.attempts;
      lease_expiry = none;
    } in
    if not (allows_retry j.retry_policy j.attempts_made)
    then (
      record { should_retry = false; retry_at = zero_time; attempt = j.attempts_made },
      record closed { state = dead; died_at = some now },
    )
    else (let retry_at = now +ℤ next_delay F j.retry_policy j.attempts_made in
        (
          record { should_retry = true; retry_at = retry_at; attempt = j.attempts_made },
          record closed { state = retrying; process_at = retry_at },
        ))

unfoldable pub fail : Floats → Job → Option GoError → Time → Result (FailureOutcome × Job)
unfolding fail_active
fail F j cause now = do
  reject_if (not (state_eq j.state active)) (
      invalid illegal_state_transition
        (bytes "only an active job can fail, current state: " ++ state_string j.state))
  ok (fail_active F j (message_of cause) now)

unfoldable pub kill : Job → Text → Time → Result Job
kill j reason now = do
  guard j dead
  let message = if is_empty reason then j.last_error else reason
  ok (record j {
    state = dead;
    died_at = some now;
    lease_expiry = none;
    last_error = message;
    attempts = close_current_attempt now message j.attempts;
  })

unfoldable pub requeue : Job → Time → Result Job
requeue j now = do
  reject_if (not (state_eq j.state dead)) (
      invalid job_not_retryable
        (bytes "only a dead job can be requeued, current state: " ++ state_string j.state))
  ok (record j {
    state = pending;
    process_at = now;
    attempts_made = 0;
    died_at = none;
    lease_expiry = none;
    worker_id = [];
  })

unfoldable pub lease_expired_message : Text
lease_expired_message = bytes "lease expired: worker did not report completion"

unfoldable pub reclaim_expired_lease : Job → Time → Result Job
reclaim_expired_lease j now = do
  reject_if (not (state_eq j.state active)) (
      invalid illegal_state_transition
        (bytes "only an active job can be reclaimed, current state: " ++ state_string j.state))
  ok (record j {
    attempts = close_current_attempt now lease_expired_message j.attempts;
    last_error = lease_expired_message;
    state = pending;
    process_at = now;
    lease_expiry = none;
    worker_id = [];
  })
