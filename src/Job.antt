-- ===== src/Job.antt =====
-- pkg/domain/job_aggregate/job.go: the Job aggregate. A time.Time is the integer of its nanoseconds
-- since Go's zero time, so that `IsZero` is a test for 0; `UTC` does not change the instant. Pointers
-- to times are options, and copies of slices are the lists themselves. A method that changes the job
-- returns the new record; every error return of job.go stands before the first assignment, so
-- with an error there is no new state. Lifecycle.antt has the transitions, Creation.antt `NewJob`.
pub mod Lifecycle
pub mod Creation
pub mod Initial
pub mod Graph
pub mod Invariant
pub mod Budget
use goqueue.Base.{
  ltb, if◌then◌else◌, ℤ, pos, ◌-ℤ◌, ltb_ℤ, eq_ℤ, Text, ℕ, ◌-◌, Bool, false, ◌||◌, not, Option, none,
  some, List,
}
use goqueue.Values.States.{JobState, active, state_eq}
use goqueue.Retry.{Duration, RetryPolicy}

abbrev pub Time : Type 0
Time = ℤ

-- The zero time.
abbrev pub zero_time : Time
zero_time = pos 0

abbrev pub time_is_zero : Time → Bool
time_is_zero t = eq_ℤ t zero_time

-- t.After(u)
abbrev pub after : Time → Time → Bool
after t u = ltb_ℤ u t

pub record Attempt : Type 0 where
  pub number : ℕ
  pub started_at : Time
  pub finished_at : Time
  pub error : Text
  pub attempt_worker : Text

-- The method `Duration` of an attempt; `Sub` saturates in Go only beyond 292 years.
unfoldable pub attempt_duration : Attempt → Duration
attempt_duration a =
    if time_is_zero a.finished_at || time_is_zero a.started_at
    then pos 0
    else a.finished_at -ℤ a.started_at

pub record Job : Type 0 where
  pub id : Text
  pub queue : Text
  pub task_type : Text
  pub payload : Text
  pub priority : ℕ
  pub state : JobState
  pub retry_policy : RetryPolicy
  pub idempotency_key : Text
  pub timeout : Duration
  pub attempts_made : ℕ
  pub attempts : List Attempt
  pub last_error : Text
  pub created_at : Time
  pub process_at : Time
  pub completed_at : Option Time
  pub died_at : Option Time
  pub lease_expiry : Option Time
  pub worker_id : Text

-- `RemainingRetries`
unfoldable pub remaining_retries : Job → ℕ
remaining_retries j =
    if ltb j.retry_policy.max_retries j.attempts_made
    then 0
    else j.retry_policy.max_retries - j.attempts_made

-- `IsLeaseExpired`
unfoldable pub is_lease_expired : Job → Time → Bool
is_lease_expired j now =
    if not (state_eq j.state active)
    then false
    else elim j.lease_expiry [ none ↦ false | some expiry ↦ after now expiry ]

-- `IsDue`
unfoldable pub is_due : Job → Time → Bool
is_due j now = not (after j.process_at now)
