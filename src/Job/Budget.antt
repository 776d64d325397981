-- ===== src/Job/Budget.antt =====
-- How often a job is executed whose handler always fails: the retry budget of retry_policy.go as the
-- lifecycle of job.go spends it.
use goqueue.Base.{
  leb, if◌then◌else◌, Text, bytes, is_empty, ℕ, zero, suc, ◌+◌, ◌^◌, ◌<◌, ◌≡◌, refl, inl, inr, Bool,
  true, false, Option, none, [], arith,
}
use goqueue.Errors.{GoError, plain, Result, ok, err, ◌>>=◌, Result-cases}
use goqueue.Values.States.{JobState, pending, retrying, dead, can_transition_to}
use goqueue.Retry.{Duration, Floats, allows_retry}
use goqueue.Job.{Time, Job}
use goqueue.Job.Creation.{NewJobParams, new_job}
use goqueue.Job.Lifecycle.{guard, promote, lease, FailureOutcome, fail, requeue}

-- What each execution of the job is given.
pub record Run : Type 0 where
  pub worker : Text
  pub grace : Duration
  pub cause : Option GoError
  pub clock : Time

-- One execution: a lease of the pending job, and its failure.
unfoldable pub failing_execution : Floats → Run → Job → Result (FailureOutcome × Job)
unfolding lease fail guard
failing_execution F r j = do
  leased ← lease j r.worker r.clock r.grace
  fail F leased r.cause r.clock

-- Executions that fail, each but the last followed by a promotion, until the job is dead: how many
-- there were, and the job. What the executions are given may differ from one to the next. With no
-- fuel left it returns an error.
unfoldable pub exhaust : Floats → (ℕ → Run) → ℕ → Job → Result (ℕ × Job)
exhaust F runs zero j = err (plain (bytes "out of fuel"))
exhaust F runs (suc fuel) j = do
  (outcome, failed) ← failing_execution F (runs j.attempts_made) j
  let again : Result (ℕ × Job) = do
    ready ← promote failed (runs j.attempts_made).clock
    (n, last) ← exhaust F runs fuel ready
    ok (suc n, last)
  if outcome.should_retry then again else ok (1, failed)

abbrev may_retry : Job → Bool
may_retry j = leb (j.attempts_made + 1) j.retry_policy.max_retries

abbrev failed_state : Bool → JobState
failed_state true = retrying
failed_state false = dead

module _ (F : Floats) (r : Run) (j : Job) where
  -- What an execution of a pending job comes to.
  abbrev Failed : FailureOutcome → Job → Type 0
  Failed o k =
      (k.attempts_made ≡ j.attempts_made + 1)
      × (k.retry_policy ≡ j.retry_policy)
      × (o.should_retry ≡ may_retry j)
      × (k.state ≡ failed_state (may_retry j))

  execution_runs :
      j.state ≡ pending
      → is_empty r.worker ≡ false
      → (o : FailureOutcome) × (k : Job) × (failing_execution F r j ≡ ok (o, k))
  unfolding failing_execution can_transition_to
  execution_runs s named = elim (Result-cases (failing_execution F r j)) [
    | inl ((o, k), h) ↦ (o, k, h)
    | inr (e, h) ↦ absurd (ground arith)
  ]

  execution-Failed :
      {o : FailureOutcome} {k : Job}
      → j.attempts_made + 1 < 2 ^ 32
      → failing_execution F r j ≡ ok (o, k)
      → Failed o k
  unfolding failing_execution allows_retry
  execution-Failed room h = ground arith

promote-retrying :
    (k : Job) (now : Time)
    → k.state ≡ retrying
    → promote k now ≡ ok (record k { state = pending; process_at = now; lease_expiry = none })
unfolding promote guard can_transition_to
promote-retrying k now s = ground arith

-- The whole life of a failing job, by the retries that it has left.
exhaust-by_left :
    (F : Floats) (runs : ℕ → Run) (fuel left : ℕ) (j : Job)
    → ((n : ℕ) → is_empty (runs n).worker ≡ false)
    → j.state ≡ pending
    → j.retry_policy.max_retries ≡ j.attempts_made + left
    → j.retry_policy.max_retries + 1 < 2 ^ 32
    → left < fuel
    → (k : Job) × (exhaust F runs fuel j ≡ ok (left + 1, k)) × (k.state ≡ dead)
unfolding exhaust
exhaust-by_left F runs zero left j named s budget room enough = absurd (omega arith)
exhaust-by_left F runs (suc fuel) zero j named s budget room enough =
    let r = runs j.attempts_made in
    let (o, k, h) = execution_runs F r j s (named j.attempts_made) in
    let facts = execution-Failed F r j (omega arith) h in
    (k, rw h (ground (arith, facts)), ground (arith, facts))
exhaust-by_left F runs (suc fuel) (suc left) j named s budget room enough =
    let r = runs j.attempts_made in
    let (o, k, h) = execution_runs F r j s (named j.attempts_made) in
    let facts = execution-Failed F r j (omega arith) h in
    let ready = record k { state = pending; process_at = r.clock; lease_expiry = none } in
    let (l, run, gone) =
      exhaust-by_left F runs fuel left ready named refl (ground (arith, facts))
        (ground (arith, facts)) (omega arith) in
    (
      l,
      rw (h, promote-retrying k r.clock (ground (arith, facts)), run) (ground (arith, facts)),
      gone,
    )

-- A pending job that `new_job` made, with fewer than 2^32 - 1 retries allowed, is executed exactly once more than
-- its retry policy allows retries when every execution fails, and is then dead. Fuel above the number
-- of retries is enough. Each execution may have its own worker (with a name), grace, cause and time.
pub new_job-exhaust :
    (F : Floats) (runs : ℕ → Run) (fuel : ℕ) (p : NewJobParams) {j : Job}
    → new_job p ≡ ok j
    → j.state ≡ pending
    → ((n : ℕ) → is_empty (runs n).worker ≡ false)
    → j.retry_policy.max_retries + 1 < 2 ^ 32
    → j.retry_policy.max_retries < fuel
    → (k : Job) × (exhaust F runs fuel j ≡ ok (j.retry_policy.max_retries + 1, k))
      × (k.state ≡ dead)
unfolding new_job
new_job-exhaust F runs fuel p {j} h s named room enough =
    let unused : j.attempts_made ≡ 0 = ground arith in
    exhaust-by_left F runs fuel j.retry_policy.max_retries j named s (omega arith) room enough

-- After a requeue the whole budget is there again: a dead job is requeued with no attempt made.
pub requeue-exhaust :
    (F : Floats) (runs : ℕ → Run) (fuel : ℕ) (j : Job) (now : Time)
    → j.state ≡ dead
    → ((n : ℕ) → is_empty (runs n).worker ≡ false)
    → j.retry_policy.max_retries + 1 < 2 ^ 32
    → j.retry_policy.max_retries < fuel
    → (k : Job) × (l : Job) × (requeue j now ≡ ok k)
      × (exhaust F runs fuel k ≡ ok (j.retry_policy.max_retries + 1, l))
      × (l.state ≡ dead)
unfolding requeue
requeue-exhaust F runs fuel j now s named room enough =
    let k = record j {
      state = pending;
      process_at = now;
      attempts_made = 0;
      died_at = none;
      lease_expiry = none;
      worker_id = [];
    } in
    let (l, run, gone) =
      exhaust-by_left F runs fuel j.retry_policy.max_retries k named refl (omega arith) room
        enough in
    (k, l, ground arith, run, gone)
