-- ===== src/Job/Invariant.antt =====
-- What holds of a job over its whole life, from `NewJob` on.
use goqueue.Base.{
  if◌then◌else◌, is_some, length, length-append, eq_ℤ_iff, u32, Text, is_empty, suc, ◌+◌, ◌≤◌, ◌≡◌,
  refl, ap, ◌≢◌, ◌⊎◌, Bool, true, false, ◌&&◌, not, none, List, [], ◌∷◌, ◌++◌, arith,
}
use goqueue.Errors.{ok}
use goqueue.Values.States.{
  scheduled, pending, active, retrying, completed, dead, can_transition_to, state_eq,
}
use goqueue.Retry.{Floats}
use goqueue.Job.{Time, zero_time, time_is_zero, Attempt, Job}
use goqueue.Job.Lifecycle.{guard, close_current_attempt, promote, message_of, lease_expired_message}
use goqueue.Job.Creation.{NewJobParams, new_job}
use goqueue.Job.Graph.{
  Call, promote_at, lease_to, complete_at, fail_with, kill_for, requeue_at, reclaim_at, apply,
}

abbrev is_open : Attempt → Bool
is_open a = time_is_zero a.finished_at

-- All attempts but the last are closed, and the last is open exactly where `running` says so.
unfoldable pub trail_ok : Bool → List Attempt → Bool
trail_ok running [] = not running
trail_ok running (a ∷ []) = if running then is_open a else not (is_open a)
trail_ok running (a ∷ b ∷ rest) = not (is_open a) && trail_ok running (b ∷ rest)

pub record WellFormed (j : Job) : Type 0 where
  pub leased_iff_active : is_some j.lease_expiry ≡ state_eq j.state active
  pub stamped_iff_completed : is_some j.completed_at ≡ state_eq j.state completed
  pub stamped_iff_dead : is_some j.died_at ≡ state_eq j.state dead
  pub made_le_trail : j.attempts_made ≤ length j.attempts
  pub trail : trail_ok (state_eq j.state active) j.attempts ≡ true

trail_ok-open :
    (xs : List Attempt) (a : Attempt)
    → trail_ok false xs ≡ true
    → is_open a ≡ true
    → trail_ok true (xs ++ a ∷ []) ≡ true
unfolding trail_ok
trail_ok-open [] a h o = ground arith
trail_ok-open (x ∷ []) a h o = ground arith
trail_ok-open (x ∷ y ∷ r) a h o = ground (arith, trail_ok-open (y ∷ r) a)

pub trail_ok-close :
    (running : Bool) (now : Time) (m : Text) (xs : List Attempt)
    → now ≢ zero_time
    → trail_ok running xs ≡ true
    → trail_ok false (close_current_attempt now m xs) ≡ true
unfolding trail_ok close_current_attempt
trail_ok-close running now m [] ne h = refl
trail_ok-close running now m (x ∷ []) ne h = ground (arith, eq_ℤ_iff now zero_time)
trail_ok-close running now m (x ∷ y ∷ []) ne h =
    ground (arith, trail_ok-close running now m (y ∷ []))
trail_ok-close running now m (x ∷ y ∷ z ∷ r) ne h =
    ground (arith, trail_ok-close running now m (y ∷ z ∷ r))

pub length-close :
    (now : Time) (m : Text) (xs : List Attempt)
    → length (close_current_attempt now m xs) ≡ length xs
unfolding close_current_attempt
length-close now m [] = refl
length-close now m (x ∷ []) = refl
length-close now m (x ∷ y ∷ r) = ap suc (length-close now m (y ∷ r))

-- The calls that the program makes: the sweeps promote a job only while it is scheduled or retrying, and no
-- clock shows the zero time.
abbrev pub Admissible : Job → Call → Type 0
Admissible j (promote_at now) = (j.state ≡ scheduled) ⊎ (j.state ≡ retrying)
Admissible j (lease_to worker now grace) = Unit {0}
Admissible j (complete_at now) = now ≢ zero_time
Admissible j (fail_with cause now) = now ≢ zero_time
Admissible j (kill_for reason now) = now ≢ zero_time
Admissible j (requeue_at now) = Unit {0}
Admissible j (reclaim_at now) = now ≢ zero_time

pub new_job-WellFormed : (p : NewJobParams) {j : Job} → new_job p ≡ ok j → WellFormed j
unfolding new_job trail_ok
new_job-WellFormed p h = ground arith

-- The attempt that a lease opens.
abbrev opened_attempt : Job → Text → Time → Attempt
opened_attempt j worker now = record {
  number = u32 (j.attempts_made + 1);
  started_at = now;
  finished_at = zero_time;
  error = [];
  attempt_worker = worker;
}

-- An admissible call that succeeds keeps a job well formed.
pub apply-WellFormed :
    (F : Floats) (j : Job) (c : Call) {k : Job}
    → WellFormed j
    → Admissible j c
    → apply F j c ≡ ok k
    → WellFormed k
unfolding apply can_transition_to
apply-WellFormed F j (promote_at now) w a h = ground arith
apply-WellFormed F j (lease_to worker now grace) w a h = ground (
  arith,
  trail_ok-open j.attempts (opened_attempt j worker now),
  length-append j.attempts (opened_attempt j worker now ∷ []),
)
apply-WellFormed F j (complete_at now) w a h = ground (
  arith,
  trail_ok-close (state_eq j.state active) now [] j.attempts a,
  length-close now [] j.attempts,
)
apply-WellFormed F j (fail_with cause now) w a h = ground (
  arith,
  trail_ok-close (state_eq j.state active) now (message_of cause) j.attempts a,
  length-close now (message_of cause) j.attempts,
)
apply-WellFormed F j (kill_for reason now) w a h = ground (
  arith,
  trail_ok-close (state_eq j.state active) now (if is_empty reason then j.last_error else reason)
      j.attempts a,
  length-close now (if is_empty reason then j.last_error else reason) j.attempts,
)
apply-WellFormed F j (requeue_at now) w a h = ground arith
apply-WellFormed F j (reclaim_at now) w a h = ground (
  arith,
  trail_ok-close (state_eq j.state active) now lease_expired_message j.attempts a,
  length-close now lease_expired_message j.attempts,
)

-- The jobs that come of a job by admissible calls, in any order and number.
pub data Life (F : Floats) (j : Job) : Job → Type 1 where
  fresh : Life F j j
  called : {k l : Job} (c : Call) → Life F j k → Admissible k c → apply F k c ≡ ok l → Life F j l

Life-WellFormed : {F : Floats} {j k : Job} → WellFormed j → Life F j k → WellFormed k
Life-WellFormed w fresh = w
Life-WellFormed {F} w (called {k = k} c life a h) =
    apply-WellFormed F k c (Life-WellFormed w life) a h

-- A job that `new_job` made is well formed after any sequence of admissible calls: it holds a lease
-- exactly while it is active, a completion time exactly when it is completed, a time of death exactly
-- when it is dead, no more attempts made than its trail has, and only an active job's last attempt
-- is open.
pub new_job-Life-WellFormed :
    (F : Floats) (p : NewJobParams) {j k : Job} → new_job p ≡ ok j → Life F j k → WellFormed k
new_job-Life-WellFormed F p h life = Life-WellFormed (new_job-WellFormed p h) life

trail_ok-false : (xs : List Attempt) → trail_ok true xs ≡ true → trail_ok false xs ≡ false
unfolding trail_ok
trail_ok-false [] h = cc
trail_ok-false (x ∷ []) h = ground arith
trail_ok-false (x ∷ y ∷ r) h = ground (arith, trail_ok-false (y ∷ r))

-- `promote` also accepts a well-formed job that is active: it becomes pending with its trail of attempts
-- as it was, whose last attempt is open, so that the result is not well formed.
pub promote_active_leaves_attempt_open :
    (j : Job) (now : Time)
    → WellFormed j
    → j.state ≡ active
    → (k : Job) × (promote j now ≡ ok k)
      × (k.state ≡ pending)
      × (k.attempts ≡ j.attempts)
      × (trail_ok true k.attempts ≡ true)
      × ¬ WellFormed k
unfolding promote guard can_transition_to
promote_active_leaves_attempt_open j now w s = (
  record j { state = pending; process_at = now; lease_expiry = none },
  ground arith,
  refl,
  refl,
  ground (arith, w.trail),
  λ v. ground (arith, trail_ok-false j.attempts, v.trail),
)
