-- ===== src/Processor/Settling.antt =====
-- Where Process leaves a job, over ports whose writes succeed, and the store of fake.go as such ports.
use goqueue.Base.{
  leb, if◌then◌else◌, Bool-cases, Option-cases, is_none, Text, text_eq_refl, ◌≡◌, refl, sym, inl,
  inr, true, Option, none, some, List, [], arith,
}
use goqueue.Errors.{GoError, Result, ok, err}
use goqueue.Values.States.{JobState, active, retrying, completed, dead, can_transition_to}
use goqueue.Retry.{Duration, Floats, allows_retry}
use goqueue.Job.{Time, Job}
use goqueue.Job.Lifecycle.{guard, close_current_attempt, complete, fail, kill}
use goqueue.Store.Defs.{Store, lookup_job, take_failure}
use goqueue.Store.Repo.{save}
use goqueue.Store.Broker.{store_complete, store_retry, store_kill}
use goqueue.Store.Maps.{lookup-put}
use goqueue.Processor.{Registry, lookup_handler, resolve, JobPort}
use goqueue.Processor.Service.{
  Event, World, Readings, retention, run_handler, Step, after_write, process_complete,
  settle_failure, process_fail, process_kill, record_outcome, execute, process,
}

-- The state in which an execution leaves an active job: dead without a handler for its task type;
-- completed where the handler gives no error; otherwise retrying while the policy has a retry left, and
-- dead when it has none.
abbrev pub after_handler : Option GoError → Job → JobState
after_handler none job = completed
after_handler (some cause) job =
    if leb job.attempts_made job.retry_policy.max_retries then retrying else dead

unfoldable pub verdict : (Duration → Text) → Registry → Job → JobState
verdict show handlers job = elim (lookup_handler job.task_type handlers) [
  | none ↦ dead
  | some h ↦ after_handler (run_handler show h job) job
]

module _ {S : Type 0} (port : JobPort S) where
  -- The step succeeds and leaves the job in the state, with as many attempts as before.
  abbrev pub LeftIn : JobState → Job → Step port → Type 0
  LeftIn state job step =
      (step.0 ≡ ok tt)
      × ((k : Job) × (port.stored job.id step.1.store ≡ some k)
          × (k.state ≡ state)
          × (k.attempts_made ≡ job.attempts_made))

  after_write-LeftIn :
      (job k : Job) (state : JobState) (r : Result (Unit {0}) × S) (before afterwards : List Event)
      → (r.0 ≡ ok tt) × (port.stored k.id r.1 ≡ some k)
      → k.id ≡ job.id
      → k.state ≡ state
      → k.attempts_made ≡ job.attempts_made
      → LeftIn state job (after_write port r before afterwards)
  after_write-LeftIn job k state (ok u, s) before afterwards (h, f) id st made =
      (refl, (k, rw (sym id) f, st, made))
  after_write-LeftIn job k state (err e, s) before afterwards (h, f) id st made =
      absurd (ground arith)

  process_complete-LeftIn :
      (retain : Duration) (now : Time) (job : Job) (w : World S)
      → job.state ≡ active
      → port.works w.store ≡ true
      → LeftIn completed job (process_complete port retain now job w)
  unfolding process_complete complete guard can_transition_to
  process_complete-LeftIn retain now job w act works =
      let done : Job = record job {
        state = completed;
        completed_at = some now;
        lease_expiry = none;
        last_error = [];
        attempts = close_current_attempt now [] job.attempts;
      } in
      rw act (
        after_write-LeftIn job done completed _ _ _
          (port.complete_law done (retention retain) w.store works) refl refl refl)

  process_kill-LeftIn :
      (now : Time) (job : Job) (cause : GoError) (w : World S)
      → job.state ≡ active
      → port.works w.store ≡ true
      → LeftIn dead job (process_kill port now job cause w)
  unfolding process_kill kill guard can_transition_to
  process_kill-LeftIn now job cause w act works =
      rw act (after_write-LeftIn job _ dead _ _ _ (port.kill_law _ w.store works) refl refl refl)

  process_fail-LeftIn :
      (F : Floats) (now : Time) (job : Job) (cause : GoError) (w : World S)
      → job.state ≡ active
      → port.works w.store ≡ true
      → LeftIn (after_handler (some cause) job) job (process_fail port F now job cause w)
  unfolding process_fail settle_failure fail allows_retry
  process_fail-LeftIn F now job cause w act works =
      elim (Bool-cases (leb job.attempts_made job.retry_policy.max_retries)) [
        | inl e ↦
            rw (act, e)
              (after_write-LeftIn job _ retrying _ _ _ (port.retry_law _ _ w.store works) refl refl
                refl)
        | inr e ↦
            rw (act, e)
              (after_write-LeftIn job _ dead _ _ _ (port.kill_law _ w.store works) refl refl refl)
      ]

  record_outcome-LeftIn :
      (F : Floats) (retain : Duration) (at : Readings) (job : Job) (outcome : Option GoError)
      → (w : World S) → job.state ≡ active
      → port.works w.store ≡ true
      → LeftIn (after_handler outcome job) job (record_outcome port F retain at job outcome w)
  unfolding record_outcome
  record_outcome-LeftIn F retain at job none w act works =
      process_complete-LeftIn retain at.now job _ act works
  record_outcome-LeftIn F retain at job (some cause) w act works =
      process_fail-LeftIn F at.now job cause _ act works

  execute-LeftIn :
      (F : Floats) (show : Duration → Text) (handlers : Registry) (retain : Duration)
      → (at : Readings) (job : Job) (w : World S) → job.state ≡ active
      → port.works w.store ≡ true
      → LeftIn (verdict show handlers job) job (execute port F show handlers retain at job w)
  unfolding execute verdict resolve
  execute-LeftIn F show handlers retain at job w act works =
      elim (Option-cases (lookup_handler job.task_type handlers)) [
        | inl e ↦ rw (e, execute, verdict, resolve) (process_kill-LeftIn at.now job _ w act works)
        | inr (h, e) ↦
            rw (e, execute, verdict, resolve)
              (record_outcome-LeftIn F retain at job (run_handler show h job) w act works)
      ]

  -- Over ports whose writes succeed, Process of an active job returns no error whatever its handler
  -- does (an error, a deadline that passes, a panic, no handler at all), and leaves the job stored in
  -- the state that the verdict says, with as many attempts as before.
  pub process-LeftIn :
      (F : Floats) (show : Duration → Text) (handlers : Registry) (retain : Duration)
      → (at : Readings) (job : Job) (w : World S) → job.state ≡ active
      → port.works w.store ≡ true
      → LeftIn (verdict show handlers job) job (process port F show handlers retain at job w)
  unfolding process
  process-LeftIn F show handlers retain at job w act works =
      let (saved, still, found) = port.save_law job w.store works in
      rw (saved, process)
        (execute-LeftIn F show handlers retain at job
          (record w { store = (port.save_job job w.store).1 }) act still)

-- A save into a store without an injected failure.
pub save-stored :
    (j : Job) (s : Store)
    → is_none s.fail_next ≡ true
    → ((save j s).0 ≡ ok tt)
      × (is_none (save j s).1.fail_next ≡ true)
      × (lookup_job j.id (save j s).1.jobs ≡ some j)
unfolding save take_failure
save-stored j s quiet = elim (Option-cases s.fail_next) [
  | inl e ↦ rw e (refl, refl, ground (arith, lookup-put j j.id s.jobs, text_eq_refl j.id))
  | inr (f, e) ↦ absurd (ground arith)
]

pub complete-stored :
    (j : Job) (d : Duration) (s : Store)
    → is_none s.fail_next ≡ true
    → ((store_complete j d s).0 ≡ ok tt) × (lookup_job j.id (store_complete j d s).1.jobs ≡ some j)
unfolding store_complete
complete-stored j d s h = let (a, b, c) = save-stored j s h in (a, c)

pub retry-stored :
    (j : Job) (t : Time) (s : Store)
    → is_none s.fail_next ≡ true
    → ((store_retry j t s).0 ≡ ok tt) × (lookup_job j.id (store_retry j t s).1.jobs ≡ some j)
unfolding store_retry
retry-stored j t s h = let (a, b, c) = save-stored j s h in (a, c)

pub kill-stored :
    (j : Job) (s : Store)
    → is_none s.fail_next ≡ true
    → ((store_kill j s).0 ≡ ok tt) × (lookup_job j.id (store_kill j s).1.jobs ≡ some j)
unfolding store_kill
kill-stored j s h = let (a, b, c) = save-stored j s h in (a, c)

-- The in-memory store meets the laws of the ports.
abbrev pub store_port : JobPort Store
store_port = record {
  save_job = save;
  complete_job = store_complete;
  retry_job = store_retry;
  kill_job = store_kill;
  stored = λ id s. lookup_job id s.jobs;
  works = λ s. is_none s.fail_next;
  save_law = save-stored;
  complete_law = complete-stored;
  retry_law = retry-stored;
  kill_law = kill-stored;
}
