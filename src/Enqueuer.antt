-- ===== src/Enqueuer.antt =====
-- pkg/application/enqueuer/service.go: from a request to a job in its queue, over the store of fake.go
-- as the broker, the repository and the idempotency store.
-- The identity that the generator gives and the reading of the clock are arguments, and so is
-- `time.Parse` for RFC 3339, from a text to an instant. What is logged is left out, and the
-- time to live of a claim, which fake.go does not use.
pub mod Rollback
pub mod Duplicates
use goqueue.Base.{
  if◌then◌else◌, ℤ, pos, ◌+ℤ◌, ◌*ℤ◌, ltb_ℤ, wrap64, Text, bytes, is_empty, ℕ, Bool, true, false,
  Option, none, some, ◌++◌,
}
use goqueue.Errors.{
  not_found, GoError, kind_of, invalid, conflict_error, Result, ok, err, ◌>>=◌, ◌>>◌,
}
use goqueue.Values.Codes.{invalid_schedule_time, duplicate_job}
use goqueue.Values.States.{scheduled, state_eq}
use goqueue.Values.Names.{new_job_id, new_queue_name, new_task_type, new_idempotency_key}
use goqueue.Values.Priorities.{parse_priority}
use goqueue.Retry.{
  Duration, second, default_max_retries, default_base_delay, default_max_delay, new_retry_policy,
}
use goqueue.Job.{Time, Job}
use goqueue.Job.Creation.{default_timeout, new_job}
use goqueue.Store.Defs.{Store, Reply}
use goqueue.Store.Repo.{find_by_id}
use goqueue.Store.Broker.{enqueue, schedule}
use goqueue.Store.Claims.{ClaimReply, claim, release}

-- pkg/contracts/job/enqueue_job.go; pointers are options.
pub record EnqueueJobReq : Type 0 where
  pub task_type : Text
  pub queue : Text
  pub payload : Text
  pub priority : Text
  pub delay_seconds : Option ℤ
  pub run_at : Option Text
  pub max_retries : Option ℕ
  pub retry_base_delay_seconds : Option ℤ
  pub retry_max_delay_seconds : Option ℤ
  pub backoff_strategy : Text
  pub timeout_seconds : Option ℤ
  pub idempotency_key : Text

-- What a request is answered with: the job, and whether an earlier request made it.
pub record Enqueued : Type 0 where
  pub job : Job
  pub deduplicated : Bool

-- What a request is handled with.
pub record Surroundings : Type 0 where
  pub parse_rfc3339 : Text → Option Time
  pub new_id : Text
  pub now : Time

-- `derefOr`
unfoldable pub deref_or : Option ℕ → ℕ → ℕ
deref_or none fallback = fallback
deref_or (some v) fallback = v

-- `time.Duration(v) * time.Second`
unfoldable pub seconds : ℤ → Duration
seconds v = wrap64 (v *ℤ pos second)

-- `secondsOr`
unfoldable pub seconds_or : Option ℤ → Duration → Duration
seconds_or none fallback = fallback
seconds_or (some v) fallback = if ltb_ℤ (pos 0) v then seconds v else fallback

unfoldable pub parse_run_at : (Text → Option Time) → Text → Result Time
parse_run_at parse_rfc3339 text = elim (parse_rfc3339 text) [
  | none ↦ err (invalid invalid_schedule_time (bytes "run_at must be a valid RFC3339 timestamp"))
  | some t ↦ ok t
]

-- The two fields that `resolveProcessAt` reads.
unfoldable pub process_at_of : (Text → Option Time) → Option ℤ → Option Text → Time → Result Time
unfolding parse_run_at seconds
process_at_of parse_rfc3339 (some d) (some r) now =
    err (invalid invalid_schedule_time (bytes "delay_seconds and run_at are mutually exclusive"))
process_at_of parse_rfc3339 (some d) none now = ok (now +ℤ seconds d)
process_at_of parse_rfc3339 none (some r) now = parse_run_at parse_rfc3339 r
process_at_of parse_rfc3339 none none now = ok now

-- `buildJob`
unfoldable pub build_from : Surroundings → EnqueueJobReq → Result Job
build_from at req = do
  task_type ← new_task_type req.task_type
  queue ← new_queue_name req.queue
  priority ← parse_priority req.priority
  key ← new_idempotency_key req.idempotency_key
  id ← new_job_id at.new_id
  process_at ← process_at_of at.parse_rfc3339 req.delay_seconds req.run_at at.now
  policy ←
      new_retry_policy (deref_or req.max_retries default_max_retries)
        (seconds_or req.retry_base_delay_seconds default_base_delay)
        (seconds_or req.retry_max_delay_seconds default_max_delay) req.backoff_strategy
  new_job (record {
    id = id;
    queue = queue;
    task_type = task_type;
    payload = req.payload;
    priority = priority;
    retry_policy = policy;
    idempotency_key = key;
    timeout = seconds_or req.timeout_seconds default_timeout;
    process_at = process_at;
    now = at.now;
  })

-- `persist`
unfoldable pub persist : Job → Store → Reply (Unit {0})
unfolding schedule enqueue
persist job s = if state_eq job.state scheduled then schedule job s else enqueue job s

abbrev key_in_use : Text → GoError
key_in_use key =
    conflict_error duplicate_job (bytes "idempotency key " ++ key ++ bytes " is already in use")

-- `resolveDuplicate`, which reads the store and leaves it as it is.
unfoldable pub resolve_duplicate : Text → Text → Store → Result Enqueued
resolve_duplicate key existing_id s =
    if is_empty existing_id then err (key_in_use key) else elim (find_by_id existing_id s) [
      | ok existing ↦ ok (record { job = existing; deduplicated = true })
      | err e ↦ elim (kind_of e) [ not_found ↦ err (key_in_use key) | _ ↦ err e ]
    ]

-- What becomes of the write of a job: where it failed the claim on its key is released.
unfoldable pub keep_or_release : Job → Reply (Unit {0}) → Reply Enqueued
unfolding release
keep_or_release job (ok u, s) = (ok (record { job = job; deduplicated = false }), s)
keep_or_release job (err e, s) =
    (err e, if is_empty job.idempotency_key then s else release job.idempotency_key s)

unfoldable pub persist_or_release : Job → Store → Reply Enqueued
unfolding persist keep_or_release
persist_or_release job s = keep_or_release job (persist job s)

-- The part of `Enqueue` behind the claim of a key.
unfoldable pub answer_claim : Job → ClaimReply → Store → Reply Enqueued
unfolding persist_or_release resolve_duplicate
answer_claim job reply s =
    if reply.claimed
    then persist_or_release job s
    else (resolve_duplicate job.idempotency_key reply.existing_id s, s)

-- The part of `Enqueue` behind `buildJob`.
unfoldable pub submit : Job → Store → Reply Enqueued
unfolding answer_claim claim
submit job s =
    if is_empty job.idempotency_key
    then persist_or_release job s
    else (let (reply, s') = claim job.idempotency_key job.id s in answer_claim job reply s')

-- `Enqueue`
unfoldable pub enqueue_request : Surroundings → EnqueueJobReq → Store → Reply Enqueued
unfolding submit build_from
enqueue_request at req s = elim (build_from at req) [ err e ↦ (err e, s) | ok job ↦ submit job s ]
