-- ===== src/Job/Creation.antt =====
-- `NewJob` of job.go.
use goqueue.Base.{
  ltb, ◌==◌, if◌then◌else◌, length, pos, ltb_ℤ, Text, bytes, is_empty, ℕ, ◌*◌, ◌&&◌, ◌||◌, not,
  none, [],
}
use goqueue.Errors.{invalid, Result, ok, ◌>>◌, reject_if}
use goqueue.Values.Codes.{
  invalid_job_id, invalid_task_type, invalid_payload, invalid_timeout, invalid_schedule_time,
}
use goqueue.Values.States.{scheduled, pending}
use goqueue.Values.Names.{default_queue_name}
use goqueue.Values.Priorities.{priority_normal}
use goqueue.Retry.{Duration, second, RetryPolicy, or_default, default_retry_policy, strategy_name}
use goqueue.Job.{Time, time_is_zero, after, Job}

abbrev pub max_payload_bytes : ℕ
max_payload_bytes = 262_144

abbrev pub default_timeout : Duration
default_timeout = pos (30 * second)

abbrev pub max_timeout : Duration
max_timeout = pos (86_400 * second)

pub record NewJobParams : Type 0 where
  pub id : Text
  pub queue : Text
  pub task_type : Text
  pub payload : Text
  pub priority : ℕ
  pub retry_policy : RetryPolicy
  pub idempotency_key : Text
  pub timeout : Duration
  pub process_at : Time
  pub now : Time

-- The job whose fields are the checked parameters; `later` is the test that makes it scheduled.
build_job : NewJobParams → Duration → Job
build_job p timeout =
    let later = not (time_is_zero p.process_at) && after p.process_at p.now in
    record {
      id = p.id;
      queue = if is_empty p.queue then default_queue_name else p.queue;
      task_type = p.task_type;
      payload = p.payload;
      priority = if p.priority == 0 then priority_normal else p.priority;
      state = if later then scheduled else pending;
      retry_policy =
          if is_empty (strategy_name p.retry_policy) then default_retry_policy else p.retry_policy;
      idempotency_key = p.idempotency_key;
      timeout = timeout;
      attempts_made = 0;
      attempts = [];
      last_error = [];
      created_at = p.now;
      process_at = if later then p.process_at else p.now;
      completed_at = none;
      died_at = none;
      lease_expiry = none;
      worker_id = [];
    }

unfoldable pub new_job : NewJobParams → Result Job
unfolding build_job
new_job p = do
  reject_if (is_empty p.id) (invalid invalid_job_id (bytes "job id is required"))
  reject_if (is_empty p.task_type) (invalid invalid_task_type (bytes "task type is required"))
  reject_if (ltb max_payload_bytes (length p.payload))
      (invalid invalid_payload (bytes "payload must not exceed 256KiB"))
  let timeout = or_default p.timeout default_timeout
  reject_if (ltb_ℤ timeout (pos 0) || ltb_ℤ max_timeout timeout)
      (invalid invalid_timeout (bytes "timeout must be between 1ns and 24h"))
  reject_if (time_is_zero p.now) (invalid invalid_schedule_time (bytes "creation time is required"))
  ok (build_job p timeout)
