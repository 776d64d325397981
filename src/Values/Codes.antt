-- ===== src/Values/Codes.antt =====
-- pkg/domain/job_aggregate/error/error_codes.go and pkg/domain/queue_aggregate/error/error_codes.go.
use goqueue.Base.{Text, bytes}

abbrev pub invalid_job_id : Text
invalid_job_id = bytes "invalid_job_id"

abbrev pub invalid_task_type : Text
invalid_task_type = bytes "invalid_task_type"

abbrev pub invalid_queue_name : Text
invalid_queue_name = bytes "invalid_queue_name"

abbrev pub invalid_priority : Text
invalid_priority = bytes "invalid_priority"

abbrev pub invalid_job_state : Text
invalid_job_state = bytes "invalid_job_state"

abbrev pub invalid_payload : Text
invalid_payload = bytes "invalid_payload"

abbrev pub invalid_retry_policy : Text
invalid_retry_policy = bytes "invalid_retry_policy"

abbrev pub invalid_timeout : Text
invalid_timeout = bytes "invalid_timeout"

abbrev pub invalid_schedule_time : Text
invalid_schedule_time = bytes "invalid_schedule_time"

abbrev pub invalid_idempotency_key : Text
invalid_idempotency_key = bytes "invalid_idempotency_key"

abbrev pub illegal_state_transition : Text
illegal_state_transition = bytes "illegal_state_transition"

abbrev pub job_not_found : Text
job_not_found = bytes "job_not_found"

abbrev pub duplicate_job : Text
duplicate_job = bytes "duplicate_job"

abbrev pub job_not_retryable : Text
job_not_retryable = bytes "job_not_retryable"

abbrev pub handler_not_found : Text
handler_not_found = bytes "handler_not_found"

abbrev pub job_timeout : Text
job_timeout = bytes "job_timeout"

abbrev pub handler_panic : Text
handler_panic = bytes "handler_panic"

abbrev pub invalid_queue_weight : Text
invalid_queue_weight = bytes "invalid_queue_weight"

abbrev pub queue_not_found : Text
queue_not_found = bytes "queue_not_found"

abbrev pub no_queues_configured : Text
no_queues_configured = bytes "no_queues_configured"
