-- ===== src/Redis/Documents.antt =====
-- job_model.go: the hash in which a job is kept. Encoding stands for strconv, encoding/base64 and
-- encoding/json; the error of a number that strconv refuses is never read. Times become the
-- milliseconds of the Unix epoch, which begins 62135596800 seconds after Go's zero time.
pub mod RoundTrip
use goqueue.Base.{
  if◌then◌else◌, ℤ, pos, negsuc, pos_part, neg_part, ◌+ℤ◌, ◌-ℤ◌, ◌*ℤ◌, eq_ℤ, wrap64, u32, u8, Text,
  bytes, is_empty, ℕ, ◌*◌, ◌/◌, ◌^◌, Bool, Option, none, some, List, [], ◌∷◌, map,
}
use goqueue.Errors.{
  internal, GoError, app, app_caused, not_found_error, Result, ok, err, ◌>>=◌, ◌>>◌,
}
use goqueue.Values.Codes.{job_not_found}
use goqueue.Values.States.{state_string, new_job_state}
use goqueue.Values.Priorities.{priority_normal, new_priority}
use goqueue.Values.Names.{new_job_id, new_queue_name, new_task_type, new_idempotency_key}
use goqueue.Retry.{
  Duration, default_max_retries, default_base_delay, default_max_delay, new_retry_policy,
  strategy_name,
}
use goqueue.Job.{Time, zero_time, time_is_zero, Attempt, Job}
use goqueue.Job.Creation.{default_timeout}
use goqueue.Redis.Commands.{Fields, find_field}

pub record AttemptModel : Type 0 where
  pub number : ℕ
  pub started_at_ms : ℤ
  pub finished_at_ms : ℤ
  pub error : Text
  pub worker : Text

pub record Encoding : Type 0 where
  -- strconv.FormatInt and ParseInt with base 10; FormatUint and ParseUint
  pub format_int : ℤ → Text
  pub parse_int : Text → Option ℤ
  pub format_uint : ℕ → Text
  pub parse_uint : Text → Option ℕ
  -- base64.StdEncoding
  pub encode_base64 : Text → Text
  pub decode_base64 : Text → Result Text
  -- json.Marshal and json.Unmarshal on a list of attempts
  pub marshal_attempts : List AttemptModel → Result Text
  pub unmarshal_attempts : Text → Result (List AttemptModel)
  -- utf8.ValidString
  pub valid_string : Text → Bool

-- The instant of the Unix epoch.
abbrev pub unix_epoch : ℕ
unix_epoch = 62_135_596_800 * 10 ^ 9

abbrev pub millisecond : ℕ
millisecond = 1_000_000

-- `UnixMilli`, which rounds down.
abbrev floor_div : ℤ → ℕ → ℤ
floor_div (pos n) k = pos (n / k)
floor_div (negsuc n) k = negsuc (n / k)

unfoldable pub to_millis : Time → ℤ
to_millis t = if time_is_zero t then pos 0 else floor_div (t -ℤ pos unix_epoch) millisecond

unfoldable pub to_millis_ptr : Option Time → ℤ
unfolding to_millis
to_millis_ptr none = pos 0
to_millis_ptr (some t) = to_millis t

-- `time.UnixMilli`
abbrev unix_milli : ℤ → Time
unix_milli ms = pos unix_epoch +ℤ pos millisecond *ℤ ms

unfoldable pub from_millis : ℤ → Time
from_millis ms = if eq_ℤ ms (pos 0) then zero_time else unix_milli ms

unfoldable pub from_millis_ptr : ℤ → Option Time
from_millis_ptr ms = if eq_ℤ ms (pos 0) then none else some (unix_milli ms)

-- The method `Milliseconds` of a duration, which truncates.
abbrev pub milliseconds : Duration → ℤ
milliseconds d = pos (pos_part d / millisecond) -ℤ pos (neg_part d / millisecond)

unfoldable pub to_attempt_model : Attempt → AttemptModel
to_attempt_model a = record {
  number = a.number;
  started_at_ms = to_millis a.started_at;
  finished_at_ms = to_millis a.finished_at;
  error = a.error;
  worker = a.attempt_worker;
}

unfoldable pub from_attempt_model : AttemptModel → Attempt
from_attempt_model a = record {
  number = a.number;
  started_at = from_millis a.started_at_ms;
  finished_at = from_millis a.finished_at_ms;
  error = a.error;
  attempt_worker = a.worker;
}

abbrev pub decode_failed : Text → GoError → GoError
decode_failed message cause = app_caused internal (bytes "job_decode_failed") message cause

-- `flatArrayToMap`; each element is a string.
unfoldable pub flat_array_to_map : List Text → Result Fields
flat_array_to_map [] = ok []
flat_array_to_map (k ∷ []) =
    err (
      app internal (bytes "job_decode_failed") (bytes "malformed job hash: odd number of elements"))
flat_array_to_map (k ∷ v ∷ raw) = elim (flat_array_to_map raw) [
  | err e ↦ err e
  | ok rest ↦ ok ((k, v) ∷ rest)
]

-- `hash[f]`, the empty string for a field that is missing.
abbrev pub field_of : Fields → Text → Text
field_of hash f = elim (find_field f hash) [ none ↦ [] | some v ↦ v ]

module _ (E : Encoding) where
  -- `parseInt` and `parseUint`
  unfoldable pub parse_int_or : Text → ℤ → ℤ
  parse_int_or raw fallback =
      if is_empty raw then fallback else elim (E.parse_int raw) [ none ↦ fallback | some v ↦ v ]

  unfoldable pub parse_uint_or : Text → ℕ → ℕ
  parse_uint_or raw fallback =
      if is_empty raw then fallback else elim (E.parse_uint raw) [ none ↦ fallback | some v ↦ v ]

  -- The pairs that `toJobFields` lists.
  abbrev pub job_fields : Job → Text → Fields
  job_fields j attempts =
      (bytes "id", j.id)
      ∷ (bytes "queue", j.queue)
      ∷ (bytes "task_type", j.task_type)
      ∷ (bytes "payload", E.encode_base64 j.payload)
      ∷ (bytes "priority", E.format_uint j.priority)
      ∷ (bytes "state", state_string j.state)
      ∷ (bytes "max_retries", E.format_uint j.retry_policy.max_retries)
      ∷ (bytes "base_delay_ms", E.format_int (milliseconds j.retry_policy.base_delay))
      ∷ (bytes "max_delay_ms", E.format_int (milliseconds j.retry_policy.max_delay))
      ∷ (bytes "backoff", strategy_name j.retry_policy)
      ∷ (bytes "idempotency_key", j.idempotency_key)
      ∷ (bytes "timeout_ms", E.format_int (milliseconds j.timeout))
      ∷ (bytes "attempts_made", E.format_uint j.attempts_made)
      ∷ (bytes "attempts", attempts)
      ∷ (bytes "last_error", j.last_error)
      ∷ (bytes "created_at_ms", E.format_int (to_millis j.created_at))
      ∷ (bytes "process_at_ms", E.format_int (to_millis j.process_at))
      ∷ (bytes "completed_at_ms", E.format_int (to_millis_ptr j.completed_at))
      ∷ (bytes "died_at_ms", E.format_int (to_millis_ptr j.died_at))
      ∷ (bytes "lease_expiry_ms", E.format_int (to_millis_ptr j.lease_expiry))
      ∷ (bytes "worker_id", j.worker_id)
      ∷ []

  unfoldable pub to_job_fields : Job → Result Fields
  to_job_fields j = elim (E.marshal_attempts (map to_attempt_model j.attempts)) [
    | err e ↦
        err (
          app_caused internal (bytes "job_encode_failed") (bytes "failed to encode job attempts") e)
    | ok attempts ↦ ok (job_fields j attempts)
  ]

  abbrev pub read_payload : Text → Result Text
  read_payload raw = elim (E.decode_base64 raw) [
    | err e ↦ err (decode_failed (bytes "failed to decode job payload") e)
    | ok payload ↦ ok payload
  ]

  unfoldable pub read_attempts : Text → Result (List Attempt)
  read_attempts raw = if is_empty raw then ok [] else elim (E.unmarshal_attempts raw) [
    | err e ↦ err (decode_failed (bytes "failed to decode job attempts") e)
    | ok attempts ↦ ok (map from_attempt_model attempts)
  ]

  -- time.Duration(parseInt(...)) * time.Millisecond
  abbrev pub read_duration : Text → Duration → Duration
  read_duration raw fallback = wrap64 (parse_int_or raw (milliseconds fallback) *ℤ pos millisecond)

  -- The part of `toAggregate` behind its test for an empty hash.
  unfoldable pub decode_job : (Text → Text) → Result Job
  decode_job hash = do
    id ← new_job_id (hash (bytes "id"))
    queue ← new_queue_name (hash (bytes "queue"))
    task_type ← new_task_type (hash (bytes "task_type"))
    state ← new_job_state (hash (bytes "state"))
    priority ← new_priority (u8 (parse_uint_or (hash (bytes "priority")) priority_normal))
    idempotency_key ← new_idempotency_key (hash (bytes "idempotency_key"))
    payload ← read_payload (hash (bytes "payload"))
    policy ←
        new_retry_policy (u32 (parse_uint_or (hash (bytes "max_retries")) default_max_retries))
          (read_duration (hash (bytes "base_delay_ms")) default_base_delay)
          (read_duration (hash (bytes "max_delay_ms")) default_max_delay) (hash (bytes "backoff"))
    attempts ← read_attempts (hash (bytes "attempts"))
    ok (record {
      id = id;
      queue = queue;
      task_type = task_type;
      payload = payload;
      priority = priority;
      state = state;
      retry_policy = policy;
      idempotency_key = idempotency_key;
      timeout = read_duration (hash (bytes "timeout_ms")) default_timeout;
      attempts_made = u32 (parse_uint_or (hash (bytes "attempts_made")) 0);
      attempts = attempts;
      last_error = hash (bytes "last_error");
      created_at = from_millis (parse_int_or (hash (bytes "created_at_ms")) (pos 0));
      process_at = from_millis (parse_int_or (hash (bytes "process_at_ms")) (pos 0));
      completed_at = from_millis_ptr (parse_int_or (hash (bytes "completed_at_ms")) (pos 0));
      died_at = from_millis_ptr (parse_int_or (hash (bytes "died_at_ms")) (pos 0));
      lease_expiry = from_millis_ptr (parse_int_or (hash (bytes "lease_expiry_ms")) (pos 0));
      worker_id = hash (bytes "worker_id");
    })

  unfoldable pub to_aggregate : Fields → Result Job
  to_aggregate [] = err (not_found_error job_not_found (bytes "job document is empty"))
  to_aggregate (pair ∷ fields) = decode_job (field_of (pair ∷ fields))
