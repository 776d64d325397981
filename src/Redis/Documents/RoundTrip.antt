-- ===== src/Redis/Documents/RoundTrip.antt =====
-- A job that is written to its hash and read back.
use goqueue.Base.{
  Option-cases, All, ℤ, pos, negsuc, ◌+ℤ◌, ◌-ℤ◌, ◌*ℤ◌, IsInt64, wrap64-eq, u32, u8, Text, bytes,
  is_empty, text_eq, ℕ, ◌+◌, ◌-◌, ◌/◌, ◌%◌, ◌^◌, ◌≤◌, ◌<◌, ◌≡◌, refl, ◌≢◌, ◌⊎◌, inl, inr, true,
  false, Option, none, some, List, [], ◌∷◌, map, arith,
}
use goqueue.Job.{Time, Attempt, Job}
use goqueue.Redis.Commands.{Fields, find_field}
use goqueue.Values.States.{new_job_state-state_string}
use goqueue.Job.Creation.{default_timeout}
use goqueue.Redis.Documents.{
  AttemptModel, Encoding, unix_epoch, millisecond, to_millis, to_millis_ptr, from_millis,
  from_millis_ptr, milliseconds, to_attempt_model, from_attempt_model, field_of, parse_int_or,
  parse_uint_or, job_fields, to_job_fields, read_payload, read_attempts, read_duration, decode_job,
  to_aggregate,
}
use goqueue.Errors.{ok}
use goqueue.Retry.Bounds.{IsValid}
use goqueue.Values.Names.{new_job_id, new_queue_name, new_task_type, new_idempotency_key}
use goqueue.Strings.{trim_space, to_lower}
use goqueue.Values.Priorities.{priority_normal, new_priority}
use goqueue.Retry.{
  Duration, BackoffStrategy, exponential, linear, constant, backoff_name, new_backoff_strategy,
  default_max_retries, default_base_delay, default_max_delay, RetryPolicy, new_retry_policy,
  strategy_name,
}

-- An instant as a document keeps it: the zero time, or one after the first millisecond of the Unix
-- epoch that an int64 of nanoseconds can reach.
abbrev pub IsStamp : Time → Type 0
IsStamp (pos n) = (n ≡ 0) ⊎ ((unix_epoch + millisecond ≤ n) × (n < unix_epoch + 2 ^ 63))
IsStamp (negsuc n) = ⊥

-- The instant without its fraction of a millisecond.
abbrev pub whole_ms : Time → Time
whole_ms (pos n) = pos (n - n % millisecond)
whole_ms (negsuc n) = negsuc n

pub from_millis-to_millis : (t : Time) → IsStamp t → from_millis (to_millis t) ≡ whole_ms t
unfolding from_millis to_millis ◌+ℤ◌ ◌-ℤ◌ ◌*ℤ◌
from_millis-to_millis (pos n) h = ground arith
from_millis-to_millis (negsuc n) h = absurd h

-- What strconv, base64 and json promise: what they write reads back, where json keeps a string only
-- if it is valid UTF-8.
pub record Faithful (E : Encoding) : Type 0 where
  pub parse_format_int :
      (z : ℤ)
      → IsInt64 z
      → (E.parse_int (E.format_int z) ≡ some z) × (is_empty (E.format_int z) ≡ false)
  pub parse_format_uint :
      (n : ℕ)
      → n < 2 ^ 64
      → (E.parse_uint (E.format_uint n) ≡ some n) × (is_empty (E.format_uint n) ≡ false)
  pub decode_encode : (payload : Text) → E.decode_base64 (E.encode_base64 payload) ≡ ok payload
  pub unmarshal_marshal :
      (attempts : List AttemptModel)
      → All (λ a. (E.valid_string a.error ≡ true) × (E.valid_string a.worker ≡ true)) attempts
      → (raw : Text) × (E.marshal_attempts attempts ≡ ok raw)
        × (is_empty raw ≡ false)
        × (E.unmarshal_attempts raw ≡ ok attempts)

-- A duration of whole milliseconds that is not negative.
abbrev pub IsWhole : Duration → Type 0
IsWhole (pos n) = (n % millisecond ≡ 0) × (n < 2 ^ 63)
IsWhole (negsuc n) = ⊥

abbrev pub IsStampPtr : Option Time → Type 0
IsStampPtr none = Unit
IsStampPtr (some t) = IsStamp t × (t ≢ pos 0)

abbrev pub whole_ms_ptr : Option Time → Option Time
whole_ms_ptr none = none
whole_ms_ptr (some t) = some (whole_ms t)

abbrev pub whole_attempt : Attempt → Attempt
whole_attempt a = record a {
  started_at = whole_ms a.started_at;
  finished_at = whole_ms a.finished_at;
}

-- The job with each instant cut to its millisecond.
abbrev pub whole_job : Job → Job
whole_job j = record j {
  attempts = map whole_attempt j.attempts;
  created_at = whole_ms j.created_at;
  process_at = whole_ms j.process_at;
  completed_at = whole_ms_ptr j.completed_at;
  died_at = whole_ms_ptr j.died_at;
  lease_expiry = whole_ms_ptr j.lease_expiry;
}

abbrev pub IsStampedAttempt : Encoding → Attempt → Type 0
IsStampedAttempt E a =
    IsStamp a.started_at
    × IsStamp a.finished_at
    × (E.valid_string a.error ≡ true)
    × (E.valid_string a.attempt_worker ≡ true)

-- A job whose names, priority and policy are ones that the constructors return, whose durations are
-- whole milliseconds, and whose instants, counts and texts a document can hold.
pub record IsStorable (E : Encoding) (j : Job) : Type 0 where
  pub id_name : new_job_id j.id ≡ ok j.id
  pub queue_name : new_queue_name j.queue ≡ ok j.queue
  pub type_name : new_task_type j.task_type ≡ ok j.task_type
  pub key_name : new_idempotency_key j.idempotency_key ≡ ok j.idempotency_key
  pub priority_range : (1 ≤ j.priority) × (j.priority ≤ 10)
  pub policy_valid : IsValid j.retry_policy
  pub base_whole : IsWhole j.retry_policy.base_delay
  pub max_whole : IsWhole j.retry_policy.max_delay
  pub timeout_whole : IsWhole j.timeout
  pub made_small : j.attempts_made < 2 ^ 32
  pub created_stamp : IsStamp j.created_at
  pub process_stamp : IsStamp j.process_at
  pub completed_stamp : IsStampPtr j.completed_at
  pub died_stamp : IsStampPtr j.died_at
  pub lease_stamp : IsStampPtr j.lease_expiry
  pub attempts_stamped : All (IsStampedAttempt E) j.attempts

from_millis_ptr-to_millis_ptr :
    (t : Option Time) → IsStampPtr t → from_millis_ptr (to_millis_ptr t) ≡ whole_ms_ptr t
unfolding from_millis_ptr to_millis_ptr to_millis ◌+ℤ◌ ◌-ℤ◌ ◌*ℤ◌
from_millis_ptr-to_millis_ptr none h = refl
from_millis_ptr-to_millis_ptr (some (pos n)) h = ground arith
from_millis_ptr-to_millis_ptr (some (negsuc n)) h = absurd h.0

to_millis-IsInt64 : (t : Time) → IsStamp t → IsInt64 (to_millis t)
unfolding to_millis ◌-ℤ◌
to_millis-IsInt64 (pos n) h = ground arith
to_millis-IsInt64 (negsuc n) h = absurd h

to_millis_ptr-IsInt64 : (t : Option Time) → IsStampPtr t → IsInt64 (to_millis_ptr t)
unfolding to_millis_ptr
to_millis_ptr-IsInt64 none h = omega arith
to_millis_ptr-IsInt64 (some t) h = to_millis-IsInt64 t h.0

new_backoff_strategy-backoff_name :
    (s : BackoffStrategy) → new_backoff_strategy (backoff_name s) ≡ ok s
unfolding new_backoff_strategy backoff_name trim_space to_lower text_eq bytes
new_backoff_strategy-backoff_name exponential = refl
new_backoff_strategy-backoff_name linear = refl
new_backoff_strategy-backoff_name constant = refl

-- A valid policy is what its own parts make.
new_retry_policy-same :
    (p : RetryPolicy)
    → IsValid p
    → new_retry_policy p.max_retries p.base_delay p.max_delay (strategy_name p) ≡ ok p
unfolding new_retry_policy strategy_name
new_retry_policy-same p v = elim (Option-cases p.strategy) [
  | inl e ↦ absurd (ground arith)
  | inr (s, e) ↦ rw e (ground (arith, new_backoff_strategy-backoff_name s))
]

attempts_lem :
    (attempts : List Attempt)
    → All (λ (a : Attempt). IsStamp a.started_at × IsStamp a.finished_at) attempts
    → map from_attempt_model (map to_attempt_model attempts) ≡ map whole_attempt attempts
unfolding from_attempt_model to_attempt_model
attempts_lem [] h = refl
attempts_lem (a ∷ attempts) h = cc (
  attempts_lem attempts h.1,
  from_millis-to_millis a.started_at h.0.0,
  from_millis-to_millis a.finished_at h.0.1,
)

u32_lem : (n : ℕ) → n < 2 ^ 32 → u32 n ≡ n
u32_lem n h = omega arith

priority_lem : (p : ℕ) → (1 ≤ p) × (p ≤ 10) → new_priority (u8 p) ≡ ok p
unfolding new_priority
priority_lem p h = ground arith

milliseconds_lem : (n : ℕ) → milliseconds (pos n) ≡ pos (n / millisecond)
unfolding ◌-ℤ◌
milliseconds_lem n = ground arith

product_lem : (n : ℕ) → n % millisecond ≡ 0 → pos (n / millisecond) *ℤ pos millisecond ≡ pos n
unfolding ◌*ℤ◌
product_lem n h = ground arith

module _ (E : Encoding) where
  attempt_stamps :
      (attempts : List Attempt)
      → All (IsStampedAttempt E) attempts
      → All (λ (a : Attempt). IsStamp a.started_at × IsStamp a.finished_at) attempts
  attempt_stamps [] h = tt
  attempt_stamps (a ∷ attempts) (h, t) = ((h.0, h.1), attempt_stamps attempts t)

  pub valid_texts :
      (attempts : List Attempt)
      → All (IsStampedAttempt E) attempts
      → All
          (λ a. (E.valid_string a.error ≡ true) × (E.valid_string a.worker ≡ true))
          (map to_attempt_model attempts)
  unfolding to_attempt_model
  valid_texts [] h = tt
  valid_texts (a ∷ attempts) (h, t) = ((h.2, h.3), valid_texts attempts t)

module _ (E : Encoding) (law : Faithful E) where
  parse_uint_lem : (n fallback : ℕ) → n < 2 ^ 64 → parse_uint_or E (E.format_uint n) fallback ≡ n
  unfolding parse_uint_or
  parse_uint_lem n fallback h = let (a, b) = law.parse_format_uint n h in rw (b, a) refl

  parse_int_lem : (z fallback : ℤ) → IsInt64 z → parse_int_or E (E.format_int z) fallback ≡ z
  unfolding parse_int_or
  parse_int_lem z fallback h = let (a, b) = law.parse_format_int z h in rw (b, a) refl

  duration_lem :
      (d fallback : Duration)
      → IsWhole d
      → read_duration E (E.format_int (milliseconds d)) fallback ≡ d
  duration_lem (negsuc n) fallback h = absurd h
  duration_lem (pos n) fallback h =
      rw
        (
          milliseconds_lem n,
          parse_int_lem (pos (n / millisecond)) (milliseconds fallback) (omega arith),
          product_lem n h.0,
        )
        (wrap64-eq (pos n) (omega arith))

  read_attempts_lem :
      (attempts : List Attempt) (raw : Text)
      → All (λ (a : Attempt). IsStamp a.started_at × IsStamp a.finished_at) attempts
      → is_empty raw ≡ false
      → E.unmarshal_attempts raw ≡ ok (map to_attempt_model attempts)
      → read_attempts E raw ≡ ok (map whole_attempt attempts)
  unfolding read_attempts
  read_attempts_lem attempts raw h full u = rw (full, u, attempts_lem attempts h) refl

  read_payload_lem : (payload : Text) → read_payload E (E.encode_base64 payload) ≡ ok payload
  read_payload_lem payload = rw (law.decode_encode payload, read_payload) refl

  instant_lem :
      (t : Time)
      → IsStamp t
      → from_millis (parse_int_or E (E.format_int (to_millis t)) (pos 0)) ≡ whole_ms t
  instant_lem t h =
      rw (parse_int_lem (to_millis t) (pos 0) (to_millis-IsInt64 t h)) (from_millis-to_millis t h)

  instant_ptr_lem :
      (t : Option Time)
      → IsStampPtr t
      → from_millis_ptr (parse_int_or E (E.format_int (to_millis_ptr t)) (pos 0)) ≡ whole_ms_ptr t
  instant_ptr_lem t h =
      rw (parse_int_lem (to_millis_ptr t) (pos 0) (to_millis_ptr-IsInt64 t h))
        (from_millis_ptr-to_millis_ptr t h)

  -- The values that a hash has under the fields of a job.
  abbrev pub Reads : (Text → Text) → Fields → Type 0
  Reads hash fields = All (λ (p : Text × Text). hash p.0 ≡ p.1) fields

  pub decode_job-Reads :
      (j : Job) (raw : Text) (hash : Text → Text)
      → IsStorable E j
      → E.marshal_attempts (map to_attempt_model j.attempts) ≡ ok raw
      → is_empty raw ≡ false
      → E.unmarshal_attempts raw ≡ ok (map to_attempt_model j.attempts)
      → Reads hash (job_fields E j raw)
      → decode_job E hash ≡ ok (whole_job j)
  unfolding decode_job
  decode_job-Reads j raw hash st m full u r =
      rw
        (
          r.0,
          st.id_name,
          r.1.0,
          st.queue_name,
          r.1.1.0,
          st.type_name,
          r.1.1.1.1.1.0,
          new_job_state-state_string j.state,
          r.1.1.1.1.0,
          parse_uint_lem j.priority priority_normal (omega arith),
          priority_lem j.priority st.priority_range,
          r.1.1.1.1.1.1.1.1.1.1.0,
          st.key_name,
          r.1.1.1.0,
          read_payload_lem j.payload,
          r.1.1.1.1.1.1.0,
          parse_uint_lem j.retry_policy.max_retries default_max_retries (omega arith),
          u32_lem j.retry_policy.max_retries (omega arith),
          r.1.1.1.1.1.1.1.0,
          duration_lem j.retry_policy.base_delay default_base_delay st.base_whole,
          r.1.1.1.1.1.1.1.1.0,
          duration_lem j.retry_policy.max_delay default_max_delay st.max_whole,
          r.1.1.1.1.1.1.1.1.1.0,
          new_retry_policy-same j.retry_policy st.policy_valid,
          r.1.1.1.1.1.1.1.1.1.1.1.1.1.0,
          read_attempts_lem j.attempts raw (attempt_stamps E j.attempts st.attempts_stamped) full u,
          r.1.1.1.1.1.1.1.1.1.1.1.0,
          duration_lem j.timeout default_timeout st.timeout_whole,
          r.1.1.1.1.1.1.1.1.1.1.1.1.0,
          parse_uint_lem j.attempts_made 0 (omega arith),
          u32_lem j.attempts_made st.made_small,
          r.1.1.1.1.1.1.1.1.1.1.1.1.1.1.0,
          r.1.1.1.1.1.1.1.1.1.1.1.1.1.1.1.0,
          instant_lem j.created_at st.created_stamp,
          r.1.1.1.1.1.1.1.1.1.1.1.1.1.1.1.1.0,
          instant_lem j.process_at st.process_stamp,
          r.1.1.1.1.1.1.1.1.1.1.1.1.1.1.1.1.1.0,
          instant_ptr_lem j.completed_at st.completed_stamp,
          r.1.1.1.1.1.1.1.1.1.1.1.1.1.1.1.1.1.1.0,
          instant_ptr_lem j.died_at st.died_stamp,
          r.1.1.1.1.1.1.1.1.1.1.1.1.1.1.1.1.1.1.1.0,
          instant_ptr_lem j.lease_expiry st.lease_stamp,
          r.1.1.1.1.1.1.1.1.1.1.1.1.1.1.1.1.1.1.1.1.0,
        )
        refl

-- Each field of a job is found under its name.
pub find_field-job_fields :
    (E : Encoding) (j : Job) (raw : Text)
    → All (λ (p : Text × Text). find_field p.0 (job_fields E j raw) ≡ some p.1) (job_fields E j raw)
unfolding find_field text_eq bytes
find_field-job_fields E j raw = (
  refl,
  (
    refl,
    (
      refl,
      (
        refl,
        (
          refl,
          (
            refl,
            (
              refl,
              (
                refl,
                (
                  refl,
                  (
                    refl,
                    (
                      refl,
                      (
                        refl,
                        (refl, (refl, (refl, (refl, (refl, (refl, (refl, (refl, (refl, tt))))))))),
                      ),
                    ),
                  ),
                ),
              ),
            ),
          ),
        ),
      ),
    ),
  ),
)

pub Reads-field_of :
    (hash fields : Fields)
    → All (λ (p : Text × Text). find_field p.0 hash ≡ some p.1) fields
    → All (λ (p : Text × Text). field_of hash p.0 ≡ p.1) fields
Reads-field_of hash [] h = tt
Reads-field_of hash (p ∷ fields) h = (rw (h.0, field_of) refl, Reads-field_of hash fields h.1)

-- The hash that a storable job is written to reads back as the job, with each instant cut to its
-- millisecond; neither direction returns an error. strconv, base64 and json read back what they write.
pub to_aggregate-to_job_fields :
    (E : Encoding) (law : Faithful E) (j : Job)
    → IsStorable E j
    → (fields : Fields) × (to_job_fields E j ≡ ok fields)
      × (to_aggregate E fields ≡ ok (whole_job j))
unfolding to_job_fields to_aggregate
to_aggregate-to_job_fields E law j st =
    let (raw, m, full, u) =
      law.unmarshal_marshal (map to_attempt_model j.attempts)
        (valid_texts E j.attempts st.attempts_stamped) in
    (
      job_fields E j raw,
      rw (m, to_job_fields) refl,
      decode_job-Reads E law j raw (field_of (job_fields E j raw)) st m full u (
          Reads-field_of (job_fields E j raw) (job_fields E j raw) (find_field-job_fields E j raw)),
    )
