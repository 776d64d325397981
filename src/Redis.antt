-- ===== src/Redis.antt =====
-- pkg/infrastructure/persistence/redis/keys.go: the keys under which the jobs, the sorted sets and the
-- claims are kept, and the score of a pending job. A score is a float64; it is the integer that the
-- same arithmetic gives, which a float64 holds exactly below 2^53.
pub mod Scores
pub mod Keys
pub mod Commands
pub mod Documents
pub mod Scripts
pub mod Broker
pub mod Placement
pub mod Serving
pub mod Listing
pub mod Repo
pub mod Queues
use goqueue.Base.{if◌then◌else◌, ℤ, pos, ◌+ℤ◌, u8, Text, bytes, is_empty, ℕ, ◌+◌, ◌-◌, ◌*◌, ◌++◌}
use goqueue.Values.States.{JobState, scheduled, pending, active, retrying, completed, dead}
use goqueue.Values.Priorities.{max_priority}

-- 1e14
abbrev pub priority_band : ℕ
priority_band = 100_000_000_000_000

unfoldable pub default_namespace : Text
default_namespace = bytes "goqueue"

pub record KeyBuilder : Type 0 where
  pub namespace : Text

unfoldable pub new_key_builder : Text → KeyBuilder
new_key_builder namespace = record {
  namespace = if is_empty namespace then default_namespace else namespace;
}

unfoldable pub job_prefix : KeyBuilder → Text
job_prefix k = k.namespace ++ bytes ":job:"

unfoldable pub job_key : KeyBuilder → Text → Text
job_key k id = k.namespace ++ bytes ":job:" ++ id

-- Pending, Active, Scheduled, Retrying, Completed, Dead and QueueMeta differ in their last part.
abbrev queue_key : KeyBuilder → Text → Text → Text
queue_key k queue suffix = k.namespace ++ bytes ":queue:" ++ queue ++ suffix

-- `StateSet`
unfoldable pub state_set : KeyBuilder → Text → JobState → Text
state_set k queue pending = queue_key k queue (bytes ":pending")
state_set k queue active = queue_key k queue (bytes ":active")
state_set k queue scheduled = queue_key k queue (bytes ":scheduled")
state_set k queue retrying = queue_key k queue (bytes ":retrying")
state_set k queue completed = queue_key k queue (bytes ":completed")
state_set k queue dead = queue_key k queue (bytes ":dead")

unfoldable pub queue_registry : KeyBuilder → Text
queue_registry k = k.namespace ++ bytes ":queues"

unfoldable pub queue_meta : KeyBuilder → Text → Text
queue_meta k queue = queue_key k queue (bytes ":meta")

unfoldable pub idempotency_entry : KeyBuilder → Text → Text
idempotency_entry k key = k.namespace ++ bytes ":idempotency:" ++ key

-- `PendingScore`; the difference of the priorities is one of uint8.
unfoldable pub pending_score : ℕ → ℤ → ℤ
pending_score priority enqueued_at_ms =
    pos (u8 (max_priority + 256 - priority) * priority_band) +ℤ enqueued_at_ms
