-- ===== src/Values/Names.antt =====
-- value_objects/job_id.go, queue_name.go, task_type.go and idempotency_key.go: the validated names.
-- `MustNewQueueName` panics where `new_queue_name` returns an error and is not a second model.
pub mod Canonical
use goqueue.Base.{
  ltb, leb, ◌==◌, if◌then◌else◌, length, Text, bytes, is_empty, ℕ, Bool, ◌&&◌, ◌||◌, not, [],
}
use goqueue.Errors.{invalid, Result, ok, err}
use goqueue.Strings.{trim_space, to_lower, contains_any, matches}
use goqueue.Values.Codes.{
  invalid_job_id, invalid_task_type, invalid_queue_name, invalid_idempotency_key,
}

abbrev pub max_job_id_length : ℕ
max_job_id_length = 64

abbrev is_space_tab_newline : ℕ → Bool
is_space_tab_newline c = c == 32 || c == 9 || c == 10

-- The set " \t\n{}:".
abbrev reserved : ℕ → Bool
reserved c = is_space_tab_newline c || c == b'{' || c == b'}' || c == b':'

unfoldable pub new_job_id : Text → Result Text
new_job_id raw =
    let trimmed = trim_space raw in
    if is_empty trimmed
    then err (invalid invalid_job_id (bytes "job id must not be empty"))
    else if ltb max_job_id_length (length trimmed)
    then err (invalid invalid_job_id (bytes "job id must not exceed 64 characters"))
    else if contains_any reserved trimmed
    then err
        (invalid invalid_job_id (bytes "job id must not contain whitespace or reserved characters"))
    else ok trimmed

unfoldable pub default_queue_name : Text
default_queue_name = bytes "default"

abbrev pub is_digit : ℕ → Bool
is_digit c = leb b'0' c && leb c b'9'

abbrev pub is_lower : ℕ → Bool
is_lower c = leb b'a' c && leb c b'z'

abbrev pub is_upper : ℕ → Bool
is_upper c = leb b'A' c && leb c b'Z'

-- ^[a-z0-9][a-z0-9_.-]{0,62}$
abbrev queue_name_first : ℕ → Bool
queue_name_first c = is_lower c || is_digit c

abbrev queue_name_rest : ℕ → Bool
queue_name_rest c = is_lower c || is_digit c || c == b'_' || c == b'.' || c == b'-'

unfoldable pub queue_name_matches : Text → Bool
queue_name_matches = matches queue_name_first queue_name_rest 62

unfoldable pub new_queue_name : Text → Result Text
new_queue_name raw =
    let trimmed = to_lower (trim_space raw) in
    if is_empty trimmed
    then ok default_queue_name
    else if queue_name_matches trimmed
    then ok trimmed
    else err
        (invalid invalid_queue_name (bytes "queue name must match ^[a-z0-9][a-z0-9_.-]{0,62}$"))

-- ^[a-zA-Z0-9][a-zA-Z0-9_.:-]{0,126}$
abbrev task_type_first : ℕ → Bool
task_type_first c = is_lower c || is_upper c || is_digit c

abbrev task_type_rest : ℕ → Bool
task_type_rest c = task_type_first c || c == b'_' || c == b'.' || c == b':' || c == b'-'

unfoldable pub task_type_matches : Text → Bool
task_type_matches = matches task_type_first task_type_rest 126

unfoldable pub new_task_type : Text → Result Text
new_task_type raw =
    let trimmed = trim_space raw in
    if is_empty trimmed
    then err (invalid invalid_task_type (bytes "task type must not be empty"))
    else if task_type_matches trimmed
    then ok trimmed
    else err (
        invalid invalid_task_type
          (bytes "task type must match ^[a-zA-Z0-9][a-zA-Z0-9_.:-]{0,126}$"))

abbrev pub max_idempotency_key_length : ℕ
max_idempotency_key_length = 128

-- The zero value, `[]`, stands for no deduplication.
unfoldable pub new_idempotency_key : Text → Result Text
new_idempotency_key raw =
    let trimmed = trim_space raw in
    if is_empty trimmed
    then ok []
    else if ltb max_idempotency_key_length (length trimmed)
    then err
        (invalid invalid_idempotency_key (bytes "idempotency key must not exceed 128 characters"))
    else if contains_any is_space_tab_newline trimmed
    then err (invalid invalid_idempotency_key (bytes "idempotency key must not contain whitespace"))
    else ok trimmed
