-- ===== src/Values/Priorities.antt =====
-- value_objects/priority.go. A Priority is a uint8.
use goqueue.Base.{
  ltb, ◌==◌, if◌then◌else◌, Text, bytes, is_empty, text_eq, ℕ, ◌≤◌, ◌≡◌, ◌||◌, arith,
}
use goqueue.Errors.{invalid, Result, ok, err}
use goqueue.Strings.{trim_space, to_lower}
use goqueue.Values.Codes.{invalid_priority}

abbrev pub priority_low : ℕ
priority_low = 1

abbrev pub priority_normal : ℕ
priority_normal = 5

abbrev pub priority_high : ℕ
priority_high = 8

abbrev pub priority_critical : ℕ
priority_critical = 10

abbrev pub min_priority : ℕ
min_priority = 1

abbrev pub max_priority : ℕ
max_priority = 10

unfoldable pub new_priority : ℕ → Result ℕ
new_priority level =
    if level == 0
    then ok priority_normal
    else if ltb level min_priority || ltb max_priority level
    then err (invalid invalid_priority (bytes "priority must be between 1 and 10"))
    else ok level

-- The `switch` of `ParsePriority` on the folded name.
unfoldable pub parse_priority : Text → Result ℕ
parse_priority name =
    let folded = to_lower (trim_space name) in
    if is_empty folded
    then ok priority_normal
    else if text_eq folded (bytes "low")
    then ok priority_low
    else if text_eq folded (bytes "normal") || text_eq folded (bytes "default")
    then ok priority_normal
    else if text_eq folded (bytes "high")
    then ok priority_high
    else if text_eq folded (bytes "critical")
    then ok priority_critical
    else err
        (invalid invalid_priority (bytes "priority must be one of low, normal, high, critical"))

-- A level that either constructor accepts lies between 1 and 10, and reads back as itself.
pub parse_priority-new_priority :
    (name : Text) {p : ℕ}
    → parse_priority name ≡ ok p
    → (min_priority ≤ p) × (p ≤ max_priority) × (new_priority p ≡ ok p)
unfolding parse_priority new_priority
parse_priority-new_priority name h = ground arith

pub new_priority-bounds : (level : ℕ) {p : ℕ} → new_priority level ≡ ok p → (1 ≤ p) × (p ≤ 10)
unfolding new_priority
new_priority-bounds level h = ground arith
