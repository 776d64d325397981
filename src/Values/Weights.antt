-- ===== src/Values/Weights.antt =====
-- pkg/domain/queue_aggregate/value_objects/weight.go. A Weight is a uint8.
use goqueue.Base.{ltb, ◌==◌, if◌then◌else◌, bytes, ℕ, ◌≤◌, ◌≡◌, ◌||◌, arith}
use goqueue.Errors.{invalid, Result, ok, err}
use goqueue.Values.Codes.{invalid_queue_weight}

abbrev pub min_weight : ℕ
min_weight = 1

abbrev pub max_weight : ℕ
max_weight = 100

abbrev pub default_weight : ℕ
default_weight = 1

unfoldable pub new_weight : ℕ → Result ℕ
new_weight raw =
    if raw == 0
    then ok default_weight
    else if ltb raw min_weight || ltb max_weight raw
    then err (invalid invalid_queue_weight (bytes "queue weight must be between 1 and 100"))
    else ok raw

pub new_weight-bounds : (raw : ℕ) {w : ℕ} → new_weight raw ≡ ok w → (1 ≤ w) × (w ≤ 100)
unfolding new_weight
new_weight-bounds raw h = ground arith
