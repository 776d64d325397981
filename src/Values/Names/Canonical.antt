-- ===== src/Values/Names/Canonical.antt =====
-- The accepted queue names and task types are canonical: validating one again gives it back, as the
-- repositories do when they read a stored name.
use goqueue.Base.{Text, bytes, is_empty, ◌≡◌, refl, true, false, [], ◌∷◌, arith}
use goqueue.Errors.{ok}
use goqueue.Strings.{matches}
use goqueue.Strings.Plain.{IsPlain, IsLower, matches-All, trim_space-IsPlain, to_lower-IsLower}
use goqueue.Values.Names.{
  default_queue_name, queue_name_matches, new_queue_name, task_type_matches, new_task_type,
  queue_name_first, queue_name_rest, task_type_first, task_type_rest,
}

queue_name-IsPlain : (s : Text) → queue_name_matches s ≡ true → IsPlain s
unfolding queue_name_matches
queue_name-IsPlain s h =
    matches-All queue_name_first queue_name_rest 62 s (λ c e. ground arith) (λ c e. ground arith) h

queue_name-IsLower : (s : Text) → queue_name_matches s ≡ true → IsLower s
unfolding queue_name_matches
queue_name-IsLower s h =
    matches-All queue_name_first queue_name_rest 62 s (λ c e. ground arith) (λ c e. ground arith) h

task_type-IsPlain : (s : Text) → task_type_matches s ≡ true → IsPlain s
unfolding task_type_matches
task_type-IsPlain s h =
    matches-All task_type_first task_type_rest 126 s (λ c e. ground arith) (λ c e. ground arith) h

queue_name-matched : (s : Text) → queue_name_matches s ≡ true → is_empty s ≡ false
unfolding queue_name_matches matches
queue_name-matched [] h = ground arith
queue_name-matched (c ∷ s) h = refl

task_type-matched : (s : Text) → task_type_matches s ≡ true → is_empty s ≡ false
unfolding task_type_matches matches
task_type-matched [] h = ground arith
task_type-matched (c ∷ s) h = refl

new_queue_name-matched : (s : Text) → queue_name_matches s ≡ true → new_queue_name s ≡ ok s
unfolding new_queue_name
new_queue_name-matched s h = rw (
  trim_space-IsPlain s (queue_name-IsPlain s h),
  to_lower-IsLower s (queue_name-IsLower s h),
  queue_name-matched s h,
  h,
)

new_task_type-matched : (s : Text) → task_type_matches s ≡ true → new_task_type s ≡ ok s
unfolding new_task_type
new_task_type-matched s h =
    rw (trim_space-IsPlain s (task_type-IsPlain s h), task_type-matched s h, h)

default-matches : queue_name_matches default_queue_name ≡ true
unfolding queue_name_matches default_queue_name matches bytes
default-matches = refl

new_queue_name-cases :
    (raw : Text) {n : Text} → new_queue_name raw ≡ ok n → queue_name_matches n ≡ true
unfolding new_queue_name
new_queue_name-cases raw h = ground (arith, default-matches)

new_task_type-cases :
    (raw : Text) {n : Text} → new_task_type raw ≡ ok n → task_type_matches n ≡ true
unfolding new_task_type
new_task_type-cases raw h = ground arith

-- Every queue name that `new_queue_name` returns matches the pattern, and `new_queue_name` gives it
-- back unchanged.
pub new_queue_name_stable :
    (raw : Text) {n : Text}
    → new_queue_name raw ≡ ok n
    → (queue_name_matches n ≡ true) × (new_queue_name n ≡ ok n)
new_queue_name_stable raw h = let m = new_queue_name-cases raw h in (m, new_queue_name-matched _ m)

-- Every task type that `new_task_type` returns matches the pattern, and `new_task_type` gives it
-- back unchanged.
pub new_task_type_stable :
    (raw : Text) {n : Text}
    → new_task_type raw ≡ ok n
    → (task_type_matches n ≡ true) × (new_task_type n ≡ ok n)
new_task_type_stable raw h = let m = new_task_type-cases raw h in (m, new_task_type-matched _ m)
