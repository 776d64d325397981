-- ===== src/Retry/Bounds.antt =====
-- What the delays of retry_policy.go and backoff.go lie between, and which policies are accepted.
use goqueue.Base.{
  Bool-cases, is_some, ℤ, pos, negsuc, pos_part, ◌*ℤ◌, ◌≤ℤ◌, ◌<ℤ◌, wrap64, wrap64-eq, Text, ℕ, ◌-◌,
  ◌*◌, ◌^◌, ◌≤◌, min, ◌≡◌, refl, inl, inr, true, arith,
}
use goqueue.Errors.{ok}
use goqueue.Retry.{
  Duration, IsExact, Floats, BackoffStrategy, exponential, linear, constant, clamp_delay,
  first_attempt, linear_delay, constant_delay, jittered_delay, exponential_delay, backoff_delay,
  max_allowed_retries, max_allowed_base_delay, RetryPolicy, new_retry_policy, default_retry_policy,
  allows_retry, strategy_of, next_delay,
}

-- What `NewRetryPolicy` checks.
pub record IsValid (p : RetryPolicy) : Type 0 where
  pub few_retries : p.max_retries ≤ max_allowed_retries
  pub base_positive : pos 0 <ℤ p.base_delay
  pub base_small : p.base_delay ≤ℤ max_allowed_base_delay
  pub base_le_max : p.base_delay ≤ℤ p.max_delay
  pub has_strategy : is_some p.strategy ≡ true

pub default_retry_policy-IsValid : IsValid default_retry_policy
unfolding default_retry_policy
default_retry_policy-IsValid = ground arith

-- Every policy that `new_retry_policy` returns is valid, and keeps the requested number of retries.
pub new_retry_policy-IsValid :
    (max_retries : ℕ) (base max_delay : Duration) (name : Text) {p : RetryPolicy}
    → new_retry_policy max_retries base max_delay name ≡ ok p
    → IsValid p × (p.max_retries ≡ max_retries)
unfolding new_retry_policy
new_retry_policy-IsValid n b m name h = ground arith

module _ (base max_delay d : Duration) (positive : pos 0 <ℤ base) (le : base ≤ℤ max_delay) where
  -- A delay of at least the base stays in the bounds when it is clamped.
  clamp_delay-within :
      base ≤ℤ d → (base ≤ℤ clamp_delay d max_delay) × (clamp_delay d max_delay ≤ℤ max_delay)
  unfolding clamp_delay
  clamp_delay-within h = ground arith

-- A product of a small count and a base delay does not overflow.
mul_no_overflow :
    (k : ℕ) (base : Duration)
    → 1 ≤ k
    → k ≤ max_allowed_retries
    → pos 0 <ℤ base
    → base ≤ℤ max_allowed_base_delay
    → (wrap64 (pos k *ℤ base) ≡ pos (k * pos_part base)) × (pos_part base ≤ k * pos_part base)
unfolding ◌*ℤ◌
mul_no_overflow k (negsuc b) one few p small = absurd (omega arith)
mul_no_overflow k (pos b) one few p small =
    let low : b ≤ k * b = grind arith in
    let high : k * b ≤ 100 * b = grind arith in
    let exact : pos k *ℤ pos b ≡ pos (k * b) = ground arith in
    (rw exact (wrap64-eq (pos (k * b)) (omega arith)), low)

-- A delay between the base delay of a policy and its ceiling.
abbrev pub WithinPolicy : RetryPolicy → Duration → Type 0
WithinPolicy p d = (p.base_delay ≤ℤ d) × (d ≤ℤ p.max_delay)

module _ (F : Floats) (p : RetryPolicy) (v : IsValid p) (attempt : ℕ) where
  clamp_within : (d : Duration) → p.base_delay ≤ℤ d → WithinPolicy p (clamp_delay d p.max_delay)
  clamp_within d h = clamp_delay-within p.base_delay p.max_delay d v.base_positive v.base_le_max h

  constant_within : WithinPolicy p (constant_delay attempt p.base_delay p.max_delay)
  unfolding constant_delay
  constant_within = clamp_within p.base_delay (omega arith)

  linear_within :
      attempt ≤ max_allowed_retries → WithinPolicy p (linear_delay attempt p.base_delay p.max_delay)
  unfolding linear_delay
  linear_within few =
      let k = first_attempt attempt in
      let (exact, low) =
        mul_no_overflow k p.base_delay (ground arith) (ground arith) v.base_positive v.base_small in
      clamp_within (wrap64 (pos k *ℤ p.base_delay)) (rw exact (ground arith))

  jittered_within :
      (s : ℤ)
      → IsExact s
      → IsExact p.base_delay
      → WithinPolicy p (jittered_delay F (F.from_int64 s) p.base_delay p.max_delay)
  unfolding jittered_delay
  jittered_within s es eb =
      let bound = F.lt_exact p.base_delay s eb es in
      elim (Bool-cases (F.float_lt (F.from_int64 p.base_delay) (F.from_int64 s))) [
        | inl more ↦
            rw more (clamp_within _ (F.jitter_within p.base_delay s eb es (ground arith)).0)
        | inr same ↦ rw same (clamp_within p.base_delay (omega arith))
      ]

  exponential_within :
      p.max_delay ≤ℤ pos (2 ^ 53)
      → WithinPolicy p (exponential_delay F attempt p.base_delay p.max_delay)
  unfolding exponential_delay
  exponential_within small =
      let e = min (first_attempt attempt - 1) 32 in
      let eb : IsExact p.base_delay = ground (arith, v.base_positive, v.base_le_max) in
      let em : IsExact p.max_delay = ground (arith, v.base_positive, v.base_le_max) in
      let test = F.lt_scale_exact p.max_delay p.base_delay e em eb (omega arith) in
      elim (Bool-cases
        (F.float_lt (F.from_int64 p.max_delay) (F.scale (F.from_int64 p.base_delay) e))) [
          | inl over ↦ rw over (jittered_within p.max_delay em eb)
          | inr under ↦
              let low : pos_part p.base_delay * 2 ^ e ≤ 2 ^ 53 = ground arith in
              rw (under, F.scale_exact p.base_delay e eb low)
                (jittered_within (pos (pos_part p.base_delay * 2 ^ e)) (refl, low) eb)
        ]

  strategy_within :
      (s : BackoffStrategy)
      → attempt ≤ max_allowed_retries
      → p.max_delay ≤ℤ pos (2 ^ 53)
      → WithinPolicy p (backoff_delay F s attempt p.base_delay p.max_delay)
  unfolding backoff_delay
  strategy_within exponential few small = exponential_within small
  strategy_within linear few small = linear_within few
  strategy_within constant few small = constant_within

-- For a valid policy whose ceiling a float64 holds exactly (2^53 ns, 104 days), the wait after any
-- attempt that may be retried lies between the base delay and the ceiling, for all three strategies
-- and whatever the random factor.
pub next_delay-within :
    (F : Floats) (p : RetryPolicy) (attempt : ℕ)
    → IsValid p
    → p.max_delay ≤ℤ pos (2 ^ 53)
    → allows_retry p attempt ≡ true
    → WithinPolicy p (next_delay F p attempt)
unfolding next_delay allows_retry
next_delay-within F p attempt v small allowed =
    strategy_within F p v attempt (strategy_of p) (ground (arith, v.few_retries)) small
