-- ===== src/Retry.antt =====
-- pkg/domain/job_aggregate/backoff.go and retry_policy.go. A time.Duration is an int64 of
-- nanoseconds, here an integer; a product of durations wraps as an int64 does.
-- The exponential curve is computed in float64 with a random factor. Floats stands for that arithmetic and for
-- `rand.Float64`: the type, the operations that the code calls, and what IEEE 754 and math/rand say of
-- them on integers up to 2^53, which a float64 holds exactly.
pub mod Bounds
pub mod Exact
use goqueue.Base.{
  ltb, leb, ◌==◌, if◌then◌else◌, ℤ, pos, pos_part, neg_part, ◌*ℤ◌, ◌≤ℤ◌, ltb_ℤ, eq_ℤ, wrap64, Text,
  bytes, is_empty, text_eq, ℕ, ◌-◌, ◌*◌, ◌^◌, ◌≤◌, min, ◌≡◌, Bool, ◌&&◌, ◌||◌, not, Option, none,
  some,
}
use goqueue.Errors.{invalid, Result, ok, err, ◌>>=◌, ◌>>◌, reject_if}
use goqueue.Strings.{trim_space, to_lower}
use goqueue.Values.Codes.{invalid_retry_policy}

abbrev pub Duration : Type 0
Duration = ℤ

abbrev pub second : ℕ
second = 1_000_000_000

-- An int64 that a float64 holds exactly, and that is not negative.
abbrev pub IsExact : ℤ → Type 0
IsExact z = (neg_part z ≡ 0) × (pos_part z ≤ 2 ^ 53)

pub record Floats : Type 1 where
  pub Float : Type 0
  -- float64(z)
  pub from_int64 : ℤ → Float
  -- x * math.Pow(2, k)
  pub scale : Float → ℕ → Float
  -- x < y
  pub float_lt : Float → Float → Bool
  -- lo + rand.Float64() * (hi - lo)
  pub jitter : Float → Float → Float
  -- time.Duration(x), which truncates
  pub to_duration : Float → ℤ
  pub scale_exact :
      (b : ℤ) (k : ℕ)
      → IsExact b
      → pos_part b * 2 ^ k ≤ 2 ^ 53
      → scale (from_int64 b) k ≡ from_int64 (pos (pos_part b * 2 ^ k))
  pub lt_scale_exact :
      (a b : ℤ) (k : ℕ)
      → IsExact a
      → IsExact b
      → k ≤ 32
      → float_lt (from_int64 a) (scale (from_int64 b) k) ≡ ltb (pos_part a) (pos_part b * 2 ^ k)
  pub lt_exact :
      (a b : ℤ)
      → IsExact a
      → IsExact b
      → float_lt (from_int64 a) (from_int64 b) ≡ ltb (pos_part a) (pos_part b)
  -- `rand.Float64` lies in [0, 1), rounding is monotone, and truncation too.
  pub jitter_within :
      (lo hi : ℤ)
      → IsExact lo
      → IsExact hi
      → lo ≤ℤ hi
      → (lo ≤ℤ to_duration (jitter (from_int64 lo) (from_int64 hi)))
        × (to_duration (jitter (from_int64 lo) (from_int64 hi)) ≤ℤ hi)

-- The three implementations of the interface BackoffStrategy.
pub data BackoffStrategy : Type 0 where
  exponential linear constant : BackoffStrategy

-- The method `Name`.
unfoldable pub backoff_name : BackoffStrategy → Text
backoff_name exponential = bytes "exponential"
backoff_name linear = bytes "linear"
backoff_name constant = bytes "constant"

unfoldable pub new_backoff_strategy : Text → Result BackoffStrategy
new_backoff_strategy name =
    let folded = to_lower (trim_space name) in
    if is_empty folded || text_eq folded (backoff_name exponential)
    then ok exponential
    else if text_eq folded (backoff_name linear)
    then ok linear
    else if text_eq folded (backoff_name constant)
    then ok constant
    else err (
        invalid invalid_retry_policy
          (bytes "backoff strategy must be one of exponential, linear, constant"))

-- `clampDelay`
unfoldable pub clamp_delay : Duration → Duration → Duration
clamp_delay d max_delay =
    if ltb_ℤ d (pos 0)
    then pos 0
    else if ltb_ℤ (pos 0) max_delay && ltb_ℤ max_delay d
    then max_delay
    else d

-- Attempt 0 counts as attempt 1.
abbrev pub first_attempt : ℕ → ℕ
first_attempt attempt = if attempt == 0 then 1 else attempt

unfoldable pub linear_delay : ℕ → Duration → Duration → Duration
unfolding clamp_delay
linear_delay attempt base max_delay =
    clamp_delay (wrap64 (pos (first_attempt attempt) *ℤ base)) max_delay

unfoldable pub constant_delay : ℕ → Duration → Duration → Duration
unfolding clamp_delay
constant_delay attempt base max_delay = clamp_delay base max_delay

module _ (F : Floats) where
  open F use {Float, from_int64, scale, float_lt, jitter, to_duration}

  -- The part behind the cap: `scaled` is base * 2^exponent, capped.
  unfoldable pub jittered_delay : Float → Duration → Duration → Duration
  jittered_delay scaled base max_delay =
      if not (float_lt (from_int64 base) scaled)
      then clamp_delay base max_delay
      else clamp_delay (to_duration (jitter (from_int64 base) scaled)) max_delay

  unfoldable pub exponential_delay : ℕ → Duration → Duration → Duration
  unfolding jittered_delay clamp_delay
  exponential_delay attempt base max_delay =
      let scaled = scale (from_int64 base) (min (first_attempt attempt - 1) 32) in
      let capped =
        if float_lt (from_int64 max_delay) scaled then from_int64 max_delay else scaled in
      jittered_delay capped base max_delay

  -- The method `Delay` of each implementation.
  unfoldable pub backoff_delay : BackoffStrategy → ℕ → Duration → Duration → Duration
  unfolding exponential_delay linear_delay constant_delay
  backoff_delay exponential = exponential_delay
  backoff_delay linear = linear_delay
  backoff_delay constant = constant_delay

abbrev pub default_max_retries : ℕ
default_max_retries = 5

abbrev pub default_base_delay : Duration
default_base_delay = pos second

abbrev pub default_max_delay : Duration
default_max_delay = pos (300 * second)

abbrev pub max_allowed_retries : ℕ
max_allowed_retries = 100

abbrev pub max_allowed_base_delay : Duration
max_allowed_base_delay = pos (3600 * second)

-- `strategy` is an interface value and may be nil.
pub record RetryPolicy : Type 0 where
  pub max_retries : ℕ
  pub base_delay : Duration
  pub max_delay : Duration
  pub strategy : Option BackoffStrategy

-- A zero duration is replaced by the default.
abbrev pub or_default : Duration → Duration → Duration
or_default d fallback = if eq_ℤ d (pos 0) then fallback else d

unfoldable pub new_retry_policy : ℕ → Duration → Duration → Text → Result RetryPolicy
new_retry_policy max_retries base_delay max_delay strategy_name = do
  reject_if (ltb max_allowed_retries max_retries)
      (invalid invalid_retry_policy (bytes "max retries must not exceed 100"))
  reject_if (ltb_ℤ base_delay (pos 0) || ltb_ℤ max_allowed_base_delay base_delay)
      (invalid invalid_retry_policy (bytes "base delay must be between 0 and 1h"))
  let base = or_default base_delay default_base_delay
  let ceiling = or_default max_delay default_max_delay
  reject_if (ltb_ℤ ceiling base)
      (invalid invalid_retry_policy (bytes "max delay must be greater than or equal to base delay"))
  strategy ← new_backoff_strategy strategy_name
  ok (record {
    max_retries = max_retries;
    base_delay = base;
    max_delay = ceiling;
    strategy = some strategy;
  })

unfoldable pub default_retry_policy : RetryPolicy
default_retry_policy = record {
  max_retries = default_max_retries;
  base_delay = default_base_delay;
  max_delay = default_max_delay;
  strategy = some exponential;
}

unfoldable pub strategy_name : RetryPolicy → Text
strategy_name p = elim p.strategy [ none ↦ backoff_name exponential | some s ↦ backoff_name s ]

unfoldable pub allows_retry : RetryPolicy → ℕ → Bool
allows_retry p attempts_made = leb attempts_made p.max_retries

-- A nil strategy waits like the exponential one.
abbrev pub strategy_of : RetryPolicy → BackoffStrategy
strategy_of p = elim p.strategy [ none ↦ exponential | some s ↦ s ]

unfoldable pub next_delay : Floats → RetryPolicy → ℕ → Duration
unfolding backoff_delay
next_delay F p attempt = backoff_delay F (strategy_of p) attempt p.base_delay p.max_delay
