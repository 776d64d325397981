-- ===== src/Retry/Exact.antt =====
-- An instance of the float interface by exact integers, with the random factor 0. It meets every law
-- that Floats states, and lets the model run on concrete inputs.
use goqueue.Base.{ltb, ℤ, pos, pos_part, ◌≤ℤ◌, ltb_ℤ, ℕ, ◌*◌, ◌^◌, ◌≡◌, refl, arith}
use goqueue.Retry.{IsExact, Floats}

abbrev pub exact_scale : ℤ → ℕ → ℤ
exact_scale z k = pos (pos_part z * 2 ^ k)

pub exact_lt : (a b : ℤ) → IsExact a → IsExact b → ltb_ℤ a b ≡ ltb (pos_part a) (pos_part b)
exact_lt a b ea eb = ground arith

pub exact_scale_lt :
    (a b : ℤ) (k : ℕ)
    → IsExact a
    → IsExact b
    → ltb_ℤ a (exact_scale b k) ≡ ltb (pos_part a) (pos_part b * 2 ^ k)
exact_scale_lt a b k ea eb = ground arith

pub exact_within : (lo hi : ℤ) → lo ≤ℤ hi → (lo ≤ℤ lo) × (lo ≤ℤ hi)
exact_within lo hi h = (omega arith, h)

abbrev pub exact_floats : Floats
exact_floats = record {
  Float = ℤ;
  from_int64 = λ z. z;
  scale = exact_scale;
  float_lt = ltb_ℤ;
  jitter = λ lo hi. lo;
  to_duration = λ x. x;
  scale_exact = λ b k eb small. refl;
  lt_scale_exact = λ a b k ea eb few. exact_scale_lt a b k ea eb;
  lt_exact = exact_lt;
  jitter_within = λ lo hi el eh h. exact_within lo hi h;
}
