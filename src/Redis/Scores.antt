-- ===== src/Redis/Scores.antt =====
-- The order that the scores of the pending set put the jobs in.
use goqueue.Base.{
  ltb, ◌==◌, if◌then◌else◌, ℤ, pos, ◌+ℤ◌, ◌≤ℤ◌, ◌<ℤ◌, ltb_ℤ, ℕ, ◌^◌, ◌≤◌, ◌≡◌, arith,
}
use goqueue.Values.Priorities.{min_priority, max_priority}
use goqueue.Redis.{priority_band, pending_score}

-- The lower score comes out first. For priorities from 1 to 10 and times from the epoch to 1e14 ms, a
-- job has a lower score than another exactly where its priority is higher, or the same and it was
-- enqueued earlier; and its score is below 2^53, where float64 is exact.
pub pending_score_lt :
    (p q : ℕ) (a b : ℤ)
    → (min_priority ≤ p) × (p ≤ max_priority)
    → (min_priority ≤ q) × (q ≤ max_priority)
    → (pos 0 ≤ℤ a) × (a <ℤ pos priority_band)
    → (pos 0 ≤ℤ b) × (b <ℤ pos priority_band)
    → (ltb_ℤ (pending_score p a) (pending_score q b) ≡ (if p == q then ltb_ℤ a b else ltb q p))
      × (pending_score p a <ℤ pos (2 ^ 53))
unfolding pending_score ◌+ℤ◌
pending_score_lt p q a b hp hq ha hb = (ground arith, ground arith)
