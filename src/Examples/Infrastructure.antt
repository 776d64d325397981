-- ===== src/Examples/Infrastructure.antt =====
-- The theorems on the infrastructure at concrete inputs.
use goqueue.Examples.{sample_store}
use goqueue.Store.Queues.{list_all}
use goqueue.Scheduler.{SchedulerConfig, promote_sweep, run_sweep}
use goqueue.Scheduler.Promotion.{CaughtUp, run_sweep-CaughtUp}
use goqueue.Base.{ltb, ◌==◌, if◌then◌else◌, All, pos, ◌<ℤ◌, ltb_ℤ, ◌^◌, ◌≡◌, arith}
use goqueue.Redis.{pending_score}
use goqueue.Redis.Scores.{pending_score_lt}

-- A critical job of 2026 against a normal one of a minute before.
score_example :
    (ltb_ℤ (pending_score 10 (pos 1_768_471_260_000)) (pending_score 5 (pos 1_768_471_200_000))
      ≡ (if 10 == 5 then ltb_ℤ (pos 1_768_471_260_000) (pos 1_768_471_200_000) else ltb 5 10))
    × (pending_score 10 (pos 1_768_471_260_000) <ℤ pos (2 ^ 53))
score_example =
    pending_score_lt 10 5 (pos 1_768_471_260_000) (pos 1_768_471_200_000) (omega arith, omega arith)
      (omega arith, omega arith) (omega arith, omega arith) (omega arith, omega arith)

abbrev sample_sweeps : SchedulerConfig
sample_sweeps = record {
  promote_interval = pos 1_000_000_000;
  reclaim_interval = pos 30_000_000_000;
  janitor_interval = pos 60_000_000_000;
  metrics_interval = pos 5_000_000_000;
  batch_limit = pos 500;
}

tick_example :
    All
      (λ q.
        CaughtUp q.name
          (pos 6_000)
          (run_sweep sample_sweeps (λ n. pos 6_000) promote_sweep sample_store).jobs)
      (list_all sample_store)
tick_example = run_sweep-CaughtUp sample_sweeps (λ n. pos 6_000) sample_store (omega arith)
