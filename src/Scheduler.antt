-- ===== src/Scheduler.antt =====
-- pkg/infrastructure/scheduler/scheduler.go: the periodic sweeps, over the store of fake.go, whose
-- sweeps return no error. The tickers and the goroutines are left out: a run of the scheduler is a
-- sequence of calls of `run_sweep`. The clock is read anew for each queue, so it is a function of
-- the queue's name. What is logged is left out, and the gauges of the metrics sweep, which leaves the
-- store alone.
pub mod Promotion
use goqueue.Base.{if◌then◌else◌, ℤ, pos, ltb_ℤ, Text, ◌*◌, List, [], ◌∷◌}
use goqueue.Retry.{Duration, second}
use goqueue.Job.{Time}
use goqueue.Queue.{Queue}
use goqueue.Store.Defs.{Store}
use goqueue.Store.Repo.{purge_completed}
use goqueue.Store.Broker.{promote_due, reclaim_expired}
use goqueue.Store.Queues.{list_all}

pub record SchedulerConfig : Type 0 where
  pub promote_interval : Duration
  pub reclaim_interval : Duration
  pub janitor_interval : Duration
  pub metrics_interval : Duration
  pub batch_limit : ℤ

abbrev or_else_default : ℤ → ℤ → ℤ
or_else_default given fallback = if ltb_ℤ (pos 0) given then given else fallback

-- `withDefaults`
unfoldable pub with_defaults : SchedulerConfig → SchedulerConfig
with_defaults c = record {
  promote_interval = or_else_default c.promote_interval (pos second);
  reclaim_interval = or_else_default c.reclaim_interval (pos (30 * second));
  janitor_interval = or_else_default c.janitor_interval (pos (60 * second));
  metrics_interval = or_else_default c.metrics_interval (pos (5 * second));
  batch_limit = or_else_default c.batch_limit (pos 500);
}

-- The four sweeps that Start spawns.
pub data Sweep : Type 0 where
  promote_sweep reclaim_sweep janitor_sweep metrics_sweep : Sweep

-- promoteDue, reclaimExpired, purgeCompleted and sampleQueueDepth.
unfoldable pub sweep_queue : SchedulerConfig → (Text → Time) → Sweep → Text → Store → Store
sweep_queue c clock promote_sweep queue s = (promote_due queue (clock queue) c.batch_limit s).1
sweep_queue c clock reclaim_sweep queue s = (reclaim_expired queue (clock queue) c.batch_limit s).1
sweep_queue c clock janitor_sweep queue s = (purge_completed queue c.batch_limit s).1
sweep_queue c clock metrics_sweep queue s = s

-- The loop of `runSweep`.
unfoldable pub sweep_queues : (Text → Store → Store) → List Queue → Store → Store
sweep_queues sweep [] s = s
sweep_queues sweep (q ∷ qs) s = sweep_queues sweep qs (sweep q.name s)

-- `runSweep`
unfoldable pub run_sweep : SchedulerConfig → (Text → Time) → Sweep → Store → Store
unfolding sweep_queues
run_sweep c clock kind s = sweep_queues (sweep_queue c clock kind) (list_all s) s
