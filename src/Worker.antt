-- ===== src/Worker.antt =====
-- pkg/infrastructure/worker/pool.go: the pool of workers. Loop.antt has the goroutines. A map of the
-- configuration is the list of its entries in the order in which `range` visits them. The log and the
-- gauge of active workers are left out.
pub mod Loop
pub mod Shutdown
pub mod Starting
use goqueue.Base.{
  if◌then◌else◌, replicate, ℤ, pos, pos_part, ltb_ℤ, Text, bytes, ℕ, ◌*◌, Bool, true, false, Option,
  some, List, [], ◌∷◌, ◌++◌, map,
}
use goqueue.Errors.{invalid, conflict_error, Result, ok, err, ◌>>=◌, ◌>>◌}
use goqueue.Values.Codes.{no_queues_configured}
use goqueue.Values.Names.{default_queue_name, new_queue_name}
use goqueue.Values.Weights.{new_weight}
use goqueue.Retry.{Duration, second}
use goqueue.Queue.{Queue, new_queue, build_dequeue_order, dedupe}

pub record PoolConfig : Type 0 where
  pub concurrency : ℤ
  pub queues : List (Text × ℕ)
  pub poll_interval : Duration
  pub shutdown_timeout : Duration
  pub lease_duration : Duration

abbrev or_else_default : ℤ → ℤ → ℤ
or_else_default given fallback = if ltb_ℤ (pos 0) given then given else fallback

abbrev pub queues_or_default : List (Text × ℕ) → List (Text × ℕ)
queues_or_default [] = (default_queue_name, 1) ∷ []
queues_or_default (q ∷ qs) = q ∷ qs

-- `withDefaults`
unfoldable pub pool_defaults : PoolConfig → PoolConfig
pool_defaults c = record {
  concurrency = or_else_default c.concurrency (pos 10);
  queues = queues_or_default c.queues;
  poll_interval = or_else_default c.poll_interval (pos 500_000_000);
  shutdown_timeout = or_else_default c.shutdown_timeout (pos (30 * second));
  lease_duration = or_else_default c.lease_duration (pos (60 * second));
}

-- Where a worker stands: at the check of its context, at the call of Dequeue, inside Process with a
-- job, in `sleep`, or returned.
pub data Pc (J : Type 0) : Type 0 where
  checking dequeuing sleeping stopped : Pc J
  processing : J → Pc J

-- A worker: where it stands, and whether the context that it runs under is cancelled. Each Start makes a
-- context of its own for the workers that it launches.
pub record Worker (J : Type 0) : Type 0 where
  pub pc : Pc J
  pub cancelled : Bool

-- The pool: its workers, also those of earlier runs that a Stop has not waited for, `dequeueOrder`,
-- `activeJobs`, and `started`.
pub record Pool (J : Type 0) : Type 0 where
  pub workers : List (Worker J)
  pub dequeue_order : List Text
  pub active_jobs : ℕ
  pub started : Bool

-- `NewPool`
abbrev pub new_pool : (J : Type 0) → Pool J
new_pool J = record { workers = []; dequeue_order = []; active_jobs = 0; started = false }

-- A worker that Start launches.
abbrev pub launched : (J : Type 0) → Worker J
launched J = record { pc = checking; cancelled = false }

-- The queue of one entry of the configuration.
unfoldable pub configured_queue : Text × ℕ → Result Queue
configured_queue (raw_name, raw_weight) = do
  name ← new_queue_name raw_name
  weight ← new_weight raw_weight
  ok (new_queue name weight)

-- `register_queue` is Register of the queue repository.
module _ {S : Type 0} (register_queue : Queue → S → Result (Unit {0}) × S) where
  -- The loop of `registerQueues`; the first error ends it.
  unfoldable pub register_each : List (Text × ℕ) → S → Result (List (Option Queue)) × S
  unfolding configured_queue
  register_each [] s = (ok [], s)
  register_each (entry ∷ entries) s = elim (configured_queue entry) [
    | err e ↦ (err e, s)
    | ok queue ↦
        let (done, s') = register_queue queue s in
        let (rest, s'') = register_each entries s' in
        elim done [
          | err e ↦ (err e, s')
          | ok u ↦ (rest >>= λ queues. ok (some queue ∷ queues), s'')
        ]
  ]

  abbrev order_or_error : List Text → Result (List Text)
  order_or_error [] =
      err (invalid no_queues_configured (bytes "worker pool has no queues to drain"))
  order_or_error (q ∷ order) = ok (q ∷ order)

  -- `registerQueues`, which gives the polling order.
  unfoldable pub register_queues : List (Text × ℕ) → S → Result (List Text) × S
  unfolding register_each
  register_queues entries s =
      let (queues, s') = register_each entries s in
      (queues >>= λ qs. order_or_error (build_dequeue_order qs), s')

  -- `Start`: after a failed registration the pool is not started.
  unfoldable pub start_pool :
      {J : Type 0} → PoolConfig → Pool J → S → Result (Unit {0}) × (Pool J × S)
  unfolding register_queues
  start_pool {J} c p s =
      if p.started
      then (
        err (
            conflict_error (bytes "pool_already_started") (bytes "worker pool is already running")),
        (p, s),
      )
      else (let (order, s') = register_queues c.queues s in
          elim order [
            | err e ↦ (err e, (p, s'))
            | ok dequeue_order ↦ (
              ok tt,
              (
                record p {
                  workers = p.workers ++ replicate (pos_part c.concurrency) (launched J);
                  dequeue_order = dequeue_order;
                  started = true;
                },
                s',
              ),
            )
          ])

abbrev pub cancelled_worker : {J : Type 0} → Worker J → Worker J
cancelled_worker w = record w { cancelled = true }

-- The first half of `Stop`, which cancels the context of the run; those of the earlier runs were cancelled
-- by the Stop of each. On a pool that is not started Stop does nothing.
unfoldable pub cancel_pool : {J : Type 0} → Pool J → Pool J
cancel_pool p = if p.started then record p { workers = map cancelled_worker p.workers } else p

-- The second half, once every worker has returned or the shutdown timeout has passed.
unfoldable pub stopped_pool : {J : Type 0} → Pool J → Pool J
stopped_pool p = record p { started = false }

-- `Queues`
unfoldable pub pool_queues : {J : Type 0} → Pool J → List Text
pool_queues p = dedupe p.dequeue_order
