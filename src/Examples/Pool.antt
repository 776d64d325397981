-- ===== src/Examples/Pool.antt =====
-- The theorems on the worker pool and the configuration at concrete inputs.
use goqueue.Base.{
  length, replicate, pos, pos_part, sum_by, ℕ, ◌*◌, ◌≤◌, ◌≡◌, refl, ◌≢◌, ◌↔◌, ◌⊎◌, true, false,
  none, some, List, [], ◌∷◌, ◌++◌,
}
use goqueue.Errors.{Result, ok}
use goqueue.Examples.{sample_queue}
use goqueue.Queue.{Queue}
use goqueue.Queue.Order.{appearances}
use goqueue.Worker.{
  PoolConfig, pool_defaults, Pc, checking, dequeuing, processing, Worker, Pool, new_pool, launched,
  start_pool,
}
use goqueue.Worker.Loop.{Services, after_dequeue, advance, advanced, PoolRun, no_steps, then_step}
use goqueue.Worker.Shutdown.{running, AllStopped, CanStep, cancelled_pool_drains}
use goqueue.Worker.Starting.{configured_share, start_pool_lem}
use goqueue.Config.{AppConfig, default_config, Environment, apply_env, load, get_worker_pool_config}
use goqueue.Config.Valid.{IsUsable, load_iff}

-- A store that is a list of jobs, which are numbers; Dequeue takes the first, and Process drops it.
abbrev list_services : Services (List ℕ) ℕ
list_services = record {
  dequeue = λ order s. elim s [ [] ↦ (ok none, []) | j ∷ js ↦ (ok (some j), js) ];
  process = λ j s. s;
}

abbrev told_to_stop : Pc ℕ → Worker ℕ
told_to_stop pc = record { pc = pc; cancelled = true }

-- Two workers, one about to ask for a job, of a pool that is told to stop.
abbrev stopping : Pool ℕ
stopping = record {
  workers = told_to_stop dequeuing ∷ told_to_stop checking ∷ [];
  dequeue_order = sample_queue ∷ [];
  active_jobs = 0;
  started = true;
}

abbrev still_working : Pool ℕ
still_working = record stopping {
  workers = told_to_stop (processing 7) ∷ told_to_stop checking ∷ [];
  active_jobs = 1;
}

one_claim : PoolRun list_services 1 stopping (7 ∷ []) still_working []
unfolding advance after_dequeue
one_claim =
    then_step
      (advanced [] (told_to_stop checking ∷ []) (told_to_stop dequeuing) true refl (λ h. cc h)
        (λ a b. refl))
      no_steps

drains_example :
    (1 ≤ 3 * length stopping.workers)
    × (still_working.active_jobs ≡ running still_working.workers)
    × (CanStep list_services still_working []
        ⊎ (AllStopped list_services still_working.workers × (still_working.active_jobs ≡ 0)))
drains_example = cancelled_pool_drains list_services one_claim (refl, (refl, tt)) refl

abbrev small_pool : PoolConfig
small_pool = pool_defaults (record {
  concurrency = pos 2;
  queues = (sample_queue, 3) ∷ [];
  poll_interval = pos 0;
  shutdown_timeout = pos 0;
  lease_duration = pos 0;
})

-- A repository that keeps the queues in a list.
abbrev keep_queue : Queue → List Queue → Result (Unit {0}) × List Queue
keep_queue q qs = (ok tt, q ∷ qs)

-- A pool that a Stop left with a worker still at its job.
abbrev left_over : Pool ℕ
left_over = record (new_pool ℕ) { workers = told_to_stop (processing 7) ∷ []; active_jobs = 1 }

start_example :
    (left_over.started ≡ true → (start_pool keep_queue small_pool left_over []).1 ≡ (left_over, []))
    × ((start_pool keep_queue small_pool left_over []).0 ≡ ok tt
        → (left_over.started ≡ false)
          × ((start_pool keep_queue small_pool left_over []).1.0.started ≡ true)
          × ((start_pool keep_queue small_pool left_over []).1.0.workers
              ≡ left_over.workers ++ replicate (pos_part small_pool.concurrency) (launched ℕ))
          × ((start_pool keep_queue small_pool left_over []).1.0.active_jobs
              ≡ left_over.active_jobs)
          × (appearances sample_queue
                (start_pool keep_queue small_pool left_over []).1.0.dequeue_order
              ≡ sum_by (configured_share sample_queue) small_pool.queues)
          × ((start_pool keep_queue small_pool left_over []).1.0.dequeue_order ≢ []))
start_example = start_pool_lem keep_queue small_pool left_over [] sample_queue

-- An environment in which nothing is set.
abbrev bare : Environment
bare = record { getenv = λ key. []; atoi = λ t. none; parse_bool = λ t. none }

load_example :
    ((load bare (ok default_config) ≡ ok (apply_env bare default_config))
      ↔ IsUsable (apply_env bare default_config))
    × ((c : AppConfig)
        → load bare (ok default_config) ≡ ok c
        → c.worker.enabled ≡ true
        → ((pool_defaults (get_worker_pool_config c)).concurrency ≡ c.worker.concurrency)
          × ((pool_defaults (get_worker_pool_config c)).queues ≡ c.worker.queues))
load_example = load_iff bare default_config
