-- ===== src/Scheduler/Promotion.antt =====
-- What one tick of the promotion sweep leaves behind.
use goqueue.Base.{
  length, All, pos_part, Text, suc, ◌≤◌, ◌≡◌, refl, ap, inl, inr, false, Option, some, List, [],
  ◌∷◌, arith,
}
use goqueue.Job.{Time, Job}
use goqueue.Queue.{Queue}
use goqueue.Store.Defs.{Store}
use goqueue.Store.Broker.{promote_due}
use goqueue.Store.Queues.{list_all}
use goqueue.Store.Sweeps.{
  Swept, is_waiting_due, promoted, moved_if, promote_due-Swept, promote_due_roomy,
}
use goqueue.Scheduler.{SchedulerConfig, promote_sweep, sweep_queue, sweep_queues, run_sweep}

Swept-length :
    (step : Job → Option Job) (js ks : List Job) → Swept step js ks → length ks ≡ length js
Swept-length step [] [] w = refl
Swept-length step [] (k ∷ ks) w = absurd w
Swept-length step (j ∷ js) [] w = absurd w
Swept-length step (j ∷ js) (k ∷ ks) w = ap suc (Swept-length step js ks w.1)

-- No job of the queue is waiting and due.
abbrev pub CaughtUp : Text → Time → List Job → Type 0
CaughtUp queue now js = All (λ j. is_waiting_due queue now j ≡ false) js

promoted_not_waiting :
    (queue other : Text) (now later : Time) (j k : Job)
    → moved_if (is_waiting_due other later) (λ i. promoted i later) j ≡ some k
    → is_waiting_due queue now k ≡ false
promoted_not_waiting queue other now later j k h = ground arith

-- A promotion in any queue leaves a queue caught up that was so.
Swept-CaughtUp :
    (queue other : Text) (now later : Time) (js ks : List Job)
    → Swept (moved_if (is_waiting_due other later) (λ i. promoted i later)) js ks
    → CaughtUp queue now js
    → CaughtUp queue now ks
Swept-CaughtUp queue other now later [] [] w c = tt
Swept-CaughtUp queue other now later [] (k ∷ ks) w c = absurd w
Swept-CaughtUp queue other now later (j ∷ js) [] w c = absurd w
Swept-CaughtUp queue other now later (j ∷ js) (k ∷ ks) (inl e, w) c =
    (rw e c.0, Swept-CaughtUp queue other now later js ks w c.1)
Swept-CaughtUp queue other now later (j ∷ js) (k ∷ ks) (inr e, w) c = (
  promoted_not_waiting queue other now later j k e,
  Swept-CaughtUp queue other now later js ks w c.1,
)

module _ (c : SchedulerConfig) (clock : Text → Time) where
  -- The store after the sweep of one queue.
  abbrev swept_once : Queue → Store → Store
  swept_once q s = (promote_due q.name (clock q.name) c.batch_limit s).1

  swept_once-length : (q : Queue) (s : Store) → length (swept_once q s).jobs ≡ length s.jobs
  swept_once-length q s =
      Swept-length _ s.jobs (swept_once q s).jobs
        (promote_due-Swept q.name (clock q.name) c.batch_limit s).1

  sweeps-CaughtUp :
      (queue : Text) (now : Time) (qs : List Queue) (s : Store)
      → CaughtUp queue now s.jobs
      → CaughtUp queue now (sweep_queues (sweep_queue c clock promote_sweep) qs s).jobs
  unfolding sweep_queues sweep_queue
  sweeps-CaughtUp queue now [] s h = h
  sweeps-CaughtUp queue now (q ∷ qs) s h = sweeps-CaughtUp queue now qs (swept_once q s) (
      Swept-CaughtUp queue q.name now (clock q.name) s.jobs (swept_once q s).jobs
        (promote_due-Swept q.name (clock q.name) c.batch_limit s).1 h)

  loop-CaughtUp :
      (qs : List Queue) (s : Store)
      → length s.jobs ≤ pos_part c.batch_limit
      → All
          (λ q.
            CaughtUp q.name
              (clock q.name)
              (sweep_queues (sweep_queue c clock promote_sweep) qs s).jobs)
          qs
  unfolding sweep_queues sweep_queue
  loop-CaughtUp [] s room = tt
  loop-CaughtUp (q ∷ qs) s room = (
    sweeps-CaughtUp q.name (clock q.name) qs (swept_once q s)
        (promote_due_roomy q.name (clock q.name) c.batch_limit s room),
    loop-CaughtUp qs (swept_once q s) (omega (arith, swept_once-length q s, room)),
  )

-- One tick of the promotion sweep, with a batch limit of at least the number of stored jobs, leaves no
-- job waiting in any registered queue whose time had come when the sweep read the clock for that queue.
pub run_sweep-CaughtUp :
    (c : SchedulerConfig) (clock : Text → Time) (s : Store)
    → length s.jobs ≤ pos_part c.batch_limit
    → All
        (λ q. CaughtUp q.name (clock q.name) (run_sweep c clock promote_sweep s).jobs)
        (list_all s)
unfolding run_sweep
run_sweep-CaughtUp c clock s room = loop-CaughtUp c clock (list_all s) s room
