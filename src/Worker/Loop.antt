-- ===== src/Worker/Loop.antt =====
-- `run` and `sleep` of pool.go: one worker, step by step. The broker's Dequeue and the processor's Process are
-- parameters; the error of Process is only logged.
use goqueue.Base.{
  if◌then◌else◌, Text, ℕ, ◌+◌, ◌-◌, ◌≡◌, ◌≢◌, Bool, true, false, Option, none, some, List, ◌∷◌,
  ◌++◌,
}
use goqueue.Errors.{Result, ok, err}
use goqueue.Worker.{Pc, checking, dequeuing, sleeping, stopped, processing, Worker, Pool}

-- Dequeue in the order of the pool, and Process.
pub record Services (S J : Type 0) : Type 0 where
  pub dequeue : List Text → S → Result (Option J) × S
  pub process : J → S → S

-- What the worker does after Dequeue: an error ends it if the context is cancelled by then.
unfoldable pub after_dequeue : {J : Type 0} → Bool → Result (Option J) → Pc J
after_dequeue cancelled (err e) = if cancelled then stopped else sleeping
after_dequeue cancelled (ok none) = sleeping
after_dequeue cancelled (ok (some job)) = processing job

-- What is added to and taken from `activeJobs`.
abbrev pub entering : {J : Type 0} → Pc J → ℕ
entering (processing job) = 1
entering _ = 0

module _ {S J : Type 0} (services : Services S J) where
  -- One step of a worker: where it stands then, the store, and the count of active jobs. The timer says whether
  -- the timer of `sleep` has fired; when the context is cancelled too, `select` takes either branch.
  unfoldable pub advance : List Text → Bool → Bool → Pc J → ℕ → S → Pc J × (ℕ × S)
  unfolding after_dequeue
  advance order cancelled timer checking n s = (if cancelled then stopped else dequeuing, (n, s))
  advance order cancelled timer dequeuing n s =
      let (reply, s') = services.dequeue order s in
      let next_pc = after_dequeue cancelled reply in (next_pc, (n + entering next_pc, s'))
  advance order cancelled timer (processing job) n s = (checking, (n - 1, services.process job s))
  advance order cancelled timer sleeping n s =
      (if timer then checking else if cancelled then stopped else sleeping, (n, s))
  advance order cancelled timer stopped n s = (stopped, (n, s))

  -- A step of some worker that has not returned. A sleeping worker waits for its timer or for the
  -- cancellation.
  pub data PoolStep (p : Pool J) (s : S) : Pool J → S → Type 0 where
    advanced :
        (before later : List (Worker J)) (w : Worker J) (timer : Bool)
        → p.workers ≡ before ++ w ∷ later
        → w.pc ≢ stopped
        → (w.pc ≡ sleeping → (timer ≡ false) → w.cancelled ≡ true)
        → PoolStep p s
            (record p {
              workers =
                  before
                  ++ record w {
                    pc = (advance p.dequeue_order w.cancelled timer w.pc p.active_jobs s).0;
                  }
                    ∷ later;
              active_jobs = (advance p.dequeue_order w.cancelled timer w.pc p.active_jobs s).1.0;
            })
            (advance p.dequeue_order w.cancelled timer w.pc p.active_jobs s).1.1

  -- So many steps.
  pub data PoolRun : ℕ → Pool J → S → Pool J → S → Type 0 where
    no_steps : {p : Pool J} {s : S} → PoolRun 0 p s p s
    then_step :
        {n : ℕ} {p p' p'' : Pool J} {s s' s'' : S}
        → PoolStep p s p' s'
        → PoolRun n p' s' p'' s''
        → PoolRun (n + 1) p s p'' s''
