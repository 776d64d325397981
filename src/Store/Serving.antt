-- ===== src/Store/Serving.antt =====
-- What Dequeue serves, in terms of the stored jobs alone.
use goqueue.Base.{
  All, ◌≤ℤ◌, eq_ℤ_iff, Text, is_empty, text_eq, text_lt, All-map_mono, ◌≤◌, ◌≡◌, ◌⊎◌, inl, inr,
  true, false, none, some, List, [], ◌∷◌, arith,
}
use goqueue.Errors.{ok}
use goqueue.Values.States.{pending}
use goqueue.Retry.{Duration}
use goqueue.Job.{Time, Job}
use goqueue.Job.Lifecycle.{lease}
use goqueue.Store.Defs.{Store, put_job}
use goqueue.Store.Broker.{beats, is_eligible, is_paused_queue, dequeue}
use goqueue.Store.Maps.{Member}
use goqueue.Store.Choice.{IsBest, Idle, Chosen, NothingToDo}
use goqueue.Store.Dequeue.{dequeue_lem}

-- The job stands in the queue and is pending.
abbrev pub Waits : Text → Job → Type 0
Waits queue j = (text_eq j.queue queue ≡ true) × (j.state ≡ pending)

-- The first job has at least the priority of the second; with the same priority it is due no later;
-- and with the same due time, too, its id is not the larger one.
abbrev pub ServedBefore : Job → Job → Type 0
ServedBefore b j =
    (j.priority ≤ b.priority)
    × (j.priority ≡ b.priority
        → (b.process_at ≤ℤ j.process_at)
          × (b.process_at ≡ j.process_at → text_lt j.id b.id ≡ false))

-- The queue is paused, or no job waits in it.
abbrev pub Skipped : Store → Text → Type 0
Skipped s queue = (is_paused_queue queue s.queues ≡ true) ⊎ All (λ j. Waits queue j → ⊥) s.jobs

-- The job stands first in the first queue of the order that is not skipped.
abbrev pub Served : List Text → Store → Job → Type 0
Served [] s b = ⊥
Served (queue ∷ order) s b =
    ((is_paused_queue queue s.queues ≡ false)
      × Member b s.jobs
      × Waits queue b
      × All (λ j. Waits queue j → ServedBefore b j) s.jobs)
    ⊎ (Skipped s queue × Served order s b)

Waits-eligible : (queue : Text) (j : Job) → Waits queue j → is_eligible queue j ≡ true
unfolding is_eligible
Waits-eligible queue j w = ground arith

eligible-Waits : (queue : Text) (j : Job) → is_eligible queue j ≡ true → Waits queue j
unfolding is_eligible
eligible-Waits queue j h = ground arith

beats-ServedBefore : (b j : Job) → beats j b ≡ false → ServedBefore b j
unfolding beats
beats-ServedBefore b j h = ground (arith, eq_ℤ_iff j.process_at b.process_at)

Idle-Skipped : (queue : Text) (js : List Job) → Idle queue js → All (λ j. Waits queue j → ⊥) js
Idle-Skipped queue js idle =
    All-map_mono js (λ j e w. ground (arith, Waits-eligible queue j w)) idle

IsBest-Served :
    (queue : Text) (b : Job) (js : List Job)
    → IsBest queue b js
    → All (λ j. Waits queue j → ServedBefore b j) js
IsBest-Served queue b js best =
    All-map_mono js (λ j h w. beats-ServedBefore b j (h (Waits-eligible queue j w))) best.2

Chosen-Served : (order : List Text) (s : Store) (b : Job) → Chosen order s b → Served order s b
Chosen-Served [] s b c = absurd c
Chosen-Served (queue ∷ order) s b (inl (open_, best)) =
    inl (open_, best.0, eligible-Waits queue b best.1, IsBest-Served queue b s.jobs best)
Chosen-Served (queue ∷ order) s b (inr (inl paused, c)) =
    inr (inl paused, Chosen-Served order s b c)
Chosen-Served (queue ∷ order) s b (inr (inr idle, c)) =
    inr (inr (Idle-Skipped queue s.jobs idle), Chosen-Served order s b c)

NothingToDo-Skipped : (order : List Text) (s : Store) → NothingToDo order s → All (Skipped s) order
NothingToDo-Skipped [] s n = tt
NothingToDo-Skipped (queue ∷ order) s (inl paused, n) = (inl paused, NothingToDo-Skipped order s n)
NothingToDo-Skipped (queue ∷ order) s (inr idle, n) =
    (inr (Idle-Skipped queue s.jobs idle), NothingToDo-Skipped order s n)

-- Without an injected failure, and for a worker with a name: a dequeue skips every queue of the
-- polling order, each paused or without a pending job, and changes nothing; or it takes, from the first
-- queue that is not skipped, the pending job of the highest priority, of these one with the earliest
-- due time, of these the one with the smallest id, leases it to the worker, returns it, and stores it
-- as leased, and nothing else in the store changes.
pub dequeue_serves :
    (order : List Text) (worker : Text) (lease_for : Duration) (now : Time) (s : Store)
    → s.fail_next ≡ none
    → is_empty worker ≡ false
    → (All (Skipped s) order × (dequeue order worker lease_for now s ≡ (ok none, s)))
      ⊎ ((b : Job) × (k : Job) × Served order s b
          × (lease b worker now lease_for ≡ ok k)
          × (dequeue order worker lease_for now s
              ≡ (ok (some k), record s { jobs = put_job k s.jobs })))
dequeue_serves order worker lease_for now s quiet w =
    elim (dequeue_lem order worker lease_for now s quiet w) [
      | inl (n, e) ↦ inl (NothingToDo-Skipped order s n, e)
      | inr (b, k, c, l, e) ↦ inr (b, k, Chosen-Served order s b c, l, e)
    ]
