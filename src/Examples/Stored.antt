-- ===== src/Examples/Stored.antt =====
-- The theorems on the store at the samples.
use goqueue.Examples.{
  sample_queue, sample_id, sample_worker, sample_key, pending_job, active_job,
  pending_job-WellFormed, sample_queues, sample_store, sample_poll,
}
use goqueue.Base.{
  if◌then◌else◌, count_if, All, pos, Text, is_empty, text_eq, text_eq-eq, sum_by, ℕ, ◌≤◌, ◌<◌, ◌≡◌,
  refl, ◌⊎◌, false, ◌&&◌, not, none, some, List, [], ◌∷◌, map, arith,
}
use goqueue.Errors.{ok}
use goqueue.Job.{Job}
use goqueue.Job.Lifecycle.{lease}
use goqueue.Queue.{Queue, active_queues, build_dequeue_order}
use goqueue.Queue.Ranking.{Ranked, counted}
use goqueue.Store.Ranks.{choose-Ranked}
use goqueue.Queue.Order.{named}
use goqueue.Store.Defs.{Store, new_store, lookup_job, put_job, lookup_claim}
use goqueue.Store.Repo.{find_by_id, delete}
use goqueue.Store.Broker.{choose, dequeue, promote_due, reclaim_expired}
use goqueue.Store.Queues.{stats_for}
use goqueue.Store.Maps.{Unique}
use goqueue.Store.Serving.{Skipped, Served, dequeue_serves}
use goqueue.Store.Workers.{handed_out, handed_out-Unique}
use goqueue.Store.Fairness.{SameJobs, choose-SameJobs}
use goqueue.Store.Sweeps.{
  capped, is_waiting_due, promoted, move_first, promote_due_lem, is_lapsed, reclaimed,
  reclaim_expired_lem,
}
use goqueue.Store.Depth.{IsDepth, stats_for-IsDepth}
use goqueue.Store.Records.{delete_lem}
use goqueue.Store.Validity.{IsValid}
use goqueue.Store.History.{
  Request, saves, deletes, dequeues, reclaims, serve_all, IsSound, serve_all-IsValid,
}

dequeue_example :
    (All (Skipped sample_store) (sample_queue ∷ [])
      × (dequeue (sample_queue ∷ []) sample_worker (pos 1_000_000_000) (pos 2_000) sample_store
          ≡ (ok none, sample_store)))
    ⊎ ((b : Job) × (k : Job) × Served (sample_queue ∷ []) sample_store b
        × (lease b sample_worker (pos 2_000) (pos 1_000_000_000) ≡ ok k)
        × (dequeue (sample_queue ∷ []) sample_worker (pos 1_000_000_000) (pos 2_000) sample_store
            ≡ (ok (some k), record sample_store { jobs = put_job k sample_store.jobs })))
dequeue_example =
    dequeue_serves (sample_queue ∷ []) sample_worker (pos 1_000_000_000) (pos 2_000) sample_store
      refl refl

abbrev second_job : Job
second_job = record pending_job { id = 51 ∷ [] }

abbrev busy_store : Store
busy_store = record sample_store { jobs = pending_job ∷ second_job ∷ [] }

sample_store-Unique : Unique sample_store.jobs
unfolding text_eq
sample_store-Unique = ground arith

busy_store-Unique : Unique busy_store.jobs
unfolding text_eq
busy_store-Unique = ground arith

abbrev half_busy : Store
half_busy = record busy_store { jobs = active_job ∷ second_job ∷ [] }

handed_out_example : Unique (handed_out (sample_poll ∷ sample_poll ∷ []) busy_store)
handed_out_example = handed_out-Unique (sample_poll ∷ sample_poll ∷ []) busy_store busy_store-Unique

swapped : SameJobs busy_store.jobs (second_job ∷ pending_job ∷ [])
swapped j = (ground arith, ground arith)

iteration_example :
    choose (sample_queue ∷ []) busy_store
    ≡ choose (sample_queue ∷ []) (record busy_store { jobs = second_job ∷ pending_job ∷ [] })
iteration_example =
    choose-SameJobs (sample_queue ∷ []) busy_store (second_job ∷ pending_job ∷ []) busy_store-Unique
      swapped

distinct_sample_queues : (n : Text) → sum_by (counted (named n)) sample_queues ≤ 1
distinct_sample_queues n = ground (arith, text_eq-eq (97 ∷ []) n, text_eq-eq (98 ∷ []) n)

weighted_sample_queues : All (λ q. 0 < q.weight) (active_queues sample_queues)
unfolding active_queues
weighted_sample_queues = ground arith

rank_example :
    (ranked : List Queue) × (choose (build_dequeue_order sample_queues) sample_store
      ≡ choose (map (λ q. q.name) ranked) sample_store)
    × Ranked ranked
    × ((f : Queue → ℕ) → sum_by f ranked ≡ sum_by (counted f) sample_queues)
rank_example =
    choose-Ranked sample_queues sample_store distinct_sample_queues weighted_sample_queues

promote_due_example : promote_due sample_queue (pos 6_000) (pos 10) sample_store ≡ (
  capped (pos 10) (count_if (is_waiting_due sample_queue (pos 6_000)) sample_store.jobs),
  record sample_store {
    jobs =
        move_first
          (is_waiting_due sample_queue (pos 6_000))
          (λ j. promoted j (pos 6_000))
          (capped (pos 10) (count_if (is_waiting_due sample_queue (pos 6_000)) sample_store.jobs))
          sample_store.jobs;
  },
)
promote_due_example = promote_due_lem sample_queue (pos 6_000) (pos 10) sample_store

reclaim_example : reclaim_expired sample_queue (pos 40_000_000_000) (pos 10) half_busy ≡ (
  capped (pos 10) (count_if (is_lapsed sample_queue (pos 40_000_000_000)) half_busy.jobs),
  record half_busy {
    jobs =
        move_first
          (is_lapsed sample_queue (pos 40_000_000_000))
          (λ j. reclaimed j (pos 40_000_000_000))
          (capped (pos 10) (count_if (is_lapsed sample_queue (pos 40_000_000_000)) half_busy.jobs))
          half_busy.jobs;
  },
)
reclaim_example = reclaim_expired_lem sample_queue (pos 40_000_000_000) (pos 10) half_busy

snapshot_example : IsDepth sample_queue half_busy.jobs (stats_for sample_queue half_busy)
snapshot_example = stats_for-IsDepth sample_queue half_busy

abbrev claimed_store : Store
claimed_store = record sample_store { claims = (sample_key, sample_id) ∷ [] }

found_sample : find_by_id pending_job.id claimed_store ≡ ok pending_job
unfolding find_by_id lookup_job text_eq
found_sample = refl

other_sample : text_eq pending_job.id (50 ∷ []) ≡ false
unfolding text_eq
other_sample = refl

delete_example :
    ((delete sample_id claimed_store).0 ≡ ok tt)
    × (lookup_job sample_id (delete sample_id claimed_store).1.jobs ≡ none)
    × (find_by_id (50 ∷ []) (delete sample_id claimed_store).1 ≡ find_by_id (50 ∷ []) claimed_store)
    × (lookup_claim sample_key (delete sample_id claimed_store).1.claims ≡ (
        if not (is_empty sample_key) && text_eq sample_key sample_key
        then none
        else lookup_claim sample_key claimed_store.claims))
    × ((delete sample_id claimed_store).1.queues ≡ claimed_store.queues)
delete_example =
    delete_lem pending_job (50 ∷ []) sample_key claimed_store sample_store-Unique found_sample
      other_sample

abbrev sample_requests : List Request
sample_requests =
    saves pending_job
    ∷ dequeues sample_poll
    ∷ reclaims sample_queue (pos 40_000_000_000) (pos 0)
    ∷ deletes sample_id
    ∷ []

reclaim_time : IsSound (reclaims sample_queue (pos 40_000_000_000) (pos 0))
reclaim_time = λ h. ground arith

empty_store-IsValid : IsValid new_store
empty_store-IsValid = record { unique = tt; well_formed = tt }

history_example : IsValid (serve_all sample_requests new_store)
history_example =
    serve_all-IsValid sample_requests new_store
      (pending_job-WellFormed, (tt, (reclaim_time, (tt, tt)))) empty_store-IsValid
