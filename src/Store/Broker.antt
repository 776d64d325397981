-- ===== src/Store/Broker.antt =====
-- The methods of IJobBroker. `time.Now()`, which the fake's Dequeue reads, is an argument.
use goqueue.Base.{
  ltb, ◌==◌, if◌then◌else◌, ℤ, ltb_ℤ, eq_ℤ, Text, bytes, text_eq, text_lt, ℕ, ◌+◌, Bool, false,
  ◌&&◌, ◌||◌, not, Option, none, some, List, [], ◌∷◌,
}
use goqueue.Errors.{conflict_error, Result, ok, err}
use goqueue.Values.States.{scheduled, pending, retrying, state_eq}
use goqueue.Retry.{Duration}
use goqueue.Job.{Time, Job, is_lease_expired, is_due}
use goqueue.Job.Lifecycle.{promote, lease, reclaim_expired_lease}
use goqueue.Queue.{Queue}
use goqueue.Store.Defs.{Store, Reply, lookup_job, put_job, lookup_queue, take_failure}
use goqueue.Store.Repo.{save, reached, in_front}

-- Enqueue, Schedule, Complete, Retry, Kill and Requeue store the job; the deadline and the retry time that
-- two of them are given go unused.
unfoldable pub enqueue : Job → Store → Reply (Unit {0})
unfolding save
enqueue = save

unfoldable pub schedule : Job → Store → Reply (Unit {0})
unfolding save
schedule = save

unfoldable pub store_complete : Job → Duration → Store → Reply (Unit {0})
unfolding save
store_complete job retain_for = save job

unfoldable pub store_retry : Job → Time → Store → Reply (Unit {0})
unfolding save
store_retry job retry_at = save job

unfoldable pub store_kill : Job → Store → Reply (Unit {0})
unfolding save
store_kill = save

unfoldable pub store_requeue : Job → Store → Reply (Unit {0})
unfolding save
store_requeue = save

-- Higher priority first, then the earlier due time, then the smaller id.
unfoldable pub beats : Job → Job → Bool
beats candidate current =
    if not (candidate.priority == current.priority)
    then ltb current.priority candidate.priority
    else if not (eq_ℤ candidate.process_at current.process_at)
    then ltb_ℤ candidate.process_at current.process_at
    else text_lt candidate.id current.id

-- A job that `Dequeue` may take from a queue.
unfoldable pub is_eligible : Text → Job → Bool
is_eligible queue j = text_eq j.queue queue && state_eq j.state pending

-- The test of the inner loop for a new best job.
abbrev pub improves : Text → Option Job → Job → Bool
improves queue none j = is_eligible queue j
improves queue (some best) j = is_eligible queue j && beats j best

unfoldable pub best_from : Text → Option Job → List Job → Option Job
best_from queue best [] = best
best_from queue best (j ∷ js) = best_from queue (if improves queue best j then some j else best) js

abbrev pub is_paused_queue : Text → List Queue → Bool
is_paused_queue name qs = elim (lookup_queue name qs) [ none ↦ false | some q ↦ q.paused ]

-- The job that the loop over the polling order settles on.
unfoldable pub choose : List Text → Store → Option Job
choose [] s = none
choose (queue ∷ order) s =
    let later = choose order s in
    if is_paused_queue queue s.queues
    then later
    else elim (best_from queue none s.jobs) [ none ↦ later | some j ↦ some j ]

-- The lease of the job that was chosen, in the store.
unfoldable pub claim_job : Option Job → Text → Duration → Time → Store → Reply (Option Job)
claim_job none worker lease_for now s = (ok none, s)
claim_job (some best) worker lease_for now s = elim (lease best worker now lease_for) [
  | err e ↦ (err e, s)
  | ok leased ↦ (ok (some leased), record s { jobs = put_job leased s.jobs })
]

unfoldable pub dequeue : List Text → Text → Duration → Time → Store → Reply (Option Job)
unfolding take_failure claim_job
dequeue order worker lease_for now s =
    let (failure, s') = take_failure s in
    elim failure [
      | some e ↦ (err e, s')
      | none ↦ claim_job (choose order s') worker lease_for now s'
    ]

-- A sweep over the jobs: `step` says what becomes of a job that it picks, `none` that it is left alone.
unfoldable pub sweep_loop : (Job → Option Job) → ℤ → ℕ → List Job → List Job × ℕ
sweep_loop step limit done [] = ([], done)
sweep_loop step limit done (j ∷ js) =
    let moved = sweep_loop step limit (done + 1) js in
    let left = sweep_loop step limit done js in
    if reached limit done
    then (j ∷ js, done)
    else elim (step j) [ none ↦ in_front j left | some k ↦ in_front k moved ]

abbrev pub on_ok : Result Job → Option Job
on_ok (ok k) = some k
on_ok (err e) = none

-- What PromoteDue does with one job.
unfoldable pub promote_step : Text → Time → Job → Option Job
promote_step queue now j =
    if not (text_eq j.queue queue)
      || not (state_eq j.state scheduled) && not (state_eq j.state retrying)
      || not (is_due j now)
    then none
    else on_ok (promote j now)

unfoldable pub promote_due : Text → Time → ℤ → Store → ℕ × Store
unfolding sweep_loop
promote_due queue now limit s =
    let (jobs, moved) = sweep_loop (promote_step queue now) limit 0 s.jobs in
    (moved, record s { jobs = jobs })

-- What ReclaimExpired does with one job.
unfoldable pub reclaim_step : Text → Time → Job → Option Job
reclaim_step queue now j =
    if not (text_eq j.queue queue) || not (is_lease_expired j now)
    then none
    else on_ok (reclaim_expired_lease j now)

unfoldable pub reclaim_expired : Text → Time → ℤ → Store → ℕ × Store
unfolding sweep_loop
reclaim_expired queue now limit s =
    let (jobs, reclaimed) = sweep_loop (reclaim_step queue now) limit 0 s.jobs in
    (reclaimed, record s { jobs = jobs })

unfoldable pub extend_lease : Text → Store → Result (Unit {0})
extend_lease id s = elim (lookup_job id s.jobs) [
  | none ↦ err (conflict_error (bytes "lease_lost") (bytes "job is no longer active"))
  | some j ↦ ok tt
]
