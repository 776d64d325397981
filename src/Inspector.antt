-- ===== src/Inspector.antt =====
-- pkg/application/inspector/service.go: the read and operate side of the API, over the store of
-- fake.go. A method that changes the store returns it; the response of an action is the job, of which
-- hydrator and contracts show parts. What is logged is left out.
pub mod Actions
pub mod Bulk
use goqueue.Base.{
  if◌then◌else◌, ℤ, pos, Text, bytes, is_empty, ℕ, ◌+◌, Bool, Option, none, some, List, [], ◌∷◌,
}
use goqueue.Errors.{Result, ok, err, ◌>>=◌, ◌>>◌}
use goqueue.Values.States.{
  JobState, scheduled, pending, active, retrying, completed, dead, new_job_state,
}
use goqueue.Values.Names.{new_job_id, new_queue_name, new_task_type}
use goqueue.Job.{Time, Job}
use goqueue.Job.Lifecycle.{kill, requeue}
use goqueue.Queue.{Stats}
use goqueue.Store.Defs.{Store, Reply}
use goqueue.Store.Repo.{find_by_id, JobFilter, JobPage, page_limit, list_jobs, delete}
use goqueue.Store.Broker.{store_kill, store_requeue}
use goqueue.Store.Queues.{find_by_name, set_paused, stats_all}

abbrev pub max_bulk_retry : ℕ
max_bulk_retry = 1000

-- `GetJob`
unfoldable pub get_job : Text → Store → Result Job
get_job raw_id s = do id ← new_job_id raw_id; find_by_id id s

-- pkg/contracts/job/list_jobs.go
pub record ListJobsQuery : Type 0 where
  pub query_queue : Text
  pub query_state : Text
  pub query_task_type : Text
  pub query_offset : ℤ
  pub query_limit : ℤ

-- A part of the query that is left out matches everything.
abbrev optional_text : Text → (Text → Result Text) → Result Text
optional_text raw parse = if is_empty raw then ok [] else parse raw

abbrev given_state : Result JobState → Result (Option JobState)
given_state (ok state) = ok (some state)
given_state (err e) = err e

abbrev optional_state : Text → Result (Option JobState)
optional_state raw = if is_empty raw then ok none else given_state (new_job_state raw)

-- `toFilter`
unfoldable pub to_filter : ListJobsQuery → Result JobFilter
to_filter query = do
  queue ← optional_text query.query_queue new_queue_name
  state ← optional_state query.query_state
  task_type ← optional_text query.query_task_type new_task_type
  ok (record {
    filter_queue = queue;
    filter_state = state;
    filter_task_type = task_type;
    offset = query.query_offset;
    limit = page_limit query.query_limit;
  })

-- `ListJobs`; a panic of List is `none`.
unfoldable pub list_by_query : ListJobsQuery → Store → Result (Option JobPage)
unfolding to_filter
list_by_query query s = do filter ← to_filter query; ok (list_jobs filter s)

-- What `RetryJob` and `KillJob` do once the aggregate has changed: the job is stored.
abbrev pub write_back : (Job → Store → Reply (Unit {0})) → Result Job → Store → Reply Job
write_back write (err e) s = (err e, s)
write_back write (ok k) s =
    let (r, s') = write k s in elim r [ err e ↦ (err e, s') | ok u ↦ (ok k, s') ]

-- The job that `RetryJob` found, after the transition.
unfoldable pub retry_found : Text → Time → Store → Result Job
retry_found raw_id now s = do id ← new_job_id raw_id; job ← find_by_id id s; requeue job now

-- `RetryJob`
unfoldable pub retry_job : Text → Time → Store → Reply Job
unfolding retry_found
retry_job raw_id now s = write_back store_requeue (retry_found raw_id now s) s

-- The job that `KillJob` found, after the transition.
unfoldable pub kill_found : Text → Time → Store → Result Job
kill_found raw_id now s = do
  id ← new_job_id raw_id
  job ← find_by_id id s
  kill job (bytes "killed by operator") now

-- `KillJob`
unfoldable pub kill_job : Text → Time → Store → Reply Job
unfolding kill_found
kill_job raw_id now s = write_back store_kill (kill_found raw_id now s) s

-- `DeleteJob`
unfoldable pub delete_by_id : Text → Store → Reply (Unit {0})
delete_by_id raw_id s = elim (new_job_id raw_id) [ err e ↦ (err e, s) | ok id ↦ delete id s ]

-- One round of the loop of `RetryAllDead`: a job that cannot be requeued or stored is skipped.
unfoldable pub retry_one : Time → Job → Store → ℕ × Store
retry_one now job s = elim (requeue job now) [
  | err e ↦ (0, s)
  | ok k ↦ let (r, s') = store_requeue k s in elim r [ err e ↦ (0, s') | ok u ↦ (1, s') ]
]

-- How many jobs the loop requeued, and the store.
unfoldable pub retry_loop : Time → List Job → Store → ℕ × Store
retry_loop now [] s = (0, s)
retry_loop now (j ∷ js) s =
    let (done, s') = retry_one now j s in let (n, t) = retry_loop now js s' in (done + n, t)

abbrev pub dead_filter : Text → JobFilter
dead_filter queue = record {
  filter_queue = queue;
  filter_state = some dead;
  filter_task_type = [];
  offset = pos 0;
  limit = pos max_bulk_retry;
}

-- `RetryAllDead`; `none` would be a panic of List.
unfoldable pub retry_all_dead : Text → Time → Store → Result (Option ℕ) × Store
unfolding retry_loop
retry_all_dead raw_queue now s = elim (new_queue_name raw_queue) [
  | err e ↦ (err e, s)
  | ok queue ↦ elim (list_jobs (dead_filter queue) s) [
    | none ↦ (ok none, s)
    | some page ↦ let (n, t) = retry_loop now page.page_jobs s in (ok (some n), t)
  ]
]

-- `SetQueuePaused`
unfoldable pub set_queue_paused : Text → Bool → Store → Reply Text
set_queue_paused raw_queue paused s = elim (new_queue_name raw_queue) [
  | err e ↦ (err e, s)
  | ok queue ↦ elim (find_by_name queue s) [
    | err e ↦ (err e, s)
    | ok q ↦
        let (r, s') = set_paused queue paused s in
        elim r [ err e ↦ (err e, s') | ok u ↦ (ok queue, s') ]
  ]
]

-- The totals of `ToListQueueStatsRes` in pkg/hydrator/job_hydrator.go.
pub record Totals : Type 0 where
  pub all_pending : ℕ
  pub all_active : ℕ
  pub all_scheduled : ℕ
  pub all_retrying : ℕ
  pub all_completed : ℕ
  pub all_dead : ℕ

abbrev pub no_totals : Totals
no_totals = record {
  all_pending = 0;
  all_active = 0;
  all_scheduled = 0;
  all_retrying = 0;
  all_completed = 0;
  all_dead = 0;
}

-- One round of the loop over the snapshots.
unfoldable pub add_stats : Totals → Stats → Totals
add_stats t s = record {
  all_pending = t.all_pending + s.pending;
  all_active = t.all_active + s.active;
  all_scheduled = t.all_scheduled + s.scheduled;
  all_retrying = t.all_retrying + s.retrying;
  all_completed = t.all_completed + s.completed;
  all_dead = t.all_dead + s.dead;
}

unfoldable pub roll_up : Totals → List Stats → Totals
roll_up t [] = t
roll_up t (s ∷ ss) = roll_up (add_stats t s) ss

unfoldable pub totals_backlog : Totals → ℕ
totals_backlog t = t.all_pending + t.all_active + t.all_scheduled + t.all_retrying

unfoldable pub totals_total : Totals → ℕ
totals_total t = totals_backlog t + t.all_completed + t.all_dead

-- `ListQueueStats`: the snapshots and their totals.
unfoldable pub list_queue_stats : Store → List Stats × Totals
unfolding stats_all roll_up
list_queue_stats s = let stats = stats_all s in (stats, roll_up no_totals stats)
