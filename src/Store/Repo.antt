-- ===== src/Store/Repo.antt =====
-- The methods of IJobRepo: Save, FindByID, List, Delete, PurgeCompleted.
use goqueue.Base.{
  if◌then◌else◌, length, take, drop, select, ℤ, pos, pos_part, ◌+ℤ◌, ltb_ℤ, eq_ℤ, wrap64, Text,
  bytes, is_empty, text_eq, text_lt, sort_by, ℕ, ◌+◌, ◌-◌, Bool, true, ◌&&◌, ◌||◌, not, Option,
  none, some, List, [], ◌∷◌, ◌++◌,
}
use goqueue.Errors.{not_found_error, Result, ok, err}
use goqueue.Values.Codes.{job_not_found}
use goqueue.Values.States.{JobState, completed, state_eq}
use goqueue.Job.{after, Job}
use goqueue.Store.Defs.{
  Store, Reply, lookup_job, put_job, delete_job, delete_claim, take_failure, ensure_queue,
}

unfoldable pub save : Job → Store → Reply (Unit {0})
unfolding take_failure
save job s =
    let (failure, s') = take_failure s in
    elim failure [
      | some e ↦ (err e, s')
      | none ↦ (
        ok tt,
        record s' { jobs = put_job job s'.jobs; queues = ensure_queue job.queue s'.queues },
      )
    ]

unfoldable pub find_by_id : Text → Store → Result Job
find_by_id id s = elim (lookup_job id s.jobs) [
  | none ↦ err (not_found_error job_not_found (bytes "no job found with id " ++ id))
  | some j ↦ ok j
]

-- JobFilter of pkg/domain/persistence/job_repo.go; the empty text and `none` match everything.
pub record JobFilter : Type 0 where
  pub filter_queue : Text
  pub filter_state : Option JobState
  pub filter_task_type : Text
  pub offset : ℤ
  pub limit : ℤ

pub record JobPage : Type 0 where
  pub page_jobs : List Job
  pub page_total : ℕ

unfoldable pub filter_matches : JobFilter → Job → Bool
filter_matches f j =
    (is_empty f.filter_queue || text_eq j.queue f.filter_queue)
    && elim f.filter_state [ none ↦ true | some s ↦ state_eq j.state s ]
    && (is_empty f.filter_task_type || text_eq j.task_type f.filter_task_type)

-- Newest first, then by id.
unfoldable pub newer : Job → Job → Bool
newer a b =
    if eq_ℤ a.created_at b.created_at then text_lt a.id b.id else after a.created_at b.created_at

abbrev pub page_limit : ℤ → ℤ
page_limit limit = if ltb_ℤ (pos 0) limit then limit else pos 50

-- `matched[offset:end]`, which panics (`none`) where the bounds are out of order.
unfoldable pub slice_page : List Job → ℤ → ℤ → Option JobPage
slice_page matched offset limit =
    let n = length matched in
    let sum = wrap64 (offset +ℤ page_limit limit) in
    let end = if ltb_ℤ (pos n) sum then pos n else sum in
    if not (ltb_ℤ offset (pos n))
    then some (record { page_jobs = []; page_total = n })
    else if ltb_ℤ offset (pos 0) || ltb_ℤ end offset
    then none
    else some (record {
      page_jobs = take (pos_part end - pos_part offset) (drop (pos_part offset) matched);
      page_total = n;
    })

-- `List`; a panic of the slice expression is `none`.
unfoldable pub list_jobs : JobFilter → Store → Option JobPage
unfolding slice_page
list_jobs f s = slice_page (sort_by newer (select (filter_matches f) s.jobs)) f.offset f.limit

unfoldable pub delete : Text → Store → Reply (Unit {0})
delete id s = elim (lookup_job id s.jobs) [
  | none ↦ (err (not_found_error job_not_found (bytes "no job found with id " ++ id)), s)
  | some j ↦ (
    ok tt,
    record s {
      jobs = delete_job id s.jobs;
      claims =
          if is_empty j.idempotency_key then s.claims else delete_claim j.idempotency_key s.claims;
    },
  )
]

-- A sweep stops where it has a limit and has reached it.
abbrev pub reached : ℤ → ℕ → Bool
reached limit n = ltb_ℤ (pos 0) limit && not (ltb_ℤ (pos n) limit)

-- A job that stays where it is, in front of what the rest of a sweep comes to.
abbrev pub in_front : Job → List Job × ℕ → List Job × ℕ
in_front j (rest, n) = (j ∷ rest, n)

-- The loop of `PurgeCompleted`: the jobs that stay, and how many were removed.
unfoldable pub purge_loop : Text → ℤ → ℕ → List Job → List Job × ℕ
purge_loop queue limit removed [] = ([], removed)
purge_loop queue limit removed (j ∷ js) =
    let gone = text_eq j.queue queue && state_eq j.state completed in
    let drop_it = purge_loop queue limit (removed + 1) js in
    let keep_it = in_front j (purge_loop queue limit removed js) in
    if reached limit removed then (j ∷ js, removed) else if gone then drop_it else keep_it

unfoldable pub purge_completed : Text → ℤ → Store → ℕ × Store
unfolding purge_loop
purge_completed queue limit s =
    let (kept, removed) = purge_loop queue limit 0 s.jobs in (removed, record s { jobs = kept })
