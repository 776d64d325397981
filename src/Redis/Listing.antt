-- ===== src/Redis/Listing.antt =====
-- List of job_repo.go, with sort.go. A call of the server for one set goes over the Link that its key is
-- given; the largest capacity that make grants is an argument, and a panic of make is `none`.
pub mod Pages
use goqueue.Base.{
  if◌then◌else◌, length, take, drop, select, ℤ, pos, pos_part, ◌+ℤ◌, ◌-ℤ◌, ltb_ℤ, wrap64, Text,
  bytes, is_empty, text_eq, sort_by, ℕ, ◌+◌, ◌-◌, ◌||◌, not, Option, none, some, List, [], ◌∷◌,
  ◌++◌,
}
use goqueue.Errors.{Result, ok, err, ◌>>=◌, ◌>>◌}
use goqueue.Values.Names.{new_job_id}
use goqueue.Values.States.{JobState}
use goqueue.Job.{Job}
use goqueue.Store.Repo.{JobFilter, JobPage, newer, page_limit}
use goqueue.Redis.{KeyBuilder, state_set}
use goqueue.Redis.Commands.{Commands}
use goqueue.Redis.Documents.{Encoding}
use goqueue.Redis.Broker.{Link}
use goqueue.Redis.Repo.{read_reply, max_page_size, resolve_states, load_many, resolve_queues}

-- The ways of the calls of one listing.
pub record ListLinks : Type 0 where
  pub registry : Link
  pub counts : Text → Link
  pub ranges : Text → Link
  pub documents : Link

-- The limit of a page, defaulted and capped, and the offset, from 0.
unfoldable pub list_limit : ℤ → ℤ
list_limit limit =
    let given = page_limit limit in
    if ltb_ℤ (pos max_page_size) given then pos max_page_size else given

unfoldable pub list_offset : ℤ → ℤ
list_offset offset = if ltb_ℤ offset (pos 0) then pos 0 else offset

-- The members that are valid ids.
unfoldable pub valid_ids : List Text → List Text
valid_ids [] = []
valid_ids (m ∷ ms) = elim (new_job_id m) [ err e ↦ valid_ids ms | ok id ↦ id ∷ valid_ids ms ]

-- What is left of the loaded jobs behind the filter on the task type, and the total then.
unfoldable pub of_task_type : Text → List Job → ℕ → List Job × ℕ
of_task_type task_type jobs sum =
    let filtered = select (λ j. text_eq j.task_type task_type) jobs in
    if is_empty task_type then (jobs, sum) else (filtered, length filtered)

-- The sorting and the slice; `stop` is offset + limit.
unfoldable pub page_of : ℤ → ℤ → List Job × ℕ → JobPage
page_of offset stop (jobs, sum) =
    let sorted = sort_by newer jobs in
    let n = length sorted in
    if not (ltb_ℤ offset (pos n)) then record { page_jobs = []; page_total = sum } else record {
      page_jobs =
          take (pos_part (if ltb_ℤ (pos n) stop then pos n else stop) - pos_part offset)
            (drop (pos_part offset) sorted);
      page_total = sum;
    }

module _ {R : Type 0} (C : Commands R) (E : Encoding) (K : KeyBuilder) where
  abbrev list_failed : {A : Type 0} → Link → Text → A → Result A
  list_failed link message a = read_reply link (bytes "job_list_failed") message a

  -- The loops over the queues and the states of the filter: the ids, and the sum of the counts.
  unfoldable pub collect_states : ListLinks → ℤ → Text → List JobState → R → Result (List Text × ℕ)
  collect_states links stop queue [] r = ok ([], 0)
  collect_states links stop queue (s ∷ states) r = do
    let key = state_set K queue s
    count ← list_failed (links.counts key) (bytes "failed to count jobs") (C.zcard key r)
    members ←
        list_failed (links.ranges key) (bytes "failed to list jobs")
          (C.zrange key (stop -ℤ pos 1) r)
    rest ← collect_states links stop queue states r
    ok (valid_ids members ++ rest.0, count + rest.1)

  unfoldable pub collect_queues :
      ListLinks → ℤ → List Text → List JobState → R → Result (List Text × ℕ)
  unfolding collect_states
  collect_queues links stop [] states r = ok ([], 0)
  collect_queues links stop (q ∷ queues) states r = do
    first ← collect_states links stop q states r
    rest ← collect_queues links stop queues states r
    ok (first.0 ++ rest.0, first.1 + rest.1)

  unfoldable pub list_over : ListLinks → JobFilter → ℤ → ℤ → List Text → R → Result JobPage
  unfolding collect_queues load_many of_task_type page_of resolve_states
  list_over links f offset stop queues r = do
    found ← collect_queues links stop queues (resolve_states f.filter_state) r
    jobs ← load_many C E K links.documents found.0 r
    ok (page_of offset stop (of_task_type f.filter_task_type jobs found.1))

  -- `List`
  unfoldable pub repo_list : ℤ → ListLinks → JobFilter → R → Option (Result JobPage)
  unfolding list_over list_limit list_offset resolve_queues
  repo_list max_cap links f r =
      let offset = list_offset f.offset in
      let stop = wrap64 (offset +ℤ list_limit f.limit) in
      elim (resolve_queues C E K links.registry f.filter_queue r) [
        | err e ↦ some (err e)
        | ok queues ↦
            if ltb_ℤ stop (pos 0) || ltb_ℤ max_cap stop
            then none
            else some (list_over links f offset stop queues r)
      ]
