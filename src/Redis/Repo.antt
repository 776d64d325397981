-- ===== src/Redis/Repo.antt =====
-- job_repo.go without List (Redis/Listing.antt): Save, FindByID, Delete, PurgeCompleted and the loading of several documents.
pub mod Reading
use goqueue.Base.{
  if◌then◌else◌, ℤ, pos, pos_part, ltb_ℤ, Text, bytes, is_empty, ℕ, Option, none, some, List, [],
  ◌∷◌, ◌++◌,
}
use goqueue.Errors.{not_found_error, Result, ok, err, ◌>>=◌}
use goqueue.Values.Codes.{job_not_found}
use goqueue.Values.Names.{new_queue_name}
use goqueue.Values.States.{JobState, completed, all_states}
use goqueue.Job.{Time, Job}
use goqueue.Redis.{KeyBuilder, job_prefix, job_key, state_set, queue_registry, idempotency_entry}
use goqueue.Redis.Commands.{Fields, Commands}
use goqueue.Redis.Documents.{Encoding, to_millis, to_job_fields, to_aggregate}
use goqueue.Redis.Scripts.{purge_script}
use goqueue.Redis.Broker.{
  Link, answered, refused, reply_lost, Answer, failed_call, run_script, always,
}

-- A command that only reads.
unfoldable pub read_reply : {A : Type 0} → Link → Text → Text → A → Result A
read_reply answered code message a = ok a
read_reply (refused cause) code message a = err (failed_call code message cause)
read_reply (reply_lost cause) code message a = err (failed_call code message cause)

abbrev pub max_page_size : ℕ
max_page_size = 500

-- The queues of the names that are valid.
unfoldable pub valid_queues : List Text → List Text
valid_queues [] = []
valid_queues (n ∷ ns) = elim (new_queue_name n) [
  | err e ↦ valid_queues ns
  | ok q ↦ q ∷ valid_queues ns
]

-- `resolveStates`
unfoldable pub resolve_states : Option JobState → List JobState
resolve_states none = all_states
resolve_states (some s) = s ∷ []

module _ {R : Type 0} (C : Commands R) (E : Encoding) (K : KeyBuilder) where
  -- `Save`
  unfoldable pub repo_save : Link → Job → R → Answer R (Unit {0})
  repo_save link j r = elim (to_job_fields E j) [
    | err e ↦ (err e, r)
    | ok fields ↦
        run_script link (bytes "job_save_failed") (bytes "failed to save job")
          (λ d. always (tt {0}, C.hset (job_key K j.id) fields d)) r
  ]

  abbrev pub found_or_missing : Text → Fields → Result Job
  found_or_missing id [] = err (not_found_error job_not_found (bytes "no job found with id " ++ id))
  found_or_missing id (p ∷ hash) = to_aggregate E (p ∷ hash)

  -- `FindByID`
  unfoldable pub repo_find_by_id : Link → Text → R → Result Job
  repo_find_by_id link id r =
      read_reply link (bytes "job_read_failed") (bytes "failed to read job")
        (C.hgetall (job_key K id) r)
      >>= found_or_missing id

  -- The pipeline of `Delete`.
  unfoldable pub remove_states : List JobState → Text → Text → R → R
  remove_states [] queue id r = r
  remove_states (s ∷ states) queue id r =
      remove_states states queue id (C.zrem (state_set K queue s) id r)

  unfoldable pub delete_document : Job → Text → R → R
  unfolding remove_states
  delete_document j id r =
      let removed = remove_states all_states j.queue id (C.del (job_key K id) r) in
      if is_empty j.idempotency_key
      then removed
      else C.del (idempotency_entry K j.idempotency_key) removed

  -- `Delete`
  unfoldable pub repo_delete : Link → Link → Text → R → Answer R (Unit {0})
  unfolding repo_find_by_id delete_document
  repo_delete link link' id r = elim (repo_find_by_id link id r) [
    | err e ↦ (err e, r)
    | ok j ↦
        run_script link' (bytes "job_delete_failed") (bytes "failed to delete job")
          (λ d. always (tt {0}, delete_document j id d)) r
  ]

  -- `PurgeCompleted`
  unfoldable pub repo_purge_completed : Link → Text → ℤ → Time → R → Answer R ℕ
  repo_purge_completed link queue limit now =
      run_script link (bytes "job_purge_failed") (bytes "failed to purge completed jobs") (λ d.
        always (
          purge_script C (state_set K queue completed) (to_millis now)
            (if ltb_ℤ (pos 0) limit then pos_part limit else max_page_size) (job_prefix K) d))

  -- The loop of `loadMany`: a document that is missing or does not decode is skipped.
  unfoldable pub load_jobs : List Text → R → List Job
  load_jobs [] r = []
  load_jobs (id ∷ ids) r = elim (found_or_missing id (C.hgetall (job_key K id) r)) [
    | err e ↦ load_jobs ids r
    | ok j ↦ j ∷ load_jobs ids r
  ]

  -- `loadMany`
  unfoldable pub load_many : Link → List Text → R → Result (List Job)
  unfolding load_jobs
  load_many link [] r = ok []
  load_many link (id ∷ ids) r =
      read_reply link (bytes "job_list_failed") (bytes "failed to load jobs")
        (load_jobs (id ∷ ids) r)

  -- `resolveQueues`; the empty text asks for every registered queue.
  unfoldable pub resolve_queues : Link → Text → R → Result (List Text)
  unfolding valid_queues
  resolve_queues link queue r =
      if is_empty queue
      then read_reply link (bytes "queue_list_failed") (bytes "failed to list queues")
          (valid_queues (C.smembers (queue_registry K) r))
      else ok (queue ∷ [])
