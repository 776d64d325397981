-- ===== src/Examples/Listing.antt =====
-- A page of the listing at a concrete input: two jobs in one set, pages of one.
use goqueue.Values.Names.{
  new_job_id, queue_name_matches, new_queue_name, task_type_matches, new_task_type,
  new_idempotency_key,
}
use goqueue.Strings.{trim_space, to_lower, contains_any, matches}
use goqueue.Redis.Commands.{Fields}
use goqueue.Errors.{ok}
use goqueue.Store.Repo.{newer}
use goqueue.Base.{
  pos, ◌+ℤ◌, ◌-ℤ◌, Text, bytes, text_eq, text_lt, sort_by, ◌+◌, ◌≡◌, refl, inr, some, List, [], ◌∷◌,
  ◌++◌, reverse, arith,
}
use goqueue.Job.{Job}
use goqueue.Values.States.{pending}
use goqueue.Examples.{sample_queue, sample_id}
use goqueue.Examples.Broker.{keys, new_year, new_year_job, new_year_job-IsStorable}
use goqueue.Examples.Server.{Cell, without, put, fields_of}
use goqueue.Examples.Server.Sets.{by_score, first_to}
use goqueue.Examples.Server.Instance.{
  Database, empty_database, database, show_attempts, encoding, encoding-Faithful,
}
use goqueue.Redis.{job_key, state_set}
use goqueue.Redis.Documents.{job_fields, to_job_fields, to_aggregate}
use goqueue.Redis.Documents.RoundTrip.{whole_job, IsStorable, to_aggregate-to_job_fields}
use goqueue.Redis.Repo.{load_jobs}
use goqueue.Redis.Listing.{valid_ids, repo_list}
use goqueue.Redis.Listing.Pages.{all_answered, one_set, repo_list_repeats}

-- Created a second later.
abbrev next_job : Job
next_job = record new_year_job { id = 50 ∷ []; created_at = pos (new_year + 1_000_000_000) }

next_job-IsStorable : IsStorable encoding next_job
unfolding new_job_id new_queue_name new_task_type new_idempotency_key trim_space to_lower
    contains_any matches queue_name_matches task_type_matches
next_job-IsStorable =
    let first = new_year_job-IsStorable in
    record {
      id_name = refl;
      queue_name = first.queue_name;
      type_name = first.type_name;
      key_name = first.key_name;
      priority_range = first.priority_range;
      policy_valid = first.policy_valid;
      base_whole = first.base_whole;
      max_whole = first.max_whole;
      timeout_whole = first.timeout_whole;
      made_small = first.made_small;
      created_stamp = inr (omega arith);
      process_stamp = first.process_stamp;
      completed_stamp = tt;
      died_stamp = tt;
      lease_stamp = tt;
      attempts_stamped = tt;
    }

abbrev document_of : Job → Fields
document_of j = job_fields encoding j (0 ∷ [])

-- The cells of a hash, the last field first.
abbrev cells : Text → Fields → List (Cell Text)
cells key [] = []
cells key ((f, v) ∷ fields) = cells key fields ++ record { place = key; part = f; value = v } ∷ []

abbrev two_waiting : Database
two_waiting = record empty_database {
  sets =
      put (state_set keys sample_queue pending) (50 ∷ []) (pos 6)
        (put (state_set keys sample_queue pending) sample_id (pos 5) []);
  hashes =
      cells (job_key keys (50 ∷ [])) (document_of next_job)
      ++ cells (job_key keys sample_id) (document_of new_year_job);
}

listed_ids :
    valid_ids (database.zrange (state_set keys sample_queue pending) (pos 2 -ℤ pos 1) two_waiting)
    ≡ sample_id ∷ (50 ∷ []) ∷ []
unfolding valid_ids by_score first_to sort_by put text_eq new_job_id trim_space contains_any
    state_set bytes text_lt ◌-ℤ◌ ◌+ℤ◌ without
listed_ids = refl

first_document : database.hgetall (job_key keys sample_id) two_waiting ≡ document_of new_year_job
unfolding fields_of text_eq job_key bytes
first_document = refl

next_document : database.hgetall (job_key keys (50 ∷ [])) two_waiting ≡ document_of next_job
unfolding fields_of text_eq job_key bytes
next_document = refl

decoded :
    (j : Job) (fields : Fields)
    → IsStorable encoding j
    → to_job_fields encoding j ≡ ok fields
    → to_aggregate encoding fields ≡ ok (whole_job j)
decoded j fields h e =
    let (stored, e', d) = to_aggregate-to_job_fields encoding encoding-Faithful j h in cc (e, e', d)

two_loaded :
    load_jobs database encoding keys (sample_id ∷ (50 ∷ []) ∷ []) two_waiting
    ≡ whole_job new_year_job ∷ whole_job next_job ∷ []
unfolding load_jobs to_job_fields show_attempts
two_loaded =
    rw
      (
        load_jobs,
        first_document,
        decoded new_year_job (document_of new_year_job) new_year_job-IsStorable refl,
        next_document,
        decoded next_job (document_of next_job) next_job-IsStorable refl,
      )
      refl

repeats_example :
    repo_list database encoding keys
      (pos 1_000_000)
      all_answered
      (one_set sample_queue pending (pos 1) (pos 1))
      two_waiting
    ≡ some (
        ok (record {
          page_jobs = reverse (whole_job new_year_job ∷ []);
          page_total = database.zcard (state_set keys sample_queue pending) two_waiting;
        }))
unfolding newer
repeats_example =
    repo_list_repeats database encoding keys (pos 1_000_000) sample_queue pending
      (whole_job new_year_job ∷ []) (whole_job next_job ∷ []) two_waiting refl (omega arith)
      (omega arith) (omega arith) refl (rw listed_ids two_loaded) ((refl, tt), (tt, tt))
