-- ===== src/Examples/Broker.antt =====
-- The theorems on the Redis broker at concrete inputs, over the example database.
use goqueue.Base.{
  pos, ◌+ℤ◌, bytes, text_eq_refl, ℕ, ◌+◌, ◌≡◌, refl, inr, true, false, some, [], ◌∷◌, map, arith,
}
use goqueue.Errors.{ok}
use goqueue.Values.Names.{
  new_job_id, queue_name_matches, new_queue_name, task_type_matches, new_task_type,
  new_idempotency_key,
}
use goqueue.Strings.{trim_space, to_lower, contains_any, matches}
use goqueue.Job.{Job}
use goqueue.Examples.{sample_queue, sample_id, sample_worker, sample_key, pending_job}
use goqueue.Examples.Server.{find, put, has_place}
use goqueue.Examples.Server.Instance.{
  Database, empty_database, database, database-Documented, encoding, encoding-Faithful,
}
use goqueue.Redis.{KeyBuilder, job_prefix, job_key, state_set, queue_meta}
use goqueue.Redis.Placement.Settles.{none≢some}
use goqueue.Redis.Placement.History.{enqueued, dequeued, History, idle, step, History-Sound}
use goqueue.Redis.Keys.{document, key_of-injective}
use goqueue.Redis.Commands.{Fields}
use goqueue.Redis.Documents.{unix_epoch, to_millis, to_job_fields, to_aggregate}
use goqueue.Redis.Documents.RoundTrip.{whole_job, IsStorable, to_aggregate-to_job_fields}
use goqueue.Redis.Scripts.{dequeue_script}
use goqueue.Values.States.{pending, completed}
use goqueue.Redis.Repo.{repo_save, repo_find_by_id}
use goqueue.Redis.Repo.Reading.{find_saved}
use goqueue.Redis.Queues.{repo_register, repo_find_by_name, repo_claim}
use goqueue.Redis.Queues.Meta.{second_claim_refused, paused_after, registered_keeps_pause}
use goqueue.Redis.Broker.Overlap.{late_complete_overlaps}
use goqueue.Queue.{Queue}
use goqueue.Redis.Broker.{
  answered, reply_lost, broker_enqueue, keys_of, broker_dequeue, broker_complete,
}
use goqueue.Redis.Placement.{Placed, Sound}
use goqueue.Redis.Serving.{ServedInOrder, dequeue_script_serves}

abbrev pub keys : KeyBuilder
keys = record { namespace = 113 ∷ [] }

-- The first second of 2026, and half a millisecond.
abbrev pub new_year : ℕ
new_year = unix_epoch + 1_767_225_600_000_500_000

abbrev pub new_year_job : Job
new_year_job = record pending_job { created_at = pos new_year; process_at = pos new_year }

key_example : document sample_id ≡ document sample_id
key_example = key_of-injective keys (document sample_id) (document sample_id) refl

pub new_year_job-IsStorable : IsStorable encoding new_year_job
unfolding new_job_id new_queue_name new_task_type new_idempotency_key trim_space to_lower
    contains_any matches queue_name_matches task_type_matches
new_year_job-IsStorable = record {
  id_name = refl;
  queue_name = refl;
  type_name = refl;
  key_name = refl;
  priority_range = omega arith;
  policy_valid = ground arith;
  base_whole = omega arith;
  max_whole = omega arith;
  timeout_whole = omega arith;
  made_small = omega arith;
  created_stamp = inr (omega arith);
  process_stamp = inr (omega arith);
  completed_stamp = tt;
  died_stamp = tt;
  lease_stamp = tt;
  attempts_stamped = tt;
}

document_example :
    (fields : Fields) × (to_job_fields encoding new_year_job ≡ ok fields)
    × (to_aggregate encoding fields ≡ ok (whole_job new_year_job))
document_example =
    to_aggregate-to_job_fields encoding encoding-Faithful new_year_job new_year_job-IsStorable

empty-Placed : Placed database keys empty_database
unfolding find
empty-Placed = record {
  complete = λ id f v h. absurd (none≢some h);
  agrees = λ q id v s x h e. absurd (none≢some h);
}

abbrev pub stocked : Database
stocked = (broker_enqueue database encoding keys answered new_year_job empty_database).1

-- The job is enqueued, and a worker claims it; the reply to the worker is lost.
abbrev pub after_claim : Database
after_claim =
    (broker_dequeue database encoding keys (reply_lost []) (sample_queue ∷ []) sample_worker
      (pos 60_000_000_000) (pos new_year) stocked).1

broker_run : History database database-Documented keys encoding empty_database after_claim
unfolding find
broker_run = step (enqueued answered new_year_job (λ p s. refl) refl) (
    step
      (dequeued (reply_lost []) (sample_queue ∷ []) sample_worker (pos 60_000_000_000)
        (pos new_year))
      idle)

broker_history_example : Sound database keys empty_database after_claim
broker_history_example =
    History-Sound database database-Documented keys encoding empty-Placed broker_run

serving_example :
    ServedInOrder database database-Documented keys
      (sample_queue ∷ [])
      stocked
      (dequeue_script database encoding
        (map (keys_of database encoding keys) (sample_queue ∷ []))
        sample_worker
        (pos 9)
        (pos 8)
        (job_prefix keys)
        stocked).0
serving_example =
    dequeue_script_serves database database-Documented keys encoding sample_worker (pos 9) (pos 8)
      (sample_queue ∷ []) stocked

saved_example :
    ((repo_save database encoding keys answered new_year_job stocked).0 ≡ ok tt)
    × (repo_find_by_id database encoding keys answered sample_id
          (repo_save database encoding keys answered new_year_job stocked).1
        ≡ ok (whole_job new_year_job))
saved_example =
    find_saved database database-Documented keys encoding encoding-Faithful new_year_job stocked
      new_year_job-IsStorable

claims_example :
    ((repo_claim database encoding keys answered answered sample_key sample_id
        (pos 9)
        empty_database).0
      ≡ ok (record { claimed = true; existing_id = [] }))
    × ((repo_claim database encoding keys answered answered sample_key
          (50 ∷ [])
          (pos 9)
          (repo_claim database encoding keys answered answered sample_key sample_id
            (pos 9)
            empty_database).1).0
        ≡ ok (record { claimed = false; existing_id = sample_id }))
unfolding new_job_id trim_space contains_any find
claims_example =
    second_claim_refused database database-Documented keys encoding sample_key sample_id (50 ∷ [])
      (pos 9) empty_database refl refl refl

abbrev heavy_queue : Queue
heavy_queue = record { name = sample_queue; weight = 6; paused = false }

registered_example :
    ((repo_register database encoding keys answered heavy_queue stocked).0 ≡ ok tt)
    × (repo_find_by_name database encoding keys answered answered sample_queue
          (repo_register database encoding keys answered heavy_queue stocked).1
        ≡ ok (record heavy_queue {
          paused =
              paused_after database database-Documented keys encoding heavy_queue
                (database.hget (queue_meta keys sample_queue) (bytes "paused") stocked);
        }))
registered_example =
    registered_keeps_pause database database-Documented keys encoding encoding-Faithful heavy_queue
      stocked (omega arith, omega arith)

-- A database with the document of the job, pending as after a reclaim.
abbrev reclaimed_database : Database
reclaimed_database = record empty_database {
  sets = put (state_set keys sample_queue pending) sample_id (pos 5) [];
  hashes = put (job_key keys sample_id) [] [] [];
}

reclaimed_live : database.exists (job_key keys sample_id) reclaimed_database ≡ true
unfolding has_place put
reclaimed_live = rw (text_eq_refl (job_key keys sample_id)) refl

reclaimed_waits :
    database.zscore (state_set keys sample_queue pending) sample_id reclaimed_database
    ≡ some (pos 5)
unfolding find put
reclaimed_waits =
    rw (text_eq_refl (state_set keys sample_queue pending), text_eq_refl sample_id) refl

late_example :
    ((broker_complete database encoding keys answered new_year_job
        (pos 9)
        (pos new_year)
        reclaimed_database).0
      ≡ ok tt)
    × (database.zscore
          (state_set keys sample_queue pending)
          sample_id
          (broker_complete database encoding keys answered new_year_job
            (pos 9)
            (pos new_year)
            reclaimed_database).1
        ≡ some (pos 5))
    × (database.zscore
          (state_set keys sample_queue completed)
          sample_id
          (broker_complete database encoding keys answered new_year_job
            (pos 9)
            (pos new_year)
            reclaimed_database).1
        ≡ some (to_millis (pos new_year +ℤ pos 9)))
late_example =
    late_complete_overlaps database database-Documented keys encoding new_year_job
      (to_aggregate-to_job_fields encoding encoding-Faithful new_year_job new_year_job-IsStorable).0
      (pos 9) (pos new_year) (pos 5) reclaimed_database
      (to_aggregate-to_job_fields encoding encoding-Faithful new_year_job new_year_job-IsStorable).1
      reclaimed_live reclaimed_waits
