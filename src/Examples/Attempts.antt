-- ===== src/Examples/Attempts.antt =====
-- A worker that takes a job, stores it as Process does, and dies, and the sweep after its lease, at a
-- concrete input.
use goqueue.Base.{pos, bytes, ◌+◌, ◌≡◌, [], ◌∷◌}
use goqueue.Job.{Job}
use goqueue.Values.States.{active}
use goqueue.Examples.{sample_queue, sample_id, sample_worker}
use goqueue.Examples.Broker.{keys, new_year, new_year_job, stocked, after_claim}
use goqueue.Examples.Server.Instance.{Database, database, database-Documented, encoding}
use goqueue.Redis.{job_key}
use goqueue.Redis.Broker.{answered, reply_lost, broker_reclaim_expired}
use goqueue.Redis.Repo.{repo_save}
use goqueue.Redis.Broker.Attempts.{
  dequeued, saved, reclaimed, CallRun, at_rest, and_then, after_calls, attempts_made_saved,
}

-- The job as the worker has it, with its attempt counted.
abbrev taken_job : Job
taken_job = record new_year_job { state = active; attempts_made = 1; worker_id = sample_worker }

abbrev after_store : Database
after_store = (repo_save database encoding keys answered taken_job after_claim).1

abbrev after_sweep : Database
after_sweep =
    (broker_reclaim_expired database encoding keys answered sample_queue
      (pos (new_year + 100_000_000_000)) (pos 0) after_store).1

abbrev death : CallRun database database-Documented encoding keys stocked after_sweep
death =
    and_then
      (dequeued (reply_lost []) (sample_queue ∷ []) sample_worker (pos 60_000_000_000)
        (pos new_year))
      (and_then (saved answered taken_job) (
        and_then (reclaimed answered sample_queue (pos (new_year + 100_000_000_000)) (pos 0))
          at_rest))

attempts_example :
    database.hget (job_key keys sample_id) (bytes "attempts_made") after_sweep
    ≡ after_calls database database-Documented encoding keys
        (job_key keys sample_id)
        death
        (database.hget (job_key keys sample_id) (bytes "attempts_made") stocked)
attempts_example =
    attempts_made_saved database database-Documented encoding keys (job_key keys sample_id) death
