-- ===== src/Examples/Services.antt =====
-- The theorems on the application services at the samples.
use goqueue.Store.Maps.{Unique}
use goqueue.Examples.{
  sample_queue, sample_id, sample_key, pending_job, active_job, dead_job, waiting_job, sample_store,
}
use goqueue.Base.{
  ◌==◌, if◌then◌else◌, length, count_if, All, pos, ◌+ℤ◌, ◌*ℤ◌, wrap64, bytes, text_eq, sort_by, ◌+◌,
  min, ◌≡◌, refl, true, false, none, some, [], ◌∷◌,
}
use goqueue.Errors.{plain, ok, err}
use goqueue.Strings.{trim_space, to_lower, contains_any, matches}
use goqueue.Values.Names.{
  new_job_id, queue_name_matches, new_queue_name, task_type_matches, new_task_type,
  new_idempotency_key,
}
use goqueue.Values.Priorities.{parse_priority}
use goqueue.Retry.{backoff_name, new_backoff_strategy, new_retry_policy, strategy_name}
use goqueue.Retry.Exact.{exact_floats}
use goqueue.Job.{Job}
use goqueue.Job.Creation.{new_job}
use goqueue.Store.Defs.{Store, new_store, lookup_job, lookup_claim, take_failure}
use goqueue.Store.Repo.{save, find_by_id}
use goqueue.Store.Claims.{claim}
use goqueue.Store.Broker.{enqueue, schedule}
use goqueue.Processor.{returned, panicked, Handler, Registry}
use goqueue.Processor.Service.{World, Readings, process}
use goqueue.Processor.Outcomes.{outcomes, settled, process-outcomes}
use goqueue.Processor.Settling.{verdict, LeftIn, process-LeftIn, store_port}
use goqueue.Enqueuer.{
  EnqueueJobReq, Surroundings, deref_or, seconds, seconds_or, process_at_of, build_from, persist,
  keep_or_release, persist_or_release, answer_claim, submit, enqueue_request,
}
use goqueue.Enqueuer.Rollback.{SameContents, enqueue_request-failing}
use goqueue.Enqueuer.Duplicates.{enqueue_request-again}
use goqueue.Inspector.{max_bulk_retry, retry_job, retry_all_dead}
use goqueue.Inspector.Actions.{requeued, retry_job_lem}
use goqueue.Inspector.Bulk.{is_dead_in, bulk_page, retry_all_dead_lem}

-- A handler that fails on the first attempt and panics on later ones.
abbrev sample_handler : Handler
sample_handler c =
    if c.attempt == 1 then returned (some (plain (101 ∷ []))) false else panicked (120 ∷ [])

abbrev sample_registry : Registry
sample_registry = (116 ∷ [], sample_handler) ∷ []

abbrev sample_world : World Store
sample_world = record { store = record sample_store { jobs = active_job ∷ [] }; recorded = [] }

abbrev sample_readings : Readings
sample_readings = record { started = pos 3_000; ended = pos 4_000; now = pos 4_500 }

outcomes_example :
    outcomes
      (process store_port exact_floats
        (λ d. [])
        sample_registry
        (pos 0)
        sample_readings
        active_job
        sample_world).1.recorded
    ≡ outcomes sample_world.recorded
      + settled
          (process store_port exact_floats
            (λ d. [])
            sample_registry
            (pos 0)
            sample_readings
            active_job
            sample_world).0
outcomes_example =
    process-outcomes store_port exact_floats (λ d. []) sample_registry (pos 0) sample_readings
      active_job sample_world

settling_example : LeftIn store_port (verdict (λ d. []) sample_registry active_job) active_job (
    process store_port exact_floats
      (λ d. [])
      sample_registry
      (pos 0)
      sample_readings
      active_job
      sample_world)
settling_example =
    process-LeftIn store_port exact_floats (λ d. []) sample_registry (pos 0) sample_readings
      active_job sample_world refl refl

abbrev sample_request : EnqueueJobReq
sample_request = record {
  task_type = 116 ∷ [];
  queue = sample_queue;
  payload = [];
  priority = [];
  delay_seconds = none;
  run_at = none;
  max_retries = some 2;
  retry_base_delay_seconds = none;
  retry_max_delay_seconds = some (pos 60);
  backoff_strategy = [];
  timeout_seconds = none;
  idempotency_key = sample_key;
}

abbrev sample_surroundings : Surroundings
sample_surroundings = record { parse_rfc3339 = λ t. none; new_id = sample_id; now = pos 1_000 }

abbrev later_surroundings : Surroundings
later_surroundings = record sample_surroundings { new_id = 50 ∷ []; now = pos 8_000 }

abbrev later_job : Job
later_job = record pending_job { id = 50 ∷ []; created_at = pos 8_000; process_at = pos 8_000 }

built : build_from sample_surroundings sample_request ≡ ok pending_job
unfolding build_from new_task_type task_type_matches new_queue_name queue_name_matches matches
    parse_priority new_idempotency_key new_job_id contains_any process_at_of deref_or seconds_or
    seconds wrap64 ◌*ℤ◌ ◌+ℤ◌ new_retry_policy new_backoff_strategy backoff_name new_job
    strategy_name trim_space to_lower bytes text_eq
built = refl

built_later : build_from later_surroundings sample_request ≡ ok later_job
unfolding build_from new_task_type task_type_matches new_queue_name queue_name_matches matches
    parse_priority new_idempotency_key new_job_id contains_any process_at_of deref_or seconds_or
    seconds wrap64 ◌*ℤ◌ ◌+ℤ◌ new_retry_policy new_backoff_strategy backoff_name new_job
    strategy_name trim_space to_lower bytes text_eq
built_later = refl

-- A later store, in which the first job is being run.
abbrev running_store : Store
running_store = record new_store { jobs = active_job ∷ []; claims = (sample_key, sample_id) ∷ [] }

running_held : lookup_claim sample_key running_store.claims ≡ some sample_id
unfolding lookup_claim text_eq
running_held = refl

running_found : find_by_id sample_id running_store ≡ ok active_job
unfolding find_by_id lookup_job text_eq
running_found = refl

again_example :
    ((enqueue_request sample_surroundings sample_request new_store).0
      ≡ ok (record { job = pending_job; deduplicated = false }))
    × (enqueue_request later_surroundings sample_request
          (enqueue_request sample_surroundings sample_request new_store).1
        ≡ (
          ok (record { job = pending_job; deduplicated = true }),
          (enqueue_request sample_surroundings sample_request new_store).1,
        ))
    × (enqueue_request later_surroundings sample_request running_store
        ≡ (ok (record { job = active_job; deduplicated = true }), running_store))
unfolding lookup_claim
again_example =
    enqueue_request-again sample_surroundings later_surroundings sample_request sample_request
      new_store running_store built built_later refl refl refl refl running_held running_found

abbrev failing_store : Store
failing_store = record new_store { fail_next = some (plain (120 ∷ [])) }

failed_request :
    (enqueue_request sample_surroundings sample_request failing_store).0 ≡ err (plain (120 ∷ []))
unfolding enqueue_request submit claim answer_claim persist_or_release keep_or_release persist
    schedule enqueue save take_failure lookup_claim
failed_request = rw (built, enqueue_request) refl

rollback_example :
    SameContents failing_store (enqueue_request sample_surroundings sample_request failing_store).1
rollback_example =
    enqueue_request-failing sample_surroundings sample_request failing_store failed_request

abbrev dead_store : Store
dead_store = record sample_store { jobs = dead_job ∷ waiting_job ∷ [] }

found_dead : find_by_id sample_id dead_store ≡ ok dead_job
unfolding find_by_id lookup_job text_eq
found_dead = refl

named_dead : new_job_id sample_id ≡ ok sample_id
unfolding new_job_id trim_space contains_any
named_dead = refl

not_dead : text_eq sample_id (50 ∷ []) ≡ false
unfolding text_eq
not_dead = refl

retry_job_example :
    ((retry_job sample_id (pos 9_500) dead_store).0 ≡ ok (requeued dead_job (pos 9_500)))
    × (find_by_id sample_id (retry_job sample_id (pos 9_500) dead_store).1
        ≡ ok (requeued dead_job (pos 9_500)))
    × (find_by_id (50 ∷ []) (retry_job sample_id (pos 9_500) dead_store).1
        ≡ find_by_id (50 ∷ []) dead_store)
retry_job_example =
    retry_job_lem sample_id (50 ∷ []) (pos 9_500) dead_store named_dead found_dead not_dead

queue_a : new_queue_name sample_queue ≡ ok sample_queue
unfolding new_queue_name queue_name_matches matches trim_space to_lower bytes
queue_a = refl

dead_store-Unique : Unique dead_store.jobs
unfolding text_eq
dead_store-Unique = ((refl, tt), (tt, tt))

bulk_example :
    ((retry_all_dead sample_queue (pos 9_500) dead_store).0
      ≡ ok (some (length (bulk_page sample_queue dead_store))))
    × (length (bulk_page sample_queue dead_store)
        ≡ min max_bulk_retry (count_if (is_dead_in sample_queue) dead_store.jobs))
    × All
        (λ j.
          lookup_job j.id (retry_all_dead sample_queue (pos 9_500) dead_store).1.jobs
          ≡ some (requeued j (pos 9_500)))
        (bulk_page sample_queue dead_store)
    × (lookup_job (50 ∷ []) (retry_all_dead sample_queue (pos 9_500) dead_store).1.jobs
        ≡ lookup_job (50 ∷ []) dead_store.jobs)
unfolding text_eq sort_by
bulk_example =
    retry_all_dead_lem sample_queue (50 ∷ []) (pos 9_500) dead_store queue_a refl dead_store-Unique
      (refl, tt)
