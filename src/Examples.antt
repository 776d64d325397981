-- ===== src/Examples.antt =====
-- The samples that the example modules run the code on: a policy with two retries, a job of it in four
-- states, a queue, and a store.
pub mod Domain
pub mod Server
pub mod Stored
pub mod Services
pub mod Infrastructure
pub mod Broker
pub mod Attempts
pub mod Listing
pub mod Pool
use goqueue.Base.{
  pos, ◌+ℤ◌, wrap64, Text, bytes, ◌≡◌, refl, false, Option, none, some, List, [], ◌∷◌, arith,
}
use goqueue.Errors.{plain, ok}
use goqueue.Values.States.{scheduled, pending, active, dead, can_transition_to}
use goqueue.Retry.{exponential, backoff_name, RetryPolicy, strategy_name}
use goqueue.Job.{Attempt, Job}
use goqueue.Job.Creation.{NewJobParams, new_job}
use goqueue.Job.Lifecycle.{guard, lease}
use goqueue.Job.Budget.{Run}
use goqueue.Job.Invariant.{trail_ok, WellFormed}
use goqueue.Queue.{Queue}
use goqueue.Store.Defs.{Store}
use goqueue.Store.Workers.{Poll}

abbrev pub sample_policy : RetryPolicy
sample_policy = record {
  max_retries = 2;
  base_delay = pos 1_000_000_000;
  max_delay = pos 60_000_000_000;
  strategy = some exponential;
}

-- The queue "a", the job "1", the worker "w" and the key "k".
abbrev pub sample_queue : Text
sample_queue = 97 ∷ []

abbrev pub sample_id : Text
sample_id = 49 ∷ []

abbrev pub sample_worker : Text
sample_worker = 119 ∷ []

abbrev pub sample_key : Text
sample_key = 107 ∷ []

abbrev pub sample_params : NewJobParams
sample_params = record {
  id = sample_id;
  queue = sample_queue;
  task_type = 116 ∷ [];
  payload = [];
  priority = 5;
  retry_policy = sample_policy;
  idempotency_key = sample_key;
  timeout = pos 30_000_000_000;
  process_at = pos 0;
  now = pos 1_000;
}

abbrev pub pending_job : Job
pending_job = record {
  id = sample_id;
  queue = sample_queue;
  task_type = 116 ∷ [];
  payload = [];
  priority = 5;
  state = pending;
  retry_policy = sample_policy;
  idempotency_key = sample_key;
  timeout = pos 30_000_000_000;
  attempts_made = 0;
  attempts = [];
  last_error = [];
  created_at = pos 1_000;
  process_at = pos 1_000;
  completed_at = none;
  died_at = none;
  lease_expiry = none;
  worker_id = [];
}

pub new_sample : new_job sample_params ≡ ok pending_job
unfolding new_job strategy_name backoff_name bytes
new_sample = refl

-- A lease of one second beyond the timeout, taken at 2,000 ns.
abbrev pub open_attempt : Attempt
open_attempt = record {
  number = 1;
  started_at = pos 2_000;
  finished_at = pos 0;
  error = [];
  attempt_worker = sample_worker;
}

abbrev pub active_job : Job
active_job = record pending_job {
  state = active;
  worker_id = sample_worker;
  lease_expiry = some (pos 31_000_002_000);
  attempts_made = 1;
  attempts = open_attempt ∷ [];
}

pub lease_sample : lease pending_job sample_worker (pos 2_000) (pos 1_000_000_000) ≡ ok active_job
unfolding lease guard can_transition_to wrap64 ◌+ℤ◌
lease_sample = refl

abbrev pub dead_job : Job
dead_job = record pending_job { state = dead; died_at = some (pos 9_000) }

abbrev pub waiting_job : Job
waiting_job = record pending_job { id = 50 ∷ []; state = scheduled; process_at = pos 5_000 }

pub pending_job-WellFormed : WellFormed pending_job
unfolding trail_ok
pending_job-WellFormed = ground arith

pub active_job-WellFormed : WellFormed active_job
unfolding trail_ok
active_job-WellFormed = ground arith

abbrev pub sample_run : Run
sample_run = record {
  worker = sample_worker;
  grace = pos 1_000_000_000;
  cause = some (plain (101 ∷ []));
  clock = pos 3_000;
}

abbrev pub light_queue : Queue
light_queue = record { name = sample_queue; weight = 1; paused = false }

abbrev pub heavy_queue : Queue
heavy_queue = record { name = 98 ∷ []; weight = 3; paused = false }

abbrev pub sample_queues : List (Option Queue)
sample_queues = some light_queue ∷ none ∷ some heavy_queue ∷ []

abbrev pub sample_store : Store
sample_store = record {
  jobs = pending_job ∷ waiting_job ∷ [];
  queues = light_queue ∷ [];
  claims = [];
  fail_next = none;
}

abbrev pub sample_poll : Poll
sample_poll = record {
  order = sample_queue ∷ [];
  worker = sample_worker;
  lease_for = pos 1_000_000_000;
  now = pos 2_000;
}
