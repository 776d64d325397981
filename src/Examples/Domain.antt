-- ===== src/Examples/Domain.antt =====
-- The theorems on the domain at the samples.
use goqueue.Examples.{
  sample_policy, sample_worker, sample_params, pending_job, new_sample, active_job, lease_sample,
  dead_job, active_job-WellFormed, sample_run, sample_queues,
}
use goqueue.Base.{
  All, pos, Text, bytes, text_eq-eq, sum_by, ℕ, ◌≤◌, ◌<◌, ◌≡◌, refl, ◌↔◌, true, none, List, [], ◌∷◌,
  map, arith,
}
use goqueue.Errors.{ok}
use goqueue.Strings.{trim_space, to_lower, matches}
use goqueue.Values.States.{pending, dead}
use goqueue.Values.Names.{queue_name_matches, new_queue_name}
use goqueue.Retry.{backoff_name, strategy_name, allows_retry, next_delay}
use goqueue.Retry.Bounds.{IsValid, WithinPolicy, next_delay-within}
use goqueue.Retry.Exact.{exact_floats}
use goqueue.Job.{Job}
use goqueue.Job.Creation.{NewJobParams, new_job}
use goqueue.Job.Lifecycle.{promote, requeue}
use goqueue.Job.Initial.{
  IsAcceptable, new_job-ok_iff, IsInitial, new_job-IsInitial, new_job_keeps_policy,
}
use goqueue.Job.Graph.{lease_to, requeue_at, apply, is_ok, apply-accepts}
use goqueue.Job.Budget.{exhaust, new_job-exhaust, requeue-exhaust}
use goqueue.Job.Invariant.{
  trail_ok, WellFormed, fresh, called, new_job-Life-WellFormed, promote_active_leaves_attempt_open,
}
use goqueue.Queue.{Queue, active_queues, build_dequeue_order, dedupe}
use goqueue.Queue.Ranking.{Ranked, counted, dedupe-Ranked}
use goqueue.Queue.Order.{named}

mail_queue : new_queue_name (32 ∷ 77 ∷ 49 ∷ []) ≡ ok (109 ∷ 49 ∷ [])
unfolding new_queue_name queue_name_matches matches trim_space to_lower bytes
mail_queue = refl

sample_policy-IsValid : IsValid sample_policy
sample_policy-IsValid = ground arith

allows_second : allows_retry sample_policy 2 ≡ true
unfolding allows_retry
allows_second = refl

delay_example : WithinPolicy sample_policy (next_delay exact_floats sample_policy 2)
delay_example =
    next_delay-within exact_floats sample_policy 2 sample_policy-IsValid (omega arith) allows_second

leased :
    apply exact_floats pending_job (lease_to sample_worker (pos 2_000) (pos 1_000_000_000))
    ≡ ok active_job
unfolding apply
leased = lease_sample

accepts_example : is_ok (apply exact_floats dead_job (requeue_at (pos 9_500))) ≡ true
accepts_example = apply-accepts exact_floats dead_job (requeue_at (pos 9_500))

life_example : WellFormed active_job
life_example =
    new_job-Life-WellFormed exact_floats sample_params new_sample
      (called (lease_to sample_worker (pos 2_000) (pos 1_000_000_000)) fresh tt leased)

promote_example :
    (k : Job) × (promote active_job (pos 4_000) ≡ ok k)
    × (k.state ≡ pending)
    × (k.attempts ≡ active_job.attempts)
    × (trail_ok true k.attempts ≡ true)
    × ¬ WellFormed k
promote_example =
    promote_active_leaves_attempt_open active_job (pos 4_000) active_job-WellFormed refl

budget_example :
    (k : Job) × (exhaust exact_floats (λ n. sample_run) 3 pending_job ≡ ok (3, k))
    × (k.state ≡ dead)
budget_example =
    new_job-exhaust exact_floats (λ n. sample_run) 3 sample_params new_sample refl (λ n. refl)
      (omega arith) (omega arith)

requeue_example :
    (k : Job) × (l : Job) × (requeue dead_job (pos 9_500) ≡ ok k)
    × (exhaust exact_floats (λ n. sample_run) 3 k ≡ ok (3, l))
    × (l.state ≡ dead)
requeue_example =
    requeue-exhaust exact_floats (λ n. sample_run) 3 dead_job (pos 9_500) refl (λ n. refl)
      (omega arith) (omega arith)

acceptance_example : ((j : Job) × (new_job sample_params ≡ ok j)) ↔ IsAcceptable sample_params
acceptance_example = new_job-ok_iff sample_params

fresh_job_example : IsInitial sample_params pending_job
fresh_job_example = new_job-IsInitial sample_params new_sample

abbrev zero_policy_params : NewJobParams
zero_policy_params = record sample_params {
  retry_policy = record { max_retries = 0; base_delay = pos 0; max_delay = pos 0; strategy = none };
}

abbrev zero_policy_job : Job
zero_policy_job = record pending_job { retry_policy = zero_policy_params.retry_policy }

new_zero_policy : new_job zero_policy_params ≡ ok zero_policy_job
unfolding new_job strategy_name backoff_name bytes
new_zero_policy = refl

zero_policy_example : zero_policy_job.retry_policy ≡ zero_policy_params.retry_policy
zero_policy_example = new_job_keeps_policy zero_policy_params new_zero_policy

distinct_queues : (n : Text) → sum_by (counted (named n)) sample_queues ≤ 1
distinct_queues n = ground (arith, text_eq-eq (97 ∷ []) n, text_eq-eq (98 ∷ []) n)

weighted_queues : All (λ q. 0 < q.weight) (active_queues sample_queues)
unfolding active_queues
weighted_queues = ground arith

polling_example :
    (ranked : List Queue) × (dedupe (build_dequeue_order sample_queues) ≡ map (λ q. q.name) ranked)
    × Ranked ranked
    × ((f : Queue → ℕ) → sum_by f ranked ≡ sum_by (counted f) sample_queues)
polling_example = dedupe-Ranked sample_queues distinct_queues weighted_queues
