-- ===== src/Redis/Broker.antt =====
-- job_broker.go: the queueing port on Redis. A call of the server goes over a Link: it is answered, or
-- it fails before the server runs it, or the server runs it and the reply is lost. A method that calls the
-- server twice is given two. What the clock reads is an argument, `now`.
pub mod Overlap
pub mod Crashes
pub mod Attempts
use goqueue.Base.{
  ◌==◌, if◌then◌else◌, ℤ, pos, pos_part, neg_part, ◌+ℤ◌, ◌-ℤ◌, ltb_ℤ, wrap64, Text, bytes, ℕ, ◌+◌,
  ◌*◌, ◌/◌, Option, none, some, List, [], ◌∷◌, map,
}
use goqueue.Errors.{
  internal, GoError, plain, app_caused, conflict_error, Result, ok, err, ◌>>=◌, ◌>>◌,
}
use goqueue.Values.States.{JobState, scheduled, pending, active, retrying, completed, dead}
use goqueue.Retry.{Duration, second}
use goqueue.Values.Weights.{default_weight}
use goqueue.Job.{Time, Job}
use goqueue.Job.Lifecycle.{promote, lease}
use goqueue.Queue.{total, dedupe}
use goqueue.Redis.{
  KeyBuilder, job_prefix, job_key, state_set, queue_registry, queue_meta, pending_score,
}
use goqueue.Redis.Commands.{Commands}
use goqueue.Redis.Documents.{Encoding, to_millis, flat_array_to_map, to_job_fields, to_aggregate}
use goqueue.Redis.Scripts.{
  QueueKeys, enqueue_script, dequeue_script, transition_script, promote_script, reclaim_script,
  extend_lease_script,
}

pub data Link : Type 0 where
  answered : Link
  refused : Text → Link
  reply_lost : Text → Link

-- What a method returns, and the database after it.
abbrev pub Answer : Type 0 → Type 0 → Type 0
Answer R A = Result A × R

-- A call that returns an internal error around the client's.
abbrev pub failed_call : Text → Text → Text → GoError
failed_call code message cause = app_caused internal code message (plain cause)

abbrev pub reply_or_error : {R A : Type 0} → GoError → Option A × R → Answer R A
reply_or_error e reply = (elim reply.0 [ none ↦ err e | some a ↦ ok a ], reply.1)

unfoldable pub run_script :
    {R A : Type 0} → Link → Text → Text → (R → Option A × R) → R → Answer R A
run_script answered code message script r =
    reply_or_error (failed_call code message (bytes "script error")) (script r)
run_script (refused cause) code message script r = (err (failed_call code message cause), r)
run_script (reply_lost cause) code message script r =
    (err (failed_call code message cause), (script r).1)

-- A script that raises no error.
abbrev pub always : {R A : Type 0} → A × R → Option A × R
always reply = (some reply.0, reply.1)

abbrev pub lease_grace : Duration
lease_grace = pos (30 * second)

abbrev pub sweep_limit : ℕ
sweep_limit = 500

-- `limit <= 0` asks for the default.
abbrev pub limit_or_default : ℤ → ℕ
limit_or_default limit = if ltb_ℤ (pos 0) limit then pos_part limit else sweep_limit

-- int64(d.Seconds())
abbrev pub whole_seconds : Duration → ℤ
whole_seconds d = pos (pos_part d / second) -ℤ pos (neg_part d / second)

module _ {R : Type 0} (C : Commands R) (E : Encoding) (K : KeyBuilder) where
  -- The tail of `insert`: the reply 0 is a duplicate.
  abbrev pub inserted_or_conflict : Answer R ℕ → Answer R (Unit {0})
  inserted_or_conflict answer = (
    answer.0 >>= λ inserted.
        if inserted == 0
        then err
            (conflict_error (bytes "duplicate_job_id") (bytes "a job with this id already exists"))
        else ok tt,
    answer.1,
  )

  unfoldable pub insert_job : Link → Job → Text → ℤ → R → Answer R (Unit {0})
  insert_job link j target score r = elim (to_job_fields E j) [
    | err e ↦ (err e, r)
    | ok fields ↦ inserted_or_conflict (
        run_script link (bytes "job_enqueue_failed") (bytes "failed to enqueue job")
          (λ d. always (
            enqueue_script C (job_key K j.id) target (queue_registry K) (queue_meta K j.queue) j.id
              score j.queue (E.format_uint default_weight) fields d))
          r)
  ]

  -- `Enqueue`
  unfoldable pub broker_enqueue : Link → Job → R → Answer R (Unit {0})
  unfolding insert_job
  broker_enqueue link j =
      insert_job link j (state_set K j.queue pending)
        (pending_score j.priority (to_millis j.process_at))

  -- `Schedule`
  unfoldable pub broker_schedule : Link → Job → R → Answer R (Unit {0})
  unfolding insert_job
  broker_schedule link j =
      insert_job link j (state_set K j.queue scheduled) (to_millis j.process_at)

  abbrev pub keys_of : Text → QueueKeys
  keys_of queue = record {
    pending_key = state_set K queue pending;
    active_key = state_set K queue active;
    meta_key = queue_meta K queue;
  }

  -- What `Dequeue` makes of the reply: the job of the document, leased once more by the domain.
  unfoldable pub leased_job : Text → Time → Option (List Text) → Result (Option Job)
  leased_job worker now none = ok none
  leased_job worker now (some []) = ok none
  leased_job worker now (some (k ∷ raw)) = do
    hash ← flat_array_to_map (k ∷ raw)
    job ← to_aggregate E hash
    leased ← lease job worker now lease_grace
    ok (some leased)

  -- `Dequeue`
  unfoldable pub broker_dequeue :
      Link → List Text → Text → Duration → Time → R → Answer R (Option Job)
  unfolding leased_job
  broker_dequeue link [] worker lease_for now r = (ok none, r)
  broker_dequeue link (q ∷ order) worker lease_for now r =
      let expiry = now +ℤ wrap64 (lease_for +ℤ lease_grace) in
      let (reply, r') =
        run_script link (bytes "job_dequeue_failed") (bytes "failed to dequeue job")
          (λ d. always (
            dequeue_script C E (map keys_of (dedupe (q ∷ order))) worker (to_millis expiry)
              (to_millis now) (job_prefix K) d))
          r in
      (reply >>= leased_job worker now, r')

  -- `transition`; the reply of the script is not looked at.
  unfoldable pub transition : Link → Job → Text → Text → ℤ → ℤ → R → Answer R (Unit {0})
  transition link j from to score ttl r = elim (to_job_fields E j) [
    | err e ↦ (err e, r)
    | ok fields ↦
        let (reply, r') =
          run_script link (bytes "job_transition_failed") (bytes "failed to transition job")
            (λ d. always (transition_script C E (job_key K j.id) from to j.id score ttl fields d))
            r in
        (reply >>= λ moved. ok tt, r')
  ]

  -- `Complete`
  unfoldable pub broker_complete : Link → Job → Duration → Time → R → Answer R (Unit {0})
  unfolding transition
  broker_complete link j retain_for now =
      transition link j (state_set K j.queue active) (state_set K j.queue completed)
        (to_millis (now +ℤ retain_for)) (whole_seconds retain_for)

  -- `Retry`
  unfoldable pub broker_retry : Link → Job → Time → R → Answer R (Unit {0})
  unfolding transition
  broker_retry link j retry_at =
      transition link j (state_set K j.queue active) (state_set K j.queue retrying)
        (to_millis retry_at) (pos 0)

  -- `Requeue`
  unfoldable pub broker_requeue : Link → Job → R → Answer R (Unit {0})
  unfolding transition
  broker_requeue link j =
      transition link j (state_set K j.queue dead) (state_set K j.queue pending)
        (pending_score j.priority (to_millis j.process_at)) (pos 0)

  -- The pipeline of `transitionFromAny`.
  unfoldable pub remove_everywhere : Text → Text → R → R
  remove_everywhere queue id r = C.zrem (state_set K queue dead) id (
      C.zrem (state_set K queue completed) id (
        C.zrem (state_set K queue retrying) id (
          C.zrem (state_set K queue scheduled) id
            (C.zrem (state_set K queue active) id (C.zrem (state_set K queue pending) id r)))))

  unfoldable pub transition_from_any : Link → Link → Job → Text → ℤ → ℤ → R → Answer R (Unit {0})
  unfolding transition remove_everywhere
  transition_from_any link link' j to score ttl r =
      let (cleared, r') =
        run_script link (bytes "job_transition_failed") (bytes "failed to clear job set membership")
          (λ d. always (tt {0}, remove_everywhere j.queue j.id d)) r in
      elim cleared [
        | err e ↦ (err e, r')
        | ok u ↦ transition link' j (state_set K j.queue pending) to score ttl r'
      ]

  -- `Kill`
  unfoldable pub broker_kill : Link → Link → Job → Time → R → Answer R (Unit {0})
  unfolding transition_from_any
  broker_kill link link' j now =
      transition_from_any link link' j (state_set K j.queue dead)
        (elim j.died_at [ none ↦ to_millis now | some at ↦ to_millis at ]) (pos 0)

  -- The count that `PromoteDue` returns, with an error or without.
  abbrev pub Counted : Type 0
  Counted = (ℕ × Option GoError) × R

  abbrev pub run_promote : Link → JobState → Text → Time → ℕ → R → Answer R ℕ
  run_promote link source queue now limit =
      run_script link (bytes "job_promote_failed") (bytes "failed to promote due jobs") (
        promote_script C E (state_set K queue source) (state_set K queue pending) (to_millis now)
          limit (job_prefix K))

  -- The second turn of the loop of `PromoteDue`, with the count of the first.
  unfoldable pub promote_retrying : Link → Text → Time → ℕ → Answer R ℕ → Counted
  promote_retrying link queue now limit (err e, r) = ((0, some e), r)
  promote_retrying link queue now limit (ok total, r) =
      let (reply, r') = run_promote link retrying queue now limit r in
      (elim reply [ err e ↦ (total, some e) | ok moved ↦ (total + moved, none) ], r')

  -- `PromoteDue`
  unfoldable pub broker_promote_due : Link → Link → Text → Time → ℤ → R → Counted
  unfolding promote_retrying
  broker_promote_due link link' queue now limit r =
      promote_retrying link' queue now (limit_or_default limit)
        (run_promote link scheduled queue now (limit_or_default limit) r)

  -- `ReclaimExpired`
  unfoldable pub broker_reclaim_expired : Link → Text → Time → ℤ → R → Answer R ℕ
  broker_reclaim_expired link queue now limit =
      run_script link (bytes "job_reclaim_failed") (bytes "failed to reclaim expired jobs") (
        reclaim_script C E (state_set K queue active) (state_set K queue pending) (to_millis now)
          (limit_or_default limit) (job_prefix K))

  abbrev pub extended_or_lost : Answer R ℕ → Answer R (Unit {0})
  extended_or_lost answer = (
    answer.0 >>= λ extended.
        if extended == 0
        then err (
            conflict_error (bytes "lease_lost")
              (bytes "job is no longer active; its lease was reclaimed by another worker"))
        else ok tt,
    answer.1,
  )

  -- `ExtendLease`
  unfoldable pub broker_extend_lease : Link → Text → Text → Time → R → Answer R (Unit {0})
  broker_extend_lease link id queue until r = extended_or_lost (
      run_script link (bytes "lease_extend_failed") (bytes "failed to extend job lease")
        (λ d. always (
          extend_lease_script C E (state_set K queue active) (job_key K id) id (to_millis until) d))
        r)
