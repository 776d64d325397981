-- ===== src/Enqueuer/Duplicates.antt =====
-- Two requests with one idempotency key.
use mathlib.Core.Path.{subst}
use goqueue.Base.{
  Text, is_empty, text_eq_refl, ◌≡◌, refl, sym, ap, ◌∙◌, true, false, none, some, ◌∷◌, arith,
}
use goqueue.Errors.{ok, >>=-eq-ok}
use goqueue.Values.Names.{new_job_id, new_queue_name, new_task_type, new_idempotency_key}
use goqueue.Values.Priorities.{parse_priority}
use goqueue.Retry.{default_max_retries, default_base_delay, default_max_delay, new_retry_policy}
use goqueue.Job.{Job}
use goqueue.Job.Creation.{NewJobParams, new_job}
use goqueue.Store.Defs.{Store, put_job, lookup_claim, take_failure, ensure_queue}
use goqueue.Store.Repo.{save, find_by_id}
use goqueue.Store.Maps.{lookup-put}
use goqueue.Enqueuer.{
  EnqueueJobReq, Surroundings, deref_or, seconds_or, process_at_of, build_from, persist,
  resolve_duplicate, keep_or_release, persist_or_release, submit, enqueue_request,
}
use goqueue.Enqueuer.Rollback.{persist-save, submit-fresh, submit-held}

new_job-id : (p : NewJobParams) {j : Job} → new_job p ≡ ok j → is_empty j.id ≡ false
unfolding new_job
new_job-id p h = ground arith

-- A job that a request builds has an id.
build_from-id :
    (at : Surroundings) (req : EnqueueJobReq) {job : Job}
    → build_from at req ≡ ok job
    → is_empty job.id ≡ false
unfolding build_from
build_from-id at req h =
    let (a, ea, h1) = >>=-eq-ok (new_task_type req.task_type) _ h in
    let (b, eb, h2) = >>=-eq-ok (new_queue_name req.queue) _ h1 in
    let (c, ec, h3) = >>=-eq-ok (parse_priority req.priority) _ h2 in
    let (d, ed, h4) = >>=-eq-ok (new_idempotency_key req.idempotency_key) _ h3 in
    let (f, ef, h5) = >>=-eq-ok (new_job_id at.new_id) _ h4 in
    let (g, eg, h6) =
      >>=-eq-ok (process_at_of at.parse_rfc3339 req.delay_seconds req.run_at at.now) _ h5 in
    let (i, ei, h7) =
      >>=-eq-ok
        (new_retry_policy (deref_or req.max_retries default_max_retries)
          (seconds_or req.retry_base_delay_seconds default_base_delay)
          (seconds_or req.retry_max_delay_seconds default_max_delay) req.backoff_strategy)
        _ h6 in
    new_job-id _ h7

-- The store after a first request with a fresh key.
abbrev accepted_store : Job → Store → Store
accepted_store job s = record s {
  jobs = put_job job s.jobs;
  queues = ensure_queue job.queue s.queues;
  claims = (job.idempotency_key, job.id) ∷ s.claims;
  fail_next = none;
}

persist-quiet :
    (job : Job) (s : Store)
    → s.fail_next ≡ none
    → persist job s ≡ (
      ok tt,
      record s {
        jobs = put_job job s.jobs;
        queues = ensure_queue job.queue s.queues;
        fail_next = none;
      },
    )
unfolding save take_failure
persist-quiet job s quiet = persist-save job s ∙ rw (quiet, save) refl

submit-accepted :
    (job : Job) (s : Store)
    → s.fail_next ≡ none
    → is_empty job.idempotency_key ≡ false
    → lookup_claim job.idempotency_key s.claims ≡ none
    → submit job s ≡ (ok (record { job = job; deduplicated = false }), accepted_store job s)
unfolding persist_or_release keep_or_release
submit-accepted job s quiet keyed free =
    submit-fresh job s keyed free
    ∙ ap (keep_or_release job)
        (persist-quiet job (record s { claims = (job.idempotency_key, job.id) ∷ s.claims }) quiet)

-- A request whose key is held for a job that is stored.
submit-kept :
    (job' : Job) (key id : Text) (kept : Job) (t : Store)
    → is_empty id ≡ false
    → is_empty key ≡ false
    → job'.idempotency_key ≡ key
    → lookup_claim key t.claims ≡ some id
    → find_by_id id t ≡ ok kept
    → submit job' t ≡ (ok (record { job = kept; deduplicated = true }), t)
unfolding resolve_duplicate
submit-kept job' key id kept t has_id keyed same held stored =
    submit-held job' t {id = id} (rw same keyed) (rw same held)
    ∙ rw (has_id, resolve_duplicate, stored) refl

-- What a first request leaves: its claim, and its job under its id.
accepted_store-held :
    (job : Job) (s : Store)
    → (lookup_claim job.idempotency_key (accepted_store job s).claims ≡ some job.id)
      × (find_by_id job.id (accepted_store job s) ≡ ok job)
unfolding find_by_id lookup_claim
accepted_store-held job s = (
  rw (text_eq_refl job.idempotency_key) refl,
  rw (find_by_id, lookup-put job job.id s.jobs, text_eq_refl job.id) refl,
)

-- A request is safe to repeat. Where a first request builds a job with a key that is free, and no failure
-- is injected, it is accepted. A second request that builds a job with the same key, whatever else it asks
-- for, is then answered with the job of the first, marked as deduplicated, and changes nothing; and so it
-- is in any store `t` in which the key is still held for the first job and that is stored, as `kept`: it
-- is answered with `kept`, and `t` stays as it is.
pub enqueue_request-again :
    (at at' : Surroundings) (req req' : EnqueueJobReq) (s t : Store) {job job' kept : Job}
    → build_from at req ≡ ok job
    → build_from at' req' ≡ ok job'
    → is_empty job.idempotency_key ≡ false
    → job'.idempotency_key ≡ job.idempotency_key
    → lookup_claim job.idempotency_key s.claims ≡ none
    → s.fail_next ≡ none
    → lookup_claim job.idempotency_key t.claims ≡ some job.id
    → find_by_id job.id t ≡ ok kept
    → ((enqueue_request at req s).0 ≡ ok (record { job = job; deduplicated = false }))
      × (enqueue_request at' req' (enqueue_request at req s).1
          ≡ (ok (record { job = job; deduplicated = true }), (enqueue_request at req s).1))
      × (enqueue_request at' req' t ≡ (ok (record { job = kept; deduplicated = true }), t))
unfolding enqueue_request
enqueue_request-again at at' req req' s t {job} {job'} {kept} b b' keyed same free quiet held
      stored =
    let has_id = build_from-id at req b in
    let first : enqueue_request at req s
        ≡ (ok (record { job = job; deduplicated = false }), accepted_store job s) =
      rw (b, enqueue_request) (submit-accepted job s quiet keyed free) in
    let (held', stored') = accepted_store-held job s in
    let second : enqueue_request at' req' (accepted_store job s)
        ≡ (ok (record { job = job; deduplicated = true }), accepted_store job s) =
      rw (b', enqueue_request)
        (submit-kept job' job.idempotency_key job.id job (accepted_store job s) has_id keyed same
          held' stored') in
    (
      ap (λ r. r.0) first,
      subst (λ t. enqueue_request at' req' t ≡ (ok (record { job = job; deduplicated = true }), t))
          (sym (ap (λ r. r.1) first)) second,
      rw (b', enqueue_request)
          (submit-kept job' job.idempotency_key job.id kept t has_id keyed same held stored),
    )
