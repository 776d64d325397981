-- ===== src/Enqueuer/Rollback.antt =====
-- A request that is refused or fails leaves no trace: no job, and no claim on its key.
use goqueue.Base.{
  if◌then◌else◌, Bool-cases, Option-cases, Text, is_empty, text_eq, text_eq_refl, ◌≡◌, refl, ap,
  ◌∙◌, inl, inr, true, false, none, some, List, [], ◌∷◌, arith,
}
use goqueue.Errors.{GoError, err, Result-cases}
use goqueue.Values.States.{scheduled, state_eq}
use goqueue.Job.{Job}
use goqueue.Store.Defs.{Store, lookup_claim, delete_claim, take_failure}
use goqueue.Store.Repo.{save}
use goqueue.Store.Broker.{enqueue, schedule}
use goqueue.Store.Claims.{claim, release}
use goqueue.Enqueuer.{
  EnqueueJobReq, Surroundings, build_from, persist, resolve_duplicate, keep_or_release,
  persist_or_release, answer_claim, submit, enqueue_request,
}

pub persist-save : (job : Job) (s : Store) → persist job s ≡ save job s
unfolding persist schedule enqueue
persist-save job s = elim (Bool-cases (state_eq job.state scheduled)) [
  | inl e ↦ rw e refl
  | inr e ↦ rw e refl
]

-- Two stores with the same jobs, queues and claims.
pub record SameContents (s t : Store) : Type 0 where
  pub same_jobs : t.jobs ≡ s.jobs
  pub same_queues : t.queues ≡ s.queues
  pub same_claims : t.claims ≡ s.claims

delete_claim-free :
    (key : Text) (cs : List (Text × Text)) → lookup_claim key cs ≡ none → delete_claim key cs ≡ cs
unfolding lookup_claim delete_claim
delete_claim-free key [] free = refl
delete_claim-free key ((k, id) ∷ cs) free = elim (Bool-cases (text_eq k key)) [
  | inl e ↦ absurd (ground arith)
  | inr e ↦ rw e (ap (λ r. (k, id) ∷ r) (delete_claim-free key cs (ground arith)))
]

delete_claim-head :
    (key id : Text) (cs : List (Text × Text))
    → delete_claim key ((key, id) ∷ cs) ≡ delete_claim key cs
unfolding delete_claim
delete_claim-head key id cs = rw (text_eq_refl key) refl

-- A write that fails leaves the jobs, and the claims but for the key of the job.
persist_or_release-failing :
    (job : Job) (s : Store) {e : GoError}
    → (persist_or_release job s).0 ≡ err e
    → ((persist_or_release job s).1.jobs ≡ s.jobs)
      × ((persist_or_release job s).1.queues ≡ s.queues)
      × ((persist_or_release job s).1.claims ≡ (
          if is_empty job.idempotency_key
          then s.claims
          else delete_claim job.idempotency_key s.claims))
unfolding persist_or_release keep_or_release release save take_failure
persist_or_release-failing job s h =
    let same = persist-save job s in
    elim (Option-cases s.fail_next) [
      | inl quiet ↦ absurd (ground (arith, same, quiet))
      | inr (f, e) ↦ ground (arith, same, e)
    ]

-- What `submit` comes to on its three ways.
pub submit-keyless :
    (job : Job) (s : Store)
    → is_empty job.idempotency_key ≡ true
    → submit job s ≡ persist_or_release job s
unfolding submit
submit-keyless job s e = rw e refl

pub submit-fresh :
    (job : Job) (s : Store)
    → is_empty job.idempotency_key ≡ false
    → lookup_claim job.idempotency_key s.claims ≡ none
    → submit job s
      ≡ persist_or_release job (record s { claims = (job.idempotency_key, job.id) ∷ s.claims })
unfolding submit claim answer_claim
submit-fresh job s e free = rw (e, free) refl

pub submit-held :
    (job : Job) (s : Store) {id : Text}
    → is_empty job.idempotency_key ≡ false
    → lookup_claim job.idempotency_key s.claims ≡ some id
    → submit job s ≡ (resolve_duplicate job.idempotency_key id s, s)
unfolding submit claim answer_claim
submit-held job s e held = rw (e, held) refl

submit-failing :
    (job : Job) (s : Store) {e : GoError}
    → (submit job s).0 ≡ err e
    → SameContents s (submit job s).1
submit-failing job s h = elim (Bool-cases (is_empty job.idempotency_key)) [
  | inl empty ↦
      let same = submit-keyless job s empty in
      let (a, b, c) = persist_or_release-failing job s (rw same at h) in
      rw same (record { same_jobs = a; same_queues = b; same_claims = ground (arith, c, empty) })
  | inr keyed ↦ elim (Option-cases (lookup_claim job.idempotency_key s.claims)) [
    | inr (id, held) ↦
        rw (submit-held job s keyed held)
          (record { same_jobs = refl; same_queues = refl; same_claims = refl })
    | inl free ↦
        let same = submit-fresh job s keyed free in
        let claimed : Store = record s { claims = (job.idempotency_key, job.id) ∷ s.claims } in
        let (a, b, c) = persist_or_release-failing job claimed (rw same at h) in
        rw same (record {
          same_jobs = a;
          same_queues = b;
          same_claims =
              c
              ∙ ap
                  (λ b.
                    if b then claimed.claims else delete_claim job.idempotency_key claimed.claims)
                  keyed
              ∙ delete_claim-head job.idempotency_key job.id s.claims
              ∙ delete_claim-free job.idempotency_key s.claims free;
        })
  ]
]

-- A request that is answered with an error, at whatever point, leaves the jobs, the queues and the
-- claims as they were: the key of a failed request is free again.
pub enqueue_request-failing :
    (at : Surroundings) (req : EnqueueJobReq) (s : Store) {e : GoError}
    → (enqueue_request at req s).0 ≡ err e
    → SameContents s (enqueue_request at req s).1
unfolding enqueue_request
enqueue_request-failing at req s h = elim (Result-cases (build_from at req)) [
  | inl (job, b) ↦ rw (b, enqueue_request) (submit-failing job s (rw (b, enqueue_request) at h))
  | inr (f, b) ↦
      rw (b, enqueue_request) (record { same_jobs = refl; same_queues = refl; same_claims = refl })
]
