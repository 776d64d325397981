-- ===== src/Redis/Broker/Attempts.antt =====
-- The count of the attempts in the documents, over the calls that a worker makes up to the run of a handler
-- and over the sweeps: Save of job_repo.go writes it, dequeue.lua, promote.lua and reclaim.lua do not.
use goqueue.Base.{
  if◌then◌else◌, ℤ, Text, bytes, text_eq, ◌≡◌, refl, sym, ap, ◌∙◌, inl, inr, Option, some, List,
  map,
}
use goqueue.Errors.{GoError, ok, err, Result-cases, err≢ok}
use goqueue.Retry.{Duration}
use goqueue.Job.{Time, Job}
use goqueue.Values.States.{scheduled}
use goqueue.Redis.{KeyBuilder, job_key}
use goqueue.Redis.Commands.{Fields, find_field, or_else, Commands, Documented}
use goqueue.Redis.Documents.{Encoding, to_attempt_model, job_fields, to_job_fields}
use goqueue.Redis.Repo.{repo_save}
use goqueue.Redis.Broker.{
  Link, answered, refused, reply_lost, run_script, limit_or_default, broker_dequeue,
  broker_promote_due, broker_reclaim_expired,
}
use goqueue.Redis.Broker.Crashes.{
  made, broker_dequeue-made, broker_reclaim_expired-made, run_promote-made, promote_retrying-made,
}

module _ {R : Type 0} (C : Commands R) (law : Documented C) (E : Encoding) (K : KeyBuilder) where
  saved_fields-made :
      (job : Job) {fields : Fields}
      → to_job_fields E job ≡ ok fields
      → find_field made fields ≡ some (E.format_uint job.attempts_made)
  unfolding to_job_fields find_field text_eq bytes
  saved_fields-made job {fields} e =
      elim (Result-cases (E.marshal_attempts (map to_attempt_model job.attempts))) [
        | inl (raw, m) ↦
            let same : ok (job_fields E job raw) ≡ ok fields =
              sym (rw (m, to_job_fields) refl) ∙ e in
            ap
              (λ r. elim r [
                | err x ↦ some (E.format_uint job.attempts_made)
                | ok fs ↦ find_field made fs
              ])
              (sym same)
        | inr (x, m) ↦ absurd (err≢ok (rw (m, to_job_fields) at e))
      ]

  -- What the field attempts_made of a document is after a Save of a job, from what it was.
  abbrev pub after_save : Text → Link → Job → Option Text → Option Text
  after_save j (refused cause) job before = before
  after_save j _ job before = elim (to_job_fields E job) [
    | err e ↦ before
    | ok fields ↦
        if text_eq (job_key K job.id) j then some (E.format_uint job.attempts_made) else before
  ]

  hset-made :
      (job : Job) (j : Text) (r : R) {fields : Fields}
      → to_job_fields E job ≡ ok fields
      → C.hget j made (C.hset (job_key K job.id) fields r) ≡ (
          if text_eq (job_key K job.id) j
          then some (E.format_uint job.attempts_made)
          else C.hget j made r)
  hset-made job j r {fields} e =
      law.hget_hset (job_key K job.id) j made fields r ∙ rw (saved_fields-made job e, or_else) refl

  repo_save-made :
      (link : Link) (job : Job) (j : Text) (r : R)
      → C.hget j made (repo_save C E K link job r).1 ≡ after_save j link job (C.hget j made r)
  unfolding repo_save run_script
  repo_save-made link job j r = elim (Result-cases (to_job_fields E job)) [
    | inr (x, e) ↦ failed link x e
    | inl (fields, e) ↦ sent link fields e
  ]
    where
      failed :
          (l : Link) (x : GoError)
          → to_job_fields E job ≡ err x
          → C.hget j made (repo_save C E K l job r).1 ≡ after_save j l job (C.hget j made r)
      failed answered x e = rw (repo_save, after_save, e) refl
      failed (refused cause) x e = rw (repo_save, e) refl
      failed (reply_lost cause) x e = rw (repo_save, after_save, e) refl

      sent :
          (l : Link) (fields : Fields)
          → to_job_fields E job ≡ ok fields
          → C.hget j made (repo_save C E K l job r).1 ≡ after_save j l job (C.hget j made r)
      sent answered fields e = rw (repo_save, after_save, e) (hset-made job j r e)
      sent (refused cause) fields e = rw (repo_save, e) refl
      sent (reply_lost cause) fields e = rw (repo_save, after_save, e) (hset-made job j r e)

  -- The calls up to the run of a handler: Dequeue, the Save with which Process stores the leased job
  -- first, and the sweeps that put jobs back.
  pub data WorkerCall : R → R → Type 0 where
    dequeued :
        (link : Link) (order : List Text) (worker : Text) (lease_for : Duration) (now : Time)
        {r : R}
        → WorkerCall r (broker_dequeue C E K link order worker lease_for now r).1
    saved : (link : Link) (job : Job) {r : R} → WorkerCall r (repo_save C E K link job r).1
    reclaimed :
        (link : Link) (queue : Text) (now : Time) (limit : ℤ) {r : R}
        → WorkerCall r (broker_reclaim_expired C E K link queue now limit r).1
    promoted :
        (link link' : Link) (queue : Text) (now : Time) (limit : ℤ) {r : R}
        → WorkerCall r (broker_promote_due C E K link link' queue now limit r).1

  pub data CallRun : R → R → Type 0 where
    at_rest : {r : R} → CallRun r r
    and_then : {r r' r'' : R} → WorkerCall r r' → CallRun r' r'' → CallRun r r''

  -- What the Saves among the calls make of the field attempts_made of a document.
  abbrev pub after_call : Text → {r r' : R} → WorkerCall r r' → Option Text → Option Text
  after_call j (saved link job) before = after_save j link job before
  after_call j (dequeued link order worker lease_for now) before = before
  after_call j (reclaimed link queue now limit) before = before
  after_call j (promoted link link' queue now limit) before = before

  abbrev pub after_calls : Text → {r r' : R} → CallRun r r' → Option Text → Option Text
  after_calls j at_rest before = before
  after_calls j (and_then call rest) before = after_calls j rest (after_call j call before)

  call-made :
      (j : Text) {r r' : R} (call : WorkerCall r r')
      → C.hget j made r' ≡ after_call j call (C.hget j made r)
  unfolding broker_promote_due
  call-made j {r = r} (dequeued link order worker lease_for now) =
      broker_dequeue-made C law E K link order worker lease_for now j r
  call-made j {r = r} (saved link job) = repo_save-made link job j r
  call-made j {r = r} (reclaimed link queue now limit) =
      broker_reclaim_expired-made C law E K link queue now limit j r
  call-made j {r = r} (promoted link link' queue now limit) =
      promote_retrying-made C law E K link' queue now (limit_or_default limit) _ j
      ∙ run_promote-made C law E K link scheduled queue now (limit_or_default limit) j r

  -- Over any sequence of dequeues, of Saves of jobs, and of promote and reclaim sweeps, with any call
  -- refused or its reply lost: the field attempts_made of every document is the count of the last Save
  -- of its job that the server performed, and where there is none what it was at the start. Neither
  -- Dequeue nor a sweep writes it.
  pub attempts_made_saved :
      (j : Text) {r r' : R} (run : CallRun r r')
      → C.hget j (bytes "attempts_made") r' ≡ after_calls j run (C.hget j (bytes "attempts_made") r)
  attempts_made_saved j at_rest = refl
  attempts_made_saved j (and_then call rest) =
      attempts_made_saved j rest ∙ ap (after_calls j rest) (call-made j call)
