-- ===== src/Redis/Repo/Reading.antt =====
-- What the repository reads of a job that it saved.
use goqueue.Base.{All, Text, is_empty, text_eq_refl, ◌≡◌, refl, ◌∙◌, false, some, [], ◌∷◌, map}
use goqueue.Errors.{ok}
use goqueue.Job.{Job}
use goqueue.Redis.{KeyBuilder, job_key}
use goqueue.Redis.Commands.{Fields, find_field, or_else, Commands, Documented}
use goqueue.Redis.Documents.{
  Encoding, to_attempt_model, field_of, job_fields, to_job_fields, to_aggregate,
}
use goqueue.Redis.Documents.RoundTrip.{
  Faithful, whole_job, IsStorable, valid_texts, decode_job-Reads, find_field-job_fields,
  Reads-field_of,
}
use goqueue.Redis.Broker.{answered, run_script}
use goqueue.Redis.Placement.Settles.{none≢some}
use goqueue.Redis.Repo.{read_reply, repo_save, found_or_missing, repo_find_by_id}

module _ {R : Type 0} (C : Commands R) (law : Documented C) (K : KeyBuilder) (E : Encoding)
    (faithful : Faithful E) where
  -- What HSET wrote last is what HGETALL lists.
  written_lem :
      (key : Text) (fields pairs : Fields) (r : R)
      → All (λ (p : Text × Text). find_field p.0 fields ≡ some p.1) pairs
      → All
          (λ (p : Text × Text). find_field p.0 (C.hgetall key (C.hset key fields r)) ≡ some p.1)
          pairs
  written_lem key fields [] r h = tt
  written_lem key fields (p ∷ pairs) r (e, h) = (
    law.hgetall_hget key p.0 (C.hset key fields r)
        ∙ law.hget_hset key key p.0 fields r
        ∙ rw (text_eq_refl key, e, or_else) refl,
    written_lem key fields pairs r h,
  )

  decode_hash :
      (j : Job) (raw : Text) (id : Text) (hash : Fields)
      → IsStorable E j
      → E.marshal_attempts (map to_attempt_model j.attempts) ≡ ok raw
      → is_empty raw ≡ false
      → E.unmarshal_attempts raw ≡ ok (map to_attempt_model j.attempts)
      → All (λ (p : Text × Text). find_field p.0 hash ≡ some p.1) (job_fields E j raw)
      → found_or_missing C E K id hash ≡ ok (whole_job j)
  unfolding find_field to_aggregate
  decode_hash j raw id [] st m full u h = absurd (none≢some h.0)
  decode_hash j raw id (p ∷ hash) st m full u h =
      decode_job-Reads E faithful j raw (field_of (p ∷ hash)) st m full u
        (Reads-field_of (p ∷ hash) (job_fields E j raw) h)

  -- A storable job that Save writes, over whatever document was there, is the job that FindByID gives, with each
  -- instant cut to its millisecond.
  pub find_saved :
      (j : Job) (r : R)
      → IsStorable E j
      → ((repo_save C E K answered j r).0 ≡ ok tt)
        × (repo_find_by_id C E K answered j.id (repo_save C E K answered j r).1 ≡ ok (whole_job j))
  unfolding repo_save repo_find_by_id run_script read_reply to_job_fields
  find_saved j r st =
      let (raw, m, full, u) =
        faithful.unmarshal_marshal (map to_attempt_model j.attempts)
          (valid_texts E j.attempts st.attempts_stamped) in
      rw (m, repo_save, to_job_fields, run_script)
        (
          refl,
          decode_hash j raw j.id _ st m full u (
              written_lem (job_key K j.id) (job_fields E j raw) (job_fields E j raw) r
                (find_field-job_fields E j raw)),
        )
