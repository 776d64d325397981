-- ===== src/Redis/Broker/Overlap.antt =====
-- What the guards of the Lua scripts leave out: transition.lua tests that the document is there, and not
-- that the job is still in the set that it is to leave.
use goqueue.Base.{
  if◌then◌else◌, Bool-cases, ℤ, pos, ◌+ℤ◌, ltb_ℤ, Text, text_eq, text_eq_refl, ◌≡◌, refl, ◌∙◌, ◌≢◌,
  inl, inr, true, false, some,
}
use goqueue.Errors.{ok}
use goqueue.Retry.{Duration}
use goqueue.Job.{Time, Job}
use goqueue.Values.States.{JobState, pending, active, completed}
use goqueue.Redis.{KeyBuilder, job_key, state_set}
use goqueue.Redis.Keys.{state_set-injective}
use goqueue.Redis.Commands.{Fields, Commands, Documented}
use goqueue.Redis.Documents.{Encoding, to_millis, to_job_fields}
use goqueue.Redis.Scripts.{transition_script}
use goqueue.Redis.Broker.{answered, run_script, whole_seconds, transition, broker_complete}
use goqueue.Redis.Placement.Shift.{text_eq-ne, shift, zscore-shift-same}

module _ {R : Type 0} (C : Commands R) (law : Documented C) (K : KeyBuilder) (E : Encoding) where
  finish-zscore :
      (job k i : Text) (ttl : ℤ) (r : R)
      → C.zscore k i (if ltb_ℤ (pos 0) ttl then C.expire job ttl r else C.persist job r)
        ≡ C.zscore k i r
  finish-zscore job k i ttl r = elim (Bool-cases (ltb_ℤ (pos 0) ttl)) [
    | inl e ↦ rw e (law.zscore_expire job k i ttl r e)
    | inr e ↦ rw e (law.zscore_persist job k i r)
  ]

  apart : (q : Text) (s t : JobState) → s ≢ t → text_eq (state_set K q s) (state_set K q t) ≡ false
  apart q s t ne =
      text_eq-ne (state_set K q s) (state_set K q t) (λ h. ne (state_set-injective K q q s t h).1)

  -- Complete, as the worker calls it whose lease has been reclaimed while it ran, so that the job waits in
  -- the pending set; the job can be encoded, its document exists, and the call is answered. The call
  -- succeeds, the job enters the completed set with its retention as the score, and it stays in the pending
  -- set with the score that it had there.
  pub late_complete_overlaps :
      (j : Job) (fields : Fields) (retain_for : Duration) (now : Time) (x : ℤ) (r : R)
      → to_job_fields E j ≡ ok fields
      → C.exists (job_key K j.id) r ≡ true
      → C.zscore (state_set K j.queue pending) j.id r ≡ some x
      → ((broker_complete C E K answered j retain_for now r).0 ≡ ok tt)
        × (C.zscore
              (state_set K j.queue pending)
              j.id
              (broker_complete C E K answered j retain_for now r).1
            ≡ some x)
        × (C.zscore
              (state_set K j.queue completed)
              j.id
              (broker_complete C E K answered j retain_for now r).1
            ≡ some (to_millis (now +ℤ retain_for)))
  unfolding broker_complete transition run_script transition_script
  late_complete_overlaps j fields retain_for now x r enc live waits =
      let to = state_set K j.queue completed in
      let from = state_set K j.queue active in
      let line = state_set K j.queue pending in
      let score = to_millis (now +ℤ retain_for) in
      let moved = shift C law K from to j.id score fields r in
      let ttl = whole_seconds retain_for in
      rw (enc, live, broker_complete, transition, run_script, transition_script)
        (
          refl,
          finish-zscore (job_key K j.id) line j.id ttl moved
              ∙ zscore-shift-same C law K from to j.id line score fields r
              ∙ rw
                  (
                    apart j.queue completed pending (λ h. cc h),
                    apart j.queue active pending (λ h. cc h),
                  )
                  waits,
          finish-zscore (job_key K j.id) to j.id ttl moved
              ∙ zscore-shift-same C law K from to j.id to score fields r
              ∙ rw (text_eq_refl to) refl,
        )
