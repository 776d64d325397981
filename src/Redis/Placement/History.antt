-- ===== src/Redis/Placement/History.antt =====
-- The methods of the broker, one after the other, with calls that fail and replies that are lost.
use mathlib.Core.Path.{subst}
use goqueue.Base.{
  ℤ, pos, Text, bytes, text_eq_refl, ℕ, ◌≡◌, refl, sym, ap, ◌∙◌, inl, inr, true, Option, none, some,
  List, [], ◌∷◌, map, arith,
}
use goqueue.Job.{Time, Job}
use goqueue.Values.States.{
  JobState, scheduled, pending, active, retrying, completed, dead, can_transition_to, state_string,
  Leads, here, next,
}
use goqueue.Redis.{KeyBuilder, job_key, state_set}
use goqueue.Redis.Commands.{find_field, Commands, Documented}
use goqueue.Redis.Documents.{Encoding, to_attempt_model, job_fields, to_job_fields}
use goqueue.Redis.Documents.RoundTrip.{find_field-job_fields}
use goqueue.Redis.Broker.{
  Link, answered, refused, reply_lost, Answer, run_script, insert_job, broker_enqueue,
  broker_schedule, broker_dequeue, transition, broker_complete, broker_retry, broker_requeue,
  remove_everywhere, transition_from_any, broker_kill, run_promote, promote_retrying,
  broker_promote_due, broker_reclaim_expired, broker_extend_lease,
}
use goqueue.Redis.Placement.{
  Placed, Fewer, Sound, Fewer-trans, Sound-refl, Sound-trans, Fewer-Sound,
}
use goqueue.Redis.Placement.Settles.{
  none≢some, HeldAs, IsFresh, transition_script-Sound, enqueue_script-Sound,
  extend_lease_script-Sound,
}
use goqueue.Errors.{ok, err, Result-cases}
use goqueue.Redis.Placement.Shift.{some_injective, Within, Placed-Within}
use goqueue.Redis.Placement.Moves.{zrem-Fewer, dequeue_script-Sound}
use goqueue.Retry.{Duration}
use goqueue.Redis.Placement.Sweeps.{promote_script-Sound, reclaim_script-Sound}

module _ {R : Type 0} (C : Commands R) (law : Documented C) (K : KeyBuilder) (E : Encoding) where
  -- A call of a script does what the script does, or nothing.
  run_script-Sound :
      {A : Type 0} (link : Link) (code message : Text) (script : R → Option A × R) (r : R)
      → Placed C K r
      → Sound C K r (script r).1
      → Sound C K r (run_script link code message script r).1
  unfolding run_script
  run_script-Sound answered code message script r p s = s
  run_script-Sound (refused cause) code message script r p s = Sound-refl C K r p
  run_script-Sound (reply_lost cause) code message script r p s = s

  job_fields-state :
      (j : Job) (raw : Text)
      → find_field (bytes "state") (job_fields E j raw) ≡ some (state_string j.state)
  job_fields-state j raw = (find_field-job_fields E j raw).1.1.1.1.1.0

  job_fields-queue :
      (j : Job) (raw : Text) → find_field (bytes "queue") (job_fields E j raw) ≡ some j.queue
  job_fields-queue j raw = (find_field-job_fields E j raw).1.0

  insert_job-Sound :
      (link : Link) (j : Job) (s : JobState) (score : ℤ) (r : R)
      → IsFresh C law K j.id r
      → j.state ≡ s
      → Placed C K r
      → Sound C K r (insert_job C E K link j (state_set K j.queue s) score r).1
  unfolding insert_job to_job_fields
  insert_job-Sound link j s score r fresh st p =
      elim (Result-cases (E.marshal_attempts (map to_attempt_model j.attempts))) [
        | inr (f, e) ↦ rw (e, insert_job, to_job_fields) (Sound-refl C K r p)
        | inl (raw, e) ↦
            rw (e, insert_job, to_job_fields)
              (run_script-Sound link _ _ _ r p (
                enqueue_script-Sound C law K j.id j.queue _ s score (job_fields E j raw) r fresh
                  (job_fields-state j raw ∙ ap (λ u. some (state_string u)) st)
                  (job_fields-queue j raw) p))
      ]

  transition-Sound :
      (link : Link) (j : Job) (s from to : JobState) (score ttl : ℤ) (r : R)
      → HeldAs C law K j.id j.queue s r
      → Within C law K j.id j.queue from to r
      → Leads s to
      → j.state ≡ to
      → Placed C K r
      → Sound C K r
          (transition C E K link j
            (state_set K j.queue from)
            (state_set K j.queue to)
            score
            ttl
            r).1
  unfolding transition to_job_fields
  transition-Sound link j s from to score ttl r held w lead st p =
      elim (Result-cases (E.marshal_attempts (map to_attempt_model j.attempts))) [
        | inr (f, e) ↦ rw (e, transition, to_job_fields) (Sound-refl C K r p)
        | inl (raw, e) ↦
            rw (e, transition, to_job_fields)
              (run_script-Sound link _ _ _ r p (
                transition_script-Sound C law K E j.id j.queue s from to score ttl
                  (job_fields E j raw) r held w lead
                  (job_fields-state j raw ∙ ap (λ u. some (state_string u)) st)
                  (job_fields-queue j raw) p))
      ]

  -- A job that is held where the transition comes from.
  settle-Sound :
      (link : Link) (j : Job) (from to : JobState) (score ttl : ℤ) (r : R)
      → HeldAs C law K j.id j.queue from r
      → can_transition_to from to ≡ true
      → j.state ≡ to
      → Placed C K r
      → Sound C K r
          (transition C E K link j
            (state_set K j.queue from)
            (state_set K j.queue to)
            score
            ttl
            r).1
  settle-Sound link j from to score ttl r held allowed st p =
      transition-Sound link j from from to score ttl r held
        (Placed-Within C law K j.id j.queue from from to p held.0 held.1 (inl refl))
        (next allowed here) st p

  remove_everywhere-Fewer : (q id : Text) (r : R) → Fewer C K r (remove_everywhere C E K q id r)
  unfolding remove_everywhere
  remove_everywhere-Fewer q id r = Fewer-trans C K (zrem-Fewer C law K _ id r) (
      Fewer-trans C K (zrem-Fewer C law K _ id _) (
        Fewer-trans C K (zrem-Fewer C law K _ id _) (
          Fewer-trans C K (zrem-Fewer C law K _ id _)
            (Fewer-trans C K (zrem-Fewer C law K _ id _) (zrem-Fewer C law K _ id _)))))

  gone : (k id : Text) (r : R) → C.zscore k id (C.zrem k id r) ≡ none
  gone k id r = law.zscore_zrem k id k id r ∙ rw (text_eq_refl k, text_eq_refl id) refl

  stays : (j k id : Text) (r : R) → C.zscore k id r ≡ none → C.zscore k id (C.zrem j id r) ≡ none
  stays j k id r h = law.zscore_zrem j id k id r ∙ ground (arith, h)

  removed_lem :
      (q id : Text) (s : JobState) (r : R)
      → C.zscore (state_set K q s) id (remove_everywhere C E K q id r) ≡ none
  unfolding remove_everywhere
  removed_lem q id pending r = stays (state_set K q dead) (state_set K q pending) id _ (
      stays (state_set K q completed) (state_set K q pending) id _ (
        stays (state_set K q retrying) (state_set K q pending) id _ (
          stays (state_set K q scheduled) (state_set K q pending) id _ (
            stays (state_set K q active) (state_set K q pending) id _
              (gone (state_set K q pending) id _)))))
  removed_lem q id active r = stays (state_set K q dead) (state_set K q active) id _ (
      stays (state_set K q completed) (state_set K q active) id _ (
        stays (state_set K q retrying) (state_set K q active) id _ (
          stays (state_set K q scheduled) (state_set K q active) id _
            (gone (state_set K q active) id _))))
  removed_lem q id scheduled r = stays (state_set K q dead) (state_set K q scheduled) id _ (
      stays (state_set K q completed) (state_set K q scheduled) id _ (
        stays (state_set K q retrying) (state_set K q scheduled) id _
          (gone (state_set K q scheduled) id _)))
  removed_lem q id retrying r = stays (state_set K q dead) (state_set K q retrying) id _ (
      stays (state_set K q completed) (state_set K q retrying) id _
        (gone (state_set K q retrying) id _))
  removed_lem q id completed r =
      stays (state_set K q dead) (state_set K q completed) id _
        (gone (state_set K q completed) id _)
  removed_lem q id dead r = gone (state_set K q dead) id _

  cleared-Within :
      (q id : Text) (s : JobState) (r : R)
      → HeldAs C law K id q s r
      → Placed C K r
      → Within C law K id q pending dead (remove_everywhere C E K q id r)
  cleared-Within q id s r held p o t x h =
      let fewer = remove_everywhere-Fewer q id r in
      let (a, b) =
        p.agrees o id (state_string s) t x (fewer.entries (state_set K o t) id x h) held.0 in
      let same : o ≡ q = some_injective (sym b ∙ held.1) in
      absurd (
        none≢some (
          sym (removed_lem q id t r)
          ∙ subst (λ u. C.zscore (state_set K u t) id (remove_everywhere C E K q id r) ≡ some x)
              same h))

  kill_cleared-Sound :
      (link : Link) (j : Job) (s : JobState) (score : ℤ) (r : R)
      → HeldAs C law K j.id j.queue s r
      → can_transition_to s dead ≡ true
      → j.state ≡ dead
      → Placed C K r
      → Sound C K r
          (transition C E K link j
            (state_set K j.queue pending)
            (state_set K j.queue dead)
            score
            (pos 0)
            (remove_everywhere C E K j.queue j.id r)).1
  kill_cleared-Sound link j s score r held allowed st p =
      let fewer = remove_everywhere-Fewer j.queue j.id r in
      Sound-trans C K (Fewer-Sound C K fewer p) (
        transition-Sound link j s pending dead score (pos 0)
          (remove_everywhere C E K j.queue j.id r)
          (
            fewer.documents j.id (bytes "state") ∙ held.0,
            fewer.documents j.id (bytes "queue") ∙ held.1,
          )
          (cleared-Within j.queue j.id s r held p) (next allowed here) st)

  kill-Sound :
      (link link' : Link) (j : Job) (s : JobState) (score : ℤ) (r : R)
      → HeldAs C law K j.id j.queue s r
      → can_transition_to s dead ≡ true
      → j.state ≡ dead
      → Placed C K r
      → Sound C K r
          (transition_from_any C E K link link' j (state_set K j.queue dead) score (pos 0) r).1
  unfolding transition_from_any run_script
  kill-Sound answered link' j s score r held allowed st p =
      kill_cleared-Sound link' j s score r held allowed st p
  kill-Sound (refused cause) link' j s score r held allowed st p = Sound-refl C K r p
  kill-Sound (reply_lost cause) link' j s score r held allowed st p =
      Fewer-Sound C K (remove_everywhere-Fewer j.queue j.id r) p

  -- A method of the broker, called with a job that the domain has brought into its new state.
  pub data BrokerStep (r : R) : R → Type 0 where
    enqueued :
        (link : Link) (j : Job)
        → IsFresh C law K j.id r
        → j.state ≡ pending
        → BrokerStep r (broker_enqueue C E K link j r).1
    put_off :
        (link : Link) (j : Job)
        → IsFresh C law K j.id r
        → j.state ≡ scheduled
        → BrokerStep r (broker_schedule C E K link j r).1
    dequeued :
        (link : Link) (order : List Text) (worker : Text) (lease_for : Duration) (now : Time)
        → BrokerStep r (broker_dequeue C E K link order worker lease_for now r).1
    finished :
        (link : Link) (j : Job) (retain_for : Duration) (now : Time)
        → HeldAs C law K j.id j.queue active r
        → j.state ≡ completed
        → BrokerStep r (broker_complete C E K link j retain_for now r).1
    put_back :
        (link : Link) (j : Job) (retry_at : Time)
        → HeldAs C law K j.id j.queue active r
        → j.state ≡ retrying
        → BrokerStep r (broker_retry C E K link j retry_at r).1
    requeued :
        (link : Link) (j : Job)
        → HeldAs C law K j.id j.queue dead r
        → j.state ≡ pending
        → BrokerStep r (broker_requeue C E K link j r).1
    killed :
        (link link' : Link) (j : Job) (s : JobState) (now : Time)
        → HeldAs C law K j.id j.queue s r
        → can_transition_to s dead ≡ true
        → j.state ≡ dead
        → BrokerStep r (broker_kill C E K link link' j now r).1
    promoted :
        (link link' : Link) (queue : Text) (now : Time) (limit : ℤ)
        → BrokerStep r (broker_promote_due C E K link link' queue now limit r).1
    reclaimed :
        (link : Link) (queue : Text) (now : Time) (limit : ℤ)
        → BrokerStep r (broker_reclaim_expired C E K link queue now limit r).1
    extended :
        (link : Link) (id queue : Text) (until : Time)
        → C.exists (job_key K id) r ≡ true
        → BrokerStep r (broker_extend_lease C E K link id queue until r).1

  pub data History : R → R → Type 0 where
    idle : {r : R} → History r r
    step : {r r' r'' : R} → BrokerStep r r' → History r' r'' → History r r''

  promote-Sound :
      (link : Link) (source : JobState) (queue : Text) (now : Time) (limit : ℕ) (r : R)
      → Leads source pending
      → Placed C K r
      → Sound C K r (run_promote C E K link source queue now limit r).1
  promote-Sound link source queue now limit r lead p =
      run_script-Sound link _ _ _ r p (promote_script-Sound C law K E source queue _ limit r lead p)

  promote_retrying-Sound :
      (link : Link) (queue : Text) (now : Time) (limit : ℕ) (answer : Answer R ℕ) {r : R}
      → Sound C K r answer.1
      → Sound C K r (promote_retrying C E K link queue now limit answer).1
  unfolding promote_retrying can_transition_to
  promote_retrying-Sound link queue now limit (err e, r') s = s
  promote_retrying-Sound link queue now limit (ok total, r') s =
      Sound-trans C K s (promote-Sound link retrying queue now limit r' (next refl here))

  BrokerStep-Sound : {r r' : R} → BrokerStep r r' → Placed C K r → Sound C K r r'
  unfolding broker_enqueue broker_schedule broker_dequeue broker_complete broker_retry
      broker_requeue broker_kill broker_promote_due broker_reclaim_expired broker_extend_lease
      can_transition_to
  BrokerStep-Sound {r} (enqueued link j fresh st) p = insert_job-Sound link j pending _ r fresh st p
  BrokerStep-Sound {r} (put_off link j fresh st) p =
      insert_job-Sound link j scheduled _ r fresh st p
  BrokerStep-Sound {r} (dequeued link [] worker lease_for now) p = Sound-refl C K r p
  BrokerStep-Sound {r} (dequeued link (q ∷ order) worker lease_for now) p =
      run_script-Sound link _ _ _ r p (dequeue_script-Sound C law K E _ worker _ _ r p)
  BrokerStep-Sound {r} (finished link j retain_for now held st) p =
      settle-Sound link j active completed _ _ r held refl st p
  BrokerStep-Sound {r} (put_back link j retry_at held st) p =
      settle-Sound link j active retrying _ _ r held refl st p
  BrokerStep-Sound {r} (requeued link j held st) p =
      settle-Sound link j dead pending _ _ r held refl st p
  BrokerStep-Sound {r} (killed link link' j s now held allowed st) p =
      kill-Sound link link' j s _ r held allowed st p
  BrokerStep-Sound {r} (promoted link link' queue now limit) p =
      promote_retrying-Sound link' queue now _ _
        (promote-Sound link scheduled queue now _ r (next refl here) p)
  BrokerStep-Sound {r} (reclaimed link queue now limit) p =
      run_script-Sound link _ _ _ r p (reclaim_script-Sound C law K E queue _ _ r p)
  BrokerStep-Sound {r} (extended link id queue until live) p =
      run_script-Sound link _ _ _ r p (extend_lease_script-Sound C law K E id queue _ r live p)

  -- The methods of the broker, called in any order, with calls refused and replies lost, from a database in
  -- which the sets and the documents agree: they agree afterwards, so that no job with a document is in two
  -- lifecycle sets, and each document is there still, in the state it had or in one that the allowed
  -- transitions lead to. A job is enqueued under an id that no set has, a job that is settled is one whose
  -- document has the state and the queue that the call presumes, a lease is extended where the document
  -- exists, and no document is deleted.
  pub History-Sound : {r r' : R} → Placed C K r → History r r' → Sound C K r r'
  History-Sound {r} p idle = Sound-refl C K r p
  History-Sound p (step s h) = Sound-trans C K (BrokerStep-Sound s p) (λ p'. History-Sound p' h)
