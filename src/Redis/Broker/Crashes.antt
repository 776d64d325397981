-- ===== src/Redis/Broker/Crashes.antt =====
-- What Dequeue and the promote and reclaim sweeps leave alone in the documents: dequeue.lua, promote.lua and
-- reclaim.lua write other fields than the count of the attempts.
use goqueue.Base.{
  Bool-cases, Option-cases, ℤ, Text, bytes, text_eq, ℕ, zero, suc, ◌≡◌, refl, ◌∙◌, inl, inr, Bool,
  Option, none, some, List, [], ◌∷◌, ◌++◌,
}
use goqueue.Redis.Commands.{Fields, find_field, Commands, Documented}
use goqueue.Redis.Documents.{Encoding}
use goqueue.Redis.Scripts.{
  QueueKeys, is_paused_flag, count_turn, pop_live_in, pop_live, claim_popped, dequeue_turn,
  dequeue_script, ready_score, move_ready, move_all, promote_script, reclaim_script,
}
use goqueue.Retry.{Duration}
use goqueue.Job.{Time}
use goqueue.Values.States.{JobState, retrying}
use goqueue.Redis.{KeyBuilder}
use goqueue.Redis.Broker.{
  Link, answered, refused, reply_lost, Answer, run_script, broker_dequeue, run_promote,
  promote_retrying, broker_reclaim_expired,
}
use goqueue.Errors.{ok, err}

abbrev pub made : Text
made = bytes "attempts_made"

module _ {R : Type 0} (C : Commands R) (law : Documented C) where
  -- HSET of other fields.
  hget-hset_other :
      (k j f : Text) (fs : Fields) (r : R)
      → find_field f fs ≡ none
      → C.hget j f (C.hset k fs r) ≡ C.hget j f r
  hget-hset_other k j f fs r e = elim (Bool-cases (text_eq k j)) [
    | inl s ↦ law.hget_hset k j f fs r ∙ rw (s, e) refl
    | inr s ↦ law.hget_hset k j f fs r ∙ rw s refl
  ]

  hget-zpopmin : (k j f : Text) (r : R) → C.hget j f (C.zpopmin k r).1 ≡ C.hget j f r
  hget-zpopmin k j f r = elim (Option-cases (C.zpopmin k r).0) [
    | inl e ↦ rw (law.zpopmin_none k r e).0 refl
    | inr (m, e) ↦ rw (law.zpopmin_some k m r e).0 (law.hget_zrem k m j f r)
  ]

  hget-pop_live_in :
      (turns : ℕ) (key prefix j f : Text) (r : R)
      → C.hget j f (pop_live_in C turns key prefix r).1 ≡ C.hget j f r
  unfolding pop_live_in
  hget-pop_live_in zero key prefix j f r = refl
  hget-pop_live_in (suc turns) key prefix j f r =
      let r' = (C.zpopmin key r).1 in
      elim (Option-cases (C.zpopmin key r).0) [
        | inl e ↦ rw (e, pop_live_in) (hget-zpopmin key j f r)
        | inr (id, e) ↦ elim (Bool-cases (C.exists (prefix ++ id) r')) [
          | inl x ↦ rw (e, x, pop_live_in) (hget-zpopmin key j f r)
          | inr x ↦
              rw (e, x, pop_live_in)
                (hget-pop_live_in turns key prefix j f r' ∙ hget-zpopmin key j f r)
        ]
      ]

  module _ (E : Encoding) where
    claim_popped-made :
        (active_key worker : Text) (expiry now : ℤ) (prefix id j : Text) (r : R)
        → C.hget j made (claim_popped C E active_key worker expiry now prefix id r).1
          ≡ C.hget j made r
    unfolding claim_popped find_field text_eq bytes
    claim_popped-made active_key worker expiry now prefix id j r =
        hget-hset_other (prefix ++ id) j made _ (C.zadd active_key expiry id r) refl
        ∙ law.hget_zadd active_key id j made expiry r

    dequeue_script-made :
        (queues : List QueueKeys) (worker : Text) (expiry now : ℤ) (prefix j : Text) (r : R)
        → C.hget j made (dequeue_script C E queues worker expiry now prefix r).1 ≡ C.hget j made r
    unfolding dequeue_script dequeue_turn pop_live
    dequeue_script-made [] worker expiry now prefix j r = refl
    dequeue_script-made (q ∷ queues) worker expiry now prefix j r =
        let o = pop_live C q.pending_key prefix r in
        let popped =
          hget-pop_live_in (suc (C.zcard q.pending_key r)) q.pending_key prefix j made r in
        elim (Bool-cases (is_paused_flag (C.hget q.meta_key (bytes "paused") r))) [
          | inl e ↦
              rw (dequeue_script, dequeue_turn, e)
                (dequeue_script-made queues worker expiry now prefix j r)
          | inr e ↦ elim (Option-cases o.0) [
            | inl f ↦
                rw (dequeue_script, dequeue_turn, e, f)
                  (dequeue_script-made queues worker expiry now prefix j o.1 ∙ popped)
            | inr (id, f) ↦
                rw (dequeue_script, dequeue_turn, e, f)
                  (claim_popped-made q.active_key worker expiry now prefix id j o.1 ∙ popped)
          ]
        ]

    move_ready-made :
        (extra : Fields)
        → find_field made extra ≡ none
        → (from pending_key : Text) (now : ℤ) (prefix id j : Text) (r : R)
        → C.hget j made (move_ready C E extra from pending_key now prefix id r).1 ≡ C.hget j made r
    unfolding move_ready find_field text_eq bytes
    move_ready-made extra other from pending_key now prefix id j r =
        let gone = C.zrem from id r in
        elim (Bool-cases (C.exists (prefix ++ id) gone)) [
          | inr e ↦ rw (move_ready, e) (law.hget_zrem from id j made r)
          | inl e ↦ elim (Option-cases (ready_score C E (prefix ++ id) now gone)) [
            | inl f ↦ rw (move_ready, e, f) (law.hget_zrem from id j made r)
            | inr (score, f) ↦
                rw (move_ready, e, f)
                  (hget-hset_other (prefix ++ id) j made _ (C.zadd pending_key score id gone)
                      (rw other refl)
                    ∙ law.hget_zadd pending_key id j made score gone
                    ∙ law.hget_zrem from id j made r)
          ]
        ]

    -- A loop that ends in an error keeps what it wrote.
    count_turn-made :
        (j : Text) {r : R} (o : Option Bool × R) (rest : Option ℕ × R)
        → C.hget j made o.1 ≡ C.hget j made r
        → C.hget j made rest.1 ≡ C.hget j made o.1
        → C.hget j made (count_turn o rest).1 ≡ C.hget j made r
    count_turn-made j (none, r') rest a b = a
    count_turn-made j (some counted, r') (none, r'') a b = b ∙ a
    count_turn-made j (some counted, r') (some n, r'') a b = b ∙ a

    move_all-made :
        (extra : Fields)
        → find_field made extra ≡ none
        → (from pending_key : Text) (now : ℤ) (prefix j : Text) (ids : List Text) (r : R)
        → C.hget j made (move_all C E extra from pending_key now prefix ids r).1 ≡ C.hget j made r
    unfolding move_all
    move_all-made extra other from pending_key now prefix j [] r = refl
    move_all-made extra other from pending_key now prefix j (id ∷ ids) r =
        let o = move_ready C E extra from pending_key now prefix id r in
        count_turn-made j o _ (move_ready-made extra other from pending_key now prefix id j r)
          (move_all-made extra other from pending_key now prefix j ids o.1)

    run_script-made :
        {A : Type 0} (link : Link) (code message j : Text) (script : R → Option A × R) (r : R)
        → C.hget j made (script r).1 ≡ C.hget j made r
        → C.hget j made (run_script link code message script r).1 ≡ C.hget j made r
    unfolding run_script
    run_script-made answered code message j script r e = e
    run_script-made (refused cause) code message j script r e = refl
    run_script-made (reply_lost cause) code message j script r e = e

    module _ (K : KeyBuilder) where
      pub broker_dequeue-made :
          (link : Link) (order : List Text) (worker : Text) (lease_for : Duration) (now : Time)
          (j : Text) (r : R)
          → C.hget j made (broker_dequeue C E K link order worker lease_for now r).1
            ≡ C.hget j made r
      unfolding broker_dequeue
      broker_dequeue-made link [] worker lease_for now j r = refl
      broker_dequeue-made link (q ∷ order) worker lease_for now j r =
          run_script-made link _ _ j _ r (dequeue_script-made _ worker _ _ _ j r)

      pub broker_reclaim_expired-made :
          (link : Link) (queue : Text) (now : Time) (limit : ℤ) (j : Text) (r : R)
          → C.hget j made (broker_reclaim_expired C E K link queue now limit r).1 ≡ C.hget j made r
      unfolding broker_reclaim_expired reclaim_script find_field text_eq bytes
      broker_reclaim_expired-made link queue now limit j r =
          run_script-made link _ _ j _ r (move_all-made _ refl _ _ _ _ j _ r)

      pub run_promote-made :
          (link : Link) (source : JobState) (queue : Text) (now : Time) (limit : ℕ) (j : Text)
          (r : R)
          → C.hget j made (run_promote C E K link source queue now limit r).1 ≡ C.hget j made r
      unfolding promote_script find_field text_eq bytes
      run_promote-made link source queue now limit j r =
          run_script-made link _ _ j _ r (move_all-made [] refl _ _ _ _ j _ r)

      pub promote_retrying-made :
          (link : Link) (queue : Text) (now : Time) (limit : ℕ) (first : Answer R ℕ) (j : Text)
          → C.hget j made (promote_retrying C E K link queue now limit first).1
            ≡ C.hget j made first.1
      unfolding promote_retrying
      promote_retrying-made link queue now limit (err e, r) j = refl
      promote_retrying-made link queue now limit (ok total, r) j =
          run_promote-made link retrying queue now limit j r
