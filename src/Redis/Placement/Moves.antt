-- ===== src/Redis/Placement/Moves.antt =====
-- What the Lua scripts do to the lifecycle sets and the documents.
use mathlib.Core.Path.{subst}
use goqueue.Base.{
  Bool-cases, Option-cases, ℤ, pos, ltb_ℤ, Text, bytes, text_eq, ℕ, zero, suc, ◌≡◌, refl, sym, ◌∙◌,
  inl, inr, true, Option, none, some, List, [], ◌∷◌, ◌++◌, map, arith,
}
use goqueue.Redis.{KeyBuilder, job_prefix, job_key, state_set, queue_meta}
use goqueue.Redis.Commands.{find_field, Commands, Documented}
use goqueue.Redis.Scripts.{
  is_paused_flag, pop_live_in, pop_live, claim_popped, dequeue_turn, dequeue_script,
}
use goqueue.Redis.Placement.{
  state_string-injective, doc_field, Placed, Fewer, Sound, Fewer-refl, Fewer-trans, Sound-refl,
  Sound-trans, Fewer-Sound,
}
use goqueue.Values.States.{pending, active, can_transition_to, state_string, Leads, here, next}
use goqueue.Redis.Documents.{Encoding}
use goqueue.Redis.Placement.Shift.{shift-Sound}
use goqueue.Redis.Broker.{keys_of}

pending_to_active : Leads pending active
unfolding can_transition_to
pending_to_active = next refl here

module _ {R : Type 0} (C : Commands R) (law : Documented C) (K : KeyBuilder) where
  pub zrem-Fewer : (k i : Text) (r : R) → Fewer C K r (C.zrem k i r)
  zrem-Fewer k i r = record {
    entries = λ j m x h. ground (arith, law.zscore_zrem k i j m r, h);
    documents = λ m f. law.hget_zrem k i (job_key K m) f r;
  }

  pub expire-Fewer :
      (k : Text) (t : ℤ) (r : R) → ltb_ℤ (pos 0) t ≡ true → Fewer C K r (C.expire k t r)
  expire-Fewer k t r e = record {
    entries = λ j m x h. sym (law.zscore_expire k j m t r e) ∙ h;
    documents = λ m f. law.hget_expire k (job_key K m) f t r e;
  }

  pub persist-Fewer : (k : Text) (r : R) → Fewer C K r (C.persist k r)
  persist-Fewer k r = record {
    entries = λ j m x h. sym (law.zscore_persist k j m r) ∙ h;
    documents = λ m f. law.hget_persist k (job_key K m) f r;
  }

  pub job_prefix-job_key : (id : Text) → job_prefix K ++ id ≡ job_key K id
  unfolding job_prefix job_key
  job_prefix-job_key id = refl

  -- An id with a document that has been taken out of a set.
  pub record TakenOut (key id : Text) (r r' : R) : Type 0 where
    pub before : R
    pub fewer : Fewer C K r before
    pub removed : r' ≡ C.zrem key id before
    pub score : ℤ
    pub member : C.zscore key id before ≡ some score
    pub live : C.exists (job_prefix K ++ id) r' ≡ true

  -- What the loop over one queue comes to.
  abbrev pub Popped : Text → R → Option Text × R → Type 0
  Popped key r (none, r') = Fewer C K r r'
  Popped key r (some id, r') = TakenOut key id r r'

  Fewer-Popped :
      (key : Text) {r r' : R} (o : Option Text × R)
      → Fewer C K r r'
      → Popped key r' o
      → Popped key r o
  Fewer-Popped key (none, r'') w p = Fewer-trans C K w p
  Fewer-Popped key (some id, r'') w p = record {
    before = p.before;
    fewer = Fewer-trans C K w p.fewer;
    removed = p.removed;
    score = p.score;
    member = p.member;
    live = p.live;
  }

  -- One turn of the loop, with what is known of the later ones.
  pop_one :
      (turns : ℕ) (key : Text) (r : R) (id : Text)
      → (C.zpopmin key r).0 ≡ some id
      → Popped key (C.zpopmin key r).1 (pop_live_in C turns key (job_prefix K) (C.zpopmin key r).1)
      → Popped key r (pop_live_in C (suc turns) key (job_prefix K) r)
  unfolding pop_live_in
  pop_one turns key r id e later =
      let z = law.zpopmin_some key id r e in
      elim (Bool-cases (C.exists (job_prefix K ++ id) (C.zpopmin key r).1)) [
        | inl x ↦
            rw (e, x, pop_live_in)
              (record {
                before = r;
                fewer = Fewer-refl C K r;
                removed = z.0;
                score = z.1;
                member = z.2;
                live = x;
              })
        | inr x ↦
            rw (e, x, pop_live_in)
              (Fewer-Popped key (pop_live_in C turns key (job_prefix K) (C.zpopmin key r).1)
                (rw (z.0) (zrem-Fewer key id r)) later)
      ]

  pub pop_live_in-Popped :
      (turns : ℕ) (key : Text) (r : R) → Popped key r (pop_live_in C turns key (job_prefix K) r)
  unfolding pop_live_in
  pop_live_in-Popped zero key r = Fewer-refl C K r
  pop_live_in-Popped (suc turns) key r = elim (Option-cases (C.zpopmin key r).0) [
    | inl e ↦ rw (e, pop_live_in, (law.zpopmin_none key r e).0) (Fewer-refl C K r)
    | inr (id, e) ↦ pop_one turns key r id e (pop_live_in-Popped turns key (C.zpopmin key r).1)
  ]

  pub pop_live-Popped : (key : Text) (r : R) → Popped key r (pop_live C key (job_prefix K) r)
  unfolding pop_live
  pop_live-Popped key r = pop_live_in-Popped (suc (C.zcard key r)) key r

  module _ (E : Encoding) where
    pub claim_popped-Sound :
        (queue id worker : Text) (expiry now : ℤ) {r r' : R}
        → TakenOut (state_set K queue pending) id r r'
        → Placed C K r
        → Sound C K r
            (claim_popped C E (state_set K queue active) worker expiry now (job_prefix K) id r').1
    unfolding claim_popped find_field text_eq bytes state_string
    claim_popped-Sound queue id worker expiry now {r} {r'} t p =
        let job_same : job_prefix K ++ id ≡ job_key K id = job_prefix-job_key id in
        let (f, v, field) = law.exists_field (job_prefix K ++ id) r' t.live in
        let held : doc_field C K id f t.before ≡ some v =
          sym (law.hget_zrem (state_set K queue pending) id (job_key K id) f t.before)
          ∙ subst (λ d. C.hget (job_key K id) f d ≡ some v) t.removed
              (subst (λ k. C.hget k f r' ≡ some v) job_same field) in
        Sound-trans C K (Fewer-Sound C K t.fewer p) (λ p'.
          let (s, st) = p'.complete id f v held in
          let (same, qu) = p'.agrees queue id (state_string s) pending t.score t.member st in
          let e : s ≡ pending = state_string-injective s pending same in
          rw (job_same, t.removed)
            (shift-Sound C law K id queue s pending active expiry _ t.before p' st qu (inl e)
              (subst (λ u. Leads u active) (sym e) pending_to_active) refl refl))

    dequeue_turn-Sound :
        (queue worker : Text) (expiry now : ℤ) (r : R) (o : Option Text × R)
        → (skipped drained : Option (List Text) × R) → Popped (state_set K queue pending) r o
        → (Placed C K r → Sound C K r skipped.1)
        → (Placed C K o.1 → Sound C K o.1 drained.1)
        → Placed C K r
        → Sound C K r
            (dequeue_turn C E
              (state_set K queue active)
              (C.hget (queue_meta K queue) (bytes "paused") r)
              worker
              expiry
              now
              (job_prefix K)
              o
              skipped
              drained).1
    unfolding dequeue_turn
    dequeue_turn-Sound queue worker expiry now r (none, r') skipped drained pop skip drain p =
        elim (Bool-cases (is_paused_flag (C.hget (queue_meta K queue) (bytes "paused") r))) [
          | inl e ↦ rw (e, dequeue_turn) (skip p)
          | inr e ↦ rw (e, dequeue_turn) (Sound-trans C K (Fewer-Sound C K pop p) drain)
        ]
    dequeue_turn-Sound queue worker expiry now r (some id, r') skipped drained pop skip drain p =
        elim (Bool-cases (is_paused_flag (C.hget (queue_meta K queue) (bytes "paused") r))) [
          | inl e ↦ rw (e, dequeue_turn) (skip p)
          | inr e ↦ rw (e, dequeue_turn) (claim_popped-Sound queue id worker expiry now pop p)
        ]

    pub dequeue_script-Sound :
        (queues : List Text) (worker : Text) (expiry now : ℤ) (r : R)
        → Placed C K r
        → Sound C K r
            (dequeue_script C E (map (keys_of C E K) queues) worker expiry now (job_prefix K) r).1
    unfolding dequeue_script
    dequeue_script-Sound [] worker expiry now r p = Sound-refl C K r p
    dequeue_script-Sound (q ∷ queues) worker expiry now r p =
        dequeue_turn-Sound q worker expiry now r
          (pop_live C (state_set K q pending) (job_prefix K) r) _ _
          (pop_live-Popped (state_set K q pending) r)
          (dequeue_script-Sound queues worker expiry now r)
          (dequeue_script-Sound queues worker expiry now
            (pop_live C (state_set K q pending) (job_prefix K) r).1)
          p
