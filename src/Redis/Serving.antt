-- ===== src/Redis/Serving.antt =====
-- Which job dequeue.lua serves.
use goqueue.Base.{
  Bool-cases, Option-cases, ℤ, ◌≤ℤ◌, Text, bytes, text_eq, text_eq-eq, ℕ, zero, suc, ◌<◌, ◌≡◌, refl,
  sym, ap, ◌∙◌, ◌⊎◌, inl, inr, Bool, true, false, Option, none, some, List, [], ◌∷◌, ◌++◌, map,
  arith,
}
use goqueue.Values.States.{pending, active}
use goqueue.Redis.{KeyBuilder, job_prefix, job_key, state_set, queue_meta}
use goqueue.Redis.Keys.{state_set≢job_key}
use goqueue.Redis.Commands.{Commands, Documented}
use goqueue.Redis.Scripts.{
  flatten, is_paused_flag, pop_live_in, pop_live, claim_popped, dequeue_turn, dequeue_script,
}
use goqueue.Redis.Placement.Shift.{false≢true, text_eq-ne}
use goqueue.Redis.Placement.Settles.{none≢some}
use goqueue.Redis.Placement.Moves.{job_prefix-job_key}
use goqueue.Redis.Documents.{Encoding}
use goqueue.Redis.Broker.{keys_of}

module _ {R : Type 0} (C : Commands R) (law : Documented C) (K : KeyBuilder) where
  abbrev pub is_live : Text → R → Bool
  is_live id r = C.exists (job_key K id) r

  -- An entry of the pending set of a queue.
  abbrev pub waits : Text → Text → R → Option ℤ
  waits q id r = C.zscore (state_set K q pending) id r

  -- No job with a document is pending in the queue.
  abbrev pub IsDrained : Text → R → Type 0
  IsDrained q r = (i : Text) (t : ℤ) → waits q i r ≡ some t → is_live i r ≡ false

  -- The job has a document, and the lowest score of those that do.
  abbrev pub IsFirst : Text → Text → R → Type 0
  IsFirst q id r =
      (is_live id r ≡ true)
      × (s : ℤ) × (waits q id r ≡ some s)
      × ((i : Text) (t : ℤ) → waits q i r ≡ some t → is_live i r ≡ true → s ≤ℤ t)

  -- Entries without a document have gone, and nothing else.
  record Cleaned (r r' : R) : Type 0 where
    entries : (q i : Text) (x : ℤ) → waits q i r' ≡ some x → waits q i r ≡ some x
    kept : (q i : Text) (x : ℤ) → waits q i r ≡ some x → is_live i r ≡ true → waits q i r' ≡ some x
    live : (i : Text) → is_live i r' ≡ is_live i r
    document : (i : Text) → C.hgetall (job_key K i) r' ≡ C.hgetall (job_key K i) r
    meta : (q f : Text) → C.hget (queue_meta K q) f r' ≡ C.hget (queue_meta K q) f r

  live_zrem : (q m i : Text) (r : R) → is_live i (C.zrem (state_set K q pending) m r) ≡ is_live i r
  live_zrem q m i r =
      law.exists_zrem (state_set K q pending) m (job_key K i) r
        (text_eq-ne (state_set K q pending) (job_key K i) (state_set≢job_key K q i pending))

  Cleaned-refl : (r : R) → Cleaned r r
  Cleaned-refl r = record {
    entries = λ q i x h. h;
    kept = λ q i x h l. h;
    live = λ i. refl;
    document = λ i. refl;
    meta = λ q f. refl;
  }

  Cleaned-trans : {r r' r'' : R} → Cleaned r r' → Cleaned r' r'' → Cleaned r r''
  Cleaned-trans a b = record {
    entries = λ q i x h. a.entries q i x (b.entries q i x h);
    kept = λ q i x h l. b.kept q i x (a.kept q i x h l) (a.live i ∙ l);
    live = λ i. b.live i ∙ a.live i;
    document = λ i. b.document i ∙ a.document i;
    meta = λ q f. b.meta q f ∙ a.meta q f;
  }

  -- An orphan goes.
  zrem-Cleaned :
      (q m : Text) (r : R) → is_live m r ≡ false → Cleaned r (C.zrem (state_set K q pending) m r)
  zrem-Cleaned q m r orphan = record {
    entries = λ p i x h.
        ground (arith, law.zscore_zrem (state_set K q pending) m (state_set K p pending) i r, h);
    kept = λ p i x h l. elim (Bool-cases (text_eq m i)) [
      | inl e ↦ absurd (false≢true (sym orphan ∙ rw (text_eq-eq m i e) l))
      | inr e ↦
          law.zscore_zrem (state_set K q pending) m (state_set K p pending) i r
          ∙ ground (arith, e, h)
    ];
    live = λ i. live_zrem q m i r;
    document = λ i. law.hgetall_zrem (state_set K q pending) m (job_key K i) r;
    meta = λ p f. law.hget_zrem (state_set K q pending) m (queue_meta K p) f r;
  }

  IsDrained-Cleaned : {r r' : R} (q : Text) → Cleaned r r' → IsDrained q r' → IsDrained q r
  IsDrained-Cleaned {r} q c d i t h = elim (Bool-cases (is_live i r)) [
    | inl e ↦ sym (c.live i) ∙ d i t (c.kept q i t h e)
    | inr e ↦ e
  ]

  IsFirst-Cleaned : {r r' : R} (q id : Text) → Cleaned r r' → IsFirst q id r' → IsFirst q id r
  IsFirst-Cleaned q id c (l, s, w, least) = (
    sym (c.live id) ∙ l,
    s,
    c.entries q id s w,
    λ i t h k. least i t (c.kept q i t h k) (c.live i ∙ k),
  )

  -- What popping comes to: the queue is drained, or its first job has been taken out.
  abbrev Pops : Text → R → Option Text × R → Type 0
  Pops q r (none, r') = IsDrained q r × Cleaned r r'
  Pops q r (some id, r') =
      IsFirst q id r × (d : R) × Cleaned r d × (r' ≡ C.zrem (state_set K q pending) id d)

  Pops-Cleaned :
      {r r' : R} (q : Text) (o : Option Text × R) → Cleaned r r' → Pops q r' o → Pops q r o
  Pops-Cleaned q (none, r'') c (d, c') = (IsDrained-Cleaned q c d, Cleaned-trans c c')
  Pops-Cleaned q (some id, r'') c (f, d, c', e) =
      (IsFirst-Cleaned q id c f, d, Cleaned-trans c c', e)

  pop_one :
      (turns : ℕ) (q : Text) (r : R) (m : Text)
      → (C.zpopmin (state_set K q pending) r).0 ≡ some m
      → (C.zcard (state_set K q pending) (C.zpopmin (state_set K q pending) r).1 < turns
          → Pops q (C.zpopmin (state_set K q pending) r).1 (
              pop_live_in C turns
                (state_set K q pending)
                (job_prefix K)
                (C.zpopmin (state_set K q pending) r).1))
      → C.zcard (state_set K q pending) r < suc turns
      → Pops q r (pop_live_in C (suc turns) (state_set K q pending) (job_prefix K) r)
  unfolding pop_live_in
  pop_one turns q r m e later h =
      let key = state_set K q pending in
      let (popped, s, member, least) = law.zpopmin_some key m r e in
      let seen : C.exists (job_prefix K ++ m) (C.zpopmin key r).1 ≡ is_live m r =
        rw (popped, job_prefix-job_key C law K m) (live_zrem q m m r) in
      let smaller : C.zcard key (C.zpopmin key r).1 < turns =
        rw popped (omega (arith, law.zcard_zrem key m s r member, h)) in
      elim (Bool-cases (is_live m r)) [
        | inl l ↦
            rw (e, seen, l, pop_live_in)
              ((l, s, member, λ i t w k. least i t w), r, Cleaned-refl r, popped)
        | inr l ↦
            rw (e, seen, l, pop_live_in)
              (Pops-Cleaned q (pop_live_in C turns key (job_prefix K) (C.zpopmin key r).1)
                (rw popped (zrem-Cleaned q m r l)) (later smaller))
      ]

  pop_live_in-Pops :
      (turns : ℕ) (q : Text) (r : R)
      → C.zcard (state_set K q pending) r < turns
      → Pops q r (pop_live_in C turns (state_set K q pending) (job_prefix K) r)
  unfolding pop_live_in
  pop_live_in-Pops zero q r h = absurd (omega arith)
  pop_live_in-Pops (suc turns) q r h = elim (Option-cases (C.zpopmin (state_set K q pending) r).0) [
    | inl e ↦
        let (same, empty) = law.zpopmin_none (state_set K q pending) r e in
        rw (e, same, pop_live_in) (λ i t k. absurd (none≢some (sym (empty i) ∙ k)), Cleaned-refl r)
    | inr (m, e) ↦
        pop_one turns q r m e
          (λ le. pop_live_in-Pops turns q (C.zpopmin (state_set K q pending) r).1 le) h
  ]

  pop_live-Pops :
      (q : Text) (r : R) → Pops q r (pop_live C (state_set K q pending) (job_prefix K) r)
  unfolding pop_live
  pop_live-Pops q r = pop_live_in-Pops (suc (C.zcard (state_set K q pending) r)) q r (omega arith)

  -- The queue gives no job: it is paused, or drained.
  abbrev pub IsIdle : Text → R → Type 0
  IsIdle q r = (is_paused_flag (C.hget (queue_meta K q) (bytes "paused") r) ≡ true) ⊎ IsDrained q r

  -- The reply is the document of the first job of a queue that is not paused.
  abbrev pub Served : Text → R → Option (List Text) → Type 0
  Served q r reply =
      (is_paused_flag (C.hget (queue_meta K q) (bytes "paused") r) ≡ false)
      × (id : Text) × IsFirst q id r
      × (reply ≡ some (flatten (C.hgetall (job_key K id) r)))

  -- The queues are asked in order, and the first that is not idle serves.
  abbrev pub ServedInOrder : List Text → R → Option (List Text) → Type 0
  ServedInOrder [] r reply = reply ≡ none
  ServedInOrder (q ∷ qs) r reply = (IsIdle q r × ServedInOrder qs r reply) ⊎ Served q r reply

  ServedInOrder-Cleaned :
      {r r' : R} (qs : List Text) (reply : Option (List Text))
      → Cleaned r r'
      → ServedInOrder qs r' reply
      → ServedInOrder qs r reply
  ServedInOrder-Cleaned [] reply c h = h
  ServedInOrder-Cleaned (q ∷ qs) reply c (inl (idle, h)) = inl (
    elim idle [
      | inl paused ↦ inl (rw (sym (c.meta q (bytes "paused"))) paused)
      | inr drained ↦ inr (IsDrained-Cleaned q c drained)
    ],
    ServedInOrder-Cleaned qs reply c h,
  )
  ServedInOrder-Cleaned (q ∷ qs) reply c (inr (open_, id, first, e)) = inr (
    rw (sym (c.meta q (bytes "paused"))) open_,
    id,
    IsFirst-Cleaned q id c first,
    e ∙ ap (λ h. some (flatten h)) (c.document id),
  )

  module _ (E : Encoding) (worker : Text) (expiry now : ℤ) where
    serve_turn :
        (q : Text) (qs : List Text) (r : R) (o : Option Text × R)
        → (skipped drained : Option (List Text) × R) → Pops q r o
        → ServedInOrder qs r skipped.0
        → ServedInOrder qs o.1 drained.0
        → ServedInOrder
            (q ∷ qs)
            r
            (dequeue_turn C E
              (state_set K q active)
              (C.hget (queue_meta K q) (bytes "paused") r)
              worker
              expiry
              now
              (job_prefix K)
              o
              skipped
              drained).0
    unfolding dequeue_turn claim_popped
    serve_turn q qs r (none, r') skipped drained (dry, clean) skip drain =
        elim (Bool-cases (is_paused_flag (C.hget (queue_meta K q) (bytes "paused") r))) [
          | inl e ↦ rw (e, dequeue_turn) (inl (inl refl, skip))
          | inr e ↦
              rw (e, dequeue_turn) (inl (inr dry, ServedInOrder-Cleaned qs drained.0 clean drain))
        ]
    serve_turn q qs r (some id, r') skipped drained (first, d, clean, gone) skip drain =
        elim (Bool-cases (is_paused_flag (C.hget (queue_meta K q) (bytes "paused") r))) [
          | inl e ↦ rw (e, dequeue_turn) (inl (inl refl, skip))
          | inr e ↦
              rw (e, dequeue_turn)
                (inr (
                  refl,
                  id,
                  first,
                  ap (λ h. some (flatten h))
                      (rw (job_prefix-job_key C law K id, gone)
                        (law.hgetall_zrem (state_set K q pending) id (job_key K id) d
                          ∙ clean.document id)),
                ))
        ]

    -- The queues of the order are asked in turn. One that is paused, or has no pending job with a
    -- document, is passed over; from the first other queue the reply is the document of a job that no
    -- pending job of that queue with a document has a lower score than; and the reply is empty only if
    -- every queue is passed over.
    pub dequeue_script_serves :
        (queues : List Text) (r : R)
        → ServedInOrder queues r
            (dequeue_script C E (map (keys_of C E K) queues) worker expiry now (job_prefix K) r).0
    unfolding dequeue_script
    dequeue_script_serves [] r = refl
    dequeue_script_serves (q ∷ queues) r =
        serve_turn q queues r (pop_live C (state_set K q pending) (job_prefix K) r) _ _
          (pop_live-Pops q r) (dequeue_script_serves queues r)
          (dequeue_script_serves queues (pop_live C (state_set K q pending) (job_prefix K) r).1)
