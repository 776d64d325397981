-- ===== src/Redis/Placement/Sweeps.antt =====
-- The loops of promote.lua and reclaim.lua keep the sets and the documents in agreement.
use mathlib.Core.Path.{subst}
use goqueue.Base.{
  Bool-cases, Option-cases, All, ℤ, Text, bytes, text_eq, text_eq-eq, ℕ, ◌≡◌, refl, sym, ◌∙◌, ◌⊎◌,
  inl, inr, Bool, true, Option, none, some, List, [], ◌∷◌, ◌++◌,
}
use goqueue.Values.States.{
  JobState, pending, active, can_transition_to, state_string, Leads, here, next,
}
use goqueue.Redis.{KeyBuilder, job_prefix, job_key, state_set}
use goqueue.Redis.Commands.{Fields, find_field, or_else, Listed, Commands, Documented}
use goqueue.Redis.Documents.{Encoding}
use goqueue.Redis.Scripts.{
  count_turn, ready_score, move_ready, move_all, promote_script, reclaim_script,
}
use goqueue.Redis.Placement.{
  state_string-injective, doc_state, doc_queue, Placed, Fewer, Rewritten, Sound, Sound-refl,
  Sound-trans, Fewer-Sound, Rewritten-Sound,
}
use goqueue.Job.Lifecycle.{lease_expired_message}
use goqueue.Redis.Placement.Shift.{some_injective, shift, Placed-Within, shift-Rewritten}
use goqueue.Redis.Placement.Moves.{zrem-Fewer, job_prefix-job_key}

-- The fields that reclaim.lua writes in addition, and promote.lua none of.
abbrev pub IsExtra : Fields → Type 0
IsExtra extra =
    (find_field (bytes "state") extra ≡ none) × (find_field (bytes "queue") extra ≡ none)

module _ {R : Type 0} (C : Commands R) (law : Documented C) (K : KeyBuilder) where
  -- A job of the queue that is in the state a sweep starts from, or in pending already.
  abbrev pub Movable : JobState → Text → R → Text → Type 0
  Movable from q r id =
      (s : JobState)
      → doc_state C K id r ≡ some (state_string s)
      → ((s ≡ from) ⊎ (s ≡ pending)) × (doc_queue C K id r ≡ some q)

  abbrev pub SweepOutcome : Text → Text → R → R → Type 0
  SweepOutcome id q r r' = Fewer C K r r' ⊎ Rewritten C K id q pending r r'

  pub SweepOutcome-Sound :
      {from : JobState} {id q : Text} {r r' : R}
      → Leads from pending
      → Movable from q r id
      → SweepOutcome id q r r'
      → Placed C K r
      → Sound C K r r'
  SweepOutcome-Sound lead m (inl w) p = Fewer-Sound C K w p
  SweepOutcome-Sound lead m (inr w) p =
      Rewritten-Sound C K w
        (λ s h. elim (m s h).0 [
          | inl e ↦ subst (λ u. Leads u pending) (sym e) lead
          | inr e ↦ subst (λ u. Leads u pending) (sym e) here
        ])
        p

  -- What is movable stays so.
  pub SweepOutcome-Movable :
      {from : JobState} {id q : Text} {r r' : R} (i : Text)
      → SweepOutcome id q r r'
      → Movable from q r i
      → Movable from q r' i
  SweepOutcome-Movable i (inl w) m s h =
      let (a, b) = m s (sym (w.documents i (bytes "state")) ∙ h) in
      (a, w.documents i (bytes "queue") ∙ b)
  SweepOutcome-Movable {from} {id} {q} {r} {r'} i (inr w) m s h = elim (Bool-cases (text_eq id i)) [
    | inl e ↦
        let same = text_eq-eq id i e in
        let st = subst (λ j. doc_state C K j r' ≡ some (state_string pending)) same w.state in
        (
          inr (state_string-injective s pending (some_injective (sym h ∙ st))),
          subst (λ j. doc_queue C K j r' ≡ some q) same w.queue,
        )
    | inr e ↦
        let (a, b) = m s (sym (w.documents i (bytes "state") e) ∙ h) in
        (a, w.documents i (bytes "queue") e ∙ b)
  ]

  SweepOutcome-All :
      (from : JobState) {id q : Text} {r r' : R} (ids : List Text)
      → SweepOutcome id q r r'
      → All (Movable from q r) ids
      → All (Movable from q r') ids
  SweepOutcome-All from [] o h = tt
  SweepOutcome-All from (i ∷ ids) o (h, t) =
      (SweepOutcome-Movable i o h, SweepOutcome-All from ids o t)

  module _ (E : Encoding) (extra : Fields) (plain : IsExtra extra) (from : JobState) (q : Text)
      (now : ℤ) where
    abbrev moved_fields : Fields
    moved_fields =
        (bytes "state", bytes "pending")
        ∷ (bytes "process_at_ms", E.format_int now)
        ∷ (bytes "lease_expiry_ms", bytes "0")
        ∷ (bytes "worker_id", [])
        ∷ extra

    moved_fields-state : find_field (bytes "state") moved_fields ≡ some (state_string pending)
    unfolding find_field text_eq bytes state_string
    moved_fields-state = rw plain.0 refl

    moved_fields-queue : find_field (bytes "queue") moved_fields ≡ none
    unfolding find_field text_eq bytes
    moved_fields-queue = rw plain.1 refl

    -- The move of an id whose document is there.
    live_move :
        (id : Text) (score : ℤ) (r : R)
        → Placed C K r
        → Movable from q r id
        → C.exists (job_key K id) (C.zrem (state_set K q from) id r) ≡ true
        → Rewritten C K id q pending r
            (shift C law K (state_set K q from) (state_set K q pending) id score moved_fields r)
    live_move id score r p m live =
        let (f, v, field) =
          law.exists_field (job_key K id) (C.zrem (state_set K q from) id r) live in
        let (s, st) =
          p.complete id f v
            (sym (law.hget_zrem (state_set K q from) id (job_key K id) f r) ∙ field) in
        let (or, qu) = m s st in
        shift-Rewritten C law K id q from pending score moved_fields r
          (Placed-Within C law K id q s from pending p st qu or) moved_fields-state
          (rw (moved_fields-queue, or_else) qu)

    move_ready-SweepOutcome :
        (id : Text) (r : R)
        → Placed C K r
        → Movable from q r id
        → SweepOutcome id q r
            (move_ready C E extra
              (state_set K q from)
              (state_set K q pending)
              now
              (job_prefix K)
              id
              r).1
    unfolding move_ready
    move_ready-SweepOutcome id r p m =
        let gone = C.zrem (state_set K q from) id r in
        elim (Bool-cases (C.exists (job_prefix K ++ id) gone)) [
          | inr e ↦ rw (e, move_ready) (inl (zrem-Fewer C law K (state_set K q from) id r))
          | inl e ↦ elim (Option-cases (ready_score C E (job_prefix K ++ id) now gone)) [
            | inl f ↦ rw (e, f, move_ready) (inl (zrem-Fewer C law K (state_set K q from) id r))
            | inr (score, f) ↦
                rw (e, f, move_ready, job_prefix-job_key C law K id)
                  (inr (live_move id score r p m (rw (sym (job_prefix-job_key C law K id)) e)))
          ]
        ]

    move_turn :
        {r : R} (o : Option Bool × R) (rest : Option ℕ × R)
        → Sound C K r o.1
        → (Placed C K o.1 → Sound C K o.1 rest.1)
        → Sound C K r (count_turn o rest).1
    move_turn (none, r') rest s t = s
    move_turn (some counted, r') (none, r'') s t = Sound-trans C K s t
    move_turn (some counted, r') (some n, r'') s t = Sound-trans C K s t

    move_all-Sound :
        (lead : Leads from pending) (ids : List Text) (r : R)
        → All (Movable from q r) ids
        → Placed C K r
        → Sound C K r
            (move_all C E extra
              (state_set K q from)
              (state_set K q pending)
              now
              (job_prefix K)
              ids
              r).1
    unfolding move_all
    move_all-Sound lead [] r ms p = Sound-refl C K r p
    move_all-Sound lead (id ∷ ids) r (m, ms) p =
        let o = move_ready-SweepOutcome id r p m in
        move_turn _ _ (SweepOutcome-Sound lead m o p)
          (move_all-Sound lead ids _ (SweepOutcome-All from ids o ms))

module _ {R : Type 0} (C : Commands R) (law : Documented C) (K : KeyBuilder) (E : Encoding) where
  -- The entries that a range lists are movable.
  Listed-Movable :
      (from : JobState) (q : Text) (r : R) (ids : List Text)
      → ((i : Text) → Listed i ids → (x : ℤ) × (C.zscore (state_set K q from) i r ≡ some x))
      → Placed C K r
      → All (Movable C law K from q r) ids
  Listed-Movable from q r [] h p = tt
  Listed-Movable from q r (id ∷ ids) h p =
      let (x, member) = h id (inl refl) in
      (
        λ s st.
            let (a, b) = p.agrees q id (state_string s) from x member st in
            (inl (state_string-injective s from a), b),
        Listed-Movable from q r ids (λ i l. h i (inr l)) p,
      )

  sweep-Sound :
      (extra : Fields) (from : JobState) (q : Text) (now : ℤ) (limit : ℕ) (r : R)
      → IsExtra extra
      → Leads from pending
      → Placed C K r
      → Sound C K r
          (move_all C E extra
            (state_set K q from)
            (state_set K q pending)
            now
            (job_prefix K)
            (C.zrangebyscore (state_set K q from) now limit r)
            r).1
  sweep-Sound extra from q now limit r plain lead p =
      move_all-Sound C law K E extra plain from q now lead
        (C.zrangebyscore (state_set K q from) now limit r) r
        (Listed-Movable from q r (C.zrangebyscore (state_set K q from) now limit r)
          (λ i l. let (x, a, b) = law.range_due (state_set K q from) i now limit r l in (x, a)) p)
        p

  pub promote_script-Sound :
      (from : JobState) (q : Text) (now : ℤ) (limit : ℕ) (r : R)
      → Leads from pending
      → Placed C K r
      → Sound C K r
          (promote_script C E
            (state_set K q from)
            (state_set K q pending)
            now
            limit
            (job_prefix K)
            r).1
  unfolding promote_script find_field
  promote_script-Sound from q now limit r = sweep-Sound [] from q now limit r (refl, refl)

  pub reclaim_script-Sound :
      (q : Text) (now : ℤ) (limit : ℕ) (r : R)
      → Placed C K r
      → Sound C K r
          (reclaim_script C E
            (state_set K q active)
            (state_set K q pending)
            now
            limit
            (job_prefix K)
            r).1
  unfolding reclaim_script find_field can_transition_to text_eq bytes
  reclaim_script-Sound q now limit r =
      sweep-Sound ((bytes "last_error", lease_expired_message) ∷ []) active q now limit r
        (refl, refl) (next refl here)
