-- ===== src/Store/Sweeps.antt =====
-- What the two sweeps PromoteDue and ReclaimExpired do to the jobs, and how many they move.
use mathlib.Core.Path.{subst, fun_ext}
use goqueue.Base.{
  if◌then◌else◌, Bool-cases, Option-cases, is_some, length, count_if, All, ℤ, pos, pos_part, ltb_ℤ,
  Text, text_eq, ℕ, zero, suc, ◌+◌, ◌-◌, ◌≤◌, min, ◌≡◌, refl, sym, ap, ◌∙◌, ◌⊎◌, inl, inr, Bool,
  true, false, ◌&&◌, ◌||◌, not, Option, none, some, List, [], ◌∷◌, arith,
}
use goqueue.Values.States.{scheduled, pending, active, retrying, can_transition_to, state_eq}
use goqueue.Job.{Time, Job, is_lease_expired, is_due}
use goqueue.Job.Lifecycle.{
  guard, close_current_attempt, promote, lease_expired_message, reclaim_expired_lease,
}
use goqueue.Store.Defs.{Store}
use goqueue.Store.Repo.{reached, in_front}
use goqueue.Store.Broker.{sweep_loop, promote_step, promote_due, reclaim_step, reclaim_expired}

-- The jobs before and after a sweep: each is as it was, or as the step made it.
abbrev pub Swept : (Job → Option Job) → List Job → List Job → Type 0
Swept step [] [] = Unit
Swept step [] (k ∷ ks) = ⊥
Swept step (j ∷ js) [] = ⊥
Swept step (j ∷ js) (k ∷ ks) = ((k ≡ j) ⊎ (step j ≡ some k)) × Swept step js ks

Swept-refl : (step : Job → Option Job) (js : List Job) → Swept step js js
Swept-refl step [] = tt
Swept-refl step (j ∷ js) = (inl refl, Swept-refl step js)

-- The number of jobs that a sweep may move: all, or as many as its limit leaves.
abbrev pub capped : ℤ → ℕ → ℕ
capped limit n = if ltb_ℤ (pos 0) limit then min (pos_part limit) n else n

module _ (step : Job → Option Job) (limit : ℤ) where
  sweep_loop-reached :
      (done : ℕ) (js : List Job)
      → reached limit done ≡ true
      → sweep_loop step limit done js ≡ (js, done)
  unfolding sweep_loop
  sweep_loop-reached done [] r = refl
  sweep_loop-reached done (j ∷ js) r = rw r

  sweep_loop-left :
      (done : ℕ) (j : Job) (js : List Job)
      → reached limit done ≡ false
      → step j ≡ none
      → sweep_loop step limit done (j ∷ js) ≡ in_front j (sweep_loop step limit done js)
  unfolding sweep_loop
  sweep_loop-left done j js r e = rw (r, e)

  sweep_loop-moved :
      (done : ℕ) (j k : Job) (js : List Job)
      → reached limit done ≡ false
      → step j ≡ some k
      → sweep_loop step limit done (j ∷ js) ≡ in_front k (sweep_loop step limit (done + 1) js)
  unfolding sweep_loop
  sweep_loop-moved done j k js r e = rw (r, e)

  sweep_loop-Swept : (done : ℕ) (js : List Job) → Swept step js (sweep_loop step limit done js).0
  sweep_loop-Swept done [] = unfold sweep_loop in tt
  sweep_loop-Swept done (j ∷ js) = elim (Bool-cases (reached limit done)) [
    | inl r ↦ rw (sweep_loop-reached done (j ∷ js) r) (Swept-refl step (j ∷ js))
    | inr r ↦ elim (Option-cases (step j)) [
      | inl e ↦ rw (sweep_loop-left done j js r e) (inl refl, sweep_loop-Swept done js)
      | inr (k, e) ↦ rw (sweep_loop-moved done j k js r e) (inr e, sweep_loop-Swept (done + 1) js)
    ]
  ]

  sweep_loop-count :
      (done : ℕ) (js : List Job)
      → (ltb_ℤ (pos 0) limit ≡ true → done ≤ pos_part limit)
      → (sweep_loop step limit done js).1
        ≡ capped limit (done + count_if (λ j. is_some (step j)) js)
  sweep_loop-count done [] h = unfold sweep_loop in ground arith
  sweep_loop-count done (j ∷ js) h = elim (Bool-cases (reached limit done)) [
    | inl r ↦ rw (sweep_loop-reached done (j ∷ js) r) (ground arith)
    | inr r ↦ elim (Option-cases (step j)) [
      | inl e ↦ rw (sweep_loop-left done j js r e, e) (sweep_loop-count done js h)
      | inr (k, e) ↦
          rw (sweep_loop-moved done j k js r e, e)
            (ground (arith, sweep_loop-count (done + 1) js (ground arith)))
    ]
  ]

-- With room for all jobs below the limit, every job that the step takes is moved.
sweep_loop-roomy :
    (step : Job → Option Job) (limit : ℤ) (done : ℕ) (js : List Job) (P : Job → Type 0)
    → done + length js ≤ pos_part limit
    → ((j : Job) → step j ≡ none → P j)
    → ((j k : Job) → step j ≡ some k → P k)
    → All P (sweep_loop step limit done js).0
sweep_loop-roomy step limit done [] P room f g = unfold sweep_loop in tt
sweep_loop-roomy step limit done (j ∷ js) P room f g = elim (Option-cases (step j)) [
  | inl e ↦
      rw (sweep_loop-left step limit done j js (ground arith) e)
        (f j e, sweep_loop-roomy step limit done js P (omega arith) f g)
  | inr (k, e) ↦
      rw (sweep_loop-moved step limit done j k js (ground arith) e)
        (g j k e, sweep_loop-roomy step limit (done + 1) js P (omega arith) f g)
]

-- A job of the queue that waits and whose time has come.
abbrev pub is_waiting_due : Text → Time → Job → Bool
is_waiting_due queue now j =
    text_eq j.queue queue
    && (state_eq j.state scheduled || state_eq j.state retrying)
    && not (ltb_ℤ now j.process_at)

abbrev pub promoted : Job → Time → Job
promoted j now = record j { state = pending; process_at = now; lease_expiry = none }

-- What a sweep makes of a job that passes its test.
abbrev pub moved_if : (Job → Bool) → (Job → Job) → Job → Option Job
moved_if test change j = if test j then some (change j) else none

is_some-moved_if :
    (test : Job → Bool) (change : Job → Job) (j : Job) → is_some (moved_if test change j) ≡ test j
is_some-moved_if test change j = ground arith

pub count_if-ext :
    (p q : Job → Bool) (js : List Job) → ((j : Job) → p j ≡ q j) → count_if p js ≡ count_if q js
count_if-ext p q [] h = refl
count_if-ext p q (j ∷ js) h = rw (h j, count_if-ext p q js h)

-- The list with the first so many of the jobs that pass a test changed.
abbrev pub move_first : (Job → Bool) → (Job → Job) → ℕ → List Job → List Job
move_first test change zero js = js
move_first test change (suc n) [] = []
move_first test change (suc n) (j ∷ js) =
    let taken = move_first test change n js in
    let passed = move_first test change (suc n) js in
    if test j then change j ∷ taken else j ∷ passed

module _ (test : Job → Bool) (change : Job → Job) where
  move_first-nil : (n : ℕ) → move_first test change n [] ≡ []
  move_first-nil zero = refl
  move_first-nil (suc n) = refl

  move_first-passed :
      (n : ℕ) (j : Job) (js : List Job)
      → test j ≡ false
      → move_first test change n (j ∷ js) ≡ j ∷ move_first test change n js
  move_first-passed zero j js e = refl
  move_first-passed (suc n) j js e = rw e refl

  sweep_loop-first :
      (step : Job → Option Job)
      → ((j : Job) → step j ≡ moved_if test change j)
      → (limit : ℤ) (done : ℕ) (js : List Job)
      → (ltb_ℤ (pos 0) limit ≡ true → done ≤ pos_part limit)
      → (sweep_loop step limit done js).0
        ≡ move_first test change (capped limit (done + count_if test js) - done) js
  sweep_loop-first step same limit done [] h =
      unfold sweep_loop in sym (move_first-nil (capped limit (done + 0) - done))
  sweep_loop-first step same limit done (j ∷ js) h = elim (Bool-cases (reached limit done)) [
    | inl r ↦
        let none_left : capped limit (done + count_if test (j ∷ js)) - done ≡ 0 = ground arith in
        rw (sweep_loop-reached step limit done (j ∷ js) r, none_left) refl
    | inr r ↦ elim (Bool-cases (test j)) [
      | inr e ↦
          rw
            (
              sweep_loop-left step limit done j js r (rw (same j, e) refl),
              e,
              move_first-passed (capped limit (done + count_if test js) - done) j js e,
            )
            (ap (j ∷◌) (sweep_loop-first step same limit done js h))
      | inl e ↦
          let one_more : capped limit (done + suc (count_if test js)) - done
              ≡ suc (capped limit (done + 1 + count_if test js) - (done + 1)) =
            ground arith in
          rw
            (
              sweep_loop-moved step limit done j (change j) js r (rw (same j, e) refl),
              e,
              one_more,
              e,
            )
            (ap (change j ∷◌) (sweep_loop-first step same limit (done + 1) js (ground arith)))
    ]
  ]

  -- How many jobs a sweep moves, and which.
  sweep_moves :
      (step : Job → Option Job)
      → ((j : Job) → step j ≡ moved_if test change j)
      → (limit : ℤ) (js : List Job)
      → ((sweep_loop step limit 0 js).1 ≡ capped limit (count_if test js))
        × ((sweep_loop step limit 0 js).0
            ≡ move_first test change (capped limit (count_if test js)) js)
  sweep_moves step same limit js =
      let counted =
        count_if-ext (λ j. is_some (step j)) test js
          (λ j. rw (same j) (is_some-moved_if test change j)) in
      let none_done : capped limit (0 + count_if test js) - 0 ≡ capped limit (count_if test js) =
        ground arith in
      (
        sweep_loop-count step limit 0 js (λ h. omega arith)
            ∙ ap (capped limit) (omega (arith, counted)),
        sweep_loop-first step same limit 0 js (λ h. omega arith)
            ∙ ap (λ n. move_first test change n js) none_done,
      )

promote_step-eq :
    (queue : Text) (now : Time) (j : Job)
    → promote_step queue now j ≡ moved_if (is_waiting_due queue now) (λ k. promoted k now) j
unfolding promote_step promote guard can_transition_to is_due
promote_step-eq queue now j = ground arith

-- A sweep whose step moves exactly the jobs that pass a test.
sweep_by_test :
    (step : Job → Option Job) (test : Job → Bool) (change : Job → Job) (limit : ℤ) (js : List Job)
    → ((j : Job) → step j ≡ moved_if test change j)
    → ((sweep_loop step limit 0 js).1 ≡ capped limit (count_if test js))
      × Swept (moved_if test change) js (sweep_loop step limit 0 js).0
sweep_by_test step test change limit js same =
    let picks : (j : Job) → is_some (step j) ≡ test j =
      λ j. rw (same j) (is_some-moved_if test change j) in
    let counted = count_if-ext (λ j. is_some (step j)) test js picks in
    (
      sweep_loop-count step limit 0 js (λ h. omega arith)
          ∙ ap (capped limit) (omega (arith, counted)),
      subst (λ f. Swept f js (sweep_loop step limit 0 js).0) (fun_ext same)
          (sweep_loop-Swept step limit 0 js),
    )

pub promote_due-Swept :
    (queue : Text) (now : Time) (limit : ℤ) (s : Store)
    → ((promote_due queue now limit s).0
        ≡ capped limit (count_if (is_waiting_due queue now) s.jobs))
      × Swept
          (moved_if (is_waiting_due queue now) (λ j. promoted j now))
          s.jobs
          (promote_due queue now limit s).1.jobs
unfolding promote_due
promote_due-Swept queue now limit s =
    sweep_by_test (promote_step queue now) (is_waiting_due queue now) (λ j. promoted j now) limit
      s.jobs (promote_step-eq queue now)

-- PromoteDue reports as many jobs as there are waiting and due in the queue, but no more than a
-- positive limit, and moves exactly that many, the first ones in the order of the iteration: each of
-- them becomes pending, due at the time of the sweep, with its other fields kept; every other job and
-- the rest of the store stay as they were.
pub promote_due_lem :
    (queue : Text) (now : Time) (limit : ℤ) (s : Store)
    → let n = capped limit (count_if (is_waiting_due queue now) s.jobs) in
      promote_due queue now limit s ≡ (
        n,
        record s { jobs = move_first (is_waiting_due queue now) (λ j. promoted j now) n s.jobs },
      )
unfolding promote_due
promote_due_lem queue now limit s =
    let (n, m) =
      sweep_moves (is_waiting_due queue now) (λ j. promoted j now) (promote_step queue now)
        (promote_step-eq queue now) limit s.jobs in
    rw (n, m) refl

pub promote_due_roomy :
    (queue : Text) (now : Time) (limit : ℤ) (s : Store)
    → length s.jobs ≤ pos_part limit
    → All (λ j. is_waiting_due queue now j ≡ false) (promote_due queue now limit s).1.jobs
unfolding promote_due
promote_due_roomy queue now limit s h =
    sweep_loop-roomy (promote_step queue now) limit 0 s.jobs _ (omega arith)
      (λ j e. ground (arith, promote_step-eq queue now j))
      (λ j k e. ground (arith, promote_step-eq queue now j))

-- An active job of the queue whose lease ended before the sweep.
abbrev pub is_lapsed : Text → Time → Job → Bool
is_lapsed queue now j =
    text_eq j.queue queue
    && state_eq j.state active
    && elim j.lease_expiry [ none ↦ false | some expiry ↦ ltb_ℤ expiry now ]

abbrev pub reclaimed : Job → Time → Job
reclaimed j now = record j {
  attempts = close_current_attempt now lease_expired_message j.attempts;
  last_error = lease_expired_message;
  state = pending;
  process_at = now;
  lease_expiry = none;
  worker_id = [];
}

reclaim_step-eq :
    (queue : Text) (now : Time) (j : Job)
    → reclaim_step queue now j ≡ moved_if (is_lapsed queue now) (λ k. reclaimed k now) j
unfolding reclaim_step reclaim_expired_lease is_lease_expired
reclaim_step-eq queue now j = ground arith

pub reclaim_expired-Swept :
    (queue : Text) (now : Time) (limit : ℤ) (s : Store)
    → ((reclaim_expired queue now limit s).0 ≡ capped limit (count_if (is_lapsed queue now) s.jobs))
      × Swept
          (moved_if (is_lapsed queue now) (λ j. reclaimed j now))
          s.jobs
          (reclaim_expired queue now limit s).1.jobs
unfolding reclaim_expired
reclaim_expired-Swept queue now limit s =
    sweep_by_test (reclaim_step queue now) (is_lapsed queue now) (λ j. reclaimed j now) limit s.jobs
      (reclaim_step-eq queue now)

-- ReclaimExpired reports as many jobs as there are active in the queue with a lease that has ended, but
-- no more than a positive limit, and moves exactly that many, the first ones in the order of the
-- iteration: each of them becomes pending and due at the time of the sweep, with its attempt closed, its
-- lease and its worker gone, and its count of attempts kept; every other job and the rest of the store
-- stay as they were.
pub reclaim_expired_lem :
    (queue : Text) (now : Time) (limit : ℤ) (s : Store)
    → let n = capped limit (count_if (is_lapsed queue now) s.jobs) in
      reclaim_expired queue now limit s
      ≡ (n, record s { jobs = move_first (is_lapsed queue now) (λ j. reclaimed j now) n s.jobs })
unfolding reclaim_expired
reclaim_expired_lem queue now limit s =
    let (n, m) =
      sweep_moves (is_lapsed queue now) (λ j. reclaimed j now) (reclaim_step queue now)
        (reclaim_step-eq queue now) limit s.jobs in
    rw (n, m) refl
