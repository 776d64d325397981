-- ===== src/Store/Dequeue.antt =====
-- What a dequeue does to the store, and that no job is handed out twice.
use mathlib.Core.Path.{subst}
use goqueue.Base.{
  Option-cases, Text, is_empty, text_eq, text_eq_refl, text_eq-eq, ◌≡◌, sym, ◌≢◌, ◌⊎◌, inl, inr,
  false, none, some, List, [], ◌∷◌, arith,
}
use goqueue.Errors.{GoError, ok, err, Result-cases}
use goqueue.Values.States.{pending, active, can_transition_to}
use goqueue.Retry.{Duration, second}
use goqueue.Job.{Time, after, Job}
use goqueue.Job.Lifecycle.{guard, lease}
use goqueue.Store.Defs.{Store, lookup_job, put_job}
use goqueue.Store.Maps.{lookup-put, Unique, Member, Unique-put, lookup-Member}
use goqueue.Store.Broker.{is_eligible, choose, claim_job, dequeue}
use goqueue.Store.Choice.{Chosen, NothingToDo, choose-cases}

-- A job that was chosen is stored and pending.
pub Chosen-pending :
    (order : List Text) (s : Store) (b : Job)
    → Chosen order s b
    → Member b s.jobs × (b.state ≡ pending)
Chosen-pending [] s b c = absurd c
Chosen-pending (queue ∷ order) s b (inl (e, best)) =
    (best.0, unfold is_eligible in ground (arith, best.1))
Chosen-pending (queue ∷ order) s b (inr (e, c)) = Chosen-pending order s b c

lease-pending :
    (b : Job) (worker : Text) (now : Time) (grace : Duration)
    → b.state ≡ pending
    → is_empty worker ≡ false
    → (k : Job) × (lease b worker now grace ≡ ok k)
lease-pending b worker now grace p w = elim (Result-cases (lease b worker now grace)) [
  | inl (k, h) ↦ (k, h)
  | inr (e, h) ↦ absurd (unfold lease guard can_transition_to in ground arith)
]

pub lease-active :
    (b : Job) (worker : Text) (now : Time) (grace : Duration) {k : Job}
    → lease b worker now grace ≡ ok k
    → (k.id ≡ b.id) × (k.queue ≡ b.queue) × (k.state ≡ active)
unfolding lease guard
lease-active b worker now grace h = ground arith

quiet-store : (s : Store) → s.fail_next ≡ none → record s { fail_next = none } ≡ s
quiet-store s q = λ i. record s { fail_next = sym q i }

dequeue-quiet :
    (order : List Text) (worker : Text) (lease_for : Duration) (now : Time) (s : Store)
    → s.fail_next ≡ none
    → dequeue order worker lease_for now s ≡ claim_job (choose order s) worker lease_for now s
unfolding dequeue
dequeue-quiet order worker lease_for now s quiet = rw (quiet, quiet-store s quiet)

-- Without an injected failure, and for a worker with a name, a dequeue either finds nothing to do and changes
-- nothing, or it leases the job that the polling order, the priorities, the due times and the ids
-- determine, returns it, and stores it as leased; nothing else in the store changes.
pub dequeue_lem :
    (order : List Text) (worker : Text) (lease_for : Duration) (now : Time) (s : Store)
    → s.fail_next ≡ none
    → is_empty worker ≡ false
    → (NothingToDo order s × (dequeue order worker lease_for now s ≡ (ok none, s)))
      ⊎ ((b : Job) × (k : Job) × Chosen order s b
          × (lease b worker now lease_for ≡ ok k)
          × (dequeue order worker lease_for now s
              ≡ (ok (some k), record s { jobs = put_job k s.jobs })))
unfolding claim_job
dequeue_lem order worker lease_for now s quiet w = elim (choose-cases order s) [
  | inl (r, idle) ↦ inl (idle, rw (dequeue-quiet order worker lease_for now s quiet, r))
  | inr (b, r, c) ↦
      let (k, l) = lease-pending b worker now lease_for (Chosen-pending order s b c).1 w in
      inr (b, k, c, l, rw (dequeue-quiet order worker lease_for now s quiet, r, l, claim_job))
]

-- A job that is stored as active is not chosen.
active-not-Chosen :
    (order : List Text) (s : Store) (b a : Job)
    → Unique s.jobs
    → lookup_job a.id s.jobs ≡ some a
    → a.state ≡ active
    → Chosen order s b
    → b.id ≢ a.id
active-not-Chosen order s b a u found act c e =
    let (m, p) = Chosen-pending order s b c in
    let same : lookup_job a.id s.jobs ≡ some b =
      subst (λ i. lookup_job i s.jobs ≡ some b) e (lookup-Member b s.jobs u m) in
    ground arith

dequeue-failing :
    (order : List Text) (worker : Text) (lease_for : Duration) (now : Time) (s : Store)
    {e : GoError}
    → s.fail_next ≡ some e
    → (dequeue order worker lease_for now s).0 ≡ err e
unfolding dequeue
dequeue-failing order worker lease_for now s f = rw f

-- What a claim that succeeds comes of.
claim_job-eq-some :
    (b : Job) (worker : Text) (lease_for : Duration) (now : Time) (s : Store) {k : Job}
    → (claim_job (some b) worker lease_for now s).0 ≡ ok (some k)
    → (lease b worker now lease_for ≡ ok k)
      × ((claim_job (some b) worker lease_for now s).1 ≡ record s { jobs = put_job k s.jobs })
unfolding claim_job
claim_job-eq-some b worker lease_for now s h = ground arith

-- What a dequeue that returned a job comes of, whether or not a failure was injected.
pub dequeue-eq-some :
    (order : List Text) (worker : Text) (lease_for : Duration) (now : Time) (s : Store) {k : Job}
    → (dequeue order worker lease_for now s).0 ≡ ok (some k)
    → (b : Job) × Chosen order s b
      × (lease b worker now lease_for ≡ ok k)
      × ((dequeue order worker lease_for now s).1 ≡ record s { jobs = put_job k s.jobs })
dequeue-eq-some order worker lease_for now s h = elim (Option-cases s.fail_next) [
  | inr (e, f) ↦ absurd (ground (arith, dequeue-failing order worker lease_for now s f))
  | inl quiet ↦
      let step = dequeue-quiet order worker lease_for now s quiet in
      elim (choose-cases order s) [
        | inl (r, idle) ↦ absurd (unfold claim_job in ground arith)
        | inr (b, r, c) ↦
            let (l, after) = claim_job-eq-some b worker lease_for now s (rw (step, r) at h) in
            (b, c, l, rw (step, r) after)
      ]
]

-- What a dequeue returns is stored, and active.
pub dequeue-stored :
    (order : List Text) (worker : Text) (lease_for : Duration) (now : Time) (s : Store) {k : Job}
    → (dequeue order worker lease_for now s).0 ≡ ok (some k)
    → (lookup_job k.id (dequeue order worker lease_for now s).1.jobs ≡ some k) × (k.state ≡ active)
dequeue-stored order worker lease_for now s {k} h =
    let (b, c, l, after) = dequeue-eq-some order worker lease_for now s h in
    let (same_id, same_queue, act) = lease-active b worker now lease_for l in
    (rw after (ground (arith, lookup-put k k.id s.jobs, text_eq_refl k.id)), act)

pub dequeue-Unique :
    (order : List Text) (worker : Text) (lease_for : Duration) (now : Time) (s : Store) {k : Job}
    → Unique s.jobs
    → (dequeue order worker lease_for now s).0 ≡ ok (some k)
    → Unique (dequeue order worker lease_for now s).1.jobs
dequeue-Unique order worker lease_for now s {k} u h =
    let (b, c, l, after) = dequeue-eq-some order worker lease_for now s h in
    rw after (Unique-put k s.jobs u)

-- Two dequeues in a row, by any workers, with any polling orders and at any times, never return the
-- same job.
pub dequeue_exclusive :
    (order order' : List Text) (worker worker' : Text) (lease_for lease_for' : Duration)
    → (now now' : Time) (s : Store) {j k : Job} → Unique s.jobs
    → (dequeue order worker lease_for now s).0 ≡ ok (some j)
    → (dequeue order' worker' lease_for' now' (dequeue order worker lease_for now s).1).0
      ≡ ok (some k)
    → k.id ≢ j.id
dequeue_exclusive order order' worker worker' lease_for lease_for' now now' s {j} u first second =
    let (b, c, l, after) = dequeue-eq-some order' worker' lease_for' now' _ second in
    let (found, act) = dequeue-stored order worker lease_for now s first in
    rw (lease-active b worker' now' lease_for' l).0 (
      active-not-Chosen order' _ b j (dequeue-Unique order worker lease_for now s u first) found act
        c)

pub dequeue-jobs :
    (order : List Text) (worker : Text) (lease_for : Duration) (now : Time) (s : Store) {k : Job}
    → (dequeue order worker lease_for now s).0 ≡ ok (some k)
    → (dequeue order worker lease_for now s).1.jobs ≡ put_job k s.jobs
dequeue-jobs order worker lease_for now s h =
    let (b, c, l, after) = dequeue-eq-some order worker lease_for now s h in rw after

pub dequeue-ne_active :
    (order : List Text) (worker : Text) (lease_for : Duration) (now : Time) (s : Store) (a : Job)
    → {k : Job} → Unique s.jobs
    → lookup_job a.id s.jobs ≡ some a
    → a.state ≡ active
    → (dequeue order worker lease_for now s).0 ≡ ok (some k)
    → text_eq a.id k.id ≡ false
dequeue-ne_active order worker lease_for now s a {k} u found act h =
    let (b, c, l, after) = dequeue-eq-some order worker lease_for now s h in
    let other = active-not-Chosen order s b a u found act c in
    let (same_id, same_queue, k_active) = lease-active b worker now lease_for l in
    ground (arith, text_eq-eq a.id k.id, other)
