-- ===== src/Store/Workers.antt =====
-- Any number of workers that dequeue one after the other: the mutex of the store makes each dequeue one step,
-- so every interleaving of their calls is such a sequence.
use goqueue.Base.{
  Bool-cases, All, Text, text_eq, text_eq_refl, text_eq-eq, ◌≡◌, refl, ◌⊎◌, inl, inr, Bool, true,
  false, Option, none, some, List, [], ◌∷◌, arith,
}
use goqueue.Errors.{Result, ok, err}
use goqueue.Retry.{Duration}
use goqueue.Job.{Time, Job}
use goqueue.Store.Defs.{Store, Reply, lookup_job}
use goqueue.Store.Broker.{dequeue}
use goqueue.Values.States.{active}
use goqueue.Store.Maps.{lookup-put, Unique, Unique-put}
use goqueue.Store.Dequeue.{dequeue-stored, dequeue-Unique, dequeue-jobs, dequeue-ne_active}

-- The arguments of one call of Dequeue, and the time at which it runs.
pub record Poll : Type 0 where
  pub order : List Text
  pub worker : Text
  pub lease_for : Duration
  pub now : Time

abbrev pub poll : Poll → Store → Reply (Option Job)
poll p s = dequeue p.order p.worker p.lease_for p.now s

abbrev received : Result (Option Job) → List Job → List Job
received (ok (some j)) js = j ∷ js
received (ok none) js = js
received (err e) js = js

-- The jobs that a sequence of calls hands out.
unfoldable pub handed_out : List Poll → Store → List Job
handed_out [] s = []
handed_out (p ∷ ps) s = received (poll p s).0 (handed_out ps (poll p s).1)

abbrev is_job : Result (Option Job) → Bool
is_job (ok (some j)) = true
is_job (ok none) = false
is_job (err e) = false

is_job-true : (r : Result (Option Job)) → is_job r ≡ true → (k : Job) × (r ≡ ok (some k))
is_job-true (ok (some k)) h = (k, refl)
is_job-true (ok none) h = absurd (ground arith)
is_job-true (err e) h = absurd (ground arith)

received-none : (r : Result (Option Job)) (js : List Job) → is_job r ≡ false → received r js ≡ js
received-none (ok (some k)) js h = absurd (ground arith)
received-none (ok none) js h = refl
received-none (err e) js h = refl

-- A call that hands out no job leaves the jobs alone.
poll-jobs : (p : Poll) (s : Store) → is_job (poll p s).0 ≡ false → (poll p s).1.jobs ≡ s.jobs
unfolding dequeue
poll-jobs p s h = ground arith

-- The distinct id of a stored active job from those of the jobs that are handed out.
module _ (a : Job) (act : a.state ≡ active) where
  active-handed_out :
      (ps : List Poll) (s : Store)
      → Unique s.jobs
      → lookup_job a.id s.jobs ≡ some a
      → All (λ k. text_eq a.id k.id ≡ false) (handed_out ps s)
  unfolding handed_out
  active-handed_out [] s u found = tt
  active-handed_out (p ∷ ps) s u found = elim (Bool-cases (is_job (poll p s).0)) [
    | inr e ↦
        rw (received-none (poll p s).0 (handed_out ps (poll p s).1) e)
          (active-handed_out ps (poll p s).1 (rw (poll-jobs p s e) u) (rw (poll-jobs p s e) found))
    | inl e ↦
        let (k, h) = is_job-true (poll p s).0 e in
        let other = dequeue-ne_active p.order p.worker p.lease_for p.now s a u found act h in
        let after = dequeue-jobs p.order p.worker p.lease_for p.now s h in
        rw h (
          other,
          active-handed_out ps (poll p s).1 (rw after (Unique-put k s.jobs u)) (
              rw after (
                ground (
                  arith,
                  lookup-put k a.id s.jobs,
                  other,
                  text_eq-eq k.id a.id,
                  text_eq_refl a.id,
                ))),
        )
  ]

-- No two of the jobs that any sequence of calls hands out are the same: as long as no other
-- operation moves a job, each is handed out once.
pub handed_out-Unique : (ps : List Poll) (s : Store) → Unique s.jobs → Unique (handed_out ps s)
unfolding handed_out
handed_out-Unique [] s u = tt
handed_out-Unique (p ∷ ps) s u = elim (Bool-cases (is_job (poll p s).0)) [
  | inr e ↦
      rw (received-none (poll p s).0 (handed_out ps (poll p s).1) e)
        (handed_out-Unique ps (poll p s).1 (rw (poll-jobs p s e) u))
  | inl e ↦
      let (k, h) = is_job-true (poll p s).0 e in
      let (found, act) = dequeue-stored p.order p.worker p.lease_for p.now s h in
      let u' = dequeue-Unique p.order p.worker p.lease_for p.now s u h in
      rw h (active-handed_out k act ps (poll p s).1 u' found, handed_out-Unique ps (poll p s).1 u')
]

-- A call hands out a job, or leaves the jobs alone.
pub poll-cases :
    (p : Poll) (s : Store)
    → ((k : Job) × ((poll p s).0 ≡ ok (some k))) ⊎ ((poll p s).1.jobs ≡ s.jobs)
poll-cases p s = elim (Bool-cases (is_job (poll p s).0)) [
  | inl e ↦ inl (is_job-true (poll p s).0 e)
  | inr e ↦ inr (poll-jobs p s e)
]
