-- ===== src/Store/Validity.antt =====
-- The invariant of the store, over any sequence of its operations.
use goqueue.Base.{
  Bool-cases, Option-cases, All, ℤ, Text, text_eq, ℕ, ◌+◌, ◌≡◌, ◌≢◌, ◌⊎◌, inl, inr, Bool, true,
  false, ◌&&◌, Option, some, List, [], ◌∷◌, arith,
}
use goqueue.Job.{Time, zero_time, after, Job}
use goqueue.Job.Invariant.{WellFormed, trail_ok-close, length-close, apply-WellFormed}
use goqueue.Store.Defs.{Store, lookup_job, delete_job}
use goqueue.Store.Maps.{Unique, All-put, Unique-put, All-Member}
use goqueue.Store.Repo.{save, delete, reached, purge_loop}
use goqueue.Store.Sweeps.{Swept, is_waiting_due, promoted, moved_if, is_lapsed, reclaimed}
use goqueue.Values.States.{active, completed, state_eq}
use goqueue.Retry.Exact.{exact_floats}
use goqueue.Job.Lifecycle.{lease_expired_message}
use goqueue.Job.Graph.{lease_to, apply}
use goqueue.Store.Workers.{Poll, poll, poll-cases}
use goqueue.Store.Dequeue.{Chosen-pending, dequeue-eq-some}

-- No id is stored twice, and every stored job is well formed.
pub record IsValid (s : Store) : Type 0 where
  pub unique : Unique s.jobs
  pub well_formed : All WellFormed s.jobs

pub save-IsValid : (job : Job) (s : Store) → WellFormed job → IsValid s → IsValid (save job s).1
unfolding save
save-IsValid job s w v = elim (Option-cases s.fail_next) [
  | inr (e, f) ↦ rw f (record { unique = v.unique; well_formed = v.well_formed })
  | inl quiet ↦ rw quiet (record {
    unique = Unique-put job s.jobs v.unique;
    well_formed = All-put WellFormed job s.jobs w v.well_formed;
  })
]

-- A sweep that keeps ids and well-formedness keeps the invariant.
module _ (step : Job → Option Job) (same_id : (j k : Job) → step j ≡ some k → k.id ≡ j.id)
    (keeps : (j k : Job) → WellFormed j → step j ≡ some k → WellFormed k) where
  Swept-WellFormed : (js ks : List Job) → Swept step js ks → All WellFormed js → All WellFormed ks
  Swept-WellFormed [] [] s w = tt
  Swept-WellFormed [] (k ∷ ks) s w = absurd s
  Swept-WellFormed (j ∷ js) [] s w = absurd s
  Swept-WellFormed (j ∷ js) (k ∷ ks) (h, s) w = (moved h, Swept-WellFormed js ks s w.1)
    where
      moved : (k ≡ j) ⊎ (step j ≡ some k) → WellFormed k
      moved (inl e) = rw e w.0
      moved (inr e) = keeps j k w.0 e

  Swept-ids :
      (id : Text) (js ks : List Job)
      → Swept step js ks
      → All (λ l. text_eq id l.id ≡ false) js
      → All (λ l. text_eq id l.id ≡ false) ks
  Swept-ids id [] [] s w = tt
  Swept-ids id [] (k ∷ ks) s w = absurd s
  Swept-ids id (j ∷ js) [] s w = absurd s
  Swept-ids id (j ∷ js) (k ∷ ks) (h, s) w = (kept h, Swept-ids id js ks s w.1)
    where
      kept : (k ≡ j) ⊎ (step j ≡ some k) → text_eq id k.id ≡ false
      kept (inl e) = rw e w.0
      kept (inr e) = rw (same_id j k e) w.0

  Swept-Unique : (js ks : List Job) → Swept step js ks → Unique js → Unique ks
  Swept-Unique [] [] s u = tt
  Swept-Unique [] (k ∷ ks) s u = absurd s
  Swept-Unique (j ∷ js) [] s u = absurd s
  Swept-Unique (j ∷ js) (k ∷ ks) (h, s) u =
      (rw (kept h) (Swept-ids j.id js ks s u.0), Swept-Unique js ks s u.1)
    where
      kept : (k ≡ j) ⊎ (step j ≡ some k) → k.id ≡ j.id
      kept (inl e) = rw e
      kept (inr e) = same_id j k e

moved_if-eq :
    (test : Job → Bool) (change : Job → Job) (j k : Job)
    → moved_if test change j ≡ some k
    → (test j ≡ true) × (k ≡ change j)
moved_if-eq test change j k h = ground arith

pub promoted-WellFormed :
    (queue : Text) (now : Time) (j : Job)
    → WellFormed j
    → is_waiting_due queue now j ≡ true
    → WellFormed (promoted j now)
promoted-WellFormed queue now j w h = ground arith

pub reclaimed-WellFormed :
    (queue : Text) (now : Time) (j : Job)
    → now ≢ zero_time
    → WellFormed j
    → is_lapsed queue now j ≡ true
    → WellFormed (reclaimed j now)
reclaimed-WellFormed queue now j ne w h = ground (
  arith,
  trail_ok-close (state_eq j.state active) now lease_expired_message j.attempts ne,
  length-close now lease_expired_message j.attempts,
)

-- A sweep by a test, as PromoteDue and ReclaimExpired are.
pub sweep-IsValid :
    (test : Job → Bool) (change : Job → Job) (js ks : List Job)
    → ((j : Job) → (change j).id ≡ j.id)
    → ((j : Job) → WellFormed j → test j ≡ true → WellFormed (change j))
    → Swept (moved_if test change) js ks
    → Unique js
    → All WellFormed js
    → Unique ks × All WellFormed ks
sweep-IsValid test change js ks ids keeps s u w = (
  Swept-Unique (moved_if test change) same_id kept js ks s u,
  Swept-WellFormed (moved_if test change) same_id kept js ks s w,
)
  where
    same_id : (j k : Job) → moved_if test change j ≡ some k → k.id ≡ j.id
    same_id j k h = rw (moved_if-eq test change j k h).1 (ids j)

    kept : (j k : Job) → WellFormed j → moved_if test change j ≡ some k → WellFormed k
    kept j k v h = let (passed, e) = moved_if-eq test change j k h in rw e (keeps j v passed)

pub dequeue-IsValid : (p : Poll) (s : Store) → IsValid s → IsValid (poll p s).1
dequeue-IsValid p s v = elim (poll-cases p s) [
  | inl (k, h) ↦
      let (b, c, l, after) = dequeue-eq-some p.order p.worker p.lease_for p.now s h in
      let w = All-Member WellFormed s.jobs v.well_formed (Chosen-pending p.order s b c).0 in
      rw after (record {
        unique = Unique-put k s.jobs v.unique;
        well_formed =
            All-put WellFormed k s.jobs
              (apply-WellFormed exact_floats b (lease_to p.worker p.now p.lease_for) w tt
                (unfold apply in l))
              v.well_formed;
      })
  | inr same ↦ record { unique = rw same v.unique; well_formed = rw same v.well_formed }
]

All-delete : (P : Job → Type 0) (id : Text) (js : List Job) → All P js → All P (delete_job id js)
unfolding delete_job
All-delete P id [] p = tt
All-delete P id (j ∷ js) p = elim (Bool-cases (text_eq j.id id)) [
  | inl e ↦ rw e p.1
  | inr e ↦ rw e (p.0, All-delete P id js p.1)
]

Unique-delete : (id : Text) (js : List Job) → Unique js → Unique (delete_job id js)
unfolding delete_job
Unique-delete id [] u = tt
Unique-delete id (j ∷ js) u = elim (Bool-cases (text_eq j.id id)) [
  | inl e ↦ rw e u.1
  | inr e ↦ rw e (All-delete (λ k. text_eq j.id k.id ≡ false) id js u.0, Unique-delete id js u.1)
]

pub delete-IsValid : (id : Text) (s : Store) → IsValid s → IsValid (delete id s).1
unfolding delete
delete-IsValid id s v = elim (Option-cases (lookup_job id s.jobs)) [
  | inl e ↦ rw (e, delete) v
  | inr (j, e) ↦
      rw (e, delete)
        (record {
          unique = Unique-delete id s.jobs v.unique;
          well_formed = All-delete WellFormed id s.jobs v.well_formed;
        })
]

module _ (queue : Text) (limit : ℤ) where
  pub purge-All :
      (P : Job → Type 0) (n : ℕ) (js : List Job) → All P js → All P (purge_loop queue limit n js).0
  unfolding purge_loop
  purge-All P n [] p = tt
  purge-All P n (j ∷ js) p = elim (Bool-cases (reached limit n)) [
    | inl r ↦ rw r p
    | inr r ↦ elim (Bool-cases (text_eq j.queue queue && state_eq j.state completed)) [
      | inl gone ↦ rw (r, gone) (purge-All P (n + 1) js p.1)
      | inr kept ↦ rw (r, kept) (p.0, purge-All P n js p.1)
    ]
  ]

  pub purge-Unique : (n : ℕ) (js : List Job) → Unique js → Unique (purge_loop queue limit n js).0
  unfolding purge_loop
  purge-Unique n [] u = tt
  purge-Unique n (j ∷ js) u = elim (Bool-cases (reached limit n)) [
    | inl r ↦ rw r u
    | inr r ↦ elim (Bool-cases (text_eq j.queue queue && state_eq j.state completed)) [
      | inl gone ↦ rw (r, gone) (purge-Unique (n + 1) js u.1)
      | inr kept ↦
          rw (r, kept) (purge-All (λ k. text_eq j.id k.id ≡ false) n js u.0, purge-Unique n js u.1)
    ]
  ]
