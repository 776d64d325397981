-- ===== src/Inspector/Bulk.antt =====
-- Which jobs RetryAllDead brings back, and how many.
use goqueue.Base.{
  ltb, Bool-cases, length, take, select, count_if, All, length-take, pos, ◌+ℤ◌, ltb_ℤ, wrap64, Text,
  is_empty, text_eq, text_eq_refl, text_eq-eq, sort_by, All-sort, Pairwise, sort-Pairwise,
  All-map_mono, length-sort, ℕ, zero, suc, ◌≤◌, min, ◌≡◌, refl, ap, ◌∙◌, inl, inr, Bool, true,
  false, ◌&&◌, none, some, List, [], ◌∷◌, arith,
}
use goqueue.Errors.{ok}
use goqueue.Values.States.{dead, state_eq}
use goqueue.Values.Names.{queue_name_matches, new_queue_name}
use goqueue.Job.{Time, Job}
use goqueue.Job.Lifecycle.{requeue}
use goqueue.Store.Defs.{Store, lookup_job, put_job, take_failure}
use goqueue.Store.Repo.{save, JobPage, filter_matches, newer, slice_page, list_jobs}
use goqueue.Store.Broker.{store_requeue}
use goqueue.Inspector.Actions.{requeued}
use goqueue.Store.Maps.{lookup-put, Unique}
use goqueue.Strings.{matches}
use goqueue.Inspector.{max_bulk_retry, retry_one, retry_loop, dead_filter, retry_all_dead}
use goqueue.Values.Names.Canonical.{new_queue_name_stable}

length-select : (p : Job → Bool) (js : List Job) → length (select p js) ≡ count_if p js
length-select p [] = refl
length-select p (j ∷ js) = ground (arith, length-select p js)

All-select : (p : Job → Bool) (js : List Job) → All (λ j. p j ≡ true) (select p js)
All-select p [] = tt
All-select p (j ∷ js) = elim (Bool-cases (p j)) [
  | inl e ↦ rw e (e, All-select p js)
  | inr e ↦ rw e (All-select p js)
]

All-take : (P : Job → Type 0) (n : ℕ) (js : List Job) → All P js → All P (take n js)
All-take P zero js p = tt
All-take P (suc n) [] p = tt
All-take P (suc n) (j ∷ js) p = (p.0, All-take P n js p.1)

-- Two jobs with different ids.
abbrev pub Apart : Job → Job → Type 0
Apart j k = text_eq j.id k.id ≡ false

Apart-sym : (j k : Job) → Apart j k → Apart k j
Apart-sym j k ne = ground (arith, ne, text_eq-eq k.id j.id, text_eq_refl j.id)

Unique-Pairwise : (js : List Job) → Unique js → Pairwise Apart js
Unique-Pairwise [] u = tt
Unique-Pairwise (j ∷ js) u = (u.0, Unique-Pairwise js u.1)

All-select_keep :
    (P : Job → Type 0) (p : Job → Bool) (js : List Job) → All P js → All P (select p js)
All-select_keep P p [] a = tt
All-select_keep P p (j ∷ js) a = elim (Bool-cases (p j)) [
  | inl e ↦ rw e (a.0, All-select_keep P p js a.1)
  | inr e ↦ rw e (All-select_keep P p js a.1)
]

select-Pairwise :
    (p : Job → Bool) (js : List Job) → Pairwise Apart js → Pairwise Apart (select p js)
select-Pairwise p [] u = tt
select-Pairwise p (j ∷ js) u = elim (Bool-cases (p j)) [
  | inl e ↦ rw e (All-select_keep (Apart j) p js u.0, select-Pairwise p js u.1)
  | inr e ↦ rw e (select-Pairwise p js u.1)
]

take-Pairwise : (n : ℕ) (js : List Job) → Pairwise Apart js → Pairwise Apart (take n js)
take-Pairwise zero js u = tt
take-Pairwise (suc n) [] u = tt
take-Pairwise (suc n) (j ∷ js) u = (All-take (Apart j) n js u.0, take-Pairwise n js u.1)

select-ext :
    (p q : Job → Bool) (js : List Job) → ((j : Job) → p j ≡ q j) → select p js ≡ select q js
select-ext p q [] h = refl
select-ext p q (j ∷ js) h = rw (h j, select-ext p q js h) refl

take-min : (n : ℕ) (js : List Job) → take (min n (length js)) js ≡ take n js
take-min n js = elim (Bool-cases (ltb n (length js))) [
  | inl e ↦ rw (let few : min n (length js) ≡ n = ground arith in few) refl
  | inr e ↦
      rw (let all : min n (length js) ≡ length js = ground arith in all)
        (take-length n js (ground arith))
]
  where
    take-length : (m : ℕ) (ks : List Job) → length ks ≤ m → take (length ks) ks ≡ take m ks
    take-length zero [] h = refl
    take-length (suc m) [] h = refl
    take-length zero (k ∷ ks) h = absurd (omega arith)
    take-length (suc m) (k ∷ ks) h = ap (k ∷◌) (take-length m ks (omega arith))

-- The first page of a listing with the limit of RetryAllDead.
abbrev page_of : List Job → JobPage
page_of matched = record {
  page_jobs = take (min max_bulk_retry (length matched)) matched;
  page_total = length matched;
}

first_page :
    (matched : List Job) → slice_page matched (pos 0) (pos max_bulk_retry) ≡ some (page_of matched)
unfolding slice_page wrap64 ◌+ℤ◌
first_page [] = refl
first_page (j ∷ js) = elim (Bool-cases (ltb_ℤ (pos (suc (length js))) (pos max_bulk_retry))) [
  | inl e ↦ ground arith
  | inr e ↦ ground arith
]

module _ (now : Time) where
  -- One round on a dead job, in a store without an injected failure.
  retry_one-dead :
      (j : Job) (s : Store)
      → j.state ≡ dead
      → s.fail_next ≡ none
      → ((retry_one now j s).0 ≡ 1) × ((retry_one now j s).1.fail_next ≡ none)
  unfolding retry_one requeue store_requeue save take_failure
  retry_one-dead j s d quiet = ground arith

  retry_loop-dead :
      (js : List Job) (s : Store)
      → All (λ j. j.state ≡ dead) js
      → s.fail_next ≡ none
      → (retry_loop now js s).0 ≡ length js
  unfolding retry_loop
  retry_loop-dead [] s d quiet = refl
  retry_loop-dead (j ∷ js) s d quiet =
      let (one, still) = retry_one-dead j s d.0 quiet in
      omega (arith, one, retry_loop-dead js (retry_one now j s).1 d.1 still)

  retry_one-put :
      (j : Job) (s : Store)
      → j.state ≡ dead
      → s.fail_next ≡ none
      → (retry_one now j s).1.jobs ≡ put_job (requeued j now) s.jobs
  unfolding retry_one requeue store_requeue save take_failure
  retry_one-put j s d quiet = ground arith

  -- An id that is none of the loop's is found as before.
  retry_loop-other :
      (js : List Job) (s : Store) (id : Text)
      → All (λ j. j.state ≡ dead) js
      → All (λ j. text_eq j.id id ≡ false) js
      → s.fail_next ≡ none
      → lookup_job id (retry_loop now js s).1.jobs ≡ lookup_job id s.jobs
  unfolding retry_loop
  retry_loop-other [] s id d ne quiet = refl
  retry_loop-other (j ∷ js) s id d ne quiet =
      retry_loop-other js (retry_one now j s).1 id d.1 ne.1 (retry_one-dead j s d.0 quiet).1
      ∙ ap (lookup_job id) (retry_one-put j s d.0 quiet)
      ∙ lookup-put (requeued j now) id s.jobs
      ∙ rw ne.0 refl

  -- Each job of the loop is stored as the requeue made it.
  retry_loop-requeued :
      (js : List Job) (s : Store)
      → All (λ j. j.state ≡ dead) js
      → Pairwise Apart js
      → s.fail_next ≡ none
      → All (λ j. lookup_job j.id (retry_loop now js s).1.jobs ≡ some (requeued j now)) js
  unfolding retry_loop
  retry_loop-requeued [] s d u quiet = tt
  retry_loop-requeued (j ∷ js) s d u quiet =
      let (one, still) = retry_one-dead j s d.0 quiet in
      let s' = (retry_one now j s).1 in
      (
        retry_loop-other js s' j.id d.1 (All-map_mono js (λ k. Apart-sym j k) u.0) still
            ∙ ap (lookup_job j.id) (retry_one-put j s d.0 quiet)
            ∙ lookup-put (requeued j now) j.id s.jobs
            ∙ rw (text_eq_refl j.id) refl,
        retry_loop-requeued js s' d.1 u.1 still,
      )

-- A dead job of the queue.
abbrev pub is_dead_in : Text → Job → Bool
is_dead_in queue j = text_eq j.queue queue && state_eq j.state dead

named_queue : (raw : Text) {queue : Text} → new_queue_name raw ≡ ok queue → is_empty queue ≡ false
unfolding queue_name_matches matches
named_queue raw {queue} h = ground (arith, new_queue_name_stable raw h)

dead_filter-is_dead_in :
    (queue : Text)
    → is_empty queue ≡ false
    → (j : Job) → filter_matches (dead_filter queue) j ≡ is_dead_in queue j
unfolding filter_matches
dead_filter-is_dead_in queue named j = ground arith

filter-dead :
    (queue : Text) (j : Job) → filter_matches (dead_filter queue) j ≡ true → j.state ≡ dead
unfolding filter_matches
filter-dead queue j h = ground arith

-- The jobs that RetryAllDead works on: the dead ones of the queue, the newest 1000 of them.
abbrev pub bulk_page : Text → Store → List Job
bulk_page queue s = take max_bulk_retry (sort_by newer (select (is_dead_in queue) s.jobs))

-- Without an injected failure, and with no id stored twice, RetryAllDead of a queue name that is accepted
-- requeues the newest 1000 dead jobs of the queue, or all where there are fewer: each of them is found
-- afterwards as the requeue made it, pending and with its whole budget, and it reports how many
-- they are. An id that is none of theirs is found as before.
pub retry_all_dead_lem :
    (raw_queue other : Text) (now : Time) (s : Store) {queue : Text}
    → new_queue_name raw_queue ≡ ok queue
    → s.fail_next ≡ none
    → Unique s.jobs
    → All (λ j. text_eq j.id other ≡ false) (bulk_page queue s)
    → ((retry_all_dead raw_queue now s).0 ≡ ok (some (length (bulk_page queue s))))
      × (length (bulk_page queue s) ≡ min max_bulk_retry (count_if (is_dead_in queue) s.jobs))
      × All
          (λ j. lookup_job j.id (retry_all_dead raw_queue now s).1.jobs ≡ some (requeued j now))
          (bulk_page queue s)
      × (lookup_job other (retry_all_dead raw_queue now s).1.jobs ≡ lookup_job other s.jobs)
unfolding retry_all_dead list_jobs
retry_all_dead_lem raw_queue other now s {queue} accepted quiet u apart =
    let same : select (filter_matches (dead_filter queue)) s.jobs
        ≡ select (is_dead_in queue) s.jobs =
      select-ext (filter_matches (dead_filter queue)) (is_dead_in queue) s.jobs
        (dead_filter-is_dead_in queue (named_queue raw_queue accepted)) in
    let dead_ones : All (λ j. j.state ≡ dead) (bulk_page queue s) =
      All-take (λ j. j.state ≡ dead) max_bulk_retry _
        (All-sort newer (λ j. j.state ≡ dead) (select (is_dead_in queue) s.jobs)
          (All-map_mono (select (is_dead_in queue) s.jobs) (λ j h. ground arith)
            (All-select (is_dead_in queue) s.jobs))) in
    let distinct : Pairwise Apart (bulk_page queue s) = take-Pairwise max_bulk_retry _ (
      sort-Pairwise newer Apart Apart-sym _
        (select-Pairwise (is_dead_in queue) s.jobs (Unique-Pairwise s.jobs u))) in
    rw
      (
        accepted,
        retry_all_dead,
        list_jobs,
        same,
        first_page (sort_by newer (select (is_dead_in queue) s.jobs)),
        take-min max_bulk_retry (sort_by newer (select (is_dead_in queue) s.jobs)),
      )
      (
        ap (λ k. ok (some k)) (retry_loop-dead now (bulk_page queue s) s dead_ones quiet),
        length-take max_bulk_retry (sort_by newer (select (is_dead_in queue) s.jobs))
            ∙ ap (min max_bulk_retry) (
                length-sort newer (select (is_dead_in queue) s.jobs)
                ∙ length-select (is_dead_in queue) s.jobs),
        retry_loop-requeued now (bulk_page queue s) s dead_ones distinct quiet,
        retry_loop-other now (bulk_page queue s) s other dead_ones apart quiet,
      )
