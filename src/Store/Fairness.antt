-- ===== src/Store/Fairness.antt =====
-- What a dequeue does not depend on: the iteration order of the map of jobs, and how often a queue stands in the
-- polling order.
use mathlib.Core.Path.{ap₂}
use goqueue.Base.{
  Bool-cases, Option-cases, All, Text, text_eq, text_eq-eq, ◌≡◌, refl, sym, ap, ◌∙◌, inl, inr, true,
  false, none, some, List, [], ◌∷◌, arith,
}
use goqueue.Job.{Job}
use goqueue.Queue.{contains, dedupe_from, dedupe}
use goqueue.Store.Defs.{Store}
use goqueue.Store.Maps.{Unique, Member, All-Member, lookup-Member}
use goqueue.Store.Broker.{beats, is_eligible, best_from, is_paused_queue, choose}
use goqueue.Store.Choice.{beats-total, IsBest, Idle, best_from-cases, attempt, or_else, choose-cons}

-- Two best jobs of one queue are the same job.
IsBest-eq :
    (queue : Text) (b c : Job) (js : List Job)
    → Unique js
    → IsBest queue b js
    → IsBest queue c js
    → b ≡ c
IsBest-eq queue b c js u bb bc =
    let bc' = All-Member (λ j. is_eligible queue j ≡ true → beats j b ≡ false) js bb.2 bc.0 bc.1 in
    let cb' = All-Member (λ j. is_eligible queue j ≡ true → beats j c ≡ false) js bc.2 bb.0 bb.1 in
    let same = beats-total b c cb' bc' in
    let at_b = lookup-Member b js u bb.0 in let at_c = lookup-Member c js u bc.0 in ground arith

-- The same jobs, in any order.
abbrev pub SameJobs : List Job → List Job → Type 0
SameJobs js ks = (j : Job) → (Member j js → Member j ks) × (Member j ks → Member j js)

All-of_Member : (P : Job → Type 0) (js : List Job) → ((j : Job) → Member j js → P j) → All P js
All-of_Member P [] f = tt
All-of_Member P (j ∷ js) f = (f j (inl refl), All-of_Member P js (λ k m. f k (inr m)))

All-SameJobs : (P : Job → Type 0) (js ks : List Job) → SameJobs js ks → All P js → All P ks
All-SameJobs P js ks same p = All-of_Member P ks (λ j m. All-Member P js p ((same j).1 m))

Idle-IsBest : (queue : Text) (b : Job) (js : List Job) → Idle queue js → IsBest queue b js → ⊥
Idle-IsBest queue b js idle best =
    let n = All-Member (λ j. is_eligible queue j ≡ false) js idle best.0 in ground (arith, best.1)

best_from-SameJobs :
    (queue : Text) (js ks : List Job)
    → Unique js
    → SameJobs js ks
    → best_from queue none js ≡ best_from queue none ks
best_from-SameJobs queue js ks u same = elim (best_from-cases queue js) [
  | inl (r, idle) ↦ elim (best_from-cases queue ks) [
    | inl (r', idle') ↦ r ∙ sym r'
    | inr (b, r', best) ↦ absurd (Idle-IsBest queue b ks (All-SameJobs _ js ks same idle) best)
  ]
  | inr (b, r, best) ↦ elim (best_from-cases queue ks) [
    | inl (r', idle') ↦
        absurd (
          Idle-IsBest queue b ks idle'
            ((same b).0 best.0, best.1, All-SameJobs _ js ks same best.2))
    | inr (c, r', best') ↦
        let moved : IsBest queue c js = (
          (same c).1 best'.0,
          best'.1,
          All-SameJobs _ ks js (λ j. ((same j).1, (same j).0)) best'.2,
        ) in
        r ∙ ap some (IsBest-eq queue b c js u best moved) ∙ sym r'
  ]
]

attempt-SameJobs :
    (queue : Text) (s : Store) (ks : List Job)
    → Unique s.jobs
    → SameJobs s.jobs ks
    → attempt queue s ≡ attempt queue (record s { jobs = ks })
unfolding attempt
attempt-SameJobs queue s ks u same = rw (best_from-SameJobs queue s.jobs ks u same)

-- The job that a worker gets does not depend on the order in which Go iterates over the map of jobs.
pub choose-SameJobs :
    (order : List Text) (s : Store) (ks : List Job)
    → Unique s.jobs
    → SameJobs s.jobs ks
    → choose order s ≡ choose order (record s { jobs = ks })
choose-SameJobs [] s ks u same = unfold choose in refl
choose-SameJobs (queue ∷ order) s ks u same =
    choose-cons queue order s
    ∙ ap₂ or_else (attempt-SameJobs queue s ks u same) (choose-SameJobs order s ks u same)
    ∙ sym (choose-cons queue order (record s { jobs = ks }))

-- A queue that offered nothing is no better later in the order.
module _ (s : Store) where
  choose-dedupe_from :
      (seen order : List Text)
      → ((q : Text) → contains seen q ≡ true → attempt q s ≡ none)
      → choose (dedupe_from seen order) s ≡ choose order s
  unfolding dedupe_from
  choose-dedupe_from seen [] idle = refl
  choose-dedupe_from seen (q ∷ order) idle = elim (Bool-cases (contains seen q)) [
    | inl e ↦ rw e (
        choose-dedupe_from seen order idle
        ∙ sym (choose-cons q order s ∙ ap (λ a. or_else a (choose order s)) (idle q e)))
    | inr e ↦
        rw (e, choose-cons)
          (elim (Option-cases (attempt q s)) [
            | inr (j, h) ↦ rw (h, choose-cons, h) refl
            | inl h ↦
                rw (h, choose-cons, h)
                  (choose-dedupe_from (q ∷ seen) order (λ p c. seen_idle p c h))
          ])
  ]
    where
      seen_idle :
          (p : Text) → contains (q ∷ seen) p ≡ true → attempt q s ≡ none → attempt p s ≡ none
      seen_idle p c h = unfold contains in ground (arith, text_eq-eq q p, idle p)

-- A dequeue settles on the same job whether the polling order lists a queue once or as often as its
-- weight.
pub choose-dedupe : (order : List Text) (s : Store) → choose (dedupe order) s ≡ choose order s
unfolding dedupe
choose-dedupe order s = choose-dedupe_from s [] order (λ q c. unfold contains in cc)

-- While the queue that stands first in the order has a job to take and is not paused, a worker takes
-- its jobs from no other queue.
pub choose_first_queue :
    (queue : Text) (order : List Text) (s : Store) (j : Job) {b : Job}
    → is_paused_queue queue s.queues ≡ false
    → Member j s.jobs
    → is_eligible queue j ≡ true
    → choose (queue ∷ order) s ≡ some b
    → b.queue ≡ queue
choose_first_queue queue order s j {b} open_queue m el h = elim (best_from-cases queue s.jobs) [
  | inl (r, idle) ↦
      absurd (ground (arith, All-Member (λ k. is_eligible queue k ≡ false) s.jobs idle m))
  | inr (c, r, best) ↦
      let same : c ≡ b = unfold choose in ground arith in
      let here : text_eq c.queue queue ≡ true = unfold is_eligible in ground (arith, best.1) in
      rw (← same) (text_eq-eq c.queue queue here)
]
