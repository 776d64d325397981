-- ===== src/Queue/Ranking.antt =====
-- The polling order of a worker that looks at each queue once, in terms of names and weights alone.
use goqueue.Base.{
  if◌then◌else◌, All, Text, text_lt, sort_by, Sorted, sum_by, sum_by-sort, All-map_mono, ℕ, ◌≤◌,
  ◌<◌, ◌≡◌, refl, ◌∙◌, false, Option, none, some, List, [], ◌∷◌, map, arith,
}
use goqueue.Queue.{Queue, active_queues, heavier, build_dequeue_order, dedupe}
use goqueue.Queue.Order.{active_queues-Sorted, named, dedupe-build_dequeue_order}

-- The first queue has at least the weight of the second, and with the same weight no larger name.
abbrev pub Outranks : Queue → Queue → Type 0
Outranks q r = (r.weight ≤ q.weight) × (r.weight ≡ q.weight → text_lt r.name q.name ≡ false)

-- Each queue outranks those behind it.
abbrev pub Ranked : List Queue → Type 0
Ranked [] = Unit
Ranked (q ∷ qs) = All (Outranks q) qs × Ranked qs

heavier-Outranks : (q r : Queue) → heavier r q ≡ false → Outranks q r
unfolding heavier
heavier-Outranks q r h = ground arith

Sorted-Ranked : (qs : List Queue) → Sorted heavier qs → Ranked qs
Sorted-Ranked [] s = tt
Sorted-Ranked (q ∷ qs) s =
    (All-map_mono qs (λ r h. heavier-Outranks q r h) s.0, Sorted-Ranked qs s.1)

-- The queues that are there and not paused count once, the others not at all.
abbrev pub counted : (Queue → ℕ) → Option Queue → ℕ
counted f none = 0
counted f (some q) = if q.paused then 0 else f q

sum_by-active_queues :
    (f : Queue → ℕ) (qs : List (Option Queue)) → sum_by f (active_queues qs) ≡ sum_by (counted f) qs
unfolding active_queues
sum_by-active_queues f [] = refl
sum_by-active_queues f (none ∷ qs) = omega (arith, sum_by-active_queues f qs)
sum_by-active_queues f (some q ∷ qs) = ground (arith, sum_by-active_queues f qs)

-- With distinct names and weights of at least 1, what `dedupe` leaves of the polling order are the names
-- of a list of queues that holds each queue that is there and not paused as often as the given list, and
-- no other, and in which each queue outranks those behind it: by weight, then by name.
pub dedupe-Ranked :
    (qs : List (Option Queue))
    → ((n : Text) → sum_by (counted (named n)) qs ≤ 1)
    → All (λ q. 0 < q.weight) (active_queues qs)
    → (ranked : List Queue) × (dedupe (build_dequeue_order qs) ≡ map (λ q. q.name) ranked)
      × Ranked ranked
      × ((f : Queue → ℕ) → sum_by f ranked ≡ sum_by (counted f) qs)
dedupe-Ranked qs distinct weights = (
  sort_by heavier (active_queues qs),
  dedupe-build_dequeue_order qs (λ n. omega (arith, distinct n, sum_by-active_queues (named n) qs))
      weights,
  Sorted-Ranked _ (active_queues-Sorted qs),
  λ f. sum_by-sort heavier f (active_queues qs) ∙ sum_by-active_queues f qs,
)
