-- ===== src/Store/Ranks.antt =====
-- What the weights of the queues do to a worker.
use goqueue.Base.{All, Text, sum_by, ℕ, ◌≤◌, ◌<◌, ◌≡◌, sym, ap, ◌∙◌, Option, List, map}
use goqueue.Queue.{Queue, active_queues, build_dequeue_order}
use goqueue.Queue.Order.{named}
use goqueue.Queue.Ranking.{Ranked, counted, dedupe-Ranked}
use goqueue.Store.Defs.{Store}
use goqueue.Store.Broker.{choose}
use goqueue.Store.Fairness.{choose-dedupe}

-- Weights are strict priorities: for queues with distinct names and weights of at least 1, a worker
-- that polls in the weighted order settles on the job that it would get by asking each unpaused queue
-- once, ranked by weight and then by name.
pub choose-Ranked :
    (qs : List (Option Queue)) (s : Store)
    → ((n : Text) → sum_by (counted (named n)) qs ≤ 1)
    → All (λ q. 0 < q.weight) (active_queues qs)
    → (ranked : List Queue) × (choose (build_dequeue_order qs) s
        ≡ choose (map (λ q. q.name) ranked) s)
      × Ranked ranked
      × ((f : Queue → ℕ) → sum_by f ranked ≡ sum_by (counted f) qs)
choose-Ranked qs s distinct weights =
    let (ranked, same, r, count) = dedupe-Ranked qs distinct weights in
    (
      ranked,
      sym (choose-dedupe (build_dequeue_order qs) s) ∙ ap (λ order. choose order s) same,
      r,
      count,
    )
