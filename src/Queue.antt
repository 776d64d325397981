-- ===== src/Queue.antt =====
-- pkg/domain/queue_aggregate/queue.go: a named queue, its depth snapshot, and the polling order of a
-- worker pool. Pointers to queues that may be nil are options.
pub mod Order
pub mod Ranking
use goqueue.Base.{
  ltb, ◌==◌, if◌then◌else◌, replicate, Text, text_eq, text_lt, sort_by, ℕ, ◌+◌, Bool, true, false,
  ◌||◌, Option, none, some, List, [], ◌∷◌, ◌++◌,
}
use goqueue.Values.Weights.{default_weight}

pub record Queue : Type 0 where
  pub name : Text
  pub weight : ℕ
  pub paused : Bool

unfoldable pub new_queue : Text → ℕ → Queue
new_queue name weight = record {
  name = name;
  weight = if weight == 0 then default_weight else weight;
  paused = false;
}

unfoldable pub pause : Queue → Queue
pause q = record q { paused = true }

unfoldable pub resume : Queue → Queue
resume q = record q { paused = false }

pub record Stats : Type 0 where
  pub queue : Text
  pub is_paused : Bool
  pub weight : ℕ
  pub pending : ℕ
  pub active : ℕ
  pub scheduled : ℕ
  pub retrying : ℕ
  pub completed : ℕ
  pub dead : ℕ

unfoldable pub total : Stats → ℕ
total s = s.pending + s.active + s.scheduled + s.retrying + s.completed + s.dead

unfoldable pub backlog : Stats → ℕ
backlog s = s.pending + s.active + s.scheduled + s.retrying

unfoldable pub sort_stats_by_name : List Stats → List Stats
sort_stats_by_name = sort_by (λ a b. text_lt a.queue b.queue)

-- The queues that are there and not paused.
unfoldable pub active_queues : List (Option Queue) → List Queue
active_queues [] = []
active_queues (none ∷ qs) = active_queues qs
active_queues (some q ∷ qs) = let rest = active_queues qs in if q.paused then rest else q ∷ rest

-- The comparison that `BuildDequeueOrder` sorts by.
unfoldable pub heavier : Queue → Queue → Bool
heavier a b = if a.weight == b.weight then text_lt a.name b.name else ltb b.weight a.weight

-- Each queue as often as its weight.
unfoldable pub expand : List Queue → List Text
expand [] = []
expand (q ∷ qs) = replicate q.weight q.name ++ expand qs

unfoldable pub build_dequeue_order : List (Option Queue) → List Text
build_dequeue_order queues = expand (sort_by heavier (active_queues queues))

unfoldable pub contains : List Text → Text → Bool
contains [] q = false
contains (p ∷ ps) q = text_eq p q || contains ps q

-- `dedupe` of the worker pool and `dedupeQueues` of the Redis broker: the first appearances, in order.
unfoldable pub dedupe_from : List Text → List Text → List Text
dedupe_from seen [] = []
dedupe_from seen (q ∷ qs) =
    let skip = dedupe_from seen qs in
    let keep = dedupe_from (q ∷ seen) qs in if contains seen q then skip else q ∷ keep

unfoldable pub dedupe : List Text → List Text
dedupe order = dedupe_from [] order
