-- ===== src/Queue/Order.antt =====
-- What the polling order of queue.go promises, and what is left of it behind `dedupe`.
use goqueue.Base.{
  if◌then◌else◌, replicate, count_if, All, count_if-append, Text, text_eq, text_eq_refl,
  text_lt-asymm, text_lt-chain, sort_by, Sorted, sum_by, sum_by-sort, All-sort, sort-Sorted, ℕ,
  zero, suc, ◌≤◌, ◌<◌, ◌≡◌, refl, ap, ◌∙◌, true, false, ◌&&◌, not, Option, none, some, List, [],
  ◌∷◌, ◌++◌, map, arith,
}
use goqueue.Queue.{
  Queue, active_queues, heavier, expand, build_dequeue_order, contains, dedupe_from, dedupe,
}

-- The weight that a queue gives to a name in a polling order.
abbrev pub share : Text → Option Queue → ℕ
share n none = 0
share n (some q) = if not q.paused && text_eq q.name n then q.weight else 0

abbrev share_active : Text → Queue → ℕ
share_active n q = if text_eq q.name n then q.weight else 0

abbrev pub appearances : Text → List Text → ℕ
appearances n = count_if (λ m. text_eq m n)

appearances-replicate :
    (n m : Text) (k : ℕ) → appearances n (replicate k m) ≡ (if text_eq m n then k else 0)
appearances-replicate n m zero = ground arith
appearances-replicate n m (suc k) = ground (arith, appearances-replicate n m k)

appearances-expand :
    (n : Text) (qs : List Queue) → appearances n (expand qs) ≡ sum_by (share_active n) qs
unfolding expand
appearances-expand n [] = refl
appearances-expand n (q ∷ qs) = ground (
  arith,
  count_if-append (λ m. text_eq m n) (replicate q.weight q.name) (expand qs),
  appearances-replicate n q.name q.weight,
  appearances-expand n qs,
)

share-active_queues :
    (n : Text) (qs : List (Option Queue))
    → sum_by (share_active n) (active_queues qs) ≡ sum_by (share n) qs
unfolding active_queues
share-active_queues n [] = refl
share-active_queues n (none ∷ qs) = ground (arith, share-active_queues n qs)
share-active_queues n (some q ∷ qs) = ground (arith, share-active_queues n qs)

-- A name stands in the polling order as often as the weights of the unpaused queues of that name add
-- up to; nil and paused queues give nothing.
pub appearances-build_dequeue_order :
    (n : Text) (qs : List (Option Queue))
    → appearances n (build_dequeue_order qs) ≡ sum_by (share n) qs
unfolding build_dequeue_order
appearances-build_dequeue_order n qs =
    appearances-expand n (sort_by heavier (active_queues qs))
    ∙ sum_by-sort heavier (share_active n) (active_queues qs)
    ∙ share-active_queues n qs

heavier-asymm : (a b : Queue) → heavier a b ≡ true → heavier b a ≡ false
unfolding heavier
heavier-asymm a b h = ground (arith, text_lt-asymm a.name b.name)

heavier-chain : (a b c : Queue) → heavier b a ≡ false → heavier c b ≡ false → heavier c a ≡ false
unfolding heavier
heavier-chain a b c h k = ground (arith, text_lt-chain a.name b.name c.name)

-- The unpaused queues in the order in which they are polled: none stands before a heavier one, nor
-- before one of its own weight with a smaller name.
pub active_queues-Sorted :
    (qs : List (Option Queue)) → Sorted heavier (sort_by heavier (active_queues qs))
active_queues-Sorted qs = sort-Sorted heavier heavier-asymm heavier-chain (active_queues qs)

dedupe_from-seen :
    (seen : List Text) (q : Text) (k : ℕ) (rest : List Text)
    → contains seen q ≡ true
    → dedupe_from seen (replicate k q ++ rest) ≡ dedupe_from seen rest
unfolding dedupe_from
dedupe_from-seen seen q zero rest h = refl
dedupe_from-seen seen q (suc k) rest h = ground (arith, dedupe_from-seen seen q k rest)

dedupe_from-new :
    (seen : List Text) (q : Text) (k : ℕ) (rest : List Text)
    → contains seen q ≡ false
    → 0 < k
    → dedupe_from seen (replicate k q ++ rest) ≡ q ∷ dedupe_from (q ∷ seen) rest
unfolding dedupe_from contains
dedupe_from-new seen q zero rest h pos_k = absurd (omega arith)
dedupe_from-new seen q (suc k) rest h pos_k =
    ground (arith, dedupe_from-seen (q ∷ seen) q k rest, text_eq_refl q)

abbrev pub named : Text → Queue → ℕ
named n q = if text_eq q.name n then 1 else 0

-- `seen` has none of the names, and each name is there once.
record IsFresh (seen : List Text) (qs : List Queue) : Type 0 where
  unseen : (n : Text) → contains seen n ≡ true → sum_by (named n) qs ≡ 0
  once : (n : Text) → sum_by (named n) qs ≤ 1

IsFresh-tail :
    (seen : List Text) (q : Queue) (qs : List Queue)
    → IsFresh seen (q ∷ qs)
    → IsFresh (q.name ∷ seen) qs
unfolding contains
IsFresh-tail seen q qs f = record {
  unseen = λ n h. ground (arith, f.unseen n, f.once n);
  once = λ n. ground (arith, f.once n);
}

IsFresh-head :
    (seen : List Text) (q : Queue) (qs : List Queue)
    → IsFresh seen (q ∷ qs)
    → contains seen q.name ≡ false
IsFresh-head seen q qs f = ground (arith, f.unseen q.name, text_eq_refl q.name)

dedupe_from-expand :
    (seen : List Text) (qs : List Queue)
    → IsFresh seen qs
    → All (λ q. 0 < q.weight) qs
    → dedupe_from seen (expand qs) ≡ map (λ q. q.name) qs
unfolding expand
dedupe_from-expand seen [] f w = unfold dedupe_from in refl
dedupe_from-expand seen (q ∷ qs) f w =
    dedupe_from-new seen q.name q.weight (expand qs) (IsFresh-head seen q qs f) w.0
    ∙ ap (λ t. q.name ∷ t) (dedupe_from-expand (q.name ∷ seen) qs (IsFresh-tail seen q qs f) w.1)

-- With distinct names and weights of at least 1, what `dedupe` leaves of the polling order is each
-- unpaused queue once, the heaviest first. The weights order the queues and do nothing else.
pub dedupe-build_dequeue_order :
    (qs : List (Option Queue))
    → ((n : Text) → sum_by (named n) (active_queues qs) ≤ 1)
    → All (λ q. 0 < q.weight) (active_queues qs)
    → dedupe (build_dequeue_order qs) ≡ map (λ q. q.name) (sort_by heavier (active_queues qs))
unfolding dedupe build_dequeue_order
dedupe-build_dequeue_order qs once weighty =
    dedupe_from-expand [] (sort_by heavier (active_queues qs)) fresh
      (All-sort heavier (λ q. 0 < q.weight) (active_queues qs) weighty)
  where
    fresh : IsFresh [] (sort_by heavier (active_queues qs))
    fresh = record {
      unseen = λ n h. unfold contains in cc;
      once = λ n. omega (arith, sum_by-sort heavier (named n) (active_queues qs), once n);
    }
