-- ===== src/Worker/Starting.antt =====
-- What `Start` sets up.
use goqueue.Base.{
  if◌then◌else◌, Bool-cases, replicate, pos_part, Text, text_eq, sum_by, ℕ, ◌≡◌, refl, sym, ap, ◌∙◌,
  ◌≢◌, ◌⊎◌, inl, inr, true, false, Option, some, List, [], ◌∷◌, ◌++◌, arith,
}
use goqueue.Errors.{Result, ok, err, Result-cases, err≢ok}
use goqueue.Values.Names.{new_queue_name}
use goqueue.Values.Weights.{new_weight, new_weight-bounds}
use goqueue.Queue.{Queue, new_queue, build_dequeue_order}
use goqueue.Queue.Order.{share, appearances, appearances-build_dequeue_order}
use goqueue.Worker.{
  PoolConfig, Pool, launched, configured_queue, register_each, register_queues, start_pool,
}

-- The weight that one entry of the configuration gives to a queue.
abbrev weight_for : Text → ℕ → Text → ℕ
weight_for n weight name = if text_eq name n then weight else 0

abbrev pub configured_share : Text → Text × ℕ → ℕ
configured_share n (raw_name, raw_weight) = elim (new_queue_name raw_name) [
  | err e ↦ 0
  | ok name ↦ elim (new_weight raw_weight) [ err e ↦ 0 | ok weight ↦ weight_for n weight name ]
]

configured_queue-share :
    (n : Text) (entry : Text × ℕ) {q : Queue}
    → configured_queue entry ≡ ok q
    → share n (some q) ≡ configured_share n entry
unfolding configured_queue new_queue
configured_queue-share n (raw_name, raw_weight) h = elim (Result-cases (new_queue_name raw_name)) [
  | inr (e, f) ↦ absurd (ground (arith, f, h))
  | inl (name, f) ↦ elim (Result-cases (new_weight raw_weight)) [
    | inr (e, g) ↦ absurd (ground (arith, f, g, h))
    | inl (weight, g) ↦ ground (arith, f, g, h, new_weight-bounds raw_weight g)
  ]
]

List-cases : (l : List Text) → (l ≡ []) ⊎ ((q : Text) × (rest : List Text) × (l ≡ q ∷ rest))
List-cases [] = inl refl
List-cases (q ∷ rest) = inr (q, rest, refl)

sum_lem :
    (n : Text) (queue : Queue) (entry : Text × ℕ) (rest : List (Option Queue))
    → (entries : List (Text × ℕ)) → share n (some queue) ≡ configured_share n entry
    → sum_by (share n) rest ≡ sum_by (configured_share n) entries
    → sum_by (share n) (some queue ∷ rest) ≡ sum_by (configured_share n) (entry ∷ entries)
sum_lem n queue entry rest entries a b = cc (a, b)

module _ {S : Type 0} (register_queue : Queue → S → Result (Unit {0}) × S) where
  register_each-shares :
      (n : Text) (entries : List (Text × ℕ)) (s : S) {qs : List (Option Queue)}
      → (register_each register_queue entries s).0 ≡ ok qs
      → sum_by (share n) qs ≡ sum_by (configured_share n) entries
  unfolding register_each
  register_each-shares n [] s h = ap (λ r. elim r [ err e ↦ 0 | ok l ↦ sum_by (share n) l ]) (sym h)
  register_each-shares n (entry ∷ entries) s {qs} h = elim (Result-cases (configured_queue entry)) [
    | inr (e, f) ↦ absurd (ground (arith, f, h))
    | inl (queue, f) ↦ elim (Result-cases (register_queue queue s).0) [
      | inr (e, g) ↦ absurd (ground (arith, f, g, h))
      | inl (u, g) ↦
          elim (Result-cases (register_each register_queue entries (register_queue queue s).1).0) [
            | inr (e, k) ↦ absurd (ground (arith, f, g, k, h))
            | inl (rest, k) ↦
                let made : ok (some queue ∷ rest) ≡ ok qs =
                  sym (rw (f, g, k, register_each) refl) ∙ h in
                ap (λ r. elim r [ err e ↦ 0 | ok l ↦ sum_by (share n) l ]) (sym made)
                ∙ sum_lem n queue entry rest entries (configured_queue-share n entry f)
                    (register_each-shares n entries (register_queue queue s).1 k)
          ]
    ]
  ]

  started_lem :
      {J : Type 0} (c : PoolConfig) (p : Pool J) (s : S) (n : Text)
      → p.started ≡ false
      → (start_pool register_queue c p s).0 ≡ ok tt
      → ((start_pool register_queue c p s).1.0.started ≡ true)
        × ((start_pool register_queue c p s).1.0.workers
            ≡ p.workers ++ replicate (pos_part c.concurrency) (launched J))
        × ((start_pool register_queue c p s).1.0.active_jobs ≡ p.active_jobs)
        × (appearances n (start_pool register_queue c p s).1.0.dequeue_order
            ≡ sum_by (configured_share n) c.queues)
        × ((start_pool register_queue c p s).1.0.dequeue_order ≢ [])
  unfolding start_pool register_queues
  started_lem c p s n e h = elim (Result-cases (register_each register_queue c.queues s).0) [
    | inr (f, k) ↦ absurd (err≢ok (rw (e, k, start_pool, register_queues) at h))
    | inl (qs, k) ↦ elim (List-cases (build_dequeue_order qs)) [
      | inl d ↦ absurd (err≢ok (rw (e, k, d, start_pool, register_queues) at h))
      | inr (q, rest, d) ↦
          rw (e, k, d, start_pool, register_queues)
            (
              refl,
              refl,
              refl,
              ap (appearances n) (sym d)
                  ∙ appearances-build_dequeue_order n qs
                  ∙ register_each-shares n c.queues s k,
              λ z. cc z,
            )
    ]
  ]

  -- Start of a pool that runs already is refused and changes nothing. Start that succeeds adds as many
  -- workers as the configuration says, each before its first check and under a context that is not
  -- cancelled, to those that are there, which it leaves as they were with the count of active jobs; each
  -- queue stands in the polling order as often as the weights that the configuration gives it add up to,
  -- and the order is not empty.
  pub start_pool_lem :
      {J : Type 0} (c : PoolConfig) (p : Pool J) (s : S) (n : Text)
      → (p.started ≡ true → (start_pool register_queue c p s).1 ≡ (p, s))
        × ((start_pool register_queue c p s).0 ≡ ok tt
            → (p.started ≡ false)
              × ((start_pool register_queue c p s).1.0.started ≡ true)
              × ((start_pool register_queue c p s).1.0.workers
                  ≡ p.workers ++ replicate (pos_part c.concurrency) (launched J))
              × ((start_pool register_queue c p s).1.0.active_jobs ≡ p.active_jobs)
              × (appearances n (start_pool register_queue c p s).1.0.dequeue_order
                  ≡ sum_by (configured_share n) c.queues)
              × ((start_pool register_queue c p s).1.0.dequeue_order ≢ []))
  unfolding start_pool register_queues
  start_pool_lem c p s n = (
    λ h. rw h refl,
    λ h. elim (Bool-cases p.started) [
      | inl e ↦ absurd (err≢ok (rw (e, start_pool) at h))
      | inr e ↦ let (a, b, m, d, f) = started_lem c p s n e h in (e, a, b, m, d, f)
    ],
  )
