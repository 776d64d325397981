-- ===== src/Redis/Queues/Meta.antt =====
-- What the queue repository and the claims keep.
use goqueue.Base.{
  ℤ, u8, Text, bytes, is_empty, text_eq, text_eq_refl, ℕ, ◌≤◌, ◌≡◌, refl, ap, ◌∙◌, Bool, true,
  false, Option, none, some, [], arith,
}
use goqueue.Errors.{ok}
use goqueue.Values.Names.{new_job_id}
use goqueue.Queue.{Queue}
use goqueue.Redis.{KeyBuilder, queue_registry, queue_meta, idempotency_entry}
use goqueue.Redis.Commands.{find_field, or_else, Commands, Documented}
use goqueue.Redis.Documents.{Encoding, field_of, parse_uint_or}
use goqueue.Redis.Documents.RoundTrip.{Faithful}
use goqueue.Redis.Broker.{answered, run_script}
use goqueue.Redis.Repo.{read_reply}
use goqueue.Redis.Queues.{
  bool_to_flag, register_commands, repo_register, weight_or_default, meta_queue, load_meta,
  repo_find_by_name, holder, claim_reply, repo_claim,
}
use goqueue.Values.Weights.{default_weight, new_weight}

module _ {R : Type 0} (C : Commands R) (law : Documented C) (K : KeyBuilder) (E : Encoding) where
  -- Two claims of one key by two jobs, no claim being there before: the first succeeds, and the second is
  -- refused with the id of the first.
  pub second_claim_refused :
      (key first second : Text) (ttl : ℤ) (r : R)
      → is_empty key ≡ false
      → new_job_id first ≡ ok first
      → C.get (idempotency_entry K key) r ≡ none
      → ((repo_claim C E K answered answered key first ttl r).0
          ≡ ok (record { claimed = true; existing_id = [] }))
        × ((repo_claim C E K answered answered key second ttl
              (repo_claim C E K answered answered key first ttl r).1).0
            ≡ ok (record { claimed = false; existing_id = first }))
  unfolding repo_claim claim_reply run_script read_reply
  second_claim_refused key first second ttl r full valid free =
      let (won, kept) = law.setnx_free (idempotency_entry K key) first ttl r free in
      let (lost, same) =
        law.setnx_taken (idempotency_entry K key) second first ttl
          (C.setnx (idempotency_entry K key) first ttl r).1 kept in
      (
        rw (full, repo_claim, run_script, won, claim_reply) refl,
        rw (full, repo_claim, run_script, lost, same, claim_reply, read_reply, kept, holder, valid)
            refl,
      )

  -- The paused flag of a queue that is registered: the one that is stored, and only where none is, that of
  -- the configuration.
  abbrev pub paused_after : Queue → Option Text → Bool
  paused_after q none = q.paused
  paused_after q (some flag) = text_eq flag (bytes "1")

  registered_member :
      (q : Queue) (r : R)
      → C.sismember (queue_registry K) q.name (register_commands C E K q r) ≡ true
  unfolding register_commands
  registered_member q r =
      law.sismember_hsetnx (queue_meta K q.name) (bytes "paused") (bool_to_flag q.paused)
        (queue_registry K) q.name _
      ∙ law.sismember_hset (queue_meta K q.name) (queue_registry K) q.name _ _
      ∙ law.sismember_sadd (queue_registry K) q.name r

  stored_weight :
      (q : Queue) (r : R)
      → find_field (bytes "weight") (C.hgetall (queue_meta K q.name) (register_commands C E K q r))
        ≡ some (E.format_uint q.weight)
  unfolding register_commands find_field text_eq bytes
  stored_weight q r =
      law.hgetall_hget (queue_meta K q.name) (bytes "weight") _
      ∙ law.hget_hsetnx (queue_meta K q.name) (bytes "paused") (queue_meta K q.name)
          (bytes "weight") _ _
      ∙ rw (text_eq_refl (queue_meta K q.name)) (
          law.hget_hset (queue_meta K q.name) (queue_meta K q.name) (bytes "weight") _ _
          ∙ rw (text_eq_refl (queue_meta K q.name)) refl)

  stored_flag :
      (q : Queue) (r : R)
      → find_field (bytes "paused") (C.hgetall (queue_meta K q.name) (register_commands C E K q r))
        ≡ or_else (C.hget (queue_meta K q.name) (bytes "paused") r) (some (bool_to_flag q.paused))
  unfolding register_commands find_field text_eq bytes
  stored_flag q r =
      law.hgetall_hget (queue_meta K q.name) (bytes "paused") _
      ∙ law.hget_hsetnx (queue_meta K q.name) (bytes "paused") (queue_meta K q.name)
          (bytes "paused") _ _
      ∙ rw (text_eq_refl (queue_meta K q.name)) (
          ap (λ o. or_else o (some (bool_to_flag q.paused)))
            (law.hget_hset (queue_meta K q.name) (queue_meta K q.name) (bytes "paused") _ _
              ∙ rw (text_eq_refl (queue_meta K q.name)) (
                  law.hget_sadd (queue_registry K) q.name (queue_meta K q.name) (bytes "paused")
                    r)))

  flag_lem : (b : Bool) → text_eq (bool_to_flag b) (bytes "1") ≡ b
  unfolding bool_to_flag text_eq bytes
  flag_lem true = refl
  flag_lem false = refl

  weight_lem :
      (faithful : Faithful E) (weight : ℕ)
      → (1 ≤ weight) × (weight ≤ 100)
      → weight_or_default C E K
          (new_weight (u8 (parse_uint_or E (E.format_uint weight) default_weight)))
        ≡ weight
  unfolding parse_uint_or new_weight
  weight_lem faithful weight (low, high) =
      let (parsed, full) = faithful.parse_format_uint weight (omega (arith, high)) in
      rw (full, parsed) (ground (arith, low, high))

  -- The queue of the stored fields, `o` being the flag that was there before.
  queue_lem :
      (faithful : Faithful E) (q : Queue) (o : Option Text)
      → (1 ≤ q.weight) × (q.weight ≤ 100)
      → ok (record q {
        weight =
            weight_or_default C E K
              (new_weight (u8 (parse_uint_or E (E.format_uint q.weight) default_weight)));
        paused =
            text_eq
              (elim (or_else o (some (bool_to_flag q.paused))) [ none ↦ [] | some v ↦ v ])
              (bytes "1");
      })
        ≡ ok (record q { paused = paused_after q o })
  queue_lem faithful q none bounds = cc (weight_lem faithful q.weight bounds, flag_lem q.paused)
  queue_lem faithful q (some flag) bounds = cc (weight_lem faithful q.weight bounds)

  -- A queue that Register stored is found with its new weight, and with the pause that an operator had set
  -- before: registering again does not resume it.
  pub registered_keeps_pause :
      (faithful : Faithful E) (q : Queue) (r : R)
      → (1 ≤ q.weight) × (q.weight ≤ 100)
      → ((repo_register C E K answered q r).0 ≡ ok tt)
        × (repo_find_by_name C E K answered answered q.name (repo_register C E K answered q r).1
            ≡ ok (record {
              name = q.name;
              weight = q.weight;
              paused = paused_after q (C.hget (queue_meta K q.name) (bytes "paused") r);
            }))
  unfolding repo_register repo_find_by_name register_commands load_meta run_script read_reply
  registered_keeps_pause faithful q r (low, high) = (
    refl,
    rw (registered_member q r, stored_weight q r, stored_flag q r, meta_queue, field_of)
        (queue_lem faithful q (C.hget (queue_meta K q.name) (bytes "paused") r) (low, high)),
  )
