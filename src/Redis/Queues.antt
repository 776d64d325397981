-- ===== src/Redis/Queues.antt =====
-- queue_repo.go and idempotency_store.go. Register sends one transaction; Stats counts the lifecycle sets
-- in one pipeline. strconv.Itoa of a weight is the rendering of an unsigned number.
pub mod Meta
use goqueue.Base.{
  if◌then◌else◌, ℤ, u8, Text, bytes, is_empty, text_eq, ℕ, Bool, true, false, Option, none, some,
  [], ◌∷◌, ◌++◌,
}
use goqueue.Errors.{not_found_error, Result, ok, err, ◌>>=◌}
use goqueue.Values.Codes.{queue_not_found}
use goqueue.Values.Names.{new_job_id}
use goqueue.Values.Weights.{default_weight, new_weight}
use goqueue.Values.States.{scheduled, pending, active, retrying, completed, dead}
use goqueue.Queue.{Queue, pause, Stats}
use goqueue.Redis.{KeyBuilder, state_set, queue_registry, queue_meta, idempotency_entry}
use goqueue.Redis.Commands.{Fields, Commands}
use goqueue.Redis.Documents.{Encoding, field_of, parse_uint_or}
use goqueue.Redis.Broker.{Link, Answer, run_script, always}
use goqueue.Redis.Repo.{read_reply}
use goqueue.Store.Claims.{ClaimReply, claim, release}

-- `boolToFlag`
unfoldable pub bool_to_flag : Bool → Text
bool_to_flag true = bytes "1"
bool_to_flag false = bytes "0"

module _ {R : Type 0} (C : Commands R) (E : Encoding) (K : KeyBuilder) where
  -- The transaction of `Register`.
  unfoldable pub register_commands : Queue → R → R
  unfolding bool_to_flag
  register_commands q r = C.hsetnx (queue_meta K q.name) (bytes "paused") (bool_to_flag q.paused) (
      C.hset (queue_meta K q.name) ((bytes "weight", E.format_uint q.weight) ∷ [])
        (C.sadd (queue_registry K) q.name r))

  -- `Register`
  unfoldable pub repo_register : Link → Queue → R → Answer R (Unit {0})
  unfolding register_commands
  repo_register link q =
      run_script link (bytes "queue_register_failed") (bytes "failed to register queue")
        (λ d. always (tt {0}, register_commands q d))

  -- A stored weight that is out of range counts as the default.
  abbrev pub weight_or_default : Result ℕ → ℕ
  weight_or_default (err e) = default_weight
  weight_or_default (ok weight) = weight

  abbrev pub meta_queue : Text → Fields → Queue
  meta_queue name meta = record {
    name = name;
    weight =
        weight_or_default
          (new_weight (u8 (parse_uint_or E (field_of meta (bytes "weight")) default_weight)));
    paused = text_eq (field_of meta (bytes "paused")) (bytes "1");
  }

  -- `loadMeta`
  unfoldable pub load_meta : Link → Text → R → Result Queue
  load_meta link name r =
      read_reply link (bytes "queue_read_failed") (bytes "failed to read queue metadata")
        (C.hgetall (queue_meta K name) r)
      >>= λ meta. ok (meta_queue name meta)

  -- `FindByName`
  unfoldable pub repo_find_by_name : Link → Link → Text → R → Result Queue
  unfolding load_meta
  repo_find_by_name link link' name r =
      read_reply link (bytes "queue_read_failed") (bytes "failed to read queue")
        (C.sismember (queue_registry K) name r)
      >>= λ known.
          if known
          then load_meta link' name r
          else err (not_found_error queue_not_found (bytes "no queue named " ++ name))

  -- `SetPaused`
  unfoldable pub repo_set_paused : Link → Text → Bool → R → Answer R (Unit {0})
  unfolding bool_to_flag
  repo_set_paused link name paused =
      run_script link (bytes "queue_pause_failed") (bytes "failed to update queue pause state")
        (λ d.
          always
            (tt {0}, C.hset (queue_meta K name) ((bytes "paused", bool_to_flag paused) ∷ []) d))

  -- `statsFor`
  unfoldable pub stats_of : Link → Queue → R → Result Stats
  stats_of link q r =
      read_reply link (bytes "queue_stats_failed") (bytes "failed to read queue stats") (record {
        queue = q.name;
        is_paused = q.paused;
        weight = q.weight;
        pending = C.zcard (state_set K q.name pending) r;
        active = C.zcard (state_set K q.name active) r;
        scheduled = C.zcard (state_set K q.name scheduled) r;
        retrying = C.zcard (state_set K q.name retrying) r;
        completed = C.zcard (state_set K q.name completed) r;
        dead = C.zcard (state_set K q.name dead) r;
      })

  -- `Stats`
  unfoldable pub repo_stats : Link → Link → Text → R → Result Stats
  unfolding load_meta stats_of
  repo_stats link link' name r = load_meta link name r >>= λ q. stats_of link' q r

  abbrev pub holder : Option Text → Text
  holder none = []
  holder (some existing) = elim (new_job_id existing) [ err e ↦ [] | ok id ↦ id ]

  -- What `Claim` returns after SETNX.
  unfoldable pub claim_reply : Link → Text → Bool → R → Result ClaimReply
  claim_reply link key true r = ok (record { claimed = true; existing_id = [] })
  claim_reply link key false r =
      read_reply link (bytes "idempotency_read_failed") (bytes "failed to read idempotency claim")
        (C.get (idempotency_entry K key) r)
      >>= λ existing. ok (record { claimed = false; existing_id = holder existing })

  -- `Claim`; the id of the holder is empty where the claim has expired meanwhile or holds no valid id.
  unfoldable pub repo_claim : Link → Link → Text → Text → ℤ → R → Answer R ClaimReply
  repo_claim link link' key job_id ttl r =
      if is_empty key
      then (ok (record { claimed = true; existing_id = [] }), r)
      else (let (reply, r') =
            run_script link (bytes "idempotency_claim_failed")
              (bytes "failed to claim idempotency key")
              (λ d. always (C.setnx (idempotency_entry K key) job_id ttl d)) r in
          (reply >>= λ claimed. claim_reply link' key claimed r', r'))

  -- `Release`
  unfoldable pub repo_release : Link → Text → R → Answer R (Unit {0})
  repo_release link key r =
      if is_empty key
      then (ok tt, r)
      else run_script link (bytes "idempotency_release_failed")
          (bytes "failed to release idempotency key")
          (λ d. always (tt {0}, C.del (idempotency_entry K key) d)) r
