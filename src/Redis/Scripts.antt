-- ===== src/Redis/Scripts.antt =====
-- The Lua scripts of pkg/infrastructure/persistence/redis/script. Redis runs a script as one step: a
-- script takes the database and gives its reply and the database after it. A reply `none` is an error
-- that the script raises midway, and what it wrote before stays. Lua's tonumber and the rendering of a
-- number are those of Encoding, on the decimal integers that the program writes.
use goqueue.Base.{
  if◌then◌else◌, ℤ, pos, ◌+ℤ◌, ◌-ℤ◌, ◌*ℤ◌, ltb_ℤ, Text, bytes, text_eq, ℕ, zero, suc, Bool, true,
  false, Option, none, some, List, [], ◌∷◌, ◌++◌,
}
use goqueue.Redis.{priority_band}
use goqueue.Values.Priorities.{max_priority}
use goqueue.Job.Lifecycle.{lease_expired_message}
use goqueue.Redis.Commands.{Fields, or_else, Commands}
use goqueue.Redis.Documents.{Encoding}

-- HGETALL in a script: the pairs one after the other.
unfoldable pub flatten : Fields → List Text
flatten [] = []
flatten ((f, v) ∷ fields) = f ∷ v ∷ flatten fields

-- The three keys of a queue that dequeue.lua gets.
pub record QueueKeys : Type 0 where
  pub pending_key : Text
  pub active_key : Text
  pub meta_key : Text

-- The test of dequeue.lua on the paused field.
abbrev pub is_paused_flag : Option Text → Bool
is_paused_flag none = false
is_paused_flag (some flag) = text_eq flag (bytes "1")

-- The count of a loop, from its first turn and the rest; an error of either ends the script.
abbrev pub count_turn : {R : Type 0} → Option Bool × R → Option ℕ × R → Option ℕ × R
count_turn (none, r) rest = (none, r)
count_turn (some counted, r) (none, r') = (none, r')
count_turn (some counted, r) (some n, r') = (some (if counted then suc n else n), r')

module _ {R : Type 0} (C : Commands R) where
  -- enqueue.lua
  unfoldable pub enqueue_script :
      Text → Text → Text → Text → Text → ℤ → Text → Text → Fields → R → ℕ × R
  enqueue_script job target registry meta id score queue weight fields r =
      if C.exists job r
      then (0, r)
      else (let registered = C.sadd registry queue r in
          let known =
            if C.exists meta registered
            then registered
            else C.hset meta ((bytes "weight", weight) ∷ (bytes "paused", bytes "0") ∷ [])
                registered in
          (1, C.zadd target score id (C.hset job fields known)))

  -- The loop of dequeue.lua over one queue: the first id popped that has a document, orphaned entries
  -- dropped on the way. Each turn removes an entry; `pop_live` is given more turns than there are.
  unfoldable pub pop_live_in : ℕ → Text → Text → R → Option Text × R
  pop_live_in zero pending_key prefix r = (none, r)
  pop_live_in (suc turns) pending_key prefix r =
      let (popped, r') = C.zpopmin pending_key r in
      let later = pop_live_in turns pending_key prefix r' in
      elim popped [
        | none ↦ (none, r')
        | some id ↦ if C.exists (prefix ++ id) r' then (some id, r') else later
      ]

  unfoldable pub pop_live : Text → Text → R → Option Text × R
  unfolding pop_live_in
  pop_live pending_key prefix r = pop_live_in (suc (C.zcard pending_key r)) pending_key prefix r

  module _ (E : Encoding) where
    -- The claim of an id that was popped: the reply is the document before the lease.
    unfoldable pub claim_popped : Text → Text → ℤ → ℤ → Text → Text → R → List Text × R
    claim_popped active_key worker expiry now prefix id r = (
      flatten (C.hgetall (prefix ++ id) r),
      C.hset (prefix ++ id)
          ((bytes "state", bytes "active")
            ∷ (bytes "worker_id", worker)
            ∷ (bytes "lease_expiry_ms", E.format_int expiry)
            ∷ (bytes "leased_at_ms", E.format_int now)
            ∷ [])
          (C.zadd active_key expiry id r),
    )

    -- One turn of the loop over the queues: `o` is what popping gave, and the other two what the later
    -- queues give where this one is paused or drained.
    unfoldable pub dequeue_turn :
        Text
        → Option Text
        → Text
        → ℤ
        → ℤ
        → Text
        → Option Text × R
        → Option (List Text) × R
        → Option (List Text) × R
        → Option (List Text) × R
    unfolding claim_popped
    dequeue_turn active_key flag worker expiry now prefix o skipped drained =
        if is_paused_flag flag then skipped else elim o.0 [
          | none ↦ drained
          | some id ↦
              let (snapshot, r'') = claim_popped active_key worker expiry now prefix id o.1 in
              (some snapshot, r'')
        ]

    -- dequeue.lua; the reply is empty when every queue is.
    unfoldable pub dequeue_script :
        List QueueKeys → Text → ℤ → ℤ → Text → R → Option (List Text) × R
    unfolding pop_live dequeue_turn
    dequeue_script [] worker expiry now prefix r = (none, r)
    dequeue_script (q ∷ qs) worker expiry now prefix r =
        let o = pop_live q.pending_key prefix r in
        dequeue_turn q.active_key (C.hget q.meta_key (bytes "paused") r) worker expiry now prefix o
          (dequeue_script qs worker expiry now prefix r)
          (dequeue_script qs worker expiry now prefix o.1)

    -- transition.lua
    unfoldable pub transition_script : Text → Text → Text → Text → ℤ → ℤ → Fields → R → ℕ × R
    transition_script job from to id score ttl fields r =
        if C.exists job r
        then (let moved = C.hset job fields (C.zadd to score id (C.zrem from id r)) in
            (1, if ltb_ℤ (pos 0) ttl then C.expire job ttl moved else C.persist job moved))
        else (0, C.zrem from id r)

    -- The new pending score of a document, `none` where its priority is no number.
    unfoldable pub ready_score : Text → ℤ → R → Option ℤ
    ready_score job now r = elim (or_else (C.hget job (bytes "priority") r) (some (bytes "5"))) [
      | none ↦ none
      | some raw ↦ elim (E.parse_int raw) [
        | none ↦ none
        | some priority ↦ some ((pos max_priority -ℤ priority) *ℤ pos priority_band +ℤ now)
      ]
    ]

    -- One turn of promote.lua and reclaim.lua, which differ in the last fields that they write: whether
    -- a document was moved, or an error.
    unfoldable pub move_ready : Fields → Text → Text → ℤ → Text → Text → R → Option Bool × R
    move_ready extra from pending_key now prefix id r =
        let job = prefix ++ id in
        let removed = C.zrem from id r in
        if C.exists job removed
        then elim (ready_score job now removed) [
          | none ↦ (none, removed)
          | some score ↦ (
            some true,
            C.hset job
                ((bytes "state", bytes "pending")
                  ∷ (bytes "process_at_ms", E.format_int now)
                  ∷ (bytes "lease_expiry_ms", bytes "0")
                  ∷ (bytes "worker_id", [])
                  ∷ extra)
                (C.zadd pending_key score id removed),
          )
        ]
        else (some false, removed)

    -- The loop of both: how many were moved.
    unfoldable pub move_all : Fields → Text → Text → ℤ → Text → List Text → R → Option ℕ × R
    move_all extra from pending_key now prefix [] r = (some 0, r)
    move_all extra from pending_key now prefix (id ∷ ids) r =
        let (moved, r') = move_ready extra from pending_key now prefix id r in
        let (rest, r'') = move_all extra from pending_key now prefix ids r' in
        count_turn (moved, r') (rest, r'')

    -- promote.lua
    unfoldable pub promote_script : Text → Text → ℤ → ℕ → Text → R → Option ℕ × R
    unfolding move_all
    promote_script source pending_key now limit prefix r =
        move_all [] source pending_key now prefix (C.zrangebyscore source now limit r) r

    -- reclaim.lua
    unfoldable pub reclaim_script : Text → Text → ℤ → ℕ → Text → R → Option ℕ × R
    unfolding move_all
    reclaim_script active_key pending_key now limit prefix r =
        move_all ((bytes "last_error", lease_expired_message) ∷ []) active_key pending_key now
          prefix (C.zrangebyscore active_key now limit r) r

    -- extend_lease.lua
    unfoldable pub extend_lease_script : Text → Text → Text → ℤ → R → ℕ × R
    extend_lease_script active_key job id expiry r = elim (C.zscore active_key id r) [
      | none ↦ (0, r)
      | some score ↦ (
        1,
        C.hset job ((bytes "lease_expiry_ms", E.format_int expiry) ∷ [])
            (C.zadd active_key expiry id r),
      )
    ]

  -- purge_completed.lua
  unfoldable pub drop_all : Text → Text → List Text → R → ℕ × R
  drop_all completed_key prefix [] r = (0, r)
  drop_all completed_key prefix (id ∷ ids) r =
      let (n, r') =
        drop_all completed_key prefix ids (C.del (prefix ++ id) (C.zrem completed_key id r)) in
      (suc n, r')

  unfoldable pub purge_script : Text → ℤ → ℕ → Text → R → ℕ × R
  unfolding drop_all
  purge_script completed_key now limit prefix r =
      drop_all completed_key prefix (C.zrangebyscore completed_key now limit r) r
