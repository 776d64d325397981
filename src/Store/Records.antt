-- ===== src/Store/Records.antt =====
-- What is read back after a write: saved jobs, deleted jobs, pause flags and idempotency claims.
use mathlib.Core.Path.{subst}
use goqueue.Store.Broker.{is_paused_queue}
use goqueue.Base.{
  if◌then◌else◌, Bool-cases, All, Text, is_empty, text_eq, text_eq_refl, text_eq-eq, ◌≡◌, refl, inl,
  inr, true, false, ◌&&◌, not, none, some, List, [], ◌∷◌, arith,
}
use goqueue.Errors.{GoError, ok, err}
use goqueue.Job.{Job}
use goqueue.Queue.{Queue}
use goqueue.Store.Defs.{
  Store, lookup_job, delete_job, lookup_queue, put_queue, lookup_claim, delete_claim,
}
use goqueue.Store.Maps.{lookup-put, Unique}
use goqueue.Store.Repo.{save, find_by_id, delete}
use goqueue.Store.Queues.{register, find_by_name}
use goqueue.Store.Claims.{claim, release}

-- Without an injected failure a saved job is found under its id, and every other id is found as before.
pub find_by_id-save :
    (job : Job) (id : Text) (s : Store)
    → s.fail_next ≡ none
    → ((save job s).0 ≡ ok tt)
      × (find_by_id id (save job s).1 ≡ (if text_eq job.id id then ok job else find_by_id id s))
unfolding save find_by_id
find_by_id-save job id s quiet = (rw quiet, ground (arith, quiet, lookup-put job id s.jobs))

-- A save that meets an injected failure returns it, consumes it, and changes nothing else.
pub save_failing :
    (job : Job) (s : Store) {e : GoError}
    → s.fail_next ≡ some e
    → save job s ≡ (err e, record s { fail_next = none })
unfolding save
save_failing job s f = rw f

lookup-absent :
    (id : Text) (js : List Job) → All (λ k. text_eq id k.id ≡ false) js → lookup_job id js ≡ none
unfolding lookup_job
lookup-absent id [] a = refl
lookup-absent id (j ∷ js) a =
    ground (arith, lookup-absent id js a.1, text_eq-eq j.id id, text_eq_refl id)

lookup-delete : (id : Text) (js : List Job) → Unique js → lookup_job id (delete_job id js) ≡ none
unfolding lookup_job delete_job
lookup-delete id [] u = refl
lookup-delete id (j ∷ js) u = elim (Bool-cases (text_eq j.id id)) [
  | inl e ↦ rw e (
      lookup-absent id js
        (subst (λ i. All (λ k. text_eq i k.id ≡ false) js) (text_eq-eq j.id id e) u.0))
  | inr e ↦ rw (e, e) (lookup-delete id js u.1)
]

lookup-delete_other :
    (id other : Text) (js : List Job)
    → text_eq id other ≡ false
    → lookup_job other (delete_job id js) ≡ lookup_job other js
unfolding lookup_job delete_job
lookup-delete_other id other [] ne = refl
lookup-delete_other id other (j ∷ js) ne = elim (Bool-cases (text_eq j.id id)) [
  | inl e ↦ rw e (ground (arith, text_eq-eq j.id id e))
  | inr e ↦ rw e (ground (arith, lookup-delete_other id other js ne))
]

lookup-delete_claim :
    (key : Text) (cs : List (Text × Text)) → lookup_claim key (delete_claim key cs) ≡ none
unfolding lookup_claim delete_claim
lookup-delete_claim key [] = refl
lookup-delete_claim key ((k, id) ∷ cs) = ground (arith, lookup-delete_claim key cs)

lookup-delete_claim_other :
    (key other : Text) (cs : List (Text × Text))
    → text_eq key other ≡ false
    → lookup_claim other (delete_claim key cs) ≡ lookup_claim other cs
unfolding lookup_claim delete_claim
lookup-delete_claim_other key other [] ne = refl
lookup-delete_claim_other key other ((k, id) ∷ cs) ne = elim (Bool-cases (text_eq k key)) [
  | inl e ↦ rw e (ground (arith, lookup-delete_claim_other key other cs ne, text_eq-eq k key e))
  | inr e ↦ rw e (ground (arith, lookup-delete_claim_other key other cs ne))
]

-- A delete of a stored job succeeds, whether it has an idempotency key or not: afterwards its id is not
-- found, and every other id is found as before; its idempotency key, where it has one, is free, and every
-- other key is held as before; the queues stay as they were.
pub delete_lem :
    (j : Job) (other key : Text) (s : Store)
    → Unique s.jobs
    → find_by_id j.id s ≡ ok j
    → text_eq j.id other ≡ false
    → ((delete j.id s).0 ≡ ok tt)
      × (lookup_job j.id (delete j.id s).1.jobs ≡ none)
      × (find_by_id other (delete j.id s).1 ≡ find_by_id other s)
      × (lookup_claim key (delete j.id s).1.claims ≡ (
          if not (is_empty j.idempotency_key) && text_eq j.idempotency_key key
          then none
          else lookup_claim key s.claims))
      × ((delete j.id s).1.queues ≡ s.queues)
unfolding delete find_by_id
delete_lem j other key s u found ne = ground (
  arith,
  lookup-delete j.id s.jobs u,
  lookup-delete_other j.id other s.jobs ne,
  lookup-delete_claim j.idempotency_key s.claims,
  lookup-delete_claim_other j.idempotency_key key s.claims,
  text_eq-eq j.idempotency_key key,
)

lookup-put_queue :
    (r : Queue) (name : Text) (qs : List Queue)
    → lookup_queue name (put_queue r qs)
      ≡ (if text_eq r.name name then some r else lookup_queue name qs)
unfolding lookup_queue put_queue
lookup-put_queue r name [] = refl
lookup-put_queue r name (q ∷ qs) = elim (Bool-cases (text_eq q.name r.name)) [
  | inl e ↦ rw e (ground (arith, text_eq-eq q.name r.name e))
  | inr e ↦ rw e (
      ground (
        arith,
        lookup-put_queue r name qs,
        text_eq-eq q.name name,
        text_eq-eq r.name name,
        text_eq_refl name,
      ))
]

-- The queue that Register stores.
abbrev pub registered : Queue → Store → Queue
registered queue s = record {
  name = queue.name;
  weight = queue.weight;
  paused = is_paused_queue queue.name s.queues;
}

-- A queue that an operator paused stays paused when a worker registers it again, and takes the weight
-- that is registered; other queues are found as before.
pub register_keeps_pause :
    (queue : Queue) (name : Text) (s : Store)
    → find_by_name name (register queue s)
      ≡ (if text_eq queue.name name then ok (registered queue s) else find_by_name name s)
unfolding find_by_name register
register_keeps_pause queue name s =
    ground (arith, lookup-put_queue (registered queue s) name s.queues)

-- A key is held by the first job that claims it: a second claim is refused with the id of the holder
-- and changes nothing, until the key is released, after which the next claim succeeds.
pub claim_exclusive :
    (key first second : Text) (s : Store)
    → is_empty key ≡ false
    → ((claim key second (claim key first s).1).0 ≡ record {
      claimed = false;
      existing_id =
          if (claim key first s).0.claimed then first else (claim key first s).0.existing_id;
    })
      × ((claim key second (claim key first s).1).1 ≡ (claim key first s).1)
      × ((claim key second (release key (claim key first s).1)).0.claimed ≡ true)
unfolding claim release lookup_claim
claim_exclusive key first second s keyed = ground (
  arith,
  text_eq_refl key,
  lookup-delete_claim key s.claims,
  lookup-delete_claim key ((key, first) ∷ s.claims),
)
