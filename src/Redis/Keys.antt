-- ===== src/Redis/Keys.antt =====
-- keys.go: no two things are kept under one key.
use mathlib.Core.Path.{subst}
use mathlib.Core.List.{
  append-nil, append_assoc, append_cancel_left, append_cancel_right, reverse-append,
}
use goqueue.Base.{
  if◌then◌else◌, take, Text, bytes, text_eq, ◌≡◌, refl, sym, ap, ◌∙◌, ◌≢◌, [], ◌++◌, reverse,
}
use goqueue.Values.States.{JobState, scheduled, pending, active, retrying, completed, dead}
use goqueue.Redis.{KeyBuilder, job_key, state_set, queue_registry, queue_meta, idempotency_entry}

-- What a key is the key of.
pub data KeyName : Type 0 where
  document : Text → KeyName
  lifecycle_set : Text → JobState → KeyName
  registry : KeyName
  meta : Text → KeyName
  claim_of : Text → KeyName

unfoldable pub key_of : KeyBuilder → KeyName → Text
key_of k (document id) = job_key k id
key_of k (lifecycle_set queue state) = state_set k queue state
key_of k registry = queue_registry k
key_of k (meta queue) = queue_meta k queue
key_of k (claim_of key) = idempotency_entry k key

-- The last part of the key of a queue's set.
unfoldable suffix : JobState → Text
suffix pending = bytes ":pending"
suffix active = bytes ":active"
suffix scheduled = bytes ":scheduled"
suffix retrying = bytes ":retrying"
suffix completed = bytes ":completed"
suffix dead = bytes ":dead"

unfoldable key_tail : KeyName → Text
unfolding suffix
key_tail (document id) = bytes ":job:" ++ id
key_tail (lifecycle_set queue state) = bytes ":queue:" ++ (queue ++ suffix state)
key_tail registry = bytes ":queues"
key_tail (meta queue) = bytes ":queue:" ++ (queue ++ bytes ":meta")
key_tail (claim_of key) = bytes ":idempotency:" ++ key

key_of-key_tail : (k : KeyBuilder) (n : KeyName) → key_of k n ≡ k.namespace ++ key_tail n
unfolding key_of key_tail suffix job_key state_set queue_registry queue_meta idempotency_entry
key_of-key_tail k (document id) = simp append_assoc refl
key_of-key_tail k (lifecycle_set queue pending) = simp append_assoc refl
key_of-key_tail k (lifecycle_set queue active) = simp append_assoc refl
key_of-key_tail k (lifecycle_set queue scheduled) = simp append_assoc refl
key_of-key_tail k (lifecycle_set queue retrying) = simp append_assoc refl
key_of-key_tail k (lifecycle_set queue completed) = simp append_assoc refl
key_of-key_tail k (lifecycle_set queue dead) = simp append_assoc refl
key_of-key_tail k registry = refl
key_of-key_tail k (meta queue) = simp append_assoc refl
key_of-key_tail k (claim_of key) = simp append_assoc refl

-- A key's shape, read off its first seven bytes and its last four.
data Shape : Type 0 where
  of_document of_registry of_meta of_claim : Shape
  of_set : JobState → Shape

unfoldable shape : KeyName → Shape
shape (document id) = of_document
shape (lifecycle_set queue state) = of_set state
shape registry = of_registry
shape (meta queue) = of_meta
shape (claim_of key) = of_claim

unfoldable by_ending : Text → Shape
by_ending t =
    if text_eq t (bytes "gnid")
    then of_set pending
    else if text_eq t (bytes "evit")
    then of_set active
    else if text_eq t (bytes "delu")
    then of_set scheduled
    else if text_eq t (bytes "gniy")
    then of_set retrying
    else if text_eq t (bytes "dete")
    then of_set completed
    else if text_eq t (bytes "daed")
    then of_set dead
    else of_meta

unfoldable read_shape : Text → Shape
unfolding by_ending
read_shape t =
    if text_eq (take 2 t) (bytes ":j")
    then of_document
    else if text_eq (take 2 t) (bytes ":i")
    then of_claim
    else if text_eq (take 7 t) (bytes ":queues")
    then of_registry
    else by_ending (take 4 (reverse t))

reverse_ends :
    (front middle ending : Text)
    → reverse (front ++ (middle ++ ending)) ≡ reverse ending ++ (reverse middle ++ reverse front)
reverse_ends front middle ending = simp (reverse-append, append_assoc) refl

read_shape-key_tail : (n : KeyName) → read_shape (key_tail n) ≡ shape n
unfolding read_shape by_ending key_tail suffix shape bytes text_eq
read_shape-key_tail (document id) = refl
read_shape-key_tail (claim_of key) = refl
read_shape-key_tail registry = refl
read_shape-key_tail (meta queue) = rw (reverse_ends (bytes ":queue:") queue (bytes ":meta")) refl
read_shape-key_tail (lifecycle_set queue pending) =
    rw (reverse_ends (bytes ":queue:") queue (bytes ":pending")) refl
read_shape-key_tail (lifecycle_set queue active) =
    rw (reverse_ends (bytes ":queue:") queue (bytes ":active")) refl
read_shape-key_tail (lifecycle_set queue scheduled) =
    rw (reverse_ends (bytes ":queue:") queue (bytes ":scheduled")) refl
read_shape-key_tail (lifecycle_set queue retrying) =
    rw (reverse_ends (bytes ":queue:") queue (bytes ":retrying")) refl
read_shape-key_tail (lifecycle_set queue completed) =
    rw (reverse_ends (bytes ":queue:") queue (bytes ":completed")) refl
read_shape-key_tail (lifecycle_set queue dead) =
    rw (reverse_ends (bytes ":queue:") queue (bytes ":dead")) refl

-- A key after the namespace is a text between two that its shape fixes.
unfoldable front : Shape → Text
front of_document = bytes ":job:"
front of_registry = bytes ":queues"
front of_meta = bytes ":queue:"
front of_claim = bytes ":idempotency:"
front (of_set state) = bytes ":queue:"

unfoldable back : Shape → Text
back of_document = []
back of_registry = []
back of_meta = bytes ":meta"
back of_claim = []
back (of_set state) = suffix state

unfoldable argument : KeyName → Text
argument (document id) = id
argument (lifecycle_set queue state) = queue
argument registry = []
argument (meta queue) = queue
argument (claim_of key) = key

unfoldable name_of : Shape → Text → KeyName
name_of of_document a = document a
name_of of_registry a = registry
name_of of_meta a = meta a
name_of of_claim a = claim_of a
name_of (of_set state) a = lifecycle_set a state

key_tail-parts : (n : KeyName) → key_tail n ≡ front (shape n) ++ (argument n ++ back (shape n))
unfolding key_tail front back argument shape
key_tail-parts (document id) = simp append-nil refl
key_tail-parts (lifecycle_set queue state) = refl
key_tail-parts registry = simp append-nil refl
key_tail-parts (meta queue) = refl
key_tail-parts (claim_of key) = simp append-nil refl

name_of-parts : (n : KeyName) → name_of (shape n) (argument n) ≡ n
unfolding name_of argument shape
name_of-parts (document id) = refl
name_of-parts (lifecycle_set queue state) = refl
name_of-parts registry = refl
name_of-parts (meta queue) = refl
name_of-parts (claim_of key) = refl

key_tail-injective : (m n : KeyName) → key_tail m ≡ key_tail n → m ≡ n
key_tail-injective m n h =
    let same : shape m ≡ shape n =
      sym (read_shape-key_tail m) ∙ ap read_shape h ∙ read_shape-key_tail n in
    let split : front (shape n) ++ (argument m ++ back (shape n))
        ≡ front (shape n) ++ (argument n ++ back (shape n)) =
      subst
        (λ s. front s ++ (argument m ++ back s) ≡ front (shape n) ++ (argument n ++ back (shape n)))
        same (sym (key_tail-parts m) ∙ h ∙ key_tail-parts n) in
    let parts : argument m ≡ argument n =
      append_cancel_right (argument m) (argument n) (back (shape n)) (
        append_cancel_left (front (shape n)) (argument m ++ back (shape n))
          (argument n ++ back (shape n)) split) in
    cc (name_of-parts m, name_of-parts n, same, parts)

-- Two keys of one namespace are equal only if they are keys of the same thing: a document, a lifecycle
-- set of a queue, the registry, the settings of a queue or an idempotency claim, whatever bytes the ids
-- and the names of queues have.
pub key_of-injective : (k : KeyBuilder) (m n : KeyName) → key_of k m ≡ key_of k n → m ≡ n
key_of-injective k m n h = key_tail-injective m n (
    append_cancel_left k.namespace (key_tail m) (key_tail n)
      (sym (key_of-key_tail k m) ∙ h ∙ key_of-key_tail k n))

pub state_set-injective :
    (k : KeyBuilder) (p q : Text) (s t : JobState)
    → state_set k p s ≡ state_set k q t
    → (p ≡ q) × (s ≡ t)
unfolding key_of
state_set-injective k p q s t h =
    let e = key_of-injective k (lifecycle_set p s) (lifecycle_set q t) h in (cc e, cc e)

pub job_key-injective : (k : KeyBuilder) (a b : Text) → job_key k a ≡ job_key k b → a ≡ b
unfolding key_of
job_key-injective k a b h = cc (key_of-injective k (document a) (document b) h)

pub queue_meta≢job_key : (k : KeyBuilder) (q a : Text) → queue_meta k q ≢ job_key k a
unfolding key_of
queue_meta≢job_key k q a h = cc (key_of-injective k (meta q) (document a) h)

pub state_set≢job_key : (k : KeyBuilder) (q a : Text) (s : JobState) → state_set k q s ≢ job_key k a
unfolding key_of
state_set≢job_key k q a s h = cc (key_of-injective k (lifecycle_set q s) (document a) h)
