-- ===== src/Redis/Placement/Settles.antt =====
-- The scripts that write a whole document: enqueue.lua and transition.lua; and extend_lease.lua.
use mathlib.Core.Path.{subst}
use goqueue.Base.{
  if◌then◌else◌, Bool-cases, Option-cases, ℤ, pos, ltb_ℤ, Text, bytes, text_eq, text_eq_refl,
  text_eq-eq, ◌≡◌, refl, sym, ap, ◌∙◌, ◌≢◌, inl, inr, true, false, ◌&&◌, none, some, arith,
}
use goqueue.Values.States.{JobState, active, state_string, Leads, here}
use goqueue.Redis.{KeyBuilder, job_key, state_set, queue_registry, queue_meta}
use goqueue.Redis.Keys.{state_set-injective, queue_meta≢job_key}
use goqueue.Redis.Commands.{Fields, find_field, or_else, Commands, Documented}
use goqueue.Redis.Documents.{Encoding}
use goqueue.Redis.Scripts.{enqueue_script, transition_script, extend_lease_script}
use goqueue.Redis.Placement.{
  state_string-injective, doc_field, doc_state, doc_queue, Placed, Fewer, Rewritten, Sound,
  Sound-refl, Sound-trans, Fewer-Sound, Rewritten-Sound,
}
use goqueue.Redis.Placement.Shift.{
  some_injective, text_eq-ne, ids_differ, Within, Placed-Within, shift-Rewritten,
}
use goqueue.Redis.Placement.Moves.{zrem-Fewer, expire-Fewer, persist-Fewer}

pub none≢some {ℓ} : {A : Type ℓ} {a : A} → none ≢ some a
none≢some h = cc h

module _ {R : Type 0} (C : Commands R) (law : Documented C) (K : KeyBuilder) where
  -- The document of an id is that of a job of the queue in the state.
  abbrev pub HeldAs : Text → Text → JobState → R → Type 0
  HeldAs id q s r = (doc_state C K id r ≡ some (state_string s)) × (doc_queue C K id r ≡ some q)

  -- No lifecycle set has an entry of the id.
  abbrev pub IsFresh : Text → R → Type 0
  IsFresh id r = (p : Text) (s : JobState) → C.zscore (state_set K p s) id r ≡ none

  finish-Fewer :
      (job : Text) (ttl : ℤ) (r : R)
      → Fewer C K r (if ltb_ℤ (pos 0) ttl then C.expire job ttl r else C.persist job r)
  finish-Fewer job ttl r = elim (Bool-cases (ltb_ℤ (pos 0) ttl)) [
    | inl e ↦ rw e (expire-Fewer C law K job ttl r e)
    | inr e ↦ rw e (persist-Fewer C law K job r)
  ]

  -- A transition of a job that its document has in the state it comes from.
  pub transition_script-Sound :
      (E : Encoding) (id q : Text) (s from to : JobState) (score ttl : ℤ) (fields : Fields) (r : R)
      → HeldAs id q s r
      → Within C law K id q from to r
      → Leads s to
      → find_field (bytes "state") fields ≡ some (state_string to)
      → find_field (bytes "queue") fields ≡ some q
      → Placed C K r
      → Sound C K r
          (transition_script C E
            (job_key K id)
            (state_set K q from)
            (state_set K q to)
            id
            score
            ttl
            fields
            r).1
  unfolding transition_script
  transition_script-Sound E id q s from to score ttl fields r held w lead fs fq p =
      elim (Bool-cases (C.exists (job_key K id) r)) [
        | inl e ↦
            rw (e, transition_script)
              (Sound-trans C K
                (Rewritten-Sound C K
                  (shift-Rewritten C law K id q from to score fields r w fs (rw (fq, or_else) refl))
                  (λ t h.
                    subst (λ u. Leads u to)
                      (state_string-injective s t (some_injective (sym held.0 ∙ h))) lead)
                  p)
                (Fewer-Sound C K (finish-Fewer (job_key K id) ttl _)))
        | inr e ↦
            rw (e, transition_script)
              (Fewer-Sound C K (zrem-Fewer C law K (state_set K q from) id r) p)
      ]

  -- An entry and fields of a document are written.
  record Written (id q : Text) (to : JobState) (score : ℤ) (fields : Fields) (r r' : R)
      : Type 0 where
    entries :
        (k i : Text)
        → C.zscore k i r'
          ≡ (if text_eq (state_set K q to) k && text_eq id i then some score else C.zscore k i r)
    documents :
        (i f : Text)
        → doc_field C K i f r' ≡ (
            if text_eq (job_key K id) (job_key K i)
            then or_else (find_field f fields) (doc_field C K i f r)
            else doc_field C K i f r)

  Written-Rewritten :
      {id q : Text} {to : JobState} {score : ℤ} {fields : Fields} {r r' : R}
      → Written id q to score fields r r'
      → Within C law K id q to to r
      → or_else (find_field (bytes "state") fields) (doc_state C K id r) ≡ some (state_string to)
      → or_else (find_field (bytes "queue") fields) (doc_queue C K id r) ≡ some q
      → Rewritten C K id q to r r'
  Written-Rewritten {id} {q} {to} {score} {fields} {r} {r'} w within fs fq = record {
    entries = λ k i e. w.entries k i ∙ ground (arith, e);
    documents = λ i f e.
        w.documents i f
        ∙ rw (text_eq-ne (job_key K id) (job_key K i) (ids_differ C law K id i e)) refl;
    sets = λ p s x h. elim (Bool-cases (text_eq (state_set K q to) (state_set K p s))) [
      | inl e ↦
          let (a, b) =
            state_set-injective K q p to s (text_eq-eq (state_set K q to) (state_set K p s) e) in
          (sym a, sym b)
      | inr e ↦
          let (a, or) = within p s x (sym (w.entries (state_set K p s) id ∙ rw e refl) ∙ h) in
          (a, elim or [ inl b ↦ b | inr b ↦ b ])
    ];
    state = w.documents id (bytes "state") ∙ rw (text_eq_refl (job_key K id)) fs;
    queue = w.documents id (bytes "queue") ∙ rw (text_eq_refl (job_key K id)) fq;
  }

  meta_apart : (queue id : Text) → text_eq (queue_meta K queue) (job_key K id) ≡ false
  meta_apart queue id =
      text_eq-ne (queue_meta K queue) (job_key K id) (queue_meta≢job_key K queue id)

  -- The entries and the documents are the same.
  record Alike (r r' : R) : Type 0 where
    entries : (k i : Text) → C.zscore k i r' ≡ C.zscore k i r
    documents : (i f : Text) → doc_field C K i f r' ≡ doc_field C K i f r

  registered-Alike : (key queue : Text) (r : R) → Alike r (C.sadd key queue r)
  registered-Alike key queue r = record {
    entries = λ k i. law.zscore_sadd key queue k i r;
    documents = λ i f. law.hget_sadd key queue (job_key K i) f r;
  }

  meta-Alike :
      (queue : Text) (fields : Fields) (r : R) → Alike r (C.hset (queue_meta K queue) fields r)
  meta-Alike queue fields r = record {
    entries = λ k i. law.zscore_hset (queue_meta K queue) k i fields r;
    documents = λ i f.
        law.hget_hset (queue_meta K queue) (job_key K i) f fields r ∙ rw (meta_apart queue i) refl;
  }

  put_Written :
      (id q : Text) (to : JobState) (score : ℤ) (fields : Fields) (r d : R)
      → Alike r d
      → Written id q to score fields r
          (C.zadd (state_set K q to) score id (C.hset (job_key K id) fields d))
  put_Written id q to score fields r d a = record {
    entries = λ k i.
        law.zscore_zadd (state_set K q to) id k i score (C.hset (job_key K id) fields d)
        ∙ ap (λ o. if text_eq (state_set K q to) k && text_eq id i then some score else o)
            (law.zscore_hset (job_key K id) k i fields d ∙ a.entries k i);
    documents = λ i f.
        law.hget_zadd (state_set K q to) id (job_key K i) f score (C.hset (job_key K id) fields d)
        ∙ law.hget_hset (job_key K id) (job_key K i) f fields d
        ∙ ap
            (λ o.
              if text_eq (job_key K id) (job_key K i) then or_else (find_field f fields) o else o)
            (a.documents i f);
  }

  Alike-trans : {r r' r'' : R} → Alike r r' → Alike r' r'' → Alike r r''
  Alike-trans a b = record {
    entries = λ k i. b.entries k i ∙ a.entries k i;
    documents = λ i f. b.documents i f ∙ a.documents i f;
  }

  insert-Sound :
      (id q : Text) (to : JobState) (score : ℤ) (fields : Fields) (r d : R)
      → Alike r d
      → IsFresh id r
      → C.exists (job_key K id) r ≡ false
      → find_field (bytes "state") fields ≡ some (state_string to)
      → find_field (bytes "queue") fields ≡ some q
      → Placed C K r
      → Sound C K r (C.zadd (state_set K q to) score id (C.hset (job_key K id) fields d))
  insert-Sound id q to score fields r d a fresh absent fs fq p =
      Rewritten-Sound C K
        (Written-Rewritten (put_Written id q to score fields r d a)
          (λ o s x h. absurd (none≢some (sym (fresh o s) ∙ h))) (rw (fs, or_else) refl)
          (rw (fq, or_else) refl))
        (λ s h.
          absurd (none≢some (sym (law.missing_field (job_key K id) (bytes "state") r absent) ∙ h)))
        p

  -- A new document whose id no set has.
  pub enqueue_script-Sound :
      (id q weight : Text) (to : JobState) (score : ℤ) (fields : Fields) (r : R)
      → IsFresh id r
      → find_field (bytes "state") fields ≡ some (state_string to)
      → find_field (bytes "queue") fields ≡ some q
      → Placed C K r
      → Sound C K r
          (enqueue_script C
            (job_key K id)
            (state_set K q to)
            (queue_registry K)
            (queue_meta K q)
            id
            score
            q
            weight
            fields
            r).1
  unfolding enqueue_script
  enqueue_script-Sound id q weight to score fields r fresh fs fq p =
      let registered = C.sadd (queue_registry K) q r in
      let known = registered-Alike (queue_registry K) q r in
      elim (Bool-cases (C.exists (job_key K id) r)) [
        | inl e ↦ rw (e, enqueue_script) (Sound-refl C K r p)
        | inr e ↦ elim (Bool-cases (C.exists (queue_meta K q) registered)) [
          | inl f ↦
              rw (e, f, enqueue_script)
                (insert-Sound id q to score fields r _ known fresh e fs fq p)
          | inr f ↦
              rw (e, f, enqueue_script)
                (insert-Sound id q to score fields r _
                  (Alike-trans known (meta-Alike q _ registered)) fresh e fs fq p)
        ]
      ]

  lease_Written :
      (id q : Text) (expiry : ℤ) (fields : Fields) (r : R)
      → Written id q active expiry fields r
          (C.hset (job_key K id) fields (C.zadd (state_set K q active) expiry id r))
  lease_Written id q expiry fields r = record {
    entries = λ k i.
        law.zscore_hset (job_key K id) k i fields (C.zadd (state_set K q active) expiry id r)
        ∙ law.zscore_zadd (state_set K q active) id k i expiry r;
    documents = λ i f.
        law.hget_hset (job_key K id) (job_key K i) f fields
          (C.zadd (state_set K q active) expiry id r)
        ∙ ap
            (λ o.
              if text_eq (job_key K id) (job_key K i) then or_else (find_field f fields) o else o)
            (law.hget_zadd (state_set K q active) id (job_key K i) f expiry r);
  }

  -- The lease of a job that is active and has a document is pushed out, and nothing else changes.
  pub extend_lease_script-Sound :
      (E : Encoding) (id q : Text) (expiry : ℤ) (r : R)
      → C.exists (job_key K id) r ≡ true
      → Placed C K r
      → Sound C K r (extend_lease_script C E (state_set K q active) (job_key K id) id expiry r).1
  unfolding extend_lease_script find_field text_eq bytes
  extend_lease_script-Sound E id q expiry r live p =
      elim (Option-cases (C.zscore (state_set K q active) id r)) [
        | inl e ↦ rw (e, extend_lease_script) (Sound-refl C K r p)
        | inr (x, e) ↦
            let (f, v, field) = law.exists_field (job_key K id) r live in
            let (s, st) = p.complete id f v field in
            let (same, qu) = p.agrees q id (state_string s) active x e st in
            let is_active : s ≡ active = state_string-injective s active same in
            rw (e, extend_lease_script)
              (Rewritten-Sound C K
                (Written-Rewritten (lease_Written id q expiry _ r)
                  (Placed-Within C law K id q s active active p st qu (inl is_active))
                  (st ∙ ap (λ u. some (state_string u)) is_active) qu)
                (λ t h.
                  subst (λ u. Leads u active)
                    (sym is_active ∙ state_string-injective s t (some_injective (sym st ∙ h))) here)
                p)
      ]
