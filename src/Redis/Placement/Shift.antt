-- ===== src/Redis/Placement/Shift.antt =====
-- The write that the scripts share: an id leaves one sorted set and enters another, and fields of its
-- document are overwritten.
use mathlib.Core.Path.{subst}
use goqueue.Base.{
  if◌then◌else◌, Bool-cases, ℤ, Text, bytes, text_eq, text_eq_refl, text_eq-eq, ◌≡◌, refl, sym, ap,
  ◌∙◌, ◌≢◌, ◌⊎◌, inl, inr, Bool, true, false, ◌&&◌, none, some, arith,
}
use goqueue.Values.States.{JobState, state_string, Leads}
use goqueue.Redis.{KeyBuilder, job_key, state_set}
use goqueue.Redis.Keys.{state_set-injective, job_key-injective}
use goqueue.Redis.Commands.{Fields, find_field, or_else, Commands, Documented}
use goqueue.Redis.Placement.{
  state_string-injective, doc_state, doc_queue, Placed, Rewritten, Sound, Rewritten-Sound,
}

pub false≢true : false ≢ true
false≢true h = ground arith

if_false {ℓ} : {A : Type ℓ} {b : Bool} (x y : A) → b ≡ false → (if b then x else y) ≡ y
if_false x y h = ap (λ b. if b then x else y) h

pub some_injective {ℓ} : {A : Type ℓ} {x y : A} → some x ≡ some y → x ≡ y
some_injective h = cc h

pub text_eq-ne : (s t : Text) → s ≢ t → text_eq s t ≡ false
text_eq-ne s t h = elim (Bool-cases (text_eq s t)) [
  | inl e ↦ absurd (h (text_eq-eq s t e))
  | inr e ↦ e
]

module _ {R : Type 0} (C : Commands R) (law : Documented C) (K : KeyBuilder) where
  pub ids_differ : (id i : Text) → text_eq id i ≡ false → job_key K id ≢ job_key K i
  ids_differ id i e h = false≢true (sym e ∙ rw (job_key-injective K id i h) (text_eq_refl i))

  abbrev pub shift : Text → Text → Text → ℤ → Fields → R → R
  shift from to id score fields r =
      C.hset (job_key K id) fields (C.zadd to score id (C.zrem from id r))

  zscore-shift :
      (from to id k i : Text) (score : ℤ) (fields : Fields) (r : R)
      → C.zscore k i (shift from to id score fields r) ≡ (
          if text_eq to k && text_eq id i
          then some score
          else if text_eq from k && text_eq id i
          then none
          else C.zscore k i r)
  zscore-shift from to id k i score fields r =
      law.zscore_hset (job_key K id) k i fields (C.zadd to score id (C.zrem from id r))
      ∙ law.zscore_zadd to id k i score (C.zrem from id r)
      ∙ ap (λ o. if text_eq to k && text_eq id i then some score else o)
          (law.zscore_zrem from id k i r)

  hget-shift :
      (from to id k f : Text) (score : ℤ) (fields : Fields) (r : R)
      → C.hget k f (shift from to id score fields r) ≡ (
          if text_eq (job_key K id) k
          then or_else (find_field f fields) (C.hget k f r)
          else C.hget k f r)
  hget-shift from to id k f score fields r =
      law.hget_hset (job_key K id) k f fields (C.zadd to score id (C.zrem from id r))
      ∙ ap (λ o. if text_eq (job_key K id) k then or_else (find_field f fields) o else o)
          (law.hget_zadd to id k f score (C.zrem from id r) ∙ law.hget_zrem from id k f r)

  -- The sets of a queue that an id is in are among two.
  abbrev pub Within : Text → Text → JobState → JobState → R → Type 0
  Within id q from to r =
      (p : Text) (s : JobState) (x : ℤ)
      → C.zscore (state_set K p s) id r ≡ some x
      → (p ≡ q) × ((s ≡ from) ⊎ (s ≡ to))

  -- A job with a document is within the set of its state.
  pub Placed-Within :
      {r : R} (id q : Text) (s from to : JobState)
      → Placed C K r
      → doc_state C K id r ≡ some (state_string s)
      → doc_queue C K id r ≡ some q
      → (s ≡ from) ⊎ (s ≡ to)
      → Within id q from to r
  Placed-Within id q s from to p st qu or o t x h =
      let (a, b) = p.agrees o id (state_string s) t x h st in
      let e : s ≡ t = state_string-injective s t a in
      (cc (b, qu), elim or [ inl f ↦ inl (sym e ∙ f) | inr f ↦ inr (sym e ∙ f) ])

  pub zscore-shift-same :
      (from to id k : Text) (score : ℤ) (fields : Fields) (r : R)
      → C.zscore k id (shift from to id score fields r)
        ≡ (if text_eq to k then some score else if text_eq from k then none else C.zscore k id r)
  zscore-shift-same from to id k score fields r =
      zscore-shift from to id k id score fields r ∙ ground (arith, text_eq_refl id)

  shift-source :
      (id q : Text) (from to : JobState) (score : ℤ) (r : R)
      → Within id q from to r
      → (p : Text) (s : JobState) (x : ℤ) → text_eq (state_set K q to) (state_set K p s) ≡ false
      → (if text_eq (state_set K q from) (state_set K p s)
          then none
          else C.zscore (state_set K p s) id r)
        ≡ some x
      → (p ≡ q) × (s ≡ to)
  shift-source id q from to score r w p s x e g =
      elim (Bool-cases (text_eq (state_set K q from) (state_set K p s))) [
        | inl f ↦ absurd (ground (arith, f))
        | inr f ↦
            let (a, or) = w p s x (sym (if_false _ _ f) ∙ g) in
            (
              a,
              elim or [
                | inl b ↦
                    let same : state_set K q from ≡ state_set K p s = cc (a, b) in
                    absurd (false≢true (sym f ∙ rw same (text_eq_refl (state_set K p s))))
                | inr b ↦ b
              ],
            )
      ]

  shift-sets :
      (id q : Text) (from to : JobState) (score : ℤ) (fields : Fields) (r : R)
      → Within id q from to r
      → (p : Text) (s : JobState) (x : ℤ)
      → C.zscore
          (state_set K p s)
          id
          (shift (state_set K q from) (state_set K q to) id score fields r)
        ≡ some x
      → (p ≡ q) × (s ≡ to)
  shift-sets id q from to score fields r w p s x h =
      let g =
        sym (
          zscore-shift-same (state_set K q from) (state_set K q to) id (state_set K p s) score
            fields r)
        ∙ h in
      elim (Bool-cases (text_eq (state_set K q to) (state_set K p s))) [
        | inl e ↦
            let (a, b) =
              state_set-injective K q p to s (text_eq-eq (state_set K q to) (state_set K p s) e) in
            (sym a, sym b)
        | inr e ↦ shift-source id q from to score r w p s x e (sym (if_false _ _ e) ∙ g)
      ]

  pub shift-Rewritten :
      (id q : Text) (from to : JobState) (score : ℤ) (fields : Fields) (r : R)
      → Within id q from to r
      → find_field (bytes "state") fields ≡ some (state_string to)
      → or_else (find_field (bytes "queue") fields) (doc_queue C K id r) ≡ some q
      → Rewritten C K id q to r (shift (state_set K q from) (state_set K q to) id score fields r)
  shift-Rewritten id q from to score fields r w st qu = record {
    entries = λ k i e.
        zscore-shift (state_set K q from) (state_set K q to) id k i score fields r
        ∙ ground (arith, e);
    documents = λ i f e.
        hget-shift (state_set K q from) (state_set K q to) id (job_key K i) f score fields r
        ∙ rw (text_eq-ne (job_key K id) (job_key K i) (ids_differ id i e)) refl;
    sets = shift-sets id q from to score fields r w;
    state =
        hget-shift (state_set K q from) (state_set K q to) id (job_key K id) (bytes "state") score
          fields r
        ∙ rw (text_eq_refl (job_key K id), st) refl;
    queue =
        hget-shift (state_set K q from) (state_set K q to) id (job_key K id) (bytes "queue") score
          fields r
        ∙ rw (text_eq_refl (job_key K id)) qu;
  }

  -- A job with a document moves along an allowed transition, or stays where it is.
  pub shift-Sound :
      (id q : Text) (s from to : JobState) (score : ℤ) (fields : Fields) (r : R)
      → Placed C K r
      → doc_state C K id r ≡ some (state_string s)
      → doc_queue C K id r ≡ some q
      → (s ≡ from) ⊎ (s ≡ to)
      → Leads s to
      → find_field (bytes "state") fields ≡ some (state_string to)
      → or_else (find_field (bytes "queue") fields) (some q) ≡ some q
      → Sound C K r (shift (state_set K q from) (state_set K q to) id score fields r)
  shift-Sound id q s from to score fields r p st qu or lead fs fq =
      Rewritten-Sound C K
        (shift-Rewritten id q from to score fields r (Placed-Within id q s from to p st qu or) fs
          (rw qu fq))
        (λ t h.
          subst (λ u. Leads u to) (state_string-injective s t (some_injective (sym st ∙ h))) lead)
        p
