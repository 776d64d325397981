-- ===== src/Redis/Placement.antt =====
-- The lifecycle sets and the documents agree: a job with a document is in the set of the state and the
-- queue that its document names, and in no other. This file has the invariant and the two kinds of
-- change that keep it.
pub mod Shift
pub mod Moves
pub mod Sweeps
pub mod Settles
pub mod History
use mathlib.Core.Path.{subst}
use goqueue.Base.{
  Bool-cases, ℤ, Text, bytes, text_eq, text_eq-eq, ◌≡◌, refl, sym, ap, ◌∙◌, inl, inr, false, Option,
  some,
}
use goqueue.Values.States.{
  JobState, state_string, new_job_state, new_job_state-state_string, Leads, here, next,
}
use goqueue.Errors.{ok}
use goqueue.Redis.{KeyBuilder, job_key, state_set}
use goqueue.Redis.Commands.{Commands}

pub state_string-injective : (s t : JobState) → state_string s ≡ state_string t → s ≡ t
state_string-injective s t h =
    let e : ok s ≡ ok t =
      sym (new_job_state-state_string s) ∙ ap new_job_state h ∙ new_job_state-state_string t in
    cc e

pub Leads-trans : {s t u : JobState} → Leads s t → Leads t u → Leads s u
Leads-trans here l = l
Leads-trans (next {t = m} h k) l = next {t = m} h (Leads-trans k l)

module _ {R : Type 0} (C : Commands R) (K : KeyBuilder) where
  -- A field of the document of a job.
  abbrev pub doc_field : Text → Text → R → Option Text
  doc_field id f r = C.hget (job_key K id) f r

  abbrev pub doc_state : Text → R → Option Text
  doc_state id r = C.hget (job_key K id) (bytes "state") r

  abbrev pub doc_queue : Text → R → Option Text
  doc_queue id r = C.hget (job_key K id) (bytes "queue") r

  pub record Placed (r : R) : Type 0 where
    pub complete :
        (id f v : Text)
        → doc_field id f r ≡ some v
        → (s : JobState) × (doc_state id r ≡ some (state_string s))
    pub agrees :
        (q id v : Text) (s : JobState) (x : ℤ)
        → C.zscore (state_set K q s) id r ≡ some x
        → doc_state id r ≡ some v
        → (v ≡ state_string s) × (doc_queue id r ≡ some q)

  -- Entries may go, documents stay.
  pub record Fewer (r r' : R) : Type 0 where
    pub entries : (k i : Text) (x : ℤ) → C.zscore k i r' ≡ some x → C.zscore k i r ≡ some x
    pub documents : (i f : Text) → doc_field i f r' ≡ doc_field i f r

  -- The job has been put into the one set, its document says so, and no other job has changed.
  pub record Rewritten (id q : Text) (to : JobState) (r r' : R) : Type 0 where
    pub entries : (k i : Text) → text_eq id i ≡ false → C.zscore k i r' ≡ C.zscore k i r
    pub documents : (i f : Text) → text_eq id i ≡ false → doc_field i f r' ≡ doc_field i f r
    pub sets :
        (p : Text) (s : JobState) (x : ℤ)
        → C.zscore (state_set K p s) id r' ≡ some x
        → (p ≡ q) × (s ≡ to)
    pub state : doc_state id r' ≡ some (state_string to)
    pub queue : doc_queue id r' ≡ some q

  -- Each document is there still, in the state it had or in one that the allowed transitions lead to.
  abbrev pub Follows : R → R → Type 0
  Follows r r' =
      (id : Text) (s : JobState)
      → doc_state id r ≡ some (state_string s)
      → (t : JobState) × (doc_state id r' ≡ some (state_string t)) × Leads s t

  -- What a step of the program does to a database in which they agree.
  abbrev pub Sound : R → R → Type 0
  Sound r r' = Placed r' × Follows r r'

  pub Fewer-refl : (r : R) → Fewer r r
  Fewer-refl r = record { entries = λ k i x h. h; documents = λ i f. refl }

  pub Fewer-trans : {r r' r'' : R} → Fewer r r' → Fewer r' r'' → Fewer r r''
  Fewer-trans a b = record {
    entries = λ k i x h. a.entries k i x (b.entries k i x h);
    documents = λ i f. b.documents i f ∙ a.documents i f;
  }

  pub Fewer-Placed : {r r' : R} → Fewer r r' → Placed r → Placed r'
  Fewer-Placed {r} {r'} w p = record {
    complete = λ id f v h.
        let (s, e) = p.complete id f v (sym (w.documents id f) ∙ h) in
        (s, w.documents id (bytes "state") ∙ e);
    agrees = λ q id v s x h e.
        let (a, b) =
          p.agrees q id v s x (w.entries (state_set K q s) id x h)
            (sym (w.documents id (bytes "state")) ∙ e) in
        (a, w.documents id (bytes "queue") ∙ b);
  }

  pub Fewer-Follows : {r r' : R} → Fewer r r' → Follows r r'
  Fewer-Follows w id s h = (s, w.documents id (bytes "state") ∙ h, here)

  pub Follows-refl : (r : R) → Follows r r
  Follows-refl r id s h = (s, h, here)

  pub Follows-trans : {r r' r'' : R} → Follows r r' → Follows r' r'' → Follows r r''
  Follows-trans a b id s h =
      let (t, e, l) = a id s h in let (u, e', l') = b id t e in (u, e', Leads-trans l l')

  pub Rewritten-Placed :
      {id q : Text} {to : JobState} {r r' : R} → Rewritten id q to r r' → Placed r → Placed r'
  Rewritten-Placed {id} {q} {to} {r} {r'} w p = record {
    complete = λ i f v h. elim (Bool-cases (text_eq id i)) [
      | inl e ↦
          (to, subst (λ j. doc_state j r' ≡ some (state_string to)) (text_eq-eq id i e) w.state)
      | inr e ↦
          let (s, g) = p.complete i f v (sym (w.documents i f e) ∙ h) in
          (s, w.documents i (bytes "state") e ∙ g)
    ];
    agrees = λ o i v s x h g. elim (Bool-cases (text_eq id i)) [
      | inl e ↦
          let same = text_eq-eq id i e in
          let (a, b) =
            w.sets o s x (subst (λ j. C.zscore (state_set K o s) j r' ≡ some x) (sym same) h) in
          let st = subst (λ j. doc_state j r' ≡ some (state_string to)) same w.state in
          let qu = subst (λ j. doc_queue j r' ≡ some q) same w.queue in (cc (b, st, g), cc (a, qu))
      | inr e ↦
          let (a, b) =
            p.agrees o i v s x (sym (w.entries (state_set K o s) i e) ∙ h)
              (sym (w.documents i (bytes "state") e) ∙ g) in
          (a, w.documents i (bytes "queue") e ∙ b)
    ];
  }

  pub Rewritten-Follows :
      {id q : Text} {to : JobState} {r r' : R}
      → Rewritten id q to r r'
      → ((s : JobState) → doc_state id r ≡ some (state_string s) → Leads s to)
      → Follows r r'
  Rewritten-Follows {id} {q} {to} {r} {r'} w lead i s h = elim (Bool-cases (text_eq id i)) [
    | inl e ↦
        let same = text_eq-eq id i e in
        (
          to,
          subst (λ j. doc_state j r' ≡ some (state_string to)) same w.state,
          lead s (subst (λ j. doc_state j r ≡ some (state_string s)) (sym same) h),
        )
    | inr e ↦ (s, w.documents i (bytes "state") e ∙ h, here)
  ]

  pub Sound-refl : (r : R) → Placed r → Sound r r
  Sound-refl r p = (p, Follows-refl r)

  pub Sound-trans : {r r' r'' : R} → Sound r r' → (Placed r' → Sound r' r'') → Sound r r''
  Sound-trans (p, f) step = let (p', f') = step p in (p', Follows-trans f f')

  pub Fewer-Sound : {r r' : R} → Fewer r r' → Placed r → Sound r r'
  Fewer-Sound w p = (Fewer-Placed w p, Fewer-Follows w)

  pub Rewritten-Sound :
      {id q : Text} {to : JobState} {r r' : R}
      → Rewritten id q to r r'
      → ((s : JobState) → doc_state id r ≡ some (state_string s) → Leads s to)
      → Placed r
      → Sound r r'
  Rewritten-Sound w lead p = (Rewritten-Placed w p, Rewritten-Follows w lead)
