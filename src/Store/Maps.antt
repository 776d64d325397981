-- ===== src/Store/Maps.antt =====
-- The maps of the store: what a lookup gives after a write, and distinct keys.
use mathlib.Core.Path.{subst}
use goqueue.Base.{
  if◌then◌else◌, Bool-cases, All, Text, text_eq, text_eq_refl, text_eq-eq, ◌≡◌, refl, sym, ◌⊎◌, inl,
  inr, false, some, List, [], ◌∷◌, arith,
}
use goqueue.Job.{Job}
use goqueue.Store.Defs.{lookup_job, put_job}

pub lookup-put :
    (k : Job) (id : Text) (js : List Job)
    → lookup_job id (put_job k js) ≡ (if text_eq k.id id then some k else lookup_job id js)
unfolding lookup_job put_job
lookup-put k id [] = refl
lookup-put k id (j ∷ js) = elim (Bool-cases (text_eq j.id k.id)) [
  | inl e ↦ rw e (ground (arith, text_eq-eq j.id k.id e))
  | inr e ↦
      rw e (
        ground (arith, lookup-put k id js, text_eq-eq j.id id, text_eq-eq k.id id, text_eq_refl id))
]

-- No two jobs have one id.
abbrev pub Unique : List Job → Type 0
Unique [] = Unit
Unique (j ∷ js) = All (λ k. text_eq j.id k.id ≡ false) js × Unique js

abbrev pub Member : {A : Type 0} → A → List A → Type 0
Member a [] = ⊥
Member a (x ∷ xs) = (a ≡ x) ⊎ Member a xs

pub All-put {κ} :
    (P : Job → Type κ) (k : Job) (js : List Job) → P k → All P js → All P (put_job k js)
unfolding put_job
All-put P k [] p q = (p, tt)
All-put P k (j ∷ js) p q = elim (Bool-cases (text_eq j.id k.id)) [
  | inl e ↦ rw e (p, q.1)
  | inr e ↦ rw e (q.0, All-put P k js p q.1)
]

pub Unique-put : (k : Job) (js : List Job) → Unique js → Unique (put_job k js)
unfolding put_job
Unique-put k [] u = (tt, tt)
Unique-put k (j ∷ js) u = elim (Bool-cases (text_eq j.id k.id)) [
  | inl e ↦
      rw e (subst (λ i. All (λ l. text_eq i l.id ≡ false) js) (text_eq-eq j.id k.id e) u.0, u.1)
  | inr e ↦ rw e (All-put (λ l. text_eq j.id l.id ≡ false) k js e u.0, Unique-put k js u.1)
]

pub All-Member : {A : Type 0} (P : A → Type 0) {a : A} (xs : List A) → All P xs → Member a xs → P a
All-Member P [] p m = absurd m
All-Member P (x ∷ xs) p (inl e) = subst P (sym e) p.0
All-Member P (x ∷ xs) p (inr m) = All-Member P xs p.1 m

-- With distinct ids a lookup finds each job that is there.
pub lookup-Member :
    (b : Job) (js : List Job) → Unique js → Member b js → lookup_job b.id js ≡ some b
unfolding lookup_job
lookup-Member b [] u m = absurd m
lookup-Member b (j ∷ js) u (inl e) = rw e (ground (arith, text_eq_refl j.id))
lookup-Member b (j ∷ js) u (inr m) =
    ground (arith, All-Member (λ k. text_eq j.id k.id ≡ false) js u.0 m, lookup-Member b js u.1 m)

pub lookup-Member_id :
    (id : Text) (b : Job) (js : List Job) → lookup_job id js ≡ some b → Member b js × (b.id ≡ id)
unfolding lookup_job
lookup-Member_id id b [] h = absurd (ground arith)
lookup-Member_id id b (j ∷ js) h = elim (Bool-cases (text_eq j.id id)) [
  | inl e ↦ let same : j ≡ b = ground arith in (inl (sym same), rw (← same) (text_eq-eq j.id id e))
  | inr e ↦ let (m, i) = lookup-Member_id id b js (ground arith) in (inr m, i)
]
