-- ===== src/Strings/Plain.antt =====
-- Texts that `strings.TrimSpace` and `strings.ToLower` leave alone.
use goqueue.Base.{
  Bool-cases, length, All, Text, bytes, ℕ, zero, suc, ◌≤◌, ◌<◌, ◌≡◌, refl, ap, inl, inr, Bool, true,
  false, Option, none, List, [], ◌∷◌, ◌++◌, reverse, arith,
}
use goqueue.Strings.{
  trim_space, lower_byte, to_lower, matches, drop_space, drop_last_space, trim_loop, lower_head,
  lower_loop, all_bytes,
}
use mathlib.Core.List.{reverse-reverse, reverse-cons}

-- Bytes below 0x80, none of them a white space.
abbrev pub IsPlain : Text → Type 0
IsPlain = All (λ c. (32 < c) × (c < 128))

abbrev pub IsLower : Text → Type 0
IsLower = All (λ c. (c < 128) × (lower_byte c ≡ c))

all_bytes-All :
    {P : ℕ → Type 0} (set : ℕ → Bool) (s : Text)
    → ((c : ℕ) → set c ≡ true → P c)
    → all_bytes set s ≡ true
    → All P s
unfolding all_bytes
all_bytes-All set [] f h = tt
all_bytes-All set (c ∷ s) f h = elim (Bool-cases (set c)) [
  | inl e ↦ (f c e, all_bytes-All set s f (rw e at h))
  | inr e ↦ absurd (ground arith)
]

matches-head :
    (first rest : ℕ → Bool) (max c : ℕ) (s : Text)
    → matches first rest max (c ∷ s) ≡ true
    → (first c ≡ true) × (all_bytes rest s ≡ true)
unfolding matches
matches-head first rest max c s h = ground arith

matches-nil : (first rest : ℕ → Bool) (max : ℕ) → matches first rest max [] ≡ false
unfolding matches
matches-nil first rest max = refl

pub matches-All :
    {P : ℕ → Type 0} (first rest : ℕ → Bool) (max : ℕ) (s : Text)
    → ((c : ℕ) → first c ≡ true → P c)
    → ((c : ℕ) → rest c ≡ true → P c)
    → matches first rest max s ≡ true
    → All P s
matches-All first rest max [] f g h = tt
matches-All first rest max (c ∷ s) f g h =
    let (p, q) = matches-head first rest max c s h in (f c p, all_bytes-All rest s g q)

All-append {ℓ} :
    {A : Type ℓ} (P : A → Type 0) (xs ys : List A) → All P xs → All P ys → All P (xs ++ ys)
All-append P [] ys p q = q
All-append P (x ∷ xs) ys p q = (p.0, All-append P xs ys p.1 q)

All-reverse {ℓ} : {A : Type ℓ} (P : A → Type 0) (xs : List A) → All P xs → All P (reverse xs)
All-reverse P [] p = tt
All-reverse P (x ∷ xs) p =
    rw reverse-cons (All-append P (reverse xs) (x ∷ []) (All-reverse P xs p.1) (p.0, tt))

drop_space-IsPlain : (s : Text) → IsPlain s → drop_space s ≡ none
unfolding drop_space
drop_space-IsPlain [] p = refl
drop_space-IsPlain (c ∷ []) p = ground arith
drop_space-IsPlain (c ∷ d ∷ []) p = ground arith
drop_space-IsPlain (c ∷ d ∷ e ∷ s) p = ground arith

drop_last_space-IsPlain : (s : Text) → IsPlain s → drop_last_space s ≡ none
unfolding drop_last_space
drop_last_space-IsPlain [] p = refl
drop_last_space-IsPlain (c ∷ []) p = ground arith
drop_last_space-IsPlain (c ∷ d ∷ []) p = ground arith
drop_last_space-IsPlain (c ∷ d ∷ e ∷ s) p = ground arith

trim_loop-none : (f : Text → Option Text) (n : ℕ) (s : Text) → f s ≡ none → trim_loop f n s ≡ s
unfolding trim_loop
trim_loop-none f zero s e = refl
trim_loop-none f (suc n) s e = rw (e, trim_loop)

pub trim_space-IsPlain : (s : Text) → IsPlain s → trim_space s ≡ s
unfolding trim_space
trim_space-IsPlain s p = rw (trim_loop-none drop_space (length s) s (drop_space-IsPlain s p)) (
    rw
      (trim_loop-none drop_last_space (length s) (reverse s)
        (drop_last_space-IsPlain (reverse s) (All-reverse _ s p)))
      (reverse-reverse s))

lower_head-IsLower : (c : ℕ) (s : Text) → (c < 128) × (lower_byte c ≡ c) → lower_head c s ≡ (c, s)
unfolding lower_head
lower_head-IsLower c [] p = ground arith
lower_head-IsLower c (d ∷ []) p = ground arith
lower_head-IsLower c (d ∷ e ∷ s) p = ground arith

lower_loop-IsLower : (n : ℕ) (s : Text) → length s ≤ n → IsLower s → lower_loop n s ≡ s
unfolding lower_loop
lower_loop-IsLower zero [] h p = refl
lower_loop-IsLower (suc n) [] h p = refl
lower_loop-IsLower zero (c ∷ s) h p = absurd (omega arith)
lower_loop-IsLower (suc n) (c ∷ s) h p =
    rw (lower_head-IsLower c s p.0) (ap (λ t. c ∷ t) (lower_loop-IsLower n s (omega arith) p.1))

pub to_lower-IsLower : (s : Text) → IsLower s → to_lower s ≡ s
unfolding to_lower
to_lower-IsLower s p = lower_loop-IsLower (length s) s (omega arith) p

trim_sample : trim_space (bytes "  Hello q ") ≡ bytes "Hello q"
unfolding trim_space bytes
trim_sample = refl

lower_sample : to_lower (bytes "Hello_Q9") ≡ bytes "hello_q9"
unfolding to_lower bytes
lower_sample = refl
