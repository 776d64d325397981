-- ===== src/Base/Sorting.antt =====
-- `sort.SliceStable` by a strict order, as a stable insertion sort, and sums over lists. A stable sort
-- has one result only, and so has `sort.Slice` where the order tells all elements apart.
use Prim.Native.Nat.{ℕ, ◌+◌}
use mathlib.Core.Path.{◌≡◌, refl, sym, ap, ◌∙◌}
use mathlib.Core.Bool.{Bool, true, false}
use mathlib.Core.Logic.{inl, inr}
use mathlib.Core.List.{reverse, reverse-cons, List, [], ◌∷◌, ◌++◌}
use native.Mathlib.Omega.{arith}
use goqueue.Base.Tests.{if◌then◌else◌, Bool-cases}
use goqueue.Base.Lists.{length, All}

module _ {ℓ} {A : Type ℓ} (less : A → A → Bool) where
  insert_by : A → List A → List A
  insert_by x [] = x ∷ []
  insert_by x (y ∷ ys) = let rest = insert_by x ys in if less y x then y ∷ rest else x ∷ y ∷ ys

  unfoldable pub sort_by : List A → List A
  unfolding insert_by
  sort_by [] = []
  sort_by (x ∷ xs) = insert_by x (sort_by xs)

  -- No element is less than one that stands before it.
  abbrev pub Sorted : List A → Type ℓ
  Sorted [] = Unit
  Sorted (x ∷ xs) = All (λ y. less y x ≡ false) xs × Sorted xs

module _ {ℓ} {A : Type ℓ} where
  abbrev pub sum_by : (A → ℕ) → List A → ℕ
  sum_by f [] = 0
  sum_by f (x ∷ xs) = f x + sum_by f xs

module _ {ℓ} {A : Type ℓ} (less : A → A → Bool) where
  sum_by-insert :
      (f : A → ℕ) (x : A) (ys : List A) → sum_by f (insert_by less x ys) ≡ f x + sum_by f ys
  unfolding insert_by
  sum_by-insert f x [] = refl
  sum_by-insert f x (y ∷ ys) = ground (arith, sum_by-insert f x ys)

  pub sum_by-sort : (f : A → ℕ) (xs : List A) → sum_by f (sort_by less xs) ≡ sum_by f xs
  unfolding sort_by
  sum_by-sort f [] = refl
  sum_by-sort f (x ∷ xs) = ground (arith, sum_by-insert f x (sort_by less xs), sum_by-sort f xs)

  All-insert {κ} :
      (P : A → Type κ) (x : A) (ys : List A) → P x → All P ys → All P (insert_by less x ys)
  unfolding insert_by
  All-insert P x [] p q = (p, tt)
  All-insert P x (y ∷ ys) p q = elim (Bool-cases (less y x)) [
    | inl e ↦ rw e (q.0, All-insert P x ys p q.1)
    | inr e ↦ rw e (p, q)
  ]

  pub All-sort {κ} : (P : A → Type κ) (xs : List A) → All P xs → All P (sort_by less xs)
  unfolding sort_by
  All-sort P [] p = tt
  All-sort P (x ∷ xs) p = All-insert P x (sort_by less xs) p.0 (All-sort P xs p.1)

module _ {ℓ} {A : Type ℓ} (less : A → A → Bool) where
  -- Each element comes, in the order, behind all that follow it in the list.
  abbrev pub Backward : List A → Type 0
  Backward [] = Unit {0}
  Backward (x ∷ xs) = All (λ y. less y x ≡ true) xs × Backward xs

  insert_by-last :
      (x : A) (ys : List A) → All (λ y. less y x ≡ true) ys → insert_by less x ys ≡ ys ++ x ∷ []
  unfolding insert_by
  insert_by-last x [] h = refl
  insert_by-last x (y ∷ ys) h = rw (insert_by, h.0, insert_by-last x ys h.1) refl

  pub sort_by-reverse : (xs : List A) → Backward xs → sort_by less xs ≡ reverse xs
  unfolding sort_by
  sort_by-reverse [] h = refl
  sort_by-reverse (x ∷ xs) h =
      insert_by-last x (sort_by less xs) (All-sort less (λ y. less y x ≡ true) xs h.0)
      ∙ ap (λ ys. ys ++ x ∷ []) (sort_by-reverse xs h.1)
      ∙ sym (reverse-cons x xs)

abbrev pub Pairwise {ℓ κ} : {A : Type ℓ} → (A → A → Type κ) → List A → Type κ
Pairwise R [] = Unit
Pairwise R (x ∷ xs) = All (R x) xs × Pairwise R xs

module _ {ℓ κ} {A : Type ℓ} (less : A → A → Bool) (R : A → A → Type κ)
    (symm : (x y : A) → R x y → R y x) where
  insert-Pairwise :
      (x : A) (ys : List A) → All (R x) ys → Pairwise R ys → Pairwise R (insert_by less x ys)
  unfolding insert_by
  insert-Pairwise x [] a p = (tt, tt)
  insert-Pairwise x (y ∷ ys) a p = elim (Bool-cases (less y x)) [
    | inl e ↦ rw e (All-insert less (R y) x ys (symm x y a.0) p.0, insert-Pairwise x ys a.1 p.1)
    | inr e ↦ rw e (a, p)
  ]

  pub sort-Pairwise : (xs : List A) → Pairwise R xs → Pairwise R (sort_by less xs)
  unfolding sort_by
  sort-Pairwise [] p = tt
  sort-Pairwise (x ∷ xs) p =
      insert-Pairwise x (sort_by less xs) (All-sort less (R x) xs p.0) (sort-Pairwise xs p.1)

pub All-map_mono {ℓ κ μ} :
    {A : Type ℓ} {P : A → Type κ} {Q : A → Type μ} (xs : List A)
    → ((x : A) → P x → Q x)
    → All P xs
    → All Q xs
All-map_mono [] f p = tt
All-map_mono (x ∷ xs) f p = (f x p.0, All-map_mono xs f p.1)

module _ {ℓ} {A : Type ℓ} (less : A → A → Bool)
    (asymm : (x y : A) → less x y ≡ true → less y x ≡ false)
    (chain : (x y z : A) → less y x ≡ false → less z y ≡ false → less z x ≡ false) where
  insert-Sorted : (x : A) (ys : List A) → Sorted less ys → Sorted less (insert_by less x ys)
  unfolding insert_by
  insert-Sorted x [] s = (tt, tt)
  insert-Sorted x (y ∷ ys) s = elim (Bool-cases (less y x)) [
    | inl e ↦
        rw e
          (All-insert less (λ z. less z y ≡ false) x ys (asymm y x e) s.0, insert-Sorted x ys s.1)
    | inr e ↦ rw e ((e, All-map_mono ys (λ z h. chain x y z e h) s.0), s)
  ]

  pub sort-Sorted : (xs : List A) → Sorted less (sort_by less xs)
  unfolding sort_by
  sort-Sorted [] = tt
  sort-Sorted (x ∷ xs) = insert-Sorted x (sort_by less xs) (sort-Sorted xs)

length-sum_by {ℓ} : {A : Type ℓ} (xs : List A) → sum_by (λ x. 1) xs ≡ length xs
length-sum_by [] = refl
length-sum_by (x ∷ xs) = omega (arith, length-sum_by xs)

pub length-sort {ℓ} :
    {A : Type ℓ} (less : A → A → Bool) (xs : List A) → length (sort_by less xs) ≡ length xs
length-sort less xs =
    omega (arith, length-sum_by xs, length-sum_by (sort_by less xs), sum_by-sort less (λ x. 1) xs)
