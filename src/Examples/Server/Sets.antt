-- ===== src/Examples/Server/Sets.antt =====
-- The sorted sets of the example database.
use mathlib.Core.Path.{subst}
use goqueue.Redis.Placement.Shift.{some_injective}
use goqueue.Base.{
  if◌then◌else◌, Bool-cases, Option-cases, is_some, is_none, length, take, select, ℤ, pos, pos_part,
  ◌+ℤ◌, ◌≤ℤ◌, ltb_ℤ, eq_ℤ, Text, text_eq, text_lt, text_eq_refl, text_eq-eq, sort_by, ℕ, zero, suc,
  ◌+◌, ◌<◌, ◌≡◌, refl, sym, ◌∙◌, inl, inr, Bool, true, false, ◌&&◌, not, Option, none, some, List,
  [], ◌∷◌, map, arith,
}
use goqueue.Redis.Commands.{Listed}
use goqueue.Examples.Server.{Cell, find, without, find-without}
use goqueue.Redis.Placement.Settles.{none≢some}

-- ZCARD: a cell that a later one repeats is not counted.
unfoldable pub count_place : Text → List (Cell ℤ) → ℕ
count_place k [] = 0
count_place k (c ∷ cs) =
    let rest = count_place k cs in
    if text_eq c.place k && is_none (find k c.part cs) then suc rest else rest

count_place-without_lem :
    (k m : Text) (cs : List (Cell ℤ))
    → count_place k cs ≡ count_place k (without k m cs) + (if is_some (find k m cs) then 1 else 0)
unfolding count_place find without
count_place-without_lem k m [] = refl
count_place-without_lem k m (c ∷ cs) = ground (
  arith,
  count_place-without_lem k m cs,
  find-without k m k c.part cs,
  text_eq-eq c.part m,
  text_eq_refl k,
  text_eq_refl m,
  text_eq-eq m c.part,
)

pub count_place-without :
    (k m : Text) (s : ℤ) (cs : List (Cell ℤ))
    → find k m cs ≡ some s
    → suc (count_place k (without k m cs)) ≡ count_place k cs
count_place-without k m s cs h = ground (arith, count_place-without_lem k m cs, h)

unfoldable pub members : Text → List (Cell ℤ) → List Text
members k [] = []
members k (c ∷ cs) = let rest = members k cs in if text_eq c.place k then c.part ∷ rest else rest

pub members-find :
    (k m : Text) (s : ℤ) (cs : List (Cell ℤ)) → find k m cs ≡ some s → Listed m (members k cs)
unfolding members find
members-find k m s [] h = absurd (ground arith)
members-find k m s (c ∷ cs) h = elim (Bool-cases (text_eq c.place k)) [
  | inr e ↦ rw (e, members) (members-find k m s cs (ground (arith, e, h)))
  | inl e ↦ elim (Bool-cases (text_eq c.part m)) [
    | inl f ↦ rw (e, members) (inl (sym (text_eq-eq c.part m f)))
    | inr f ↦ rw (e, members) (inr (members-find k m s cs (ground (arith, e, f, h))))
  ]
]

-- The member of the list with the lowest score.
abbrev lower : Text → ℤ → Option (Text × ℤ) → Text × ℤ
lower m s none = (m, s)
lower m s (some (i, t)) = if ltb_ℤ t s then (i, t) else (m, s)

unfoldable pub lowest : Text → List (Cell ℤ) → List Text → Option (Text × ℤ)
lowest k cs [] = none
lowest k cs (m ∷ ms) =
    let rest = lowest k cs ms in elim (find k m cs) [ none ↦ rest | some s ↦ some (lower m s rest) ]

-- What it comes to.
abbrev pub IsLowest : Text → List (Cell ℤ) → List Text → Option (Text × ℤ) → Type 0
IsLowest k cs ms none = (i : Text) → Listed i ms → find k i cs ≡ none
IsLowest k cs ms (some (m, s)) =
    (find k m cs ≡ some s) × ((i : Text) (t : ℤ) → Listed i ms → find k i cs ≡ some t → s ≤ℤ t)

same_score :
    (k m i : Text) (s t : ℤ) (cs : List (Cell ℤ))
    → find k m cs ≡ some s
    → i ≡ m
    → find k i cs ≡ some t
    → s ≤ℤ t
same_score k m i s t cs e same h =
    let both : s ≡ t = some_injective (sym e ∙ subst (λ u. find k u cs ≡ some t) same h) in
    ground (arith, both)

lower_step :
    (k m : Text) (s : ℤ) (cs : List (Cell ℤ)) (ms : List Text) (rest : Option (Text × ℤ))
    → find k m cs ≡ some s
    → IsLowest k cs ms rest
    → IsLowest k cs (m ∷ ms) (some (lower m s rest))
lower_step k m s cs ms none e low = (
  e,
  λ i t l h. elim l [
    | inl same ↦ same_score k m i s t cs e same h
    | inr there ↦ absurd (none≢some (sym (low i there) ∙ h))
  ],
)
lower_step k m s cs ms (some (j, u)) e (found, low) = elim (Bool-cases (ltb_ℤ u s)) [
  | inl f ↦ rw f (
    found,
    λ i t l h. elim l [
      | inl same ↦ ground (arith, same_score k m i s t cs e same h, f)
      | inr there ↦ low i t there h
    ],
  )
  | inr f ↦ rw f (
    e,
    λ i t l h. elim l [
      | inl same ↦ same_score k m i s t cs e same h
      | inr there ↦ ground (arith, low i t there h, f)
    ],
  )
]

IsLowest-step :
    (k m : Text) (cs : List (Cell ℤ)) (ms : List Text) (o : Option ℤ) (rest : Option (Text × ℤ))
    → find k m cs ≡ o
    → IsLowest k cs ms rest
    → IsLowest k cs (m ∷ ms) (elim o [ none ↦ rest | some s ↦ some (lower m s rest) ])
IsLowest-step k m cs ms (some s) rest e low = lower_step k m s cs ms rest e low
IsLowest-step k m cs ms none none e low =
    λ i l. elim l [ inl same ↦ rw same e | inr there ↦ low i there ]
IsLowest-step k m cs ms none (some (j, u)) e (found, low) = (
  found,
  λ i t l h. elim l [
    | inl same ↦ absurd (none≢some (sym e ∙ subst (λ v. find k v cs ≡ some t) same h))
    | inr there ↦ low i t there h
  ],
)

pub lowest-IsLowest :
    (k : Text) (cs : List (Cell ℤ)) (ms : List Text) → IsLowest k cs ms (lowest k cs ms)
unfolding lowest
lowest-IsLowest k cs [] = λ i l. absurd l
lowest-IsLowest k cs (m ∷ ms) =
    IsLowest-step k m cs ms (find k m cs) (lowest k cs ms) refl (lowest-IsLowest k cs ms)

due : Text → ℤ → List (Cell ℤ) → Text → Bool
due k top cs m = elim (find k m cs) [ none ↦ false | some s ↦ not (ltb_ℤ top s) ]

unfoldable pub range : Text → ℤ → ℕ → List (Cell ℤ) → List Text
unfolding due
range k top n cs = take n (select (due k top cs) (members k cs))

take-Listed : (m : Text) (n : ℕ) (ms : List Text) → Listed m (take n ms) → Listed m ms
take-Listed m zero ms l = absurd l
take-Listed m (suc n) [] l = absurd l
take-Listed m (suc n) (x ∷ ms) (inl e) = inl e
take-Listed m (suc n) (x ∷ ms) (inr l) = inr (take-Listed m n ms l)

take-all :
    (m : Text) (n : ℕ) (ms : List Text)
    → length (take n ms) < n
    → Listed m ms
    → Listed m (take n ms)
take-all m zero ms h l = absurd (omega arith)
take-all m (suc n) [] h l = absurd l
take-all m (suc n) (x ∷ ms) h (inl e) = inl e
take-all m (suc n) (x ∷ ms) h (inr l) = inr (take-all m n ms (omega (arith, h)) l)

select-Listed : (p : Text → Bool) (m : Text) (ms : List Text) → Listed m (select p ms) → p m ≡ true
select-Listed p m [] l = absurd l
select-Listed p m (x ∷ ms) l = elim (Bool-cases (p x)) [
  | inl e ↦ elim (subst (λ b. Listed m (if b then x ∷ select p ms else select p ms)) e l) [
    | inl same ↦ rw same e
    | inr there ↦ select-Listed p m ms there
  ]
  | inr e ↦
      select-Listed p m ms (subst (λ b. Listed m (if b then x ∷ select p ms else select p ms)) e l)
]

Listed-select :
    (p : Text → Bool) (m : Text) (ms : List Text)
    → p m ≡ true
    → Listed m ms
    → Listed m (select p ms)
Listed-select p m [] h l = absurd l
Listed-select p m (x ∷ ms) h (inl same) = rw (subst (λ u. p u ≡ true) same h) (inl same)
Listed-select p m (x ∷ ms) h (inr there) = elim (Bool-cases (p x)) [
  | inl e ↦ rw e (inr (Listed-select p m ms h there))
  | inr e ↦ rw e (Listed-select p m ms h there)
]

pub range_due_lem :
    (k m : Text) (top : ℤ) (n : ℕ) (cs : List (Cell ℤ))
    → Listed m (range k top n cs)
    → (s : ℤ) × (find k m cs ≡ some s) × (s ≤ℤ top)
unfolding range due
range_due_lem k m top n cs l =
    let h = select-Listed (due k top cs) m (members k cs) (take-Listed m n _ l) in
    elim (Option-cases (find k m cs)) [
      | inl e ↦ absurd (ground (arith, e, h))
      | inr (s, e) ↦ (s, e, ground (arith, e, h))
    ]

pub range_all_lem :
    (k m : Text) (top s : ℤ) (n : ℕ) (cs : List (Cell ℤ))
    → length (range k top n cs) < n
    → find k m cs ≡ some s
    → s ≤ℤ top
    → Listed m (range k top n cs)
unfolding range due
range_all_lem k m top s n cs few e le = take-all m n (select (due k top cs) (members k cs)) few (
    Listed-select (due k top cs) m (members k cs) (ground (arith, e, le)) (members-find k m s cs e))

-- ZRANGE from the first entry; a negative end counts from the last.
unfoldable pub by_score : Text → List (Cell ℤ) → List Text
by_score k cs =
    map (λ c. c.part)
      (sort_by
        (λ c c'. if eq_ℤ c.value c'.value then text_lt c.part c'.part else ltb_ℤ c.value c'.value)
        (select (λ c. text_eq c.place k) cs))

unfoldable pub first_to : ℤ → List Text → List Text
first_to stop ms =
    take (pos_part (if ltb_ℤ stop (pos 0) then pos (length ms) +ℤ stop +ℤ pos 1 else stop +ℤ pos 1))
      ms
