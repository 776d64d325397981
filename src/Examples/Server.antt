-- ===== src/Examples/Server.antt =====
-- A database and an encoding that meet what is asked of Redis, strconv, base64 and json: they show that the
-- hypotheses on them can hold. The entries of the sorted sets and the fields of the hashes are lists.
pub mod Sets
pub mod Instance
use goqueue.Base.{
  if◌then◌else◌, Bool-cases, Text, text_eq, text_eq_refl, text_eq-eq, ◌≡◌, refl, inl, inr, Bool,
  true, false, ◌&&◌, ◌||◌, Option, none, some, List, [], ◌∷◌, ◌++◌, arith,
}
use goqueue.Redis.Commands.{Fields, find_field, or_else}

pub record Cell (V : Type 0) : Type 0 where
  pub place : Text
  pub part : Text
  pub value : V

abbrev pub at : {V : Type 0} → Text → Text → Cell V → Bool
at k m c = text_eq c.place k && text_eq c.part m

module _ {V : Type 0} where
  unfoldable pub find : Text → Text → List (Cell V) → Option V
  find k m [] = none
  find k m (c ∷ cs) = let rest = find k m cs in if at k m c then some c.value else rest

  unfoldable pub without : Text → Text → List (Cell V) → List (Cell V)
  without k m [] = []
  without k m (c ∷ cs) = let rest = without k m cs in if at k m c then rest else c ∷ rest

  unfoldable pub put : Text → Text → V → List (Cell V) → List (Cell V)
  put k m v cs = record { place = k; part = m; value = v } ∷ without k m cs

  pub find-without :
      (k m j i : Text) (cs : List (Cell V))
      → find j i (without k m cs) ≡ (if text_eq k j && text_eq m i then none else find j i cs)
  unfolding find without
  find-without k m j i [] = ground arith
  find-without k m j i (c ∷ cs) = ground (
    arith,
    find-without k m j i cs,
    text_eq-eq c.place k,
    text_eq-eq c.part m,
    text_eq-eq c.place j,
    text_eq-eq c.part i,
    text_eq-eq k j,
    text_eq-eq m i,
    text_eq_refl k,
    text_eq_refl m,
  )

  pub find-put :
      (k m j i : Text) (v : V) (cs : List (Cell V))
      → find j i (put k m v cs) ≡ (if text_eq k j && text_eq m i then some v else find j i cs)
  unfolding find put
  find-put k m j i v cs = ground (arith, find-without k m j i cs)

-- HSET, one field after the other.
unfoldable pub put_all : Text → Fields → List (Cell Text) → List (Cell Text)
put_all k [] cs = cs
put_all k ((f, v) ∷ fs) cs = put_all k fs (put k f v cs)

pub find-put_all :
    (k j f : Text) (fs : Fields) (cs : List (Cell Text))
    → find j f (put_all k fs cs)
      ≡ (if text_eq k j then or_else (find_field f fs) (find j f cs) else find j f cs)
unfolding put_all find_field
find-put_all k j f [] cs = ground arith
find-put_all k j f ((g, v) ∷ fs) cs =
    ground (arith, find-put_all k j f fs (put k g v cs), find-put k g j f v cs)

unfoldable pub has_place : Text → List (Cell Text) → Bool
has_place k [] = false
has_place k (c ∷ cs) = text_eq c.place k || has_place k cs

pub has_place-find :
    (k : Text) (cs : List (Cell Text))
    → has_place k cs ≡ true
    → (f : Text) × (v : Text) × (find k f cs ≡ some v)
unfolding has_place find
has_place-find k [] h = absurd (ground arith)
has_place-find k (c ∷ cs) h = elim (Bool-cases (text_eq c.place k)) [
  | inl e ↦ (c.part, c.value, rw (e, find, text_eq_refl c.part) refl)
  | inr e ↦ let (f, v, g) = has_place-find k cs (ground (arith, e, h)) in (f, v, rw (e, find) g)
]

pub find-no_place :
    (k f : Text) (cs : List (Cell Text)) → has_place k cs ≡ false → find k f cs ≡ none
unfolding has_place find
find-no_place k f [] h = refl
find-no_place k f (c ∷ cs) h = ground (arith, find-no_place k f cs, h)

-- HGETALL
unfoldable pub fields_of : Text → List (Cell Text) → Fields
fields_of k [] = []
fields_of k (c ∷ cs) =
    let rest = fields_of k cs in if text_eq c.place k then rest ++ (c.part, c.value) ∷ [] else rest

find_field-last :
    (f g v : Text) (fs : Fields)
    → find_field f (fs ++ (g, v) ∷ []) ≡ (if text_eq g f then some v else find_field f fs)
unfolding find_field
find_field-last f g v [] = refl
find_field-last f g v ((h, w) ∷ fs) = ground (arith, find_field-last f g v fs)

pub find_field-fields_of :
    (k f : Text) (cs : List (Cell Text)) → find_field f (fields_of k cs) ≡ find k f cs
unfolding fields_of find find_field
find_field-fields_of k f [] = refl
find_field-fields_of k f (c ∷ cs) = elim (Bool-cases (text_eq c.place k)) [
  | inl e ↦
      rw (e, fields_of, find)
        (ground
          (arith, find_field-last f c.part c.value (fields_of k cs), find_field-fields_of k f cs))
  | inr e ↦ rw (e, fields_of, find) (find_field-fields_of k f cs)
]
