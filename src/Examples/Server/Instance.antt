-- ===== src/Examples/Server/Instance.antt =====
-- The example database and the example encoding as instances of the interfaces.
use mathlib.Core.Path.{subst}
use goqueue.Redis.Placement.Shift.{some_injective}
use goqueue.Base.{
  if◌then◌else◌, Bool-cases, Option-cases, is_some, All, ℤ, pos, negsuc, ◌≤ℤ◌, Text, is_empty,
  text_eq, text_eq_refl, text_eq-eq, ℕ, zero, suc, ◌≡◌, refl, sym, ap, ◌∙◌, inl, inr, Bool, true,
  false, ◌&&◌, Option, none, some, List, [], ◌∷◌, arith,
}
use goqueue.Redis.Commands.{or_else, Listed, Commands, Documented}
use goqueue.Examples.Server.{
  Cell, find, without, put, find-without, find-put, put_all, find-put_all, has_place,
  has_place-find, find-no_place, fields_of, find_field-fields_of,
}
use goqueue.Examples.Server.Sets.{
  count_place, count_place-without, members, members-find, lowest, IsLowest, lowest-IsLowest, range,
  range_due_lem, range_all_lem, by_score, first_to,
}
use goqueue.Redis.Placement.Settles.{none≢some}
use goqueue.Errors.{plain, ok, err}
use goqueue.Redis.Documents.{AttemptModel, Encoding}
use goqueue.Redis.Documents.RoundTrip.{Faithful}

pub record Database : Type 0 where
  pub sets : List (Cell ℤ)
  pub hashes : List (Cell Text)
  pub names : List (Cell Text)
  pub strings : List (Cell Text)

abbrev pub empty_database : Database
empty_database = record { sets = []; hashes = []; names = []; strings = [] }

unfoldable pub pop_lowest : Text → Option (Text × ℤ) → Database → Option Text × Database
pop_lowest k none d = (none, d)
pop_lowest k (some (m, s)) d = (some m, record d { sets = without k m d.sets })

unfoldable pub names_at : Text → List (Cell Text) → List Text
names_at k [] = []
names_at k (c ∷ cs) = let rest = names_at k cs in if text_eq c.place k then c.part ∷ rest else rest

unfoldable pub drop_place : {V : Type 0} → Text → List (Cell V) → List (Cell V)
drop_place k [] = []
drop_place k (c ∷ cs) = let rest = drop_place k cs in if text_eq c.place k then rest else c ∷ rest

unfoldable pub setnx_at : Text → Text → Database → Bool × Database
setnx_at k v d =
    if is_some (find k [] d.strings)
    then (false, d)
    else (true, record d { strings = put k [] v d.strings })

abbrev pub database : Commands Database
database = record {
  zscore = λ k m d. find k m d.sets;
  zadd = λ k s m d. record d { sets = put k m s d.sets };
  zrem = λ k m d. record d { sets = without k m d.sets };
  zcard = λ k d. count_place k d.sets;
  zpopmin = λ k d. pop_lowest k (lowest k d.sets (members k d.sets)) d;
  zrange = λ k stop d. first_to stop (by_score k d.sets);
  zrangebyscore = λ k top n d. range k top n d.sets;
  exists = λ k d. has_place k d.hashes;
  hget = λ k f d. find k f d.hashes;
  hgetall = λ k d. fields_of k d.hashes;
  hset = λ k fs d. record d { hashes = put_all k fs d.hashes };
  hsetnx = λ k f v d. record d {
    hashes = if is_some (find k f d.hashes) then d.hashes else put k f v d.hashes;
  };
  del = λ k d. record {
    sets = drop_place k d.sets;
    hashes = drop_place k d.hashes;
    names = drop_place k d.names;
    strings = drop_place k d.strings;
  };
  sadd = λ k m d. record d { names = put k m [] d.names };
  sismember = λ k m d. is_some (find k m d.names);
  smembers = λ k d. names_at k d.names;
  setnx = λ k v t d. setnx_at k v d;
  get = λ k d. find k [] d.strings;
  expire = λ k t d. d;
  persist = λ k d. d;
}

nothing_at :
    (k i : Text) (cs : List (Cell ℤ))
    → ((m : Text) → Listed m (members k cs) → find k m cs ≡ none)
    → find k i cs ≡ none
nothing_at k i cs low = elim (Option-cases (find k i cs)) [
  | inl e ↦ e
  | inr (t, e) ↦ low i (members-find k i t cs e)
]

popped_none :
    (k : Text) (d : Database) (o : Option (Text × ℤ))
    → IsLowest k d.sets (members k d.sets) o
    → (pop_lowest k o d).0 ≡ none
    → ((pop_lowest k o d).1 ≡ d) × ((i : Text) → find k i d.sets ≡ none)
unfolding pop_lowest
popped_none k d none low e = (refl, λ i. nothing_at k i d.sets low)
popped_none k d (some (m, s)) low e = absurd (none≢some (sym e))

popped_some :
    (k m : Text) (d : Database) (o : Option (Text × ℤ))
    → IsLowest k d.sets (members k d.sets) o
    → (pop_lowest k o d).0 ≡ some m
    → ((pop_lowest k o d).1 ≡ record d { sets = without k m d.sets })
      × (s : ℤ) × (find k m d.sets ≡ some s)
      × ((i : Text) (t : ℤ) → find k i d.sets ≡ some t → s ≤ℤ t)
unfolding pop_lowest
popped_some k m d none low e = absurd (none≢some e)
popped_some k m d (some (j, s)) (found, low) e =
    let same : j ≡ m = some_injective e in
    (
      ap (λ u. record d { sets = without k u d.sets }) same,
      s,
      subst (λ u. find k u d.sets ≡ some s) same found,
      λ i t h. low i t (members-find k i t d.sets h) h,
    )

same_place :
    (k g j f v : Text) (cs : List (Cell Text))
    → text_eq k j ≡ true
    → text_eq g f ≡ true
    → find j f (if is_some (find k g cs) then cs else put k g v cs)
      ≡ (if text_eq k j && text_eq g f then or_else (find j f cs) (some v) else find j f cs)
same_place k g j f v cs a b =
    let e : k ≡ j = text_eq-eq k j a in
    let d : g ≡ f = text_eq-eq g f b in
    elim (Option-cases (find j f cs)) [
      | inl n ↦
          rw (e, d, n, text_eq_refl j, text_eq_refl f)
            (find-put j f j f v cs ∙ rw (text_eq_refl j, text_eq_refl f) refl)
      | inr (w, n) ↦ rw (e, d, n, text_eq_refl j, text_eq_refl f, or_else) n
    ]

hget_hsetnx_lem :
    (k g j f v : Text) (cs : List (Cell Text))
    → find j f (if is_some (find k g cs) then cs else put k g v cs)
      ≡ (if text_eq k j && text_eq g f then or_else (find j f cs) (some v) else find j f cs)
hget_hsetnx_lem k g j f v cs = elim (Bool-cases (text_eq k j && text_eq g f)) [
  | inl e ↦ same_place k g j f v cs (ground (arith, e)) (ground (arith, e))
  | inr e ↦ elim (Option-cases (find k g cs)) [
    | inl d ↦ rw (e, d) (find-put k g j f v cs ∙ rw e refl)
    | inr (w, d) ↦ rw (e, d) refl
  ]
]

sismember_lem : (k m : Text) (cs : List (Cell Text)) → is_some (find k m (put k m [] cs)) ≡ true
sismember_lem k m cs = rw (find-put k m k m [] cs, text_eq_refl k, text_eq_refl m) refl

free_lem :
    (k v : Text) (d : Database)
    → find k [] d.strings ≡ none
    → ((setnx_at k v d).0 ≡ true) × (find k [] (setnx_at k v d).1.strings ≡ some v)
unfolding setnx_at
free_lem k v d e =
    rw e (refl, find-put k [] k [] v d.strings ∙ rw (text_eq_refl k, text_eq_refl []) refl)

taken_lem :
    (k v w : Text) (d : Database)
    → find k [] d.strings ≡ some w
    → ((setnx_at k v d).0 ≡ false) × ((setnx_at k v d).1 ≡ d)
unfolding setnx_at
taken_lem k v w d e = rw e (refl, refl)

pub database-Documented : Documented database
database-Documented = record {
  zscore_zadd = λ k m j i s r. find-put k m j i s r.sets;
  zscore_zrem = λ k m j i r. find-without k m j i r.sets;
  zscore_hset = λ k j i fs r. refl;
  zscore_sadd = λ k m j i r. refl;
  zscore_expire = λ k j i t r e. refl;
  zscore_persist = λ k j i r. refl;
  hget_zadd = λ k m j f s r. refl;
  hget_zrem = λ k m j f r. refl;
  hgetall_zrem = λ k m j r. refl;
  exists_zrem = λ k m j r h. refl;
  hget_sadd = λ k m j f r. refl;
  hget_hset = λ k j f fs r. find-put_all k j f fs r.hashes;
  hget_expire = λ k j f t r e. refl;
  hget_persist = λ k j f r. refl;
  hget_hsetnx = λ k g j f v r. hget_hsetnx_lem k g j f v r.hashes;
  sismember_sadd = λ k m r. sismember_lem k m r.names;
  sismember_hset = λ k j m fs r. refl;
  sismember_hsetnx = λ k f v j m r. refl;
  setnx_free = λ k v t r e. free_lem k v r e;
  setnx_taken = λ k v w t r e. taken_lem k v w r e;
  hgetall_hget = λ k f r. find_field-fields_of k f r.hashes;
  exists_field = λ k r h. has_place-find k r.hashes h;
  missing_field = λ k f r h. find-no_place k f r.hashes h;
  zpopmin_none = λ k r h.
      popped_none k r (lowest k r.sets (members k r.sets))
        (lowest-IsLowest k r.sets (members k r.sets)) h;
  zpopmin_some = λ k m r h.
      popped_some k m r (lowest k r.sets (members k r.sets))
        (lowest-IsLowest k r.sets (members k r.sets)) h;
  zcard_zrem = λ k m s r h. count_place-without k m s r.sets h;
  range_due = λ k m top n r l. range_due_lem k m top n r.sets l;
  range_all = λ k m top s n r few e le. range_all_lem k m top s n r.sets few e le;
}

-- A number is one unit with a mark before it.
unfoldable pub show_int : ℤ → Text
show_int (pos n) = 0 ∷ n ∷ []
show_int (negsuc n) = 1 ∷ n ∷ []

unfoldable pub read_int : Text → Option ℤ
read_int (zero ∷ n ∷ []) = some (pos n)
read_int (suc m ∷ n ∷ []) = some (negsuc n)
read_int t = none

unfoldable pub show_uint : ℕ → Text
show_uint n = n ∷ []

unfoldable pub read_uint : Text → Option ℕ
read_uint (n ∷ []) = some n
read_uint t = none

abbrev mark : ℤ → ℕ
mark (pos n) = 0
mark (negsuc n) = 1

abbrev size : ℤ → ℕ
size (pos n) = n
size (negsuc n) = n

abbrev marked : ℕ → ℕ → ℤ
marked zero n = pos n
marked (suc m) n = negsuc n

-- An attempt without texts is five units.
unfoldable pub show_attempts : List AttemptModel → Text
show_attempts [] = []
show_attempts (a ∷ attempts) =
    a.number
    ∷ mark a.started_at_ms
    ∷ size a.started_at_ms
    ∷ mark a.finished_at_ms
    ∷ size a.finished_at_ms
    ∷ show_attempts attempts

unfoldable pub read_attempts_from : Text → List AttemptModel
read_attempts_from (n ∷ m ∷ s ∷ k ∷ f ∷ rest) =
    record {
      number = n;
      started_at_ms = marked m s;
      finished_at_ms = marked k f;
      error = [];
      worker = [];
    }
    ∷ read_attempts_from rest
read_attempts_from t = []

abbrev pub encoding : Encoding
encoding = record {
  format_int = show_int;
  parse_int = read_int;
  format_uint = show_uint;
  parse_uint = read_uint;
  encode_base64 = λ t. t;
  decode_base64 = λ t. ok t;
  marshal_attempts = λ attempts. ok (0 ∷ show_attempts attempts);
  unmarshal_attempts =
      λ t. elim t [ [] ↦ err (plain []) | c ∷ rest ↦ ok (read_attempts_from rest) ];
  valid_string = is_empty;
}

read_show_int : (z : ℤ) → (read_int (show_int z) ≡ some z) × (is_empty (show_int z) ≡ false)
unfolding read_int show_int
read_show_int (pos n) = (refl, refl)
read_show_int (negsuc n) = (refl, refl)

marked_lem : (z : ℤ) → marked (mark z) (size z) ≡ z
marked_lem (pos n) = refl
marked_lem (negsuc n) = refl

empty_lem : (t : Text) → is_empty t ≡ true → t ≡ []
empty_lem [] h = refl
empty_lem (c ∷ t) h = absurd (ground arith)

read_show_attempts :
    (attempts : List AttemptModel)
    → All (λ (a : AttemptModel). (is_empty a.error ≡ true) × (is_empty a.worker ≡ true)) attempts
    → read_attempts_from (show_attempts attempts) ≡ attempts
unfolding read_attempts_from show_attempts
read_show_attempts [] h = refl
read_show_attempts (a ∷ attempts) ((e, w), t) = cc (
  read_show_attempts attempts t,
  marked_lem a.started_at_ms,
  marked_lem a.finished_at_ms,
  empty_lem a.error e,
  empty_lem a.worker w,
)

pub encoding-Faithful : Faithful encoding
unfolding read_uint show_uint
encoding-Faithful = record {
  parse_format_int = λ z h. read_show_int z;
  parse_format_uint = λ n h. (refl, refl);
  decode_encode = λ t. refl;
  unmarshal_marshal = λ attempts h.
      (0 ∷ show_attempts attempts, refl, refl, ap (λ l. ok l) (read_show_attempts attempts h));
}
