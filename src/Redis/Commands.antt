-- ===== src/Redis/Commands.antt =====
-- The Redis commands that the repositories, the broker and its Lua scripts call
-- (pkg/infrastructure/persistence/redis). The server is not part of the repository: its database is a
-- type R with these operations, and Documented says of them what the Redis manual does. Each key is
-- used with one type of value, so that a command never meets a value of the wrong type.
use goqueue.Base.{
  if◌then◌else◌, length, ℤ, pos, ◌≤ℤ◌, ltb_ℤ, Text, text_eq, ℕ, suc, ◌<◌, ◌≡◌, ◌⊎◌, Bool, true,
  false, ◌&&◌, Option, none, some, List, [], ◌∷◌,
}

-- The field/value pairs of a hash.
abbrev pub Fields : Type 0
Fields = List (Text × Text)

-- A later pair overwrites an earlier one.
unfoldable pub find_field : Text → Fields → Option Text
find_field f [] = none
find_field f ((g, v) ∷ fields) = elim (find_field f fields) [
  | some w ↦ some w
  | none ↦ if text_eq g f then some v else none
]

abbrev pub or_else {ℓ} : {A : Type ℓ} → Option A → Option A → Option A
or_else none b = b
or_else (some a) b = some a

abbrev pub Listed : Text → List Text → Type 0
Listed a [] = ⊥
Listed a (b ∷ bs) = (a ≡ b) ⊎ Listed a bs

pub record Commands (R : Type 0) : Type 0 where
  -- Sorted sets: ZSCORE, ZADD, ZREM, ZCARD, ZPOPMIN key 1, ZRANGE key 0 stop, and ZRANGEBYSCORE key -inf
  -- max LIMIT 0 n
  pub zscore : Text → Text → R → Option ℤ
  pub zadd : Text → ℤ → Text → R → R
  pub zrem : Text → Text → R → R
  pub zcard : Text → R → ℕ
  pub zpopmin : Text → R → Option Text × R
  pub zrange : Text → ℤ → R → List Text
  pub zrangebyscore : Text → ℤ → ℕ → R → List Text
  -- Hashes: EXISTS on the key of one, HGET, HGETALL, HSET, HSETNX, and DEL
  pub exists : Text → R → Bool
  pub hget : Text → Text → R → Option Text
  pub hgetall : Text → R → Fields
  pub hset : Text → Fields → R → R
  pub hsetnx : Text → Text → Text → R → R
  pub del : Text → R → R
  -- Sets: SADD, SISMEMBER, SMEMBERS
  pub sadd : Text → Text → R → R
  pub sismember : Text → Text → R → Bool
  pub smembers : Text → R → List Text
  -- Strings: SETNX with a time to live, GET
  pub setnx : Text → Text → ℤ → R → Bool × R
  pub get : Text → R → Option Text
  -- EXPIRE and PERSIST
  pub expire : Text → ℤ → R → R
  pub persist : Text → R → R

pub record Documented {R : Type 0} (C : Commands R) : Type 0 where
  pub zscore_zadd :
      (k m j i : Text) (s : ℤ) (r : R)
      → C.zscore j i (C.zadd k s m r)
        ≡ (if text_eq k j && text_eq m i then some s else C.zscore j i r)
  pub zscore_zrem :
      (k m j i : Text) (r : R)
      → C.zscore j i (C.zrem k m r) ≡ (if text_eq k j && text_eq m i then none else C.zscore j i r)
  pub zscore_hset :
      (k j i : Text) (fs : Fields) (r : R) → C.zscore j i (C.hset k fs r) ≡ C.zscore j i r
  pub zscore_sadd : (k m j i : Text) (r : R) → C.zscore j i (C.sadd k m r) ≡ C.zscore j i r
  -- EXPIRE with a positive time to live; with any other it would delete the key.
  pub zscore_expire :
      (k j i : Text) (t : ℤ) (r : R)
      → ltb_ℤ (pos 0) t ≡ true
      → C.zscore j i (C.expire k t r) ≡ C.zscore j i r
  pub zscore_persist : (k j i : Text) (r : R) → C.zscore j i (C.persist k r) ≡ C.zscore j i r
  pub hget_zadd : (k m j f : Text) (s : ℤ) (r : R) → C.hget j f (C.zadd k s m r) ≡ C.hget j f r
  pub hget_zrem : (k m j f : Text) (r : R) → C.hget j f (C.zrem k m r) ≡ C.hget j f r
  pub hgetall_zrem : (k m j : Text) (r : R) → C.hgetall j (C.zrem k m r) ≡ C.hgetall j r
  pub exists_zrem :
      (k m j : Text) (r : R) → text_eq k j ≡ false → C.exists j (C.zrem k m r) ≡ C.exists j r
  pub hget_sadd : (k m j f : Text) (r : R) → C.hget j f (C.sadd k m r) ≡ C.hget j f r
  pub hget_hset :
      (k j f : Text) (fs : Fields) (r : R)
      → C.hget j f (C.hset k fs r)
        ≡ (if text_eq k j then or_else (find_field f fs) (C.hget j f r) else C.hget j f r)
  pub hget_expire :
      (k j f : Text) (t : ℤ) (r : R)
      → ltb_ℤ (pos 0) t ≡ true
      → C.hget j f (C.expire k t r) ≡ C.hget j f r
  pub hget_persist : (k j f : Text) (r : R) → C.hget j f (C.persist k r) ≡ C.hget j f r
  pub hget_hsetnx :
      (k g j f v : Text) (r : R)
      → C.hget j f (C.hsetnx k g v r)
        ≡ (if text_eq k j && text_eq g f then or_else (C.hget j f r) (some v) else C.hget j f r)
  pub sismember_sadd : (k m : Text) (r : R) → C.sismember k m (C.sadd k m r) ≡ true
  pub sismember_hset :
      (k j m : Text) (fs : Fields) (r : R) → C.sismember j m (C.hset k fs r) ≡ C.sismember j m r
  pub sismember_hsetnx :
      (k f v j m : Text) (r : R) → C.sismember j m (C.hsetnx k f v r) ≡ C.sismember j m r
  -- SETNX writes only where no value is.
  pub setnx_free :
      (k v : Text) (t : ℤ) (r : R)
      → C.get k r ≡ none
      → ((C.setnx k v t r).0 ≡ true) × (C.get k (C.setnx k v t r).1 ≡ some v)
  pub setnx_taken :
      (k v w : Text) (t : ℤ) (r : R)
      → C.get k r ≡ some w
      → ((C.setnx k v t r).0 ≡ false) × ((C.setnx k v t r).1 ≡ r)
  pub hgetall_hget : (k f : Text) (r : R) → find_field f (C.hgetall k r) ≡ C.hget k f r
  -- A hash exists while it has a field.
  pub exists_field :
      (k : Text) (r : R) → C.exists k r ≡ true → (f : Text) × (v : Text) × (C.hget k f r ≡ some v)
  pub missing_field : (k f : Text) (r : R) → C.exists k r ≡ false → C.hget k f r ≡ none
  pub zpopmin_none :
      (k : Text) (r : R)
      → (C.zpopmin k r).0 ≡ none
      → ((C.zpopmin k r).1 ≡ r) × ((i : Text) → C.zscore k i r ≡ none)
  pub zpopmin_some :
      (k m : Text) (r : R)
      → (C.zpopmin k r).0 ≡ some m
      → ((C.zpopmin k r).1 ≡ C.zrem k m r)
        × (s : ℤ) × (C.zscore k m r ≡ some s)
        × ((i : Text) (t : ℤ) → C.zscore k i r ≡ some t → s ≤ℤ t)
  pub zcard_zrem :
      (k m : Text) (s : ℤ) (r : R)
      → C.zscore k m r ≡ some s
      → suc (C.zcard k (C.zrem k m r)) ≡ C.zcard k r
  pub range_due :
      (k m : Text) (top : ℤ) (n : ℕ) (r : R)
      → Listed m (C.zrangebyscore k top n r)
      → (s : ℤ) × (C.zscore k m r ≡ some s) × (s ≤ℤ top)
  pub range_all :
      (k m : Text) (top s : ℤ) (n : ℕ) (r : R)
      → length (C.zrangebyscore k top n r) < n
      → C.zscore k m r ≡ some s
      → s ≤ℤ top
      → Listed m (C.zrangebyscore k top n r)
