-- ===== src/Redis/Listing/Pages.antt =====
-- The pages of a listing of one set. ZRANGE gives the entries with the lowest scores, and the page is cut
-- from them after they are sorted the other way round.
use mathlib.Core.List.{append-nil, reverse-cons, reverse-append}
use goqueue.Base.{
  if◌then◌else◌, length, take, drop, length-append, ℤ, pos, pos_part, ◌+ℤ◌, ◌-ℤ◌, ltb_ℤ, wrap64,
  wrap64-eq, Text, is_empty, Backward, sort_by-reverse, ℕ, ◌+◌, ◌-◌, ◌^◌, ◌≤◌, ◌<◌, ◌≡◌, refl, sym,
  ap, ◌∙◌, true, false, some, List, [], ◌∷◌, ◌++◌, reverse, arith,
}
use goqueue.Job.{Job}
use goqueue.Store.Repo.{JobFilter, newer}
use goqueue.Redis.Listing.{
  ListLinks, list_limit, list_offset, valid_ids, of_task_type, page_of, collect_states,
  collect_queues, list_over, repo_list,
}
use goqueue.Errors.{Result, ok}
use goqueue.Values.States.{JobState}
use goqueue.Redis.{KeyBuilder, state_set}
use goqueue.Redis.Commands.{Commands}
use goqueue.Redis.Documents.{Encoding}
use goqueue.Redis.Broker.{answered}
use goqueue.Redis.Repo.{read_reply, resolve_states, load_jobs, load_many, resolve_queues}

module _ {A : Type 0} where
  length-reverse : (xs : List A) → length (reverse xs) ≡ length xs
  length-reverse [] = refl
  length-reverse (x ∷ xs) =
      rw (reverse-cons x xs) (omega (arith, length-append (reverse xs) (x ∷ []), length-reverse xs))

  drop-append : (xs ys : List A) → drop (length xs) (xs ++ ys) ≡ ys
  drop-append [] ys = refl
  drop-append (x ∷ xs) ys = drop-append xs ys

  take-all : (xs : List A) → take (length xs) xs ≡ xs
  take-all [] = refl
  take-all (x ∷ xs) = ap (x ∷◌) (take-all xs)

  -- What is left behind the newer part of a list that was turned round.
  page_slice :
      (xs ys : List A) → take (length xs) (drop (length ys) (reverse (xs ++ ys))) ≡ reverse xs
  page_slice xs ys =
      rw
        (
          reverse-append xs ys,
          sym (length-reverse ys),
          drop-append (reverse ys) (reverse xs),
          sym (length-reverse xs),
          take-all (reverse xs),
        )
        refl

offset_inside : (m n : ℕ) → 0 < n → ltb_ℤ (pos m) (pos (n + m)) ≡ true
offset_inside m n h = ground arith

page_width :
    (m n : ℕ)
    → pos_part (if ltb_ℤ (pos (n + m)) (pos (m + n)) then pos (n + m) else pos (m + n))
        - pos_part (pos m)
      ≡ n
page_width m n = ground arith

-- The page from the offset on, where exactly the jobs up to its end were loaded, oldest first.
page_of-reverse :
    (js ks : List Job) (sum : ℕ)
    → 0 < length js
    → Backward newer (js ++ ks)
    → page_of (pos (length ks)) (pos (length ks + length js)) (js ++ ks, sum)
      ≡ record { page_jobs = reverse js; page_total = sum }
unfolding page_of
page_of-reverse js ks sum some_jobs back =
    rw
      (
        page_of,
        sort_by-reverse newer (js ++ ks) back,
        length-reverse (js ++ ks),
        length-append js ks,
        offset_inside (length ks) (length js) some_jobs,
        page_width (length ks) (length js),
        page_slice js ks,
      )
      refl

-- No call fails.
abbrev pub all_answered : ListLinks
all_answered = record {
  registry = answered;
  counts = λ key. answered;
  ranges = λ key. answered;
  documents = answered;
}

-- The filter on one set.
abbrev pub one_set : Text → JobState → ℤ → ℤ → JobFilter
one_set queue s offset limit = record {
  filter_queue = queue;
  filter_state = some s;
  filter_task_type = [];
  offset = offset;
  limit = limit;
}

list_limit-small : (n : ℕ) → 0 < n → n ≤ 500 → list_limit (pos n) ≡ pos n
unfolding list_limit
list_limit-small n h h' = ground arith

list_offset-pos : (m : ℕ) → list_offset (pos m) ≡ pos m
unfolding list_offset
list_offset-pos m = ground arith

pos_plus : (m n : ℕ) → pos m +ℤ pos n ≡ pos (m + n)
unfolding ◌+ℤ◌
pos_plus m n = ground arith

stop_of : (m n : ℕ) → m + n < 2 ^ 63 → wrap64 (pos m +ℤ pos n) ≡ pos (m + n)
stop_of m n h = ap wrap64 (pos_plus m n) ∙ wrap64-eq (pos (m + n)) (h, omega arith)

not_negative : (n : ℕ) → ltb_ℤ (pos n) (pos 0) ≡ false
not_negative n = ground arith

module _ {R : Type 0} (C : Commands R) (E : Encoding) (K : KeyBuilder) where
  load_many-answered :
      (ids : List Text) (r : R) → load_many C E K answered ids r ≡ ok (load_jobs C E K ids r)
  unfolding load_many load_jobs read_reply
  load_many-answered [] r = refl
  load_many-answered (id ∷ ids) r = refl

  collect_one :
      (stop : ℤ) (queue : Text) (s : JobState) (r : R)
      → collect_queues C E K all_answered stop (queue ∷ []) (s ∷ []) r
        ≡ ok (
          valid_ids (C.zrange (state_set K queue s) (stop -ℤ pos 1) r),
          C.zcard (state_set K queue s) r,
        )
  unfolding collect_queues collect_states read_reply
  collect_one stop queue s r =
      ap {B = Result (List Text × ℕ)} (λ p. ok p)
        (ap {B = List Text × ℕ} (λ ids. (ids, C.zcard (state_set K queue s) r + 0 + 0))
            (append-nil _ ∙ append-nil _)
          ∙ ap {B = List Text × ℕ}
              (λ n. (valid_ids (C.zrange (state_set K queue s) (stop -ℤ pos 1) r), n))
              (omega arith))

  list_over-one :
      (queue : Text) (s : JobState) (offset limit stop : ℤ) (jobs : List Job) (r : R)
      → load_jobs C E K (valid_ids (C.zrange (state_set K queue s) (stop -ℤ pos 1) r)) r ≡ jobs
      → list_over C E K all_answered (one_set queue s offset limit) offset stop (queue ∷ []) r
        ≡ ok (page_of offset stop (jobs, C.zcard (state_set K queue s) r))
  unfolding list_over resolve_states of_task_type
  list_over-one queue s offset limit stop jobs r loaded =
      rw (list_over, resolve_states, collect_one stop queue s r, load_many-answered, loaded) refl

  -- List of one queue and one state, without a task type, where make grants the capacity, no call fails,
  -- and the entries with the lowest scores, up to the end of the page, load as `js` and then `ks`, each job
  -- before the ones in front of it in the order of sort.go: the page of `length js` jobs at the offset
  -- `length ks` is `js` the other way round. So the jobs with the lowest scores are what every offset shows,
  -- while the total counts the whole set.
  pub repo_list_repeats :
      (max_cap : ℤ) (queue : Text) (s : JobState) (js ks : List Job) (r : R)
      → is_empty queue ≡ false
      → 0 < length js
      → length js ≤ 500
      → length ks + length js < 2 ^ 63
      → ltb_ℤ max_cap (pos (length ks + length js)) ≡ false
      → load_jobs C E K
          (valid_ids (C.zrange (state_set K queue s) (pos (length ks + length js) -ℤ pos 1) r))
          r
        ≡ js ++ ks
      → Backward newer (js ++ ks)
      → repo_list C E K max_cap all_answered (one_set queue s (pos (length ks)) (pos (length js))) r
        ≡ some
            (ok (record { page_jobs = reverse js; page_total = C.zcard (state_set K queue s) r }))
  unfolding repo_list resolve_queues
  repo_list_repeats max_cap queue s js ks r named some_jobs small short granted loaded back =
      rw
        (
          repo_list,
          resolve_queues,
          named,
          list_limit-small (length js) some_jobs small,
          list_offset-pos (length ks),
          stop_of (length ks) (length js) short,
          not_negative (length ks + length js),
          granted,
          list_over-one queue s (pos (length ks)) (pos (length js)) (pos (length ks + length js))
              (js ++ ks) r loaded,
          page_of-reverse js ks (C.zcard (state_set K queue s) r) some_jobs back,
        )
        refl
