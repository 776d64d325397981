-- ===== src/Store/Choice.antt =====
-- Which job `Dequeue` takes.
use goqueue.Base.{
  if◌then◌else◌, Bool-cases, All, Text, text_lt_irrefl, text_lt-asymm, text_lt-total, text_lt-chain,
  ◌≡◌, refl, ◌⊎◌, inl, inr, true, false, ◌&&◌, Option, none, some, List, [], ◌∷◌, arith,
}
use goqueue.Job.{Job}
use goqueue.Store.Maps.{Member}
use goqueue.Store.Broker.{beats, is_eligible, best_from, is_paused_queue, choose}
use goqueue.Store.Defs.{Store}

beats_irrefl : (a : Job) → beats a a ≡ false
unfolding beats
beats_irrefl a = ground (arith, text_lt_irrefl a.id)

beats-chain : (a b c : Job) → beats b a ≡ false → beats c b ≡ false → beats c a ≡ false
unfolding beats
beats-chain a b c h k = ground (arith, text_lt-chain a.id b.id c.id)

beats-asymm : (a b : Job) → beats a b ≡ true → beats b a ≡ false
unfolding beats
beats-asymm a b h = ground (arith, text_lt-asymm a.id b.id)

-- Of two jobs with distinct ids one beats the other.
pub beats-total : (a b : Job) → beats a b ≡ false → beats b a ≡ false → a.id ≡ b.id
unfolding beats
beats-total a b h k = ground (arith, text_lt-total a.id b.id)

-- A job that may be taken from the queue, and that no other such job beats.
abbrev pub IsBest : Text → Job → List Job → Type 0
IsBest queue b js =
    Member b js
    × (is_eligible queue b ≡ true)
    × All (λ j. is_eligible queue j ≡ true → beats j b ≡ false) js

-- What a scan comes to that holds the best job so far.
record Scanned (queue : Text) (held : Job) (js : List Job) : Type 0 where
  won : Job
  result : best_from queue (some held) js ≡ some won
  origin : (won ≡ held) ⊎ Member won js
  eligible : is_eligible queue won ≡ true
  beats_held : beats held won ≡ false
  beats_all : All (λ j. is_eligible queue j ≡ true → beats j won ≡ false) js

scan_taken :
    (queue : Text) (held j : Job) (js : List Job)
    → is_eligible queue j && beats j held ≡ true
    → Scanned queue j js
    → Scanned queue held (j ∷ js)
unfolding best_from
scan_taken queue held j js e s = record {
  won = s.won;
  result = rw e s.result;
  origin = elim s.origin [ inl p ↦ inr (inl p) | inr m ↦ inr (inr m) ];
  eligible = s.eligible;
  beats_held = beats-chain s.won j held s.beats_held (beats-asymm j held (ground arith));
  beats_all = (λ el. s.beats_held, s.beats_all);
}

scan_kept :
    (queue : Text) (held j : Job) (js : List Job)
    → is_eligible queue j && beats j held ≡ false
    → Scanned queue held js
    → Scanned queue held (j ∷ js)
unfolding best_from
scan_kept queue held j js e s = record {
  won = s.won;
  result = rw e s.result;
  origin = elim s.origin [ inl p ↦ inl p | inr m ↦ inr (inr m) ];
  eligible = s.eligible;
  beats_held = s.beats_held;
  beats_all = (λ el. beats-chain s.won held j s.beats_held (ground arith), s.beats_all);
}

scan :
    (queue : Text) (held : Job) (js : List Job)
    → is_eligible queue held ≡ true
    → Scanned queue held js
unfolding best_from
scan queue held [] el = record {
  won = held;
  result = refl;
  origin = inl refl;
  eligible = el;
  beats_held = beats_irrefl held;
  beats_all = tt;
}
scan queue held (j ∷ js) el = elim (Bool-cases (is_eligible queue j && beats j held)) [
  | inl e ↦ scan_taken queue held j js e (scan queue j js (ground arith))
  | inr e ↦ scan_kept queue held j js e (scan queue held js el)
]

-- No job of the queue may be taken.
abbrev pub Idle : Text → List Job → Type 0
Idle queue = All (λ j. is_eligible queue j ≡ false)

-- The scan of a queue finds a best job, or there is none to take.
pub best_from-cases :
    (queue : Text) (js : List Job)
    → ((best_from queue none js ≡ none) × Idle queue js)
      ⊎ ((b : Job) × (best_from queue none js ≡ some b) × IsBest queue b js)
unfolding best_from
best_from-cases queue [] = inl (refl, tt)
best_from-cases queue (j ∷ js) = elim (Bool-cases (is_eligible queue j)) [
  | inl e ↦
      let s = scan queue j js e in
      inr (s.won, rw e s.result, (s.origin, s.eligible, ((λ el. s.beats_held), s.beats_all)))
  | inr e ↦ elim (best_from-cases queue js) [
    | inl (r, idle) ↦ inl (rw e r, (e, idle))
    | inr (b, r, best) ↦
        inr (b, rw e r, (inr best.0, best.1, ((λ el. absurd (ground arith)), best.2)))
  ]
]

-- What a worker that polls the queues in this order takes: from the first of them that is not paused and has a
-- job to take, the best one.
abbrev pub Chosen : List Text → Store → Job → Type 0
Chosen [] s b = ⊥
Chosen (queue ∷ order) s b =
    ((is_paused_queue queue s.queues ≡ false) × IsBest queue b s.jobs)
    ⊎ (((is_paused_queue queue s.queues ≡ true) ⊎ Idle queue s.jobs) × Chosen order s b)

-- Every queue of the order is paused or has no job to take.
abbrev pub NothingToDo : List Text → Store → Type 0
NothingToDo order s =
    All (λ queue. (is_paused_queue queue s.queues ≡ true) ⊎ Idle queue s.jobs) order

-- `choose` finds the job that the order, the priorities, the due times and the ids determine, or there
-- is nothing to do.
pub choose-cases :
    (order : List Text) (s : Store)
    → ((choose order s ≡ none) × NothingToDo order s)
      ⊎ ((b : Job) × (choose order s ≡ some b) × Chosen order s b)
unfolding choose
choose-cases [] s = inl (refl, tt)
choose-cases (queue ∷ order) s = elim (Bool-cases (is_paused_queue queue s.queues)) [
  | inl e ↦ elim (choose-cases order s) [
    | inl (r, idle) ↦ inl (rw e r, (inl e, idle))
    | inr (b, r, c) ↦ inr (b, rw e r, inr (inl e, c))
  ]
  | inr e ↦ elim (best_from-cases queue s.jobs) [
    | inr (b, r, best) ↦ inr (b, rw (e, r) refl, inl (e, best))
    | inl (r, none_here) ↦ elim (choose-cases order s) [
      | inl (r', idle) ↦ inl (rw (e, r) r', (inr none_here, idle))
      | inr (b, r', c) ↦ inr (b, rw (e, r) r', inr (inr none_here, c))
    ]
  ]
]

-- What one queue of the polling order offers.
unfoldable pub attempt : Text → Store → Option Job
attempt queue s = if is_paused_queue queue s.queues then none else best_from queue none s.jobs

abbrev pub or_else : Option Job → Option Job → Option Job
or_else none later = later
or_else (some j) later = some j

pub choose-cons :
    (queue : Text) (order : List Text) (s : Store)
    → choose (queue ∷ order) s ≡ or_else (attempt queue s) (choose order s)
unfolding choose attempt
choose-cons queue order s = ground arith
