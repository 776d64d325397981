-- ===== src/Worker/Shutdown.antt =====
-- The pool drains: once its context is cancelled, the workers return after few steps.
use mathlib.Core.Path.{subst}
use goqueue.Base.{
  length, All, Text, ℕ, ◌+◌, ◌*◌, ◌≤◌, ◌<◌, ◌≡◌, refl, sym, ap, ◌∙◌, ◌≢◌, ◌⊎◌, inl, inr, Bool, true,
  false, Option, none, some, List, [], ◌∷◌, ◌++◌, arith,
}
use goqueue.Errors.{Result, ok, err}
use goqueue.Worker.{Pc, checking, dequeuing, sleeping, stopped, processing, Worker, Pool}
use goqueue.Worker.Loop.{
  Services, after_dequeue, entering, advance, PoolStep, advanced, PoolRun, no_steps, then_step,
}

-- How many steps a worker has left at most, once the context is cancelled.
abbrev pub steps_left : {J : Type 0} → Pc J → ℕ
steps_left stopped = 0
steps_left checking = 1
steps_left sleeping = 2
steps_left (processing job) = 2
steps_left dequeuing = 3

abbrev pub steps_left_all : {J : Type 0} → List (Worker J) → ℕ
steps_left_all [] = 0
steps_left_all (w ∷ ws) = steps_left w.pc + steps_left_all ws

-- How many workers are inside Process.
abbrev pub running : {J : Type 0} → List (Worker J) → ℕ
running [] = 0
running (w ∷ ws) = entering w.pc + running ws

abbrev pub AllCancelled : {J : Type 0} → List (Worker J) → Type 0
AllCancelled = All (λ w. w.cancelled ≡ true)

module _ {S J : Type 0} (services : Services S J) where
  after_dequeue_left : (reply : Result (Option J)) → steps_left (after_dequeue true reply) < 3
  unfolding after_dequeue
  after_dequeue_left (err e) = omega arith
  after_dequeue_left (ok none) = omega arith
  after_dequeue_left (ok (some job)) = omega arith

  advance_left :
      (order : List Text) (timer : Bool) (pc : Pc J) (n : ℕ) (s : S)
      → pc ≢ stopped
      → steps_left (advance services order true timer pc n s).0 < steps_left pc
  unfolding advance
  advance_left order timer checking n s ne = omega arith
  advance_left order timer dequeuing n s ne = after_dequeue_left (services.dequeue order s).0
  advance_left order timer (processing job) n s ne = omega arith
  advance_left order true sleeping n s ne = omega arith
  advance_left order false sleeping n s ne = omega arith
  advance_left order timer stopped n s ne = absurd (ne refl)

  advance_running :
      (order : List Text) (cancelled timer : Bool) (pc : Pc J) (n m : ℕ) (s : S)
      → n ≡ entering pc + m
      → (advance services order cancelled timer pc n s).1.0
        ≡ entering (advance services order cancelled timer pc n s).0 + m
  unfolding advance
  advance_running order true timer checking n m s h = omega (arith, h)
  advance_running order false timer checking n m s h = omega (arith, h)
  advance_running order cancelled timer dequeuing n m s h = omega (arith, h)
  advance_running order cancelled timer (processing job) n m s h = omega (arith, h)
  advance_running order cancelled true sleeping n m s h = omega (arith, h)
  advance_running order true false sleeping n m s h = omega (arith, h)
  advance_running order false false sleeping n m s h = omega (arith, h)
  advance_running order cancelled timer stopped n m s h = omega (arith, h)

left-split :
    {J : Type 0} (before : List (Worker J)) (w : Worker J) (later : List (Worker J))
    → steps_left_all (before ++ w ∷ later)
      ≡ steps_left_all before + steps_left w.pc + steps_left_all later
left-split [] w later = omega arith
left-split (b ∷ before) w later = omega (arith, left-split before w later)

running-split :
    {J : Type 0} (before : List (Worker J)) (w : Worker J) (later : List (Worker J))
    → running (before ++ w ∷ later) ≡ entering w.pc + (running before + running later)
running-split [] w later = omega arith
running-split (b ∷ before) w later = omega (arith, running-split before w later)

steps_left-bound : {J : Type 0} (pc : Pc J) → steps_left pc ≤ 3
steps_left-bound stopped = omega arith
steps_left-bound checking = omega arith
steps_left-bound sleeping = omega arith
steps_left-bound dequeuing = omega arith
steps_left-bound (processing job) = omega arith

left-bound : {J : Type 0} (ws : List (Worker J)) → steps_left_all ws ≤ 3 * length ws
left-bound [] = omega arith
left-bound (w ∷ ws) = omega (arith, steps_left-bound w.pc, left-bound ws)

-- The worker in the middle, and the list with another one in its place.
cancelled-at :
    {J : Type 0} (before : List (Worker J)) (w : Worker J) (later : List (Worker J))
    → AllCancelled (before ++ w ∷ later)
    → w.cancelled ≡ true
cancelled-at [] w later c = c.0
cancelled-at (b ∷ before) w later c = cancelled-at before w later c.1

cancelled-replaced :
    {J : Type 0} (before : List (Worker J)) (w v : Worker J) (later : List (Worker J))
    → AllCancelled (before ++ w ∷ later)
    → v.cancelled ≡ w.cancelled
    → AllCancelled (before ++ v ∷ later)
cancelled-replaced [] w v later c e = (e ∙ c.0, c.1)
cancelled-replaced (b ∷ before) w v later c e = (c.0, cancelled-replaced before w v later c.1 e)

true≢false : true ≢ false
true≢false h = ground arith

running_stopped :
    {J : Type 0} (ws : List (Worker J)) → All (λ w. w.pc ≡ stopped) ws → running ws ≡ 0
running_stopped [] h = refl
running_stopped (w ∷ ws) (e, h) = rw e (omega (arith, running_stopped ws h))

module _ {S J : Type 0} (services : Services S J) where
  step_left :
      {p : Pool J} {s : S} {p' : Pool J} {s' : S}
      → PoolStep services p s p' s'
      → AllCancelled p.workers
      → AllCancelled p'.workers × (steps_left_all p'.workers < steps_left_all p.workers)
  step_left {p} {s} (advanced before later w timer e ne wait) c =
      let all : AllCancelled (before ++ w ∷ later) = subst AllCancelled e c in
      let moved : Worker J = record w {
        pc = (advance services p.dequeue_order w.cancelled timer w.pc p.active_jobs s).0;
      } in
      let less : steps_left moved.pc < steps_left w.pc =
        subst
          (λ b.
            steps_left (advance services p.dequeue_order b timer w.pc p.active_jobs s).0
            < steps_left w.pc)
          (sym (cancelled-at before w later all))
          (advance_left services p.dequeue_order timer w.pc p.active_jobs s ne) in
      (
        cancelled-replaced before w moved later all refl,
        rw e (omega (arith, less, left-split before w later, left-split before moved later)),
      )

  run_left :
      {n : ℕ} {p : Pool J} {s : S} {p' : Pool J} {s' : S}
      → PoolRun services n p s p' s'
      → AllCancelled p.workers
      → AllCancelled p'.workers × (n + steps_left_all p'.workers ≤ steps_left_all p.workers)
  run_left no_steps c = (c, omega arith)
  run_left (then_step step run) c =
      let (c', less) = step_left step c in
      let (c'', le) = run_left run c' in (c'', omega (arith, less, le))

  -- `activeJobs` counts the workers inside Process.
  abbrev pub Counted : Pool J → Type 0
  Counted p = p.active_jobs ≡ running p.workers

  step-Counted :
      {p : Pool J} {s : S} {p' : Pool J} {s' : S}
      → PoolStep services p s p' s'
      → Counted p
      → Counted p'
  step-Counted {p} {s} (advanced before later w timer e ne wait) h =
      advance_running services p.dequeue_order w.cancelled timer w.pc p.active_jobs
        (running before + running later) s (h ∙ ap running e ∙ running-split before w later)
      ∙ sym (running-split before _ later)

  run-Counted :
      {n : ℕ} {p : Pool J} {s : S} {p' : Pool J} {s' : S}
      → PoolRun services n p s p' s'
      → Counted p
      → Counted p'
  run-Counted no_steps h = h
  run-Counted (then_step step run) h = run-Counted run (step-Counted step h)

  abbrev pub AllStopped : List (Worker J) → Type 0
  AllStopped = All (λ w. w.pc ≡ stopped)

  abbrev pub CanStep : Pool J → S → Type 0
  CanStep p s = (p' : Pool J) × (s' : S) × PoolStep services p s p' s'

  stopped-cases : (pc : Pc J) → (pc ≡ stopped) ⊎ (pc ≢ stopped)
  stopped-cases stopped = inl refl
  stopped-cases checking = inr (λ h. cc h)
  stopped-cases dequeuing = inr (λ h. cc h)
  stopped-cases sleeping = inr (λ h. cc h)
  stopped-cases (processing job) = inr (λ h. cc h)

  -- The first worker that has not returned.
  first_running :
      (ws : List (Worker J))
      → AllStopped ws
        ⊎ ((before : List (Worker J)) × (later : List (Worker J)) × (w : Worker J) × (ws
              ≡ before ++ w ∷ later)
            × (w.pc ≢ stopped))
  first_running [] = inl tt
  first_running (w ∷ ws) = elim (stopped-cases w.pc) [
    | inr ne ↦ inr ([], ws, w, refl, ne)
    | inl e ↦ elim (first_running ws) [
      | inl h ↦ inl (e, h)
      | inr (before, later, v, f, ne) ↦ inr (w ∷ before, later, v, ap (λ l. w ∷ l) f, ne)
    ]
  ]

  stopped_or_step : (p : Pool J) (s : S) → AllStopped p.workers ⊎ CanStep p s
  stopped_or_step p s = elim (first_running p.workers) [
    | inl h ↦ inl h
    | inr (before, later, w, e, ne) ↦
        inr (_, _, advanced before later w true e ne (λ a b. absurd (true≢false b)))
  ]

  -- Once the context of every worker is cancelled, no run of the workers has more than three steps for each of them, and
  -- a run that cannot go on has every worker returned; `activeJobs` then is 0, as it counts the workers that are
  -- inside Process all along.
  pub cancelled_pool_drains :
      {n : ℕ} {p : Pool J} {s : S} {p' : Pool J} {s' : S}
      → PoolRun services n p s p' s'
      → AllCancelled p.workers
      → Counted p
      → (n ≤ 3 * length p.workers)
        × (p'.active_jobs ≡ running p'.workers)
        × (CanStep p' s' ⊎ (AllStopped p'.workers × (p'.active_jobs ≡ 0)))
  cancelled_pool_drains {n} {p} {s} {p'} {s'} run c h =
      let (c', le) = run_left run c in
      let counted = run-Counted run h in
      (
        omega (arith, le, left-bound p.workers),
        counted,
        elim (stopped_or_step p' s') [
          | inr can ↦ inl can
          | inl all ↦ inr (all, counted ∙ running_stopped p'.workers all)
        ],
      )
