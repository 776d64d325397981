-- ===== src/Store/Depth.antt =====
-- The depth snapshot of a queue against the jobs that the store holds.
use goqueue.Base.{
  if◌then◌else◌, Option-cases, count_if, Text, text_eq, ℕ, ◌+◌, ◌≡◌, refl, inl, inr, Bool, false,
  ◌&&◌, not, List, [], ◌∷◌, arith,
}
use goqueue.Values.Weights.{default_weight}
use goqueue.Values.States.{
  JobState, scheduled, pending, active, retrying, completed, dead, state_eq, is_terminal,
}
use goqueue.Job.{Job}
use goqueue.Queue.{Stats, total, backlog}
use goqueue.Store.Defs.{Store, lookup_queue}
use goqueue.Store.Queues.{tally, tally_jobs, empty_stats, stats_for}

abbrev pub in_state : Text → JobState → Job → Bool
in_state name s j = text_eq j.queue name && state_eq j.state s

-- Counts that start at a snapshot and end at another.
record Counted (name : Text) (st : Stats) (js : List Job) (fin : Stats) : Type 0 where
  c_pending : fin.pending ≡ st.pending + count_if (in_state name pending) js
  c_active : fin.active ≡ st.active + count_if (in_state name active) js
  c_scheduled : fin.scheduled ≡ st.scheduled + count_if (in_state name scheduled) js
  c_retrying : fin.retrying ≡ st.retrying + count_if (in_state name retrying) js
  c_completed : fin.completed ≡ st.completed + count_if (in_state name completed) js
  c_dead : fin.dead ≡ st.dead + count_if (in_state name dead) js

tally_jobs-Counted :
    (name : Text) (st : Stats) (js : List Job) → Counted name st js (tally_jobs name st js)
unfolding tally_jobs tally
tally_jobs-Counted name st [] = omega arith
tally_jobs-Counted name st (j ∷ js) =
    let ih = tally_jobs-Counted name (if text_eq j.queue name then tally st j.state else st) js in
    ground (arith, ih)

-- Each depth of a queue's snapshot is the number of its jobs in that state.
pub record IsDepth (name : Text) (js : List Job) (st : Stats) : Type 0 where
  pub d_pending : st.pending ≡ count_if (in_state name pending) js
  pub d_active : st.active ≡ count_if (in_state name active) js
  pub d_scheduled : st.scheduled ≡ count_if (in_state name scheduled) js
  pub d_retrying : st.retrying ≡ count_if (in_state name retrying) js
  pub d_completed : st.completed ≡ count_if (in_state name completed) js
  pub d_dead : st.dead ≡ count_if (in_state name dead) js
  pub d_total : total st ≡ count_if (λ j. text_eq j.queue name) js
  pub d_backlog : backlog st ≡ count_if (λ j. text_eq j.queue name && not (is_terminal j.state)) js

states_sum :
    (name : Text) (js : List Job)
    → count_if (in_state name pending) js
        + count_if (in_state name active) js
        + count_if (in_state name scheduled) js
        + count_if (in_state name retrying) js
        + count_if (in_state name completed) js
        + count_if (in_state name dead) js
      ≡ count_if (λ j. text_eq j.queue name) js
states_sum name [] = refl
states_sum name (j ∷ js) = ground (arith, states_sum name js)

busy_sum :
    (name : Text) (js : List Job)
    → count_if (in_state name pending) js
        + count_if (in_state name active) js
        + count_if (in_state name scheduled) js
        + count_if (in_state name retrying) js
      ≡ count_if (λ j. text_eq j.queue name && not (is_terminal j.state)) js
unfolding is_terminal
busy_sum name [] = refl
busy_sum name (j ∷ js) = ground (arith, busy_sum name js)

tally_empty-IsDepth :
    (name : Text) (paused : Bool) (weight : ℕ) (js : List Job)
    → IsDepth name js (tally_jobs name (empty_stats name paused weight) js)
unfolding total backlog
tally_empty-IsDepth name paused weight js = ground (
  arith,
  tally_jobs-Counted name (empty_stats name paused weight) js,
  states_sum name js,
  busy_sum name js,
)

-- The snapshot of a queue counts its jobs exactly: one depth for each state, together all its jobs, and
-- the backlog all that are neither completed nor dead.
pub stats_for-IsDepth : (name : Text) (s : Store) → IsDepth name s.jobs (stats_for name s)
unfolding stats_for
stats_for-IsDepth name s = elim (Option-cases (lookup_queue name s.queues)) [
  | inl e ↦ rw e (tally_empty-IsDepth name false default_weight s.jobs)
  | inr (q, e) ↦ rw e (tally_empty-IsDepth name q.paused q.weight s.jobs)
]
