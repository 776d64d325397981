-- ===== src/Store/Queues.antt =====
-- The methods of IQueueRepo. FindByName and ListAll hand out the stored queues, which no caller changes.
use goqueue.Base.{
  if◌then◌else◌, Text, bytes, text_eq, text_lt, sort_by, ℕ, ◌+◌, Bool, false, none, some, List, [],
  ◌∷◌, ◌++◌, map,
}
use goqueue.Errors.{not_found_error, Result, ok, err}
use goqueue.Values.Codes.{queue_not_found}
use goqueue.Values.States.{JobState, scheduled, pending, active, retrying, completed, dead}
use goqueue.Values.Weights.{default_weight}
use goqueue.Job.{Job}
use goqueue.Queue.{Queue, pause, resume, Stats, sort_stats_by_name}
use goqueue.Store.Defs.{Store, Reply, lookup_queue, put_queue}

unfoldable pub register : Queue → Store → Store
register queue s =
    let paused : Bool = elim (lookup_queue queue.name s.queues) [
      | none ↦ false
      | some q ↦ q.paused
    ] in
    record s {
      queues =
          put_queue (record { name = queue.name; weight = queue.weight; paused = paused }) s.queues;
    }

unfoldable pub find_by_name : Text → Store → Result Queue
find_by_name name s = elim (lookup_queue name s.queues) [
  | none ↦ err (not_found_error queue_not_found (bytes "no queue named " ++ name))
  | some q ↦ ok q
]

unfoldable pub list_all : Store → List Queue
list_all s = sort_by (λ a b. text_lt a.name b.name) s.queues

unfoldable pub set_paused : Text → Bool → Store → Reply (Unit {0})
set_paused name paused s = elim (lookup_queue name s.queues) [
  | none ↦ (err (not_found_error queue_not_found (bytes "no queue named " ++ name)), s)
  | some q ↦
      (ok tt, record s { queues = put_queue (if paused then pause q else resume q) s.queues })
]

-- One round of the loop of `statsFor`.
unfoldable pub tally : Stats → JobState → Stats
tally st pending = record st { pending = st.pending + 1 }
tally st active = record st { active = st.active + 1 }
tally st scheduled = record st { scheduled = st.scheduled + 1 }
tally st retrying = record st { retrying = st.retrying + 1 }
tally st completed = record st { completed = st.completed + 1 }
tally st dead = record st { dead = st.dead + 1 }

unfoldable pub tally_jobs : Text → Stats → List Job → Stats
tally_jobs name st [] = st
tally_jobs name st (j ∷ js) =
    tally_jobs name (if text_eq j.queue name then tally st j.state else st) js

abbrev pub empty_stats : Text → Bool → ℕ → Stats
empty_stats name paused weight = record {
  queue = name;
  is_paused = paused;
  weight = weight;
  pending = 0;
  active = 0;
  scheduled = 0;
  retrying = 0;
  completed = 0;
  dead = 0;
}

-- `statsFor`, and the method Stats
unfoldable pub stats_for : Text → Store → Stats
stats_for name s =
    let start : Stats = elim (lookup_queue name s.queues) [
      | none ↦ empty_stats name false default_weight
      | some q ↦ empty_stats name q.paused q.weight
    ] in
    tally_jobs name start s.jobs

unfoldable pub stats_all : Store → List Stats
unfolding stats_for
stats_all s = sort_stats_by_name (map (λ q. stats_for q.name s) s.queues)
