-- ===== src/Inspector/Actions.antt =====
-- What the operator's actions on one job do, and the totals of the queue listing.
use mathlib.Core.Path.{subst}
use goqueue.Base.{
  if◌then◌else◌, Bool-cases, Option-cases, is_none, Text, bytes, text_eq, text_eq_refl, text_eq-eq,
  sum_by, ◌+◌, ◌≡◌, refl, ap, ◌∙◌, inl, inr, true, false, ◌&&◌, Option, none, some, List, [], ◌∷◌,
  ◌++◌, arith,
}
use goqueue.Errors.{GoError, invalid, Result, ok, err, ◌>>=◌, >>=-eq-ok, Result-cases}
use goqueue.Values.Codes.{job_not_retryable}
use goqueue.Values.States.{pending, dead, state_eq, state_string}
use goqueue.Values.Names.{new_job_id}
use goqueue.Job.{Time, after, Job}
use goqueue.Job.Lifecycle.{guard, kill, requeue}
use goqueue.Queue.{Stats, total, backlog}
use goqueue.Store.Defs.{Store, Reply, lookup_job, take_failure}
use goqueue.Store.Repo.{save, find_by_id}
use goqueue.Store.Maps.{lookup-put}
use goqueue.Store.Queues.{stats_all}
use goqueue.Inspector.{
  write_back, retry_found, retry_job, kill_found, kill_job, Totals, no_totals, add_stats, roll_up,
  totals_backlog, totals_total, list_queue_stats,
}
use goqueue.Store.Broker.{store_kill, store_requeue}

lookup_job-id :
    (id : Text) (js : List Job) (j : Job) → lookup_job id js ≡ some j → text_eq j.id id ≡ true
unfolding lookup_job
lookup_job-id id [] j h = absurd (ground arith)
lookup_job-id id (k ∷ js) j h = elim (Bool-cases (text_eq k.id id)) [
  | inl e ↦ ground arith
  | inr e ↦ lookup_job-id id js j (ground arith)
]

find_by_id-lookup :
    (id : Text) (s : Store) {j : Job} → find_by_id id s ≡ ok j → lookup_job id s.jobs ≡ some j
unfolding find_by_id
find_by_id-lookup id s h = ground arith

-- A transition that keeps the id.
abbrev KeepsId : (Job → Result Job) → Type 0
KeepsId move = (j k : Job) → move j ≡ ok k → k.id ≡ j.id

requeue-KeepsId : (now : Time) → KeepsId (λ j. requeue j now)
unfolding requeue
requeue-KeepsId now j k h = ground arith

kill-KeepsId : (reason : Text) (now : Time) → KeepsId (λ j. kill j reason now)
unfolding kill guard
kill-KeepsId reason now j k h = ground arith

-- A stored job that a transition moved, and where it is found afterwards.
abbrev pub Moved : (Job → Result Job) → Job → Store → Store → Type 0
Moved move k s t =
    (j : Job) × (find_by_id k.id s ≡ ok j) × (move j ≡ ok k) × (find_by_id k.id t ≡ ok k)

-- The job that an id leads to, after the transition.
abbrev moved_found : (Job → Result Job) → Text → Store → Result Job
moved_found move raw_id s = do id ← new_job_id raw_id; job ← find_by_id id s; move job

module _ (move : Job → Result Job) (keeps : KeepsId move) where
  save-found : (k : Job) (s : Store) → (save k s).0 ≡ ok tt → find_by_id k.id (save k s).1 ≡ ok k
  unfolding save take_failure find_by_id lookup_job
  save-found k s h = elim (Option-cases s.fail_next) [
    | inl e ↦ rw (e, save, lookup-put k k.id s.jobs, text_eq_refl k.id) refl
    | inr (f, e) ↦ absurd (ground arith)
  ]

  found-Moved :
      (raw_id : Text) (s : Store) {k : Job}
      → moved_found move raw_id s ≡ ok k
      → (save k s).0 ≡ ok tt
      → Moved move k s (save k s).1
  found-Moved raw_id s {k} h saved =
      let (id, a, h1) = >>=-eq-ok (new_job_id raw_id) _ h in
      let (j, b, m) = >>=-eq-ok (find_by_id id s) _ h1 in
      let same : j.id ≡ id =
        text_eq-eq j.id id (lookup_job-id id s.jobs j (find_by_id-lookup id s b)) in
      let key : k.id ≡ id = keeps j k m ∙ same in (j, rw key b, m, save-found k s saved)

save-failed :
    (k : Job) (s : Store) {e : GoError} → (save k s).0 ≡ err e → (save k s).1.jobs ≡ s.jobs
unfolding save take_failure
save-failed k s h = elim (Option-cases s.fail_next) [
  | inl e ↦ absurd (ground arith)
  | inr (f, e) ↦ rw (e, save) refl
]

write_back-ok :
    (r : Result Job) (s : Store) (k : Job)
    → (write_back save r s).0 ≡ ok k
    → (r ≡ ok k) × ((save k s).0 ≡ ok tt) × ((write_back save r s).1 ≡ (save k s).1)
write_back-ok (err e) s k h = absurd (ground arith)
write_back-ok (ok j) s k h = elim (Result-cases (save j s).0) [
  | inl (u, e) ↦
      let jk : j ≡ k = ground arith in
      (
        ap ok jk,
        subst (λ x. (save x s).0 ≡ ok tt) jk e,
        subst (λ x. (write_back save (ok j) s).1 ≡ (save x s).1) jk (rw (e, write_back) refl),
      )
  | inr (f, e) ↦ absurd (ground arith)
]

write_back-err :
    (r : Result Job) (s : Store) (e : GoError)
    → (write_back save r s).0 ≡ err e
    → (write_back save r s).1.jobs ≡ s.jobs
write_back-err (err f) s e h = refl
write_back-err (ok j) s e h = elim (Result-cases (save j s).0) [
  | inl (u, a) ↦ absurd (ground arith)
  | inr (f, a) ↦ rw (a, write_back) (save-failed j s a)
]

-- What a transition and its write come to.
abbrev pub Acted : (Job → Result Job) → Store → Reply Job → Type 0
Acted move s reply =
    ((k : Job) → reply.0 ≡ ok k → Moved move k s reply.1)
    × ((e : GoError) → reply.0 ≡ err e → reply.1.jobs ≡ s.jobs)

acted :
    (move : Job → Result Job)
    → KeepsId move
    → (raw_id : Text) (s : Store) → Acted move s (write_back save (moved_found move raw_id s) s)
acted move keeps raw_id s = (
  λ k h.
      let (m, saved, after) = write_back-ok (moved_found move raw_id s) s k h in
      rw after (found-Moved move keeps raw_id s m saved),
  λ e h. write_back-err (moved_found move raw_id s) s e h,
)

-- The job that a requeue makes of a dead one, and the error that any other job is met with.
abbrev pub requeued : Job → Time → Job
requeued j now = record j {
  state = pending;
  process_at = now;
  attempts_made = 0;
  died_at = none;
  lease_expiry = none;
  worker_id = [];
}

abbrev pub not_retryable : Job → GoError
not_retryable j =
    invalid job_not_retryable
      (bytes "only a dead job can be requeued, current state: " ++ state_string j.state)

requeue-dead :
    (j : Job) (now : Time) → state_eq j.state dead ≡ true → requeue j now ≡ ok (requeued j now)
unfolding requeue
requeue-dead j now d = rw d refl

requeue-refused :
    (j : Job) (now : Time) → state_eq j.state dead ≡ false → requeue j now ≡ err (not_retryable j)
unfolding requeue
requeue-refused j now d = rw d refl

found-id : (id : Text) (s : Store) {j : Job} → find_by_id id s ≡ ok j → j.id ≡ id
found-id id s {j} found =
    text_eq-eq j.id id (lookup_job-id id s.jobs j (find_by_id-lookup id s found))

-- What the write of a job answers, and what is found then.
write_back-save :
    (k : Job) (s : Store)
    → write_back save (ok k) s ≡ (elim s.fail_next [ none ↦ ok k | some f ↦ err f ], (save k s).1)
unfolding save take_failure
write_back-save k s = elim (Option-cases s.fail_next) [
  | inl e ↦ ground (arith, e)
  | inr (f, e) ↦ ground (arith, e)
]

find-save :
    (k : Job) (id : Text) (s : Store)
    → find_by_id id (save k s).1
      ≡ (if is_none s.fail_next && text_eq k.id id then ok k else find_by_id id s)
unfolding save take_failure find_by_id
find-save k id s = elim (Option-cases s.fail_next) [
  | inl e ↦ rw (save, take_failure, e) (ground (arith, lookup-put k id s.jobs))
  | inr (f, e) ↦ rw (save, take_failure, e) refl
]

kept_or_put :
    {r : Result Job} {j : Job} (k : Job) (failure : Option GoError)
    → r ≡ ok j
    → (if is_none failure && true then ok k else r) ≡ ok (if true && is_none failure then k else j)
kept_or_put k none e = refl
kept_or_put k (some f) e = e

kept :
    {r : Result Job} (k : Job) (failure : Option GoError)
    → (if is_none failure && false then ok k else r) ≡ r
kept k none = refl
kept k (some f) = refl

-- RetryJob on an id that names a stored job: a dead job is requeued, which makes it pending, due now,
-- with its whole budget of attempts and without lease and worker; the answer is this job, and it is found
-- under the id afterwards. A job in any other state is refused as not retryable, and an injected failure
-- of the write is returned; in both cases the id is found as before. Every other id is found as before.
pub retry_job_lem :
    (raw_id other : Text) (now : Time) (s : Store) {id : Text} {j : Job}
    → new_job_id raw_id ≡ ok id
    → find_by_id id s ≡ ok j
    → text_eq id other ≡ false
    → ((retry_job raw_id now s).0 ≡ (
        if state_eq j.state dead
        then elim s.fail_next [ none ↦ ok (requeued j now) | some f ↦ err f ]
        else err (not_retryable j)))
      × (find_by_id id (retry_job raw_id now s).1
          ≡ ok (if state_eq j.state dead && is_none s.fail_next then requeued j now else j))
      × (find_by_id other (retry_job raw_id now s).1 ≡ find_by_id other s)
unfolding retry_job retry_found store_requeue
retry_job_lem raw_id other now s {id} {j} named found ne =
    elim (Bool-cases (state_eq j.state dead)) [
      | inr d ↦
          rw (retry_job, retry_found, named, found, requeue-refused j now d, d) (refl, found, refl)
      | inl d ↦
          let k = requeued j now in
          let key : text_eq k.id id ≡ true = rw (found-id id s found) (text_eq_refl id) in
          let apart : text_eq k.id other ≡ false = rw (found-id id s found) ne in
          let whole : retry_job raw_id now s
              ≡ (elim s.fail_next [ none ↦ ok k | some f ↦ err f ], (save k s).1) =
            rw (retry_job, retry_found, named, found, requeue-dead j now d) (write_back-save k s) in
          rw (whole, d)
            (
              refl,
              find-save k id s ∙ rw key (kept_or_put k s.fail_next found),
              find-save k other s ∙ rw apart (kept k s.fail_next),
            )
    ]

-- Where RetryJob answers with a job, `requeue` made it of the job that was stored under the id of the
-- answer, and it is stored there now; where it answers with an error the jobs are as they were.
pub retry_job-Acted :
    (raw_id : Text) (now : Time) (s : Store) → Acted (λ j. requeue j now) s (retry_job raw_id now s)
unfolding retry_job retry_found store_requeue
retry_job-Acted raw_id now s = acted (λ j. requeue j now) (requeue-KeepsId now) raw_id s

-- Where KillJob answers with a job, `kill` made it of the job that was stored under its id, and it is
-- stored there now; where it answers with an error the jobs are as they were.
pub kill_job-Acted :
    (raw_id : Text) (now : Time) (s : Store)
    → Acted (λ j. kill j (bytes "killed by operator") now) s (kill_job raw_id now s)
unfolding kill_job kill_found store_kill
kill_job-Acted raw_id now s =
    acted (λ j. kill j (bytes "killed by operator") now)
      (kill-KeepsId (bytes "killed by operator") now) raw_id s

roll_up-total :
    (t : Totals) (ss : List Stats)
    → (totals_total (roll_up t ss) ≡ totals_total t + sum_by total ss)
      × (totals_backlog (roll_up t ss) ≡ totals_backlog t + sum_by backlog ss)
unfolding roll_up add_stats totals_total totals_backlog total backlog
roll_up-total t [] = (omega arith, omega arith)
roll_up-total t (s ∷ ss) =
    let (a, b) = roll_up-total (add_stats t s) ss in (omega (arith, a), omega (arith, b))

-- The totals of the queue listing are the sums of what its snapshots report, both of all jobs and of
-- the backlog.
pub list_queue_stats_lem :
    (s : Store)
    → (totals_total (list_queue_stats s).1 ≡ sum_by total (list_queue_stats s).0)
      × (totals_backlog (list_queue_stats s).1 ≡ sum_by backlog (list_queue_stats s).0)
unfolding list_queue_stats totals_total totals_backlog
list_queue_stats_lem s =
    let (a, b) = roll_up-total no_totals (stats_all s) in (omega (arith, a), omega (arith, b))
