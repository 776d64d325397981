-- ===== src/Store/History.antt =====
-- The invariant of the store over any sequence of calls of its methods.
use goqueue.Base.{All, ℤ, Text, ◌≡◌, refl, ◌≢◌, Bool, some, List, [], ◌∷◌, arith}
use goqueue.Errors.{GoError}
use goqueue.Job.{Time, zero_time, Job}
use goqueue.Job.Invariant.{WellFormed}
use goqueue.Queue.{Queue}
use goqueue.Store.Defs.{Store}
use goqueue.Store.Repo.{save, delete, purge_completed}
use goqueue.Store.Broker.{promote_due, reclaim_expired}
use goqueue.Store.Queues.{register, set_paused}
use goqueue.Store.Claims.{claim, release}
use goqueue.Store.Workers.{Poll, poll}
use goqueue.Store.Sweeps.{
  is_waiting_due, promoted, promote_due-Swept, is_lapsed, reclaimed, reclaim_expired-Swept,
}
use goqueue.Store.Validity.{
  IsValid, save-IsValid, promoted-WellFormed, reclaimed-WellFormed, sweep-IsValid, dequeue-IsValid,
  delete-IsValid, purge-All, purge-Unique,
}

purge_completed-IsValid :
    (queue : Text) (limit : ℤ) (s : Store) → IsValid s → IsValid (purge_completed queue limit s).1
unfolding purge_completed
purge_completed-IsValid queue limit s v = record {
  unique = purge-Unique queue limit 0 s.jobs v.unique;
  well_formed = purge-All queue limit WellFormed 0 s.jobs v.well_formed;
}

promote_due-IsValid :
    (queue : Text) (now : Time) (limit : ℤ) (s : Store)
    → IsValid s
    → IsValid (promote_due queue now limit s).1
promote_due-IsValid queue now limit s v =
    let (u, w) =
      sweep-IsValid (is_waiting_due queue now) (λ j. promoted j now) s.jobs
        (promote_due queue now limit s).1.jobs (λ j. refl) (promoted-WellFormed queue now)
        (promote_due-Swept queue now limit s).1 v.unique v.well_formed in
    record { unique = u; well_formed = w }

reclaim_expired-IsValid :
    (queue : Text) (now : Time) (limit : ℤ) (s : Store)
    → now ≢ zero_time
    → IsValid s
    → IsValid (reclaim_expired queue now limit s).1
reclaim_expired-IsValid queue now limit s ne v =
    let (u, w) =
      sweep-IsValid (is_lapsed queue now) (λ j. reclaimed j now) s.jobs
        (reclaim_expired queue now limit s).1.jobs (λ j. refl)
        (λ j. reclaimed-WellFormed queue now j ne) (reclaim_expired-Swept queue now limit s).1
        v.unique v.well_formed in
    record { unique = u; well_formed = w }

-- The calls of the store's methods that change it.
pub data Request : Type 0 where
  saves : Job → Request
  deletes : Text → Request
  purges : Text → ℤ → Request
  dequeues : Poll → Request
  promotes : Text → Time → ℤ → Request
  reclaims : Text → Time → ℤ → Request
  registers : Queue → Request
  sets_paused : Text → Bool → Request
  claims_key : Text → Text → Request
  releases : Text → Request
  injects : GoError → Request

abbrev pub serve : Request → Store → Store
serve (saves job) s = (save job s).1
serve (deletes id) s = (delete id s).1
serve (purges queue limit) s = (purge_completed queue limit s).1
serve (dequeues p) s = (poll p s).1
serve (promotes queue now limit) s = (promote_due queue now limit s).1
serve (reclaims queue now limit) s = (reclaim_expired queue now limit s).1
serve (registers queue) s = register queue s
serve (sets_paused name paused) s = (set_paused name paused s).1
serve (claims_key key id) s = (claim key id s).1
serve (releases key) s = release key s
serve (injects e) s = record s { fail_next = some e }

unfoldable pub serve_all : List Request → Store → Store
serve_all [] s = s
serve_all (r ∷ rs) s = serve_all rs (serve r s)

-- A job that is saved is well formed, and no sweep runs at the zero time.
abbrev pub IsSound : Request → Type 0
IsSound (saves job) = WellFormed job
IsSound (reclaims queue now limit) = now ≢ zero_time
IsSound r = Unit

same_jobs-IsValid : (s t : Store) → t.jobs ≡ s.jobs → IsValid s → IsValid t
same_jobs-IsValid s t e v = record { unique = rw e v.unique; well_formed = rw e v.well_formed }

set_paused-jobs :
    (name : Text) (paused : Bool) (s : Store) → (set_paused name paused s).1.jobs ≡ s.jobs
unfolding set_paused
set_paused-jobs name paused s = ground arith

claim-jobs : (key id : Text) (s : Store) → (claim key id s).1.jobs ≡ s.jobs
unfolding claim
claim-jobs key id s = ground arith

serve-IsValid : (r : Request) (s : Store) → IsSound r → IsValid s → IsValid (serve r s)
serve-IsValid (saves job) s w v = save-IsValid job s w v
serve-IsValid (deletes id) s w v = delete-IsValid id s v
serve-IsValid (purges queue limit) s w v = purge_completed-IsValid queue limit s v
serve-IsValid (dequeues p) s w v = dequeue-IsValid p s v
serve-IsValid (promotes queue now limit) s w v = promote_due-IsValid queue now limit s v
serve-IsValid (reclaims queue now limit) s w v = reclaim_expired-IsValid queue now limit s w v
serve-IsValid (registers queue) s w v =
    unfold register in record { unique = v.unique; well_formed = v.well_formed }
serve-IsValid (sets_paused name paused) s w v =
    same_jobs-IsValid s (set_paused name paused s).1 (set_paused-jobs name paused s) v
serve-IsValid (claims_key key id) s w v =
    same_jobs-IsValid s (claim key id s).1 (claim-jobs key id s) v
serve-IsValid (releases key) s w v =
    unfold release in record { unique = v.unique; well_formed = v.well_formed }
serve-IsValid (injects e) s w v = record { unique = v.unique; well_formed = v.well_formed }

-- Any sequence of calls of the store's methods, in which the jobs saved are well formed and no
-- reclaim sweep runs at the zero time, takes a store with no id twice and with well-formed jobs only to
-- such a store.
pub serve_all-IsValid :
    (rs : List Request) (s : Store) → All IsSound rs → IsValid s → IsValid (serve_all rs s)
unfolding serve_all
serve_all-IsValid [] s w v = v
serve_all-IsValid (r ∷ rs) s w v = serve_all-IsValid rs (serve r s) w.1 (serve-IsValid r s w.0 v)
