-- ===== src/Processor.antt =====
-- pkg/application/processor: what the execution of one leased job means. Service.antt has
-- service.go, this file handler_registry.go and the ports that the service uses.
-- A handler is code of the application. It is a function of what it is given, and comes to an error
-- or nil, with the deadline of its context passed or not, or to a panic.
pub mod Service
pub mod Outcomes
pub mod Settling
use goqueue.Base.{
  if◌then◌else◌, Text, bytes, is_empty, text_eq, text_lt, text_eq-eq, sort_by, ℕ, ◌≡◌, Bool, true,
  not, Option, none, some, List, [], ◌∷◌, ◌++◌, map, arith,
}
use goqueue.Errors.{GoError, invalid, not_found_error, conflict_error, Result, ok, err}
use goqueue.Values.Codes.{invalid_task_type, handler_not_found}
use goqueue.Retry.{Duration}
use goqueue.Job.{Time, Job}

-- pkg/application/services/processor_service.go
pub record JobContext : Type 0 where
  pub id : Text
  pub queue : Text
  pub task_type : Text
  pub payload : Text
  pub attempt : ℕ
  pub max_retries : ℕ

-- How a call of `Handle` ends: it returns, and the deadline has passed or not, or it panics with a
-- value that prints as the text.
pub data Handled : Type 0 where
  returned : Option GoError → Bool → Handled
  panicked : Text → Handled

abbrev pub Handler : Type 0
Handler = JobContext → Handled

abbrev pub Registry : Type 0
Registry = List (Text × Handler)

-- `r.handlers[taskType]`
unfoldable pub lookup_handler : Text → Registry → Option Handler
lookup_handler t [] = none
lookup_handler t ((u, h) ∷ r) =
    let later = lookup_handler t r in if text_eq u t then some h else later

-- The registration of a task type that is not registered.
add_handler : Text → Handler → Registry → Result (Unit {0}) × Registry
add_handler t h r = elim (lookup_handler t r) [
  | some other ↦ (
    err (
        conflict_error (bytes "duplicate_handler")
          (bytes "a handler is already registered for task type " ++ t)),
    r,
  )
  | none ↦ (ok tt, (t, h) ∷ r)
]

-- `Register`; a nil handler is `none`.
unfoldable pub register_handler : Text → Option Handler → Registry → Result (Unit {0}) × Registry
unfolding add_handler
register_handler t handler r =
    if is_empty t
    then (err (invalid invalid_task_type (bytes "task type is required to register a handler")), r)
    else elim handler [
      | none ↦ (err (invalid handler_not_found (bytes "handler must not be nil")), r)
      | some h ↦ add_handler t h r
    ]

-- `Resolve`
unfoldable pub resolve : Text → Registry → Result Handler
resolve t r = elim (lookup_handler t r) [
  | none ↦
      err (not_found_error handler_not_found (bytes "no handler registered for task type " ++ t))
  | some h ↦ ok h
]

-- `RegisteredTypes`
unfoldable pub registered_types : Registry → List Text
registered_types r = sort_by text_lt (map (λ e. e.0) r)

-- A registration that succeeds binds the handler to its task type and leaves the others as they were;
-- one that is refused, for a task type that is empty or bound already or without a handler, changes
-- nothing, so that a handler in the registry is never replaced.
pub resolve-register_handler :
    (t u : Text) (h : Handler) (r : Registry)
    → ((register_handler t (some h) r).0 ≡ ok tt
        → resolve u (register_handler t (some h) r).1 ≡ (if text_eq t u then ok h else resolve u r))
      × ((e : GoError)
          → (register_handler t (some h) r).0 ≡ err e
          → (register_handler t (some h) r).1 ≡ r)
unfolding register_handler resolve lookup_handler
resolve-register_handler t u h r = (λ e. ground (arith, text_eq-eq t u), λ e f. ground arith)

-- What the service needs of IJobRepo and IJobBroker. `works` says that the next calls succeed, and
-- the laws that a write that succeeds makes the job readable under its id.
pub record JobPort (S : Type 0) : Type 0 where
  pub save_job : Job → S → Result (Unit {0}) × S
  pub complete_job : Job → Duration → S → Result (Unit {0}) × S
  pub retry_job : Job → Time → S → Result (Unit {0}) × S
  pub kill_job : Job → S → Result (Unit {0}) × S
  pub stored : Text → S → Option Job
  pub works : S → Bool
  pub save_law :
      (j : Job) (s : S)
      → works s ≡ true
      → ((save_job j s).0 ≡ ok tt)
        × (works (save_job j s).1 ≡ true)
        × (stored j.id (save_job j s).1 ≡ some j)
  pub complete_law :
      (j : Job) (d : Duration) (s : S)
      → works s ≡ true
      → ((complete_job j d s).0 ≡ ok tt) × (stored j.id (complete_job j d s).1 ≡ some j)
  pub retry_law :
      (j : Job) (t : Time) (s : S)
      → works s ≡ true
      → ((retry_job j t s).0 ≡ ok tt) × (stored j.id (retry_job j t s).1 ≡ some j)
  pub kill_law :
      (j : Job) (s : S)
      → works s ≡ true
      → ((kill_job j s).0 ≡ ok tt) × (stored j.id (kill_job j s).1 ≡ some j)
