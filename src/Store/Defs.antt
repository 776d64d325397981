-- ===== src/Store/Defs.antt =====
-- The state of the store and its maps.
use goqueue.Base.{if◌then◌else◌, Text, text_eq, Option, none, some, List, [], ◌∷◌}
use goqueue.Errors.{GoError, Result}
use goqueue.Values.Weights.{default_weight}
use goqueue.Job.{Job}
use goqueue.Queue.{Queue, new_queue}

pub record Store : Type 0 where
  pub jobs : List Job
  pub queues : List Queue
  pub claims : List (Text × Text)
  pub fail_next : Option GoError

-- `NewStore`
abbrev pub new_store : Store
new_store = record { jobs = []; queues = []; claims = []; fail_next = none }

-- What a method returns, and the store after it.
abbrev pub Reply : Type 0 → Type 0
Reply A = Result A × Store

-- `s.jobs[id]`
unfoldable pub lookup_job : Text → List Job → Option Job
lookup_job id [] = none
lookup_job id (j ∷ js) = let later = lookup_job id js in if text_eq j.id id then some j else later

-- `s.jobs[job.ID()] = job`
unfoldable pub put_job : Job → List Job → List Job
put_job k [] = k ∷ []
put_job k (j ∷ js) = let later = put_job k js in if text_eq j.id k.id then k ∷ js else j ∷ later

-- `delete(s.jobs, id)`
unfoldable pub delete_job : Text → List Job → List Job
delete_job id [] = []
delete_job id (j ∷ js) = let later = delete_job id js in if text_eq j.id id then js else j ∷ later

unfoldable pub lookup_queue : Text → List Queue → Option Queue
lookup_queue name [] = none
lookup_queue name (q ∷ qs) =
    let later = lookup_queue name qs in if text_eq q.name name then some q else later

unfoldable pub put_queue : Queue → List Queue → List Queue
put_queue r [] = r ∷ []
put_queue r (q ∷ qs) =
    let later = put_queue r qs in if text_eq q.name r.name then r ∷ qs else q ∷ later

unfoldable pub lookup_claim : Text → List (Text × Text) → Option Text
lookup_claim key [] = none
lookup_claim key ((k, id) ∷ cs) =
    let later = lookup_claim key cs in if text_eq k key then some id else later

unfoldable pub delete_claim : Text → List (Text × Text) → List (Text × Text)
delete_claim key [] = []
delete_claim key ((k, id) ∷ cs) =
    let later = delete_claim key cs in if text_eq k key then later else (k, id) ∷ later

-- `takeFailure`: the injected failure is consumed.
unfoldable pub take_failure : Store → Option GoError × Store
take_failure s = (s.fail_next, record s { fail_next = none })

-- `ensureQueue`
unfoldable pub ensure_queue : Text → List Queue → List Queue
ensure_queue name qs = elim (lookup_queue name qs) [
  | none ↦ put_queue (new_queue name default_weight) qs
  | some q ↦ qs
]
