-- ===== src/Values/States.antt =====
-- value_objects/job_state.go: the lifecycle states of a job and the transitions between them. The Go
-- type is a string; the six constants are the only values that its constructor returns.
use goqueue.Base.{
  if◌then◌else◌, Text, bytes, text_eq, ◌≡◌, refl, ◌≢◌, Bool, true, false, ◌||◌, Option, none, some,
  List, [], ◌∷◌, ◌++◌, arith,
}
use goqueue.Errors.{invalid, Result, ok, err}
use goqueue.Values.Codes.{invalid_job_state}

pub data JobState : Type 0 where
  scheduled pending active retrying completed dead : JobState

-- The map `allowedTransitions`; a pair that it does not list is not allowed.
unfoldable pub can_transition_to : JobState → JobState → Bool
can_transition_to scheduled pending = true
can_transition_to scheduled dead = true
can_transition_to pending active = true
can_transition_to pending dead = true
can_transition_to active completed = true
can_transition_to active retrying = true
can_transition_to active dead = true
can_transition_to active pending = true
can_transition_to retrying pending = true
can_transition_to retrying dead = true
can_transition_to dead pending = true
can_transition_to _ _ = false

abbrev pub state_eq : JobState → JobState → Bool
state_eq scheduled scheduled = true
state_eq pending pending = true
state_eq active active = true
state_eq retrying retrying = true
state_eq completed completed = true
state_eq dead dead = true
state_eq _ _ = false

unfoldable pub all_states : List JobState
all_states = scheduled ∷ pending ∷ active ∷ retrying ∷ completed ∷ dead ∷ []

unfoldable pub is_terminal : JobState → Bool
is_terminal s = state_eq s completed || state_eq s dead

unfoldable pub state_string : JobState → Text
state_string scheduled = bytes "scheduled"
state_string pending = bytes "pending"
state_string active = bytes "active"
state_string retrying = bytes "retrying"
state_string completed = bytes "completed"
state_string dead = bytes "dead"

-- `NewJobState`: the constant that is spelled so.
find_state : List JobState → Text → Option JobState
find_state [] raw = none
find_state (s ∷ ss) raw =
    let later = find_state ss raw in if text_eq (state_string s) raw then some s else later

unfoldable pub new_job_state : Text → Result JobState
unfolding find_state
new_job_state raw = elim (find_state all_states raw) [
  | none ↦ err (invalid invalid_job_state (bytes "unknown job state: " ++ raw))
  | some s ↦ ok s
]

-- Every state renders to a name that reads back as that state.
pub new_job_state-state_string : (s : JobState) → new_job_state (state_string s) ≡ ok s
unfolding new_job_state all_states state_string text_eq bytes
new_job_state-state_string scheduled = refl
new_job_state-state_string pending = refl
new_job_state-state_string active = refl
new_job_state-state_string retrying = refl
new_job_state-state_string completed = refl
new_job_state-state_string dead = refl

-- A chain of allowed transitions.
pub data Leads : JobState → JobState → Type 0 where
  here : {s : JobState} → Leads s s
  next : {s t u : JobState} → can_transition_to s t ≡ true → Leads t u → Leads s u

-- From a completed job no transition leads anywhere else; from every other state there is a chain of
-- transitions to completion.
completed-Leads : {s t : JobState} → Leads s t → s ≡ completed → t ≡ completed
unfolding can_transition_to
completed-Leads here e = e
completed-Leads {s} (next {t = u} h r) e = completed-Leads r (ground arith)

to_completed : (s : JobState) → s ≢ completed → Leads s completed
unfolding can_transition_to
to_completed active ne = next {t = completed} refl here
to_completed pending ne = next {t = active} refl (next {t = completed} refl here)
to_completed completed ne = absurd (ne refl)
to_completed scheduled ne =
    next {t = pending} refl (next {t = active} refl (next {t = completed} refl here))
to_completed retrying ne =
    next {t = pending} refl (next {t = active} refl (next {t = completed} refl here))
to_completed dead ne =
    next {t = pending} refl (next {t = active} refl (next {t = completed} refl here))

-- A chain of allowed transitions leads from any state but completed to completed, and from completed
-- to no other state.
pub lifecycle_absorbs :
    (s t : JobState) → (s ≢ completed → Leads s completed) × (Leads completed t → t ≡ completed)
lifecycle_absorbs s t = (to_completed s, λ r. completed-Leads r refl)
