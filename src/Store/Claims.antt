-- ===== src/Store/Claims.antt =====
-- The methods of IIdempotencyStore.
use goqueue.Base.{if◌then◌else◌, Text, is_empty, Bool, true, false, none, some, [], ◌∷◌}
use goqueue.Store.Defs.{Store, lookup_claim, delete_claim}

-- Whether the key was free, and the id of the job that holds it otherwise.
pub record ClaimReply : Type 0 where
  pub claimed : Bool
  pub existing_id : Text

unfoldable pub claim : Text → Text → Store → ClaimReply × Store
claim key job_id s =
    if is_empty key
    then (record { claimed = true; existing_id = [] }, s)
    else elim (lookup_claim key s.claims) [
      | some existing ↦ (record { claimed = false; existing_id = existing }, s)
      | none ↦ (
        record { claimed = true; existing_id = [] },
        record s { claims = (key, job_id) ∷ s.claims },
      )
    ]

unfoldable pub release : Text → Store → Store
release key s = record s { claims = delete_claim key s.claims }
