-- ===== src/Errors.antt =====
-- pkg/common/errors/errors.go: the error type that crosses the layers, the kinds that the HTTP
-- middleware maps (pkg/api/middleware/error_handler.go), and the result of a fallible call.
-- A Go `error` is a chain: an AppError, with or without a cause, an error of the standard library or
-- of a handler (`plain`), or such an error around another (`wrapped`, its `Unwrap` gives the inner).
use goqueue.Base.{
  Text, bytes, ℕ, ◌≡◌, refl, ◌≢◌, ◌⊎◌, inl, inr, Bool, true, false, Option, none, some, ◌++◌,
}

pub data Kind : Type 0 where
  internal invalid_argument not_found conflict unavailable : Kind

pub data GoError : Type 0 where
  plain : Text → GoError
  wrapped : Text → GoError → GoError
  app : Kind → Text → Text → GoError
  app_caused : Kind → Text → Text → GoError → GoError

-- What `Kind.String` renders.
unfoldable pub kind_string : Kind → Text
kind_string invalid_argument = bytes "invalid_argument"
kind_string not_found = bytes "not_found"
kind_string conflict = bytes "conflict"
kind_string unavailable = bytes "unavailable"
kind_string internal = bytes "internal"

-- `err.Error()`.
unfoldable pub error_string : GoError → Text
error_string (plain message) = message
error_string (wrapped message inner) = message
error_string (app kind code message) = code ++ bytes ": " ++ message
error_string (app_caused kind code message cause) =
    code ++ bytes ": " ++ message ++ bytes ": " ++ error_string cause

pub record AppError : Type 0 where
  pub kind : Kind
  pub code : Text
  pub message : Text
  pub cause : Option GoError

-- `As`: the first AppError along the chain of `Unwrap`.
unfoldable pub as_app : GoError → Option AppError
as_app (plain message) = none
as_app (wrapped message inner) = as_app inner
as_app (app kind code message) =
    some (record { kind = kind; code = code; message = message; cause = none })
as_app (app_caused kind code message cause) =
    some (record { kind = kind; code = code; message = message; cause = some cause })

-- `KindOf`, internal where the chain holds no AppError.
unfoldable pub kind_of : GoError → Kind
unfolding as_app
kind_of e = elim (as_app e) [ none ↦ internal | some a ↦ a.kind ]

abbrev pub invalid : Text → Text → GoError
invalid code message = app invalid_argument code message

abbrev pub not_found_error : Text → Text → GoError
not_found_error code message = app not_found code message

abbrev pub conflict_error : Text → Text → GoError
conflict_error code message = app conflict code message

-- A value, or the error that the call returns in its place.
pub data Result {ℓ} (A : Type ℓ) : Type ℓ where
  ok : A → Result A
  err : GoError → Result A

-- The two early-return patterns of the source: `x, err := call()` and `if err := call()`, each followed
-- by `if err != nil { return err }`.
infixl 5 ◌>>=◌ ◌>>◌
abbrev pub ◌>>=◌ {ℓ κ} :
    {A : Type ℓ} {B : Type κ} (call : Result A) (rest : A → Result B) → Result B
err failure >>= rest = err failure
ok value >>= rest = rest value

abbrev pub ◌>>◌ {ℓ} : {B : Type ℓ} (call : Result (Unit {0})) (rest : Result B) → Result B
err failure >> rest = err failure
ok done >> rest = rest

-- An early `return nil, e` where the test holds.
abbrev pub reject_if : Bool → GoError → Result (Unit {0})
reject_if true e = err e
reject_if false e = ok tt

-- `statusFor` of the HTTP error middleware.
unfoldable pub status_for : Kind → ℕ
status_for invalid_argument = 400
status_for not_found = 404
status_for conflict = 409
status_for unavailable = 503
status_for internal = 500

pub >>=-eq-ok {ℓ κ} :
    {A : Type ℓ} {B : Type κ} (call : Result A) (rest : A → Result B) {b : B}
    → (call >>= rest) ≡ ok b
    → (value : A) × (call ≡ ok value) × (rest value ≡ ok b)
>>=-eq-ok (err failure) rest h = cc
>>=-eq-ok (ok value) rest h = (value, refl, h)

pub Result-cases {ℓ} :
    {A : Type ℓ} (r : Result A) → ((a : A) × (r ≡ ok a)) ⊎ ((e : GoError) × (r ≡ err e))
Result-cases (ok a) = inl (a, refl)
Result-cases (err e) = inr (e, refl)

pub err≢ok {ℓ} : {A : Type ℓ} {e : GoError} {a : A} → err e ≢ ok a
err≢ok h = cc h
