-- ===== src/Errors.antt =====
-- controllers/error.go, and the errors that the controllers handle. An error of a client library
-- (Kubernetes or InfluxDB) is kept as what the code asks of it: `IsNotFound`, `IsAlreadyExists`, and
-- the `*http.Error` that `errors.As` finds in its chain. No such chain holds an `Error` of error.go.
use influxdb_operator.Base.{ℕ, String, Bool, true, false, Option, none, some, ◌==◌, ◌≡◌, ◌↔◌, ◌||◌}
use influxdb_operator.Base.{arith, eq_iff, if◌then◌else◌}

-- `http.Error` of the InfluxDB client; the code reads the status code only.
pub record HttpError : Type 0 where
  pub status_code : ℕ
  pub message : String

pub record ClientError : Type 0 where
  pub not_found : Bool
  pub already_exists : Bool
  pub http : Option HttpError
  pub text : String

-- A value of Go's `error` that is not nil.
pub data GoError : Type 0 where
  typed : String → GoError  -- Error(s) of error.go
  message : String → GoError  -- fmt.Errorf(s)
  client : ClientError → GoError

-- `errors.As(target, &targetError)` for a `targetError` of type `Error`.
abbrev as_error : GoError → Option String
as_error (typed s) = some s
as_error (message s) = none
as_error (client c) = none

-- `func (e Error) Is(target error) bool`
unfoldable pub is : String → GoError → Bool
is e target = elim (as_error target) [
  | none ↦ false
  | some target_error ↦ if e == target_error then true else false
]

abbrev pub object_updated : GoError
object_updated = typed "object-updated"

-- `err == target` for a target of type `Error`; other errors are of other types.
abbrev same : GoError → GoError → Bool
same (typed a) (typed b) = a == b
same _ _ = false

-- `errors.Is(err, target)` of the standard library, which calls the method `Is` if there is one.
unfoldable pub errors_is : GoError → GoError → Bool
unfolding is
errors_is (typed e) target = same (typed e) target || is e target
errors_is (message s) target = same (message s) target
errors_is (client c) target = same (client c) target

-- `apimachineryerrors.IsNotFound`, `apimachineryerrors.IsAlreadyExists`
abbrev pub is_not_found : GoError → Bool
is_not_found (client c) = c.not_found
is_not_found _ = false

abbrev pub is_already_exists : GoError → Bool
is_already_exists (client c) = c.already_exists
is_already_exists _ = false

-- `errors.As(err, &httpErr)`
abbrev pub as_http : GoError → Option HttpError
as_http (client c) = c.http
as_http _ = none

-- An error is taken for `ObjectUpdated` exactly if it is that value.
pub errors_is-iff_updated :
    (e : GoError) → (errors_is e object_updated ≡ true) ↔ (e ≡ object_updated)
unfolding errors_is
errors_is-iff_updated (typed s) = ground (arith, eq_iff s "object-updated")
errors_is-iff_updated (message s) = ground arith
errors_is-iff_updated (client c) = ground arith
