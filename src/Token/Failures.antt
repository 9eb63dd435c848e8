-- ===== src/Token/Failures.antt =====
-- What the Token controller does where InfluxDB refuses a new authorization.
use influxdb_operator.Base.{String, ◌≡◌, refl, ap, true, false, none, some}
use influxdb_operator.Base.{Bool-cases, inl, inr}
use influxdb_operator.Base.Dict.{lookup}
use influxdb_operator.Errors.{client, ClientError}
use influxdb_operator.Effect.{Sys, ok, err, panic}
use influxdb_operator.Api.{Token}
use influxdb_operator.Environment.{Environment, Connection, NewAuthorization}
use influxdb_operator.Limiter.{is_due}
use influxdb_operator.Const.{day}
use influxdb_operator.Lifecycle.Connect.{has_status, log_daily}
use influxdb_operator.Token.Data.{description_of, to_permissions}
use influxdb_operator.Token.Defs.{create_token, read_created}

-- The authorization that the controller asks for.
abbrev pub request_of : Token → String → String → NewAuthorization
request_of o org_name org_id = record {
  description = description_of o;
  org_id = some org_id;
  permissions = to_permissions org_name org_id o.spec.permissions;
}

log_daily_succeeds :
    (E : Environment) (name : String) (s : Sys E.World) → (log_daily E name s).0 ≡ ok tt
unfolding log_daily
log_daily_succeeds E name s =
    elim (Bool-cases (is_due (lookup name s.cache) day (E.now s.world).0)) [
      | inl due ↦ rw due refl
      | inr early ↦ rw early refl
    ]

-- In any world where `CreateAuthorization` answers a nil pointer beside an error: an error of the status
-- 422 ends in a panic, and any other error is returned.
pub create_token_refused :
    (E : Environment) (o : Token) (k : Connection) (org_name org_id : String) (s : Sys E.World)
    (e : ClientError)
    → (E.influx.create_authorization k (request_of o org_name org_id) s.world).0 ≡ (none, some e)
    → (has_status 422 (client e) ≡ true → (create_token E o k org_name org_id s).0 ≡ panic)
      × (has_status 422 (client e) ≡ false
          → (create_token E o k org_name org_id s).0 ≡ err (client e))
unfolding create_token read_created
create_token_refused E o k org_name org_id s e refused =
    let no_pointer = ap (λ p. p.0) refused in
    let error = ap (λ p. p.1) refused in
    (
      λ taken. rw (error, taken, no_pointer, log_daily_succeeds) refl,
      λ other. rw (error, other) refl,
    )
