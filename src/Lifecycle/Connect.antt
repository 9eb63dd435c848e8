-- ===== src/Lifecycle/Connect.antt =====
-- The beginning of `FinalizeResources` and `ReconcileResources` in the three files
-- controllers/*_controller_impl.go: the Config, the admin token in its Secret, the InfluxDB client,
-- and the check of an organization that the client found. Closing the client has no effect here.
use influxdb_operator.Base.{ℕ, String, Bool, false, ◌==◌, Option, none, some, if◌then◌else◌, eq_ℕ}
use influxdb_operator.Base.Dict.{Dict, lookup}
use influxdb_operator.Errors.{GoError, message, is_not_found, as_http}
use influxdb_operator.Effect.{M, ok, pure, throw, call, check, ◌>>=◌}
use influxdb_operator.Api.{NamespacedName, Config}
use influxdb_operator.Environment.{Environment, Connection, InfluxOrganization}
use influxdb_operator.Limiter.{is_due, rate_limit}
use influxdb_operator.Const.{key_token, day}

-- `errors.As(err, &httpErr) && httpErr.StatusCode == code`
unfoldable pub has_status : ℕ → GoError → Bool
has_status code e = elim (as_http e) [ none ↦ false | some http ↦ eq_ℕ http.status_code code ]

-- `string(secret.Data[keyToken])`: a missing key, or a nil map, reads as empty.
unfoldable pub string_at : Option (Dict String) → String → String
string_at none key = ""
string_at (some m) key = elim (lookup key m) [ none ↦ "" | some v ↦ v ]

-- `organization == nil || organization.Id == nil || len(*organization.Id) == 0`
unfoldable pub valid_id : Option InfluxOrganization → Option String
valid_id none = none
valid_id (some organization) = elim organization.id [
  | none ↦ none
  | some id ↦ if id == "" then none else some id
]

module _ (E : Environment) where
  -- `ReconcileResources` fails without a Config.
  unfoldable pub need_config :
      NamespacedName → (Config → M E.World (Unit {0})) → M E.World (Unit {0})
  need_config name rest = call (E.get_config name) >>= rest

  -- `FinalizeResources` skips the deletion without a Config.
  unfoldable pub config_or_skip :
      NamespacedName → (Config → M E.World (Unit {0})) → M E.World (Unit {0})
  config_or_skip name rest =
      check (call (E.get_config name)) (λ e. if is_not_found e then pure tt else throw e) rest

  unfoldable pub connect : Config → M E.World Connection
  connect config = do
    secret ← call (
        E.secrets.get (record {
          namespace = config.spec.token_secret_namespace;
          name = config.spec.token_secret_name;
        }))
    pure (record { addr = config.spec.addr; token = string_at secret.contents key_token })

  unfoldable pub need_valid_id : Option InfluxOrganization → M E.World String
  need_valid_id organization = elim (valid_id organization) [
    | none ↦ throw (message "nil org pointer or invalid id")
    | some id ↦ pure id
  ]

  -- `rateLimit(name, time.Hour*24, …)`: the clock is read a second time if the function is started.
  unfoldable pub log_daily : String → M E.World (Unit {0})
  log_daily name s =
      let (now, w) = E.now s.world in
      let (stored, w') = E.now w in
      if is_due (lookup name s.cache) day now
      then (ok tt, record { world = w'; cache = (rate_limit name day now stored s.cache).1 })
      else (ok tt, record { world = w; cache = s.cache })
