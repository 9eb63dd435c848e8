-- ===== src/Lifecycle/Reads.antt =====
-- The beginning of `FinalizeResources` and `ReconcileResources` in any world: reading the Config, its
-- Secret and the clock keeps an invariant that does not depend on them.
use influxdb_operator.Base.{String, ◌≡◌, ◌≢◌, refl, Option, none, some, arith, eq_iff}
use influxdb_operator.Base.{inl, inr, Bool-cases, Option-cases}
use influxdb_operator.Errors.{message, is_not_found}
use influxdb_operator.Effect.{M, pure, throw, call}
use influxdb_operator.Effect.Keeps.{
  Any, Invariants, Allows, Keeps, Keeps-pure, Keeps-throw, Keeps-call, Keeps-check, Keeps-bind,
  Keeps-if,
}
use influxdb_operator.Api.{NamespacedName, Config}
use influxdb_operator.Environment.{Environment, Connection, InfluxOrganization}
use influxdb_operator.Lifecycle.Connect.{
  need_config, config_or_skip, connect, valid_id, need_valid_id, log_daily, string_at,
}
use influxdb_operator.Limiter.{is_due}
use influxdb_operator.Base.Dict.{lookup}
use influxdb_operator.Const.{day, key_token}

abbrev pub IsNonempty : String → Type 0
IsNonempty id = id ≢ ""

-- Reading keeps the invariant.
pub record Reads (E : Environment) (V : Invariants E.World) : Type 0 where
  pub now : (w : E.World) → V.running w → V.running (E.now w).1
  pub get_config : (n : NamespacedName) → Allows V Any (E.get_config n)
  pub get_secret : (n : NamespacedName) → Allows V Any (E.secrets.get n)
  pub find_organization :
      (k : Connection) (name : String) → Allows V Any (E.influx.find_organization_by_name k name)

-- The id of an organization that was answered.
abbrev pub IsValidId : Option InfluxOrganization → String → Type 0
IsValidId organization id =
    (org : InfluxOrganization) × (organization ≡ some org) × (org.id ≡ some id) × IsNonempty id

pub valid_id-IsValidId :
    (organization : Option InfluxOrganization) (id : String)
    → valid_id organization ≡ some id
    → IsValidId organization id
unfolding valid_id
valid_id-IsValidId none id h = cc
valid_id-IsValidId (some org) id h = (org, refl, ground arith, λ e. ground (arith, eq_iff id ""))

module _ (E : Environment) (V : Invariants E.World) (R : Reads E V) where
  pub need_config-Keeps :
      (name : NamespacedName) (rest : Config → M E.World (Unit {0}))
      → ((c : Config) → Keeps V Any (rest c))
      → Keeps V Any (need_config E name rest)
  unfolding need_config
  need_config-Keeps name rest h =
      Keeps-bind V Any Any (call (E.get_config name)) rest (Keeps-call V Any _ (R.get_config name))
        (λ c _. h c)

  pub connect-Keeps : (c : Config) → Keeps V Any (connect E c)
  unfolding connect
  connect-Keeps c =
      let name : NamespacedName = record {
        namespace = c.spec.token_secret_namespace;
        name = c.spec.token_secret_name;
      } in
      Keeps-bind V Any Any (call (E.secrets.get name))
        (λ secret.
          pure (record { addr = c.spec.addr; token = string_at secret.contents key_token }))
        (Keeps-call V Any (E.secrets.get name) (R.get_secret name)) (λ secret _ s inv. (inv, tt))

  pub need_valid_id-Keeps :
      (organization : Option InfluxOrganization)
      → Keeps V (IsValidId organization) (need_valid_id E organization)
  unfolding need_valid_id
  need_valid_id-Keeps organization =
      let Q = IsValidId organization in
      elim (Option-cases (valid_id organization)) [
        | inl missing ↦
            rw (missing, need_valid_id) (Keeps-throw V Q (message "nil org pointer or invalid id"))
        | inr (id, found) ↦
            rw (found, need_valid_id) (Keeps-pure V Q id (valid_id-IsValidId organization id found))
      ]

  pub log_daily-Keeps : (name : String) → Keeps V Any (log_daily E name)
  unfolding log_daily
  log_daily-Keeps name s inv =
      elim (Bool-cases (is_due (lookup name s.cache) day (E.now s.world).0)) [
        | inl due ↦ rw due (R.now _ (R.now s.world inv), tt)
        | inr early ↦ rw early (R.now s.world inv, tt)
      ]

  -- The Config of `FinalizeResources`.
  pub config_or_skip-Keeps :
      (name : NamespacedName) (rest : Config → M E.World (Unit {0}))
      → ((c : Config) → Keeps V Any (rest c))
      → Keeps V Any (config_or_skip E name rest)
  unfolding config_or_skip
  config_or_skip-Keeps name rest h =
      Keeps-check V Any Any (E.get_config name) _ rest (R.get_config name)
        (λ e.
          Keeps-if V Any (is_not_found e) (pure tt) (throw e) (λ _. Keeps-pure V Any tt tt)
            (λ _. Keeps-throw V {A = Unit {0}} Any e))
        (λ c _. h c)
