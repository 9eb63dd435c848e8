-- ===== src/Token/Defs.antt =====
-- controllers/token_controller_impl.go and token_controller.go. A Token stands for an authorization
-- of InfluxDB, found by its description, whose token is kept in a Secret. The functions of the code
-- also read the id in `Status.Data` into `tokenId`; they never use it, so it is left out.
use influxdb_operator.Base.{
  String, Bool, true, false, ◌||◌, ◌<>◌, Option, none, some, List, [], ◌∷◌,
}
use influxdb_operator.Base.{if◌then◌else◌}
use influxdb_operator.Errors.{message, client, is_already_exists}
use influxdb_operator.Effect.{M, pure, throw, call, ask, check, deref, ◌>>=◌, ◌>>◌}
use influxdb_operator.Api.{NamespacedName, Token}
use influxdb_operator.Environment.{Environment, Authorization, Connection}
use influxdb_operator.Const.{key_token_id, reason_created_token, reason_deleted_token}
use influxdb_operator.Lifecycle.Connect.{
  need_config, config_or_skip, connect, need_valid_id, log_daily, has_status,
}
use influxdb_operator.Lifecycle.Handlers.{has_finalizer, mark_deleted, mark_created}
use influxdb_operator.Lifecycle.Reconcile.{Result}
use influxdb_operator.Lifecycle.Reconcile
use influxdb_operator.Token.Data.{
  description_of, find_authorization, to_permissions, Issued, config_of, name_of, token_contents,
  new_secret, is_stale,
}

module _ (E : Environment) where
  -- What follows the search for the authorization.
  unfoldable pub delete_authorization :
      Token → Connection → Option Authorization → M E.World (Unit {0})
  delete_authorization object connection none = pure tt
  delete_authorization object connection (some a) = do
    id ← deref a.id
    call (E.influx.delete_authorization_with_id connection id)
    mark_deleted E E.tokens none reason_deleted_token "deleted influxdb token" object

  -- `authorizations == nil`
  unfoldable pub need_authorizations : Option (List Authorization) → M E.World (List Authorization)
  need_authorizations none = throw (message "recived nil authorizations")
  need_authorizations (some authorizations) = pure authorizations

  unfoldable pub finalize_resources : Token → NamespacedName → M E.World (Unit {0})
  finalize_resources object req =
      if has_finalizer E object
      then (config_or_skip E (config_of object req) λ config. do
        connection ← connect E config
        check (call (E.influx.find_organization_by_name connection config.spec.org_name))
            (λ e. if has_status 404 e then pure tt else throw e)
            (λ organization. do
              org_id ← need_valid_id E organization
              listed ← call (E.influx.find_authorizations_by_org_id connection org_id)
              authorizations ← need_authorizations listed
              delete_authorization object connection
                  (find_authorization (description_of object) authorizations)))
      else pure tt

  -- The token of an authorization that is there.
  unfoldable pub use_existing : Token → Authorization → M E.World Issued
  use_existing object a = do
    log_daily E (object.uid <> "-" <> "token")
    elim a.id [
      | none ↦ throw (message "received nil id or token in authorization")
      | some id ↦ elim a.token [
        | none ↦ throw (message "received nil id or token in authorization")
        | some token ↦
            pure (record { token_id = id; token = token; exists = true; created = false })
      ]
    ]

  -- `*authorization.Id` and `*authorization.Token` of the pointer that `CreateAuthorization` gave.
  unfoldable pub read_created : Bool → Option Authorization → M E.World Issued
  read_created created authorization = do
    a ← deref authorization
    id ← deref a.id
    token ← deref a.token
    pure (record { token_id = id; token = token; exists = false; created = created })

  -- The two results of `CreateAuthorization`. Beside an error 422 the pointer is read too.
  unfoldable pub create_token : Token → Connection → String → String → M E.World Issued
  create_token object connection org_name org_id = do
    result ← ask (
        E.influx.create_authorization connection (record {
          description = description_of object;
          org_id = some org_id;
          permissions = to_permissions org_name org_id object.spec.permissions;
        }))
    elim result.1 [
      | none ↦ read_created true result.0
      | some e ↦
          if has_status 422 (client e)
          then (do log_daily E (object.uid <> "-" <> "token"); read_created false result.0)
          else throw (client e)
    ]

  unfoldable pub obtain :
      Token → Connection → String → String → Option Authorization → M E.World Issued
  obtain object connection org_name org_id none = create_token object connection org_name org_id
  obtain object connection org_name org_id (some a) = use_existing object a

  -- `r.Create` of the Secret: whether it existed.
  unfoldable pub create_secret : Token → String → M E.World Bool
  create_secret object token = do
    time ← ask E.now
    check (call (E.secrets.create (record (new_secret object token) { creation_timestamp = time })))
        (λ e.
          if is_already_exists e
          then (do log_daily E (object.uid <> "-" <> "secret"); pure true)
          else throw e)
        (λ _. pure false)

  unfoldable pub refresh_secret : Token → String → M E.World (Unit {0})
  refresh_secret object token = do
    secret ←
        call
          (E.secrets.get (record { namespace = object.namespace; name = object.spec.secret_name }))
    if is_stale token secret
        then call (E.secrets.update (record secret { contents = token_contents token }))
        else pure tt

  unfoldable pub write_secret : Token → Issued → M E.World (Unit {0})
  write_secret object issued =
      if issued.exists || issued.created
      then (do
        existed ← create_secret object issued.token
        if existed then refresh_secret object issued.token else pure tt)
      else pure tt

  -- The status that tells of the token.
  abbrev pub record_created : Token → Issued → M E.World (Unit {0})
  record_created object issued =
      mark_created E E.tokens none reason_created_token "created influxdb token" issued.created
        (some ((key_token_id, issued.token_id) ∷ [])) object

  unfoldable pub reconcile_resources : Token → NamespacedName → M E.World (Unit {0})
  reconcile_resources object req =
      if has_finalizer E object
      then (need_config E (config_of object req) λ config. do
        connection ← connect E config
        organization ← call (E.influx.find_organization_by_name connection config.spec.org_name)
        org_id ← need_valid_id E organization
        listed ← call (E.influx.find_authorizations_by_org_id connection org_id)
        authorizations ← need_authorizations listed
        issued ←
            obtain object connection (name_of organization) org_id
              (find_authorization (description_of object) authorizations)
        write_secret object issued
        record_created object issued)
      else throw (message "finalizer not found")

  unfoldable pub reconcile : NamespacedName → M E.World Result
  reconcile = Reconcile.reconcile E E.tokens none finalize_resources reconcile_resources
