-- ===== src/Organization.antt =====
-- controllers/organization_controller_impl.go and organization_controller.go. An Organization names
-- its Config.
pub mod Handlers
pub mod Server
pub mod Steps
pub mod Sync
pub mod Converges
pub mod Deletes
pub mod Writes
pub mod Found
pub mod Gone
pub mod Authority
pub mod History
pub mod Guard
use influxdb_operator.Base.{Bool, true, false, ◌<>◌, Option, none, some, if◌then◌else◌}
use influxdb_operator.Errors.{message}
use influxdb_operator.Effect.{M, pure, throw, call, check, ◌>>=◌, ◌>>◌}
use influxdb_operator.Api.{NamespacedName, Organization}
use influxdb_operator.Environment.{Environment, InfluxOrganization, Connection}
use influxdb_operator.Const.{reason_created_organization, reason_deleted_organization}
use influxdb_operator.Lifecycle.Connect.{
  need_config, config_or_skip, connect, need_valid_id, log_daily, has_status,
}
use influxdb_operator.Lifecycle.Handlers.{has_finalizer, mark_deleted, mark_created}
use influxdb_operator.Lifecycle.Reconcile.{Result}
use influxdb_operator.Lifecycle.Reconcile

-- `organization != nil && organization.Id != nil`
unfoldable pub has_id : Option InfluxOrganization → Bool
has_id none = false
has_id (some organization) = elim organization.id [ none ↦ false | some id ↦ true ]

-- The Config that the object names, in the namespace of the request.
abbrev pub config_of : Organization → NamespacedName → NamespacedName
config_of object req = record { namespace = req.namespace; name = object.spec.config_name }

module _ (E : Environment) where
  -- What follows `FindOrganizationByName` without an error.
  unfoldable pub delete_found :
      Organization → Connection → Option InfluxOrganization → M E.World (Unit {0})
  delete_found object connection organization = do
    id ← need_valid_id E organization
    call (E.influx.delete_organization_with_id connection id)
    mark_deleted E E.organizations tt reason_deleted_organization "deleted influxdb organization"
        object

  unfoldable pub finalize_resources : Organization → NamespacedName → M E.World (Unit {0})
  finalize_resources object req =
      if has_finalizer E object
      then (config_or_skip E (config_of object req) λ config. do
        connection ← connect E config
        check (call (E.influx.find_organization_by_name connection object.name))
            (λ e. if has_status 404 e then pure tt else throw e) (delete_found object connection))
      else pure tt

  -- `CreateOrganization`: whether this call created it. An error 422 means that it exists.
  unfoldable pub create : Organization → Connection → M E.World Bool
  create object connection =
      check (call (E.influx.create_organization connection object.name))
        (λ e.
          if has_status 422 e
          then (do log_daily E (object.uid <> "-" <> "org"); pure false)
          else throw e)
        (λ _. pure true)

  -- The organization of the Config is looked up first; where the client gives none and no error, the
  -- function returns that nil error.
  unfoldable pub reconcile_resources : Organization → NamespacedName → M E.World (Unit {0})
  reconcile_resources object req =
      if has_finalizer E object
      then (need_config E (config_of object req) λ config. do
        connection ← connect E config
        organization ← call (E.influx.find_organization_by_name connection config.spec.org_name)
        if has_id organization
            then (do
              created ← create object connection
              mark_created E E.organizations tt reason_created_organization
                  "created influxdb organization" created tt object)
            else pure tt)
      else throw (message "finalizer not found")

  unfoldable pub reconcile : NamespacedName → M E.World Result
  reconcile = Reconcile.reconcile E E.organizations tt finalize_resources reconcile_resources
