-- ===== src/Bucket/Defs.antt =====
-- controllers/bucket_controller_impl.go and bucket_controller.go. A Bucket always uses the Config
-- named `default` of its namespace.
use influxdb_operator.Base.{
  String, Bool, true, false, ◌==◌, ◌<>◌, Option, none, some, List, [], ◌∷◌,
}
use influxdb_operator.Base.{if◌then◌else◌}
use influxdb_operator.Errors.{message}
use influxdb_operator.Effect.{M, pure, throw, call, check, deref, ◌>>=◌, ◌>>◌}
use influxdb_operator.Api.{NamespacedName, Bucket, Config}
use influxdb_operator.Environment.{Environment, InfluxBucket, Connection}
use influxdb_operator.Const.{config_influxdb, reason_created_bucket, reason_deleted_bucket}
use influxdb_operator.Lifecycle.Connect.{
  need_config, config_or_skip, connect, need_valid_id, log_daily, has_status,
}
use influxdb_operator.Lifecycle.Handlers.{has_finalizer, mark_deleted, mark_created}
use influxdb_operator.Lifecycle.Reconcile.{Result}
use influxdb_operator.Lifecycle.Reconcile

-- The loop over the buckets of the organization: the id of the first one with the name, or the empty
-- string. A bucket with a nil id is dereferenced.
unfoldable pub find_id : {W : Type 0} → String → List InfluxBucket → M W String
find_id name [] = pure ""
find_id name (bucket ∷ buckets) =
    if bucket.name == name then deref bucket.id else find_id name buckets

-- The Config that every Bucket uses.
abbrev pub config_of : NamespacedName → NamespacedName
config_of req = record { namespace = req.namespace; name = config_influxdb }

module _ (E : Environment) where
  -- `FindOrganizationByName`; every branch on its error returns the error.
  unfoldable pub find_org_id : Connection → Config → M E.World String
  find_org_id connection config = do
    organization ← call (E.influx.find_organization_by_name connection config.spec.org_name)
    need_valid_id E organization

  -- What follows `FindBucketsByOrgID` without an error. A nil list ends the function with the nil error.
  unfoldable pub delete_found :
      Bucket → Connection → Option (List InfluxBucket) → M E.World (Unit {0})
  delete_found object connection none = pure tt
  delete_found object connection (some buckets) = do
    id ← find_id object.name buckets
    if id == "" then pure tt else do
      call (E.influx.delete_bucket_with_id connection id)
      mark_deleted E E.buckets tt reason_deleted_bucket "deleted influxdb bucket" object

  unfoldable pub finalize_resources : Bucket → NamespacedName → M E.World (Unit {0})
  finalize_resources object req =
      if has_finalizer E object
      then (config_or_skip E (config_of req) λ config. do
        connection ← connect E config
        org_id ← find_org_id connection config
        buckets ← call (E.influx.find_buckets_by_org_id connection org_id)
        delete_found object connection buckets)
      else pure tt

  -- `CreateBucket`: whether this call created the bucket. An error 422 means that it exists.
  unfoldable pub create : Bucket → Connection → String → M E.World Bool
  create object connection org_id =
      check
        (call (
          E.influx.create_bucket connection (record {
            description = object.spec.description;
            name = object.name;
            org_id = some org_id;
            every_seconds = object.spec.seconds_ttl;
          })))
        (λ e.
          if has_status 422 e
          then (do log_daily E (object.uid <> "-" <> "bucket"); pure false)
          else throw e)
        (λ _. pure true)

  unfoldable pub reconcile_resources : Bucket → NamespacedName → M E.World (Unit {0})
  reconcile_resources object req =
      if has_finalizer E object
      then (need_config E (config_of req) λ config. do
        connection ← connect E config
        org_id ← find_org_id connection config
        created ← create object connection org_id
        mark_created E E.buckets tt reason_created_bucket "created influxdb bucket" created tt
            object)
      else throw (message "finalizer not found")

  unfoldable pub reconcile : NamespacedName → M E.World Result
  reconcile = Reconcile.reconcile E E.buckets tt finalize_resources reconcile_resources
