-- ===== src/Bucket/Writes.antt =====
-- The writes that the Bucket controller may ask for.
use influxdb_operator.Base.{String, ◌≡◌, ◌⊎◌, true, false, ◌==◌, Option, none, some, List}
use mathlib.Core.List.{Memᴰ}
use influxdb_operator.Effect.{reply}
use influxdb_operator.Api.{NamespacedName, Bucket, Config}
use influxdb_operator.Environment.{Environment, Connection, InfluxBucket, InfluxOrganization}
use influxdb_operator.Const.{reason_created_bucket, reason_deleted_bucket}
use influxdb_operator.Lifecycle.Reconcile.{is_deleted}
use influxdb_operator.Lifecycle.Reads.{IsNonempty}
use influxdb_operator.Lifecycle.Gone.{Without}
use influxdb_operator.Lifecycle.Machine.{Kind}
use influxdb_operator.Journal.{Write, bucket, create_bucket, delete_bucket}
use influxdb_operator.Journal.Trace.{IsOwn}

abbrev pub kind : Kind (Unit {0})
kind = record { no_data = tt; created = reason_created_bucket; deleted = reason_deleted_bucket }

-- InfluxDB lists the bucket in some world.
abbrev pub IsListed : Environment → InfluxBucket → Type 0
IsListed E b =
    (k : Connection) × (org_id : String) × (w : E.World) × (bs : List InfluxBucket)
    × ((E.influx.find_buckets_by_org_id k org_id w).0 ≡ reply (some bs))
    × Memᴰ b bs

-- A bucket is created for a live object, with its name, TTL and description, in an organization with an
-- id. One is deleted for an object that is marked for deletion, by the id of a bucket of its name that
-- InfluxDB listed.
abbrev pub IsStep : Environment → Bucket → Write → Type 0
IsStep E o (create_bucket b) =
    (is_deleted o ≡ false)
    × (b.name ≡ o.name)
    × (b.description ≡ o.spec.description)
    × (b.every_seconds ≡ o.spec.seconds_ttl)
    × ((id : String) × (b.org_id ≡ some id) × IsNonempty id)
IsStep E o (delete_bucket id) =
    (is_deleted o ≡ true)
    × IsNonempty id
    × ((b : InfluxBucket) × IsListed E b × (b.name ≡ o.name) × (b.id ≡ some id))
IsStep E o _ = ⊥

-- InfluxDB answers with the buckets of an organization, in some world.
abbrev pub IsAnswered : Environment → Option (List InfluxBucket) → Type 0
IsAnswered E listed =
    (k : Connection) × (org_id : String) × (w : E.World) × ((E.influx.find_buckets_by_org_id k
        org_id w).0
      ≡ reply listed)

-- The answer is nil, or no bucket in it has the name, or one has it with an empty id.
abbrev pub IsUnlisted : String → Option (List InfluxBucket) → Type 0
IsUnlisted name none = Unit
IsUnlisted name (some bs) =
    ((b : InfluxBucket) → Memᴰ b bs → (b.name == name) ≡ false)
    ⊎ ((b : InfluxBucket) × Memᴰ b bs × (b.name ≡ name) × (b.id ≡ some ""))

-- From the world `w` on: the organization of the Config is answered, and InfluxDB does not list the bucket
-- there.
abbrev pub IsAbsent : (E : Environment) → Bucket → Config → Connection → E.World → Type 0
IsAbsent E o c k w =
    let find = E.influx.find_organization_by_name k c.spec.org_name in
    (org : InfluxOrganization) × (id : String) × (listed : Option (List InfluxBucket)) × ((find w).0
      ≡ reply (some org))
    × (org.id ≡ some id)
    × ((E.influx.find_buckets_by_org_id k id (find w).1).0 ≡ reply listed)
    × IsUnlisted o.name listed

-- From the world after the read of the Bucket on: its Config, `default` in the namespace of the request,
-- is not found, or the bucket is absent.
abbrev pub IsGone : (E : Environment) → NamespacedName → Bucket → E.World → Type 0
IsGone E req o = Without E (record { namespace = req.namespace; name = "default" }) (IsAbsent E o)

-- The write to the object itself, where its finalizer is removed once `Gone` holds.
abbrev pub IsLast : Environment → Type 0 → Bucket → Write → Type 0
IsLast E Gone o (bucket x) = IsOwn E.finalizer_util kind Gone o x
IsLast E Gone o _ = ⊥
