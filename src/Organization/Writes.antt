-- ===== src/Organization/Writes.antt =====
-- The writes that the Organization controller may ask for.
use influxdb_operator.Base.{String, ◌≡◌, true, false, some}
use influxdb_operator.Errors.{ClientError, client}
use influxdb_operator.Effect.{reply, refuse}
use influxdb_operator.Api.{NamespacedName, Organization, Config}
use influxdb_operator.Environment.{Environment, Connection, InfluxOrganization}
use influxdb_operator.Const.{reason_created_organization, reason_deleted_organization}
use influxdb_operator.Lifecycle.Connect.{has_status}
use influxdb_operator.Lifecycle.Reconcile.{is_deleted}
use influxdb_operator.Lifecycle.Reads.{IsNonempty}
use influxdb_operator.Lifecycle.Gone.{Without}
use influxdb_operator.Lifecycle.Machine.{Kind}
use influxdb_operator.Journal.{Write, organization, create_organization, delete_organization}
use influxdb_operator.Journal.Trace.{IsOwn}

-- InfluxDB answers with the organization for a name, in some world.
abbrev pub IsAnswered : Environment → String → InfluxOrganization → Type 0
IsAnswered E name org =
    (k : Connection) × (w : E.World) × ((E.influx.find_organization_by_name k name w).0
      ≡ reply (some org))

abbrev pub kind : Kind (Unit {0})
kind = record {
  no_data = tt;
  created = reason_created_organization;
  deleted = reason_deleted_organization;
}

-- An organization is created for a live object, with its name. One is deleted for an object that is
-- marked for deletion, by the id of an organization that InfluxDB answered for its name.
abbrev pub IsStep : Environment → Organization → Write → Type 0
IsStep E o (create_organization name) = (is_deleted o ≡ false) × (name ≡ o.name)
IsStep E o (delete_organization id) =
    (is_deleted o ≡ true)
    × IsNonempty id
    × ((org : InfluxOrganization) × IsAnswered E o.name org × (org.id ≡ some id))
IsStep E o _ = ⊥

-- From the world `w` on: InfluxDB answers 404 to the name.
abbrev pub IsAbsent : (E : Environment) → Organization → Config → Connection → E.World → Type 0
IsAbsent E o c k w =
    (x : ClientError) × ((E.influx.find_organization_by_name k o.name w).0 ≡ refuse x)
    × (has_status 404 (client x) ≡ true)

-- From the world after the read of the Organization on: its Config, in the namespace of the request, is
-- not found, or InfluxDB answers 404 to the name.
abbrev pub IsGone : (E : Environment) → NamespacedName → Organization → E.World → Type 0
IsGone E req o =
    Without E (record { namespace = req.namespace; name = o.spec.config_name }) (IsAbsent E o)

-- The write to the object itself, where its finalizer is removed once `Gone` holds.
abbrev pub IsLast : Environment → Type 0 → Organization → Write → Type 0
IsLast E Gone o (organization x) = IsOwn E.finalizer_util kind Gone o x
IsLast E Gone o _ = ⊥
