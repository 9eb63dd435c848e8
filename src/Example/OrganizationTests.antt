-- ===== src/Example/OrganizationTests.antt =====
-- The theorems about the Organization controller in the world in memory.
use influxdb_operator.Base.{
  ◌+◌, ◌≤◌, String, ◌≡◌, ◌≢◌, refl, true, none, some, [], ◌∷◌, eq_iff, arith,
}
use influxdb_operator.Effect.{Sys}
use influxdb_operator.Api.{NamespacedName, Organization, Status}
use influxdb_operator.Environment.{InfluxOrganization}
use influxdb_operator.Const.{finalizer}
use influxdb_operator.Lifecycle.Handlers.{has_finalizer}
use influxdb_operator.Lifecycle.Reconcile.{repeat}
use influxdb_operator.Lifecycle.Server.{SameKey, Sees}
use influxdb_operator.Lifecycle.Deletion.{released}
use influxdb_operator.Lifecycle.Keyed
use influxdb_operator.Organization.{reconcile, has_id}
use influxdb_operator.Organization.Server.{Remote, others, count, id_of}
use influxdb_operator.Organization.Sync.{Usable}
use influxdb_operator.Organization.Converges.{IsDone, organization-IsDone}
use influxdb_operator.Organization.Deletes.{organization-lets_go}
use influxdb_operator.Example.Finalizers.{contains}
use influxdb_operator.Example.Memory.{World, memory}
use influxdb_operator.Example.OrganizationLaws.{
  organization_remote, organization-IsServer, organization-IsInflux,
}
use influxdb_operator.Example.Data.{secret-HasToken, config, secret, acme, world}

abbrev key : NamespacedName
key = record { namespace = "ns"; name = "plant" }

abbrev config_name : NamespacedName
config_name = record { namespace = "ns"; name = "default" }

abbrev plant : Organization
plant = record {
  api_version = "influxdb.kubetrail.io/v1beta1";
  kind = "Organization";
  name = "plant";
  namespace = "ns";
  uid = "u3";
  deletion_timestamp = none;
  finalizers = [];
  spec = record { config_name = "default" };
  status = record { phase = ""; conditions = []; message = ""; reason = ""; values = tt };
}

abbrev start : Sys World
start = record { world = record world { organization = some plant }; cache = [] }

plant-Usable :
    Usable memory key config_name
      (organization-IsServer key)
      (organization-IsInflux key config_name)
      plant
      (organization_remote start.world)
unfolding Keyed.find has_id
plant-Usable =
    (refl, config, secret, record { config = refl; secret = refl; token = secret-HasToken }, refl)

organization-IsDone_example :
    (o : Organization) × (r : Remote) × (Sees memory memory.organizations key
      (organization-IsServer key)
      (repeat 4 (reconcile memory key) start)
      (some o)
      r)
    × SameKey o plant
    × (o.spec ≡ plant.spec)
    × (o.deletion_timestamp ≡ none)
    × IsDone memory key config_name
        (organization-IsServer key)
        (organization-IsInflux key config_name)
        o
        r
organization-IsDone_example =
    organization-IsDone memory key config_name (organization-IsServer key)
      (organization-IsInflux key config_name) 4 start plant (organization_remote start.world)
      (refl, refl) plant-Usable refl (omega arith)

abbrev leaving : Organization
leaving = record plant { deletion_timestamp = some 300; finalizers = finalizer ∷ [] }

abbrev plant_organization : InfluxOrganization
plant_organization = record { id = some "org2"; name = "plant" }

abbrev leaving_start : Sys World
leaving_start = record {
  world = record world {
    organization = some leaving;
    organizations = acme ∷ plant_organization ∷ [];
  };
  cache = [];
}

not_nil : (◌≢◌ {A = String} "org1" "") × (◌≢◌ {A = String} "org2" "")
not_nil = (ground (arith, eq_iff "org1" ""), ground (arith, eq_iff "org2" ""))

organizations-IsKeyed : Keyed.IsKeyed id_of (acme ∷ plant_organization ∷ [])
unfolding Keyed.has_id
organizations-IsKeyed = ("org1", refl, not_nil.0, refl, ("org2", refl, not_nil.1, refl, tt))

leaving-held : has_finalizer memory leaving ≡ true
unfolding contains
leaving-held = refl

three_are_enough : 2 + count "plant" (acme ∷ plant_organization ∷ []) ≤ 3
unfolding Keyed.count
three_are_enough = omega arith

organization-lets_go_example :
    (st : Status (Unit {0})) × (r : Remote) × Sees memory memory.organizations key
      (organization-IsServer key)
      (repeat 3 (reconcile memory key) leaving_start)
      (released memory (record leaving { status = st }))
      r
    × (r.organizations ≡ others "plant" (acme ∷ plant_organization ∷ []))
organization-lets_go_example =
    organization-lets_go memory key config_name (organization-IsServer key)
      (organization-IsInflux key config_name) 3 leaving_start leaving
      (organization_remote leaving_start.world) 300 config secret (refl, refl) refl
      (record { config = refl; secret = refl; token = secret-HasToken }) organizations-IsKeyed refl
      leaving-held three_are_enough
