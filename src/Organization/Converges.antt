-- ===== src/Organization/Converges.antt =====
-- An live Organization under healthy servers, and repeated calls of `Reconcile`.
use influxdb_operator.Base.{ℕ, ◌≤◌, ◌≡◌, none, some}
use influxdb_operator.Effect.{Sys, ok}
use influxdb_operator.Api.{NamespacedName, Organization}
use influxdb_operator.Environment.{Environment}
use influxdb_operator.Const.{reason_created_organization}
use influxdb_operator.Lifecycle.Reconcile.{repeat, requeue_in_a_minute}
use influxdb_operator.Lifecycle.Server.{IsServer, SameKey, Sees}
use influxdb_operator.Lifecycle.Rest.{both, Recorded-Pending, repeat-IsDone, repeat-rests}
use influxdb_operator.Lifecycle.Rest
use influxdb_operator.Organization.{finalize_resources, reconcile_resources, reconcile}
use influxdb_operator.Organization.Server.{Remote, IsInflux}
use influxdb_operator.Organization.Sync.{Usable, present, organization-IsSync}

module _ (E : Environment) (req config_name : NamespacedName)
    (S : IsServer E E.organizations req Remote) (I : IsInflux E req config_name S) where
  -- All that a live Organization should have: its finalizer, its conditions, and an organization of its
  -- name.
  abbrev pub IsDone : Organization → Remote → Type 0
  IsDone =
      Rest.IsDone E E.organizations tt req S reason_created_organization
        (Usable E req config_name S I) (present E req config_name S I)

  -- From any live Organization, whatever its finalizers, its status and the organizations in InfluxDB,
  -- three calls of `Reconcile` or more, under healthy servers with its Config, the Secret with a token and
  -- the organization of the Config there, leave the Organization with the same key and spec, live, with its
  -- finalizer and its two conditions, and an organization of its name in InfluxDB.
  pub organization-IsDone :
      (n : ℕ) (s : Sys E.World) (o : Organization) (r : Remote)
      → Sees E E.organizations req S s (some o) r
      → Usable E req config_name S I o r
      → o.deletion_timestamp ≡ none
      → 3 ≤ n
      → (o' : Organization) × (r' : Remote) × (Sees E E.organizations req S
          (repeat n (reconcile E req) s)
          (some o')
          r')
        × SameKey o' o
        × (o'.spec ≡ o.spec)
        × (o'.deletion_timestamp ≡ none)
        × IsDone o' r'
  unfolding reconcile
  organization-IsDone =
      repeat-IsDone E E.organizations tt req S reason_created_organization
        (Usable E req config_name S I) (present E req config_name S I) (finalize_resources E)
        (reconcile_resources E) (organization-IsSync E req config_name S I)

  -- Once a live Organization has all that, a call of `Reconcile` under these servers asks for another
  -- call in a minute, and any number of calls leaves the Organization and the organizations in InfluxDB as
  -- they are.
  pub organization-rests :
      (n : ℕ) (s : Sys E.World) (o : Organization) (r : Remote)
      → Sees E E.organizations req S s (some o) r
      → Usable E req config_name S I o r
      → o.deletion_timestamp ≡ none
      → IsDone o r
      → ((reconcile E req s).0 ≡ ok requeue_in_a_minute)
        × Sees E E.organizations req S (repeat n (reconcile E req) s) (some o) r
  unfolding reconcile
  organization-rests =
      repeat-rests E E.organizations tt req S reason_created_organization
        (Usable E req config_name S I) (present E req config_name S I) (finalize_resources E)
        (reconcile_resources E) (organization-IsSync E req config_name S I)
