-- ===== src/Example/JournalTests.antt =====
-- What the controllers write, in the world in memory.
use influxdb_operator.Base.{◌≡◌, refl, ◌⊎◌, ◌≤◌, ℕ, none, some, List, [], ◌∷◌}
use influxdb_operator.Base.Int.{pos}
use mathlib.Core.List.{Memᴰ}
use influxdb_operator.Effect.{Sys}
use influxdb_operator.Api.{NamespacedName, Organization, Bucket, Token}
use influxdb_operator.Environment.{NewBucket}
use influxdb_operator.Const.{finalizer}
use influxdb_operator.Base.Dict.{lookup, insert}
use influxdb_operator.Limiter.{is_due, rate_limit}
use influxdb_operator.Errors.{errors_is}
use influxdb_operator.Lifecycle.Conditions.{has_reason, touch}
use influxdb_operator.Lifecycle.Connect
use influxdb_operator.Lifecycle.Handlers
use influxdb_operator.Lifecycle.Reconcile
use influxdb_operator.Lifecycle.Keyed
use influxdb_operator.Journal.{
  Write, bucket, create_bucket, delete_organization, journal, recorded, update_status,
}
use influxdb_operator.Journal.Trace.{IsTrace}
use influxdb_operator.Webhook.{validate_create_bucket, default_bucket}
use influxdb_operator.Webhook.Laws.{Admitted}
use influxdb_operator.Bucket.Defs.{
  reconcile, reconcile_resources, finalize_resources, find_org_id, create, delete_found, find_id,
}
use influxdb_operator.Bucket.Server.{has_bucket}
use influxdb_operator.Bucket.Writes.{IsStep, IsGone, IsLast}
use influxdb_operator.Bucket.Authority.{reconcile-IsTrace}
use influxdb_operator.Bucket.Bounds.{every_seconds_bounds}
use influxdb_operator.Example.Finalizers.{contains, add, remove}
use influxdb_operator.Example.Memory.{World, memory}
use influxdb_operator.Organization
use influxdb_operator.Organization.Writes as Organizations
use influxdb_operator.Organization.Authority.{organization-IsTrace}
use influxdb_operator.Organization.Guard
use influxdb_operator.Webhook.{default_organization, validate_create_organization}
use influxdb_operator.Token.Defs as Token
use influxdb_operator.Token.Writes
use influxdb_operator.Example.Data.{req, acme, token as writer, bucket as sensor, world}

-- A Bucket that is initialized, with its finalizer.
abbrev pending_bucket : Bucket
pending_bucket = record sensor {
  finalizers = finalizer ∷ [];
  status = Handlers.initial_status tt 7;
}

abbrev pending : Sys World
pending = record { world = record world { bucket = some pending_bucket }; cache = [] }

reconcile-IsTrace_example :
    IsTrace
      (IsStep memory pending_bucket)
      (IsLast memory (IsGone memory req pending_bucket pending.world) pending_bucket)
      (reconcile (journal memory) req (recorded pending)).1.world.writes
reconcile-IsTrace_example = reconcile-IsTrace memory req pending pending_bucket refl

-- The writes of one call, with all that it runs.
bucket_writes : Sys World → List Write
unfolding reconcile Reconcile.reconcile Reconcile.reconcile_live Reconcile.reconcile_deleted
    Handlers.add_finalizer Handlers.initialize_status Handlers.write_status Handlers.initial_status
    Handlers.mark_created Handlers.ready_status Handlers.finalize_status Handlers.terminating_status
    Handlers.mark_deleted Handlers.deleted_status Handlers.remove_finalizer Connect.need_config
    Connect.config_or_skip Connect.connect Connect.string_at Connect.need_valid_id Connect.valid_id
    Connect.log_daily Connect.has_status reconcile_resources finalize_resources find_org_id create
    delete_found find_id has_reason touch contains add remove Keyed.without Keyed.find errors_is
    is_due rate_limit lookup insert has_bucket
bucket_writes s = (reconcile (journal memory) req (recorded s)).1.world.writes

abbrev new_bucket : NewBucket
new_bucket = record {
  description = "readings";
  name = "sensor";
  org_id = some "org1";
  every_seconds = pos 3600;
}

created_then_recorded :
    bucket_writes pending
    ≡ bucket (
        update_status (record pending_bucket {
          status =
              Handlers.ready_status tt "createdBucket" "created influxdb bucket" 100
                pending_bucket.status;
        }))
      ∷ create_bucket new_bucket
      ∷ []
unfolding bucket_writes
created_then_recorded = refl

asked :
    Memᴰ
      (create_bucket new_bucket)
      (reconcile (journal memory) req (recorded pending)).1.world.writes
unfolding bucket_writes
asked = Memᴰ.tail (Memᴰ.head refl)

sensor-Admitted : Admitted pending_bucket
unfolding default_bucket validate_create_bucket
sensor-Admitted = Admitted.created pending_bucket refl

every_seconds_bounds_example : (n : ℕ) × (pos 3600 ≡ pos n) × ((n ≡ 0) ⊎ (3600 ≤ n))
every_seconds_bounds_example =
    every_seconds_bounds memory req pending pending_bucket new_bucket refl sensor-Admitted asked

-- An Organization whose deletion is under way.
abbrev leaving : Organization
leaving = record {
  api_version = "influxdb.kubetrail.io/v1beta1";
  kind = "Organization";
  name = "plant";
  namespace = "ns";
  uid = "u3";
  deletion_timestamp = some 300;
  finalizers = finalizer ∷ [];
  spec = record { config_name = "default" };
  status = Handlers.terminating_status tt (Handlers.initial_status tt 7);
}

abbrev leaving_start : Sys World
leaving_start = record {
  world = record world {
    organization = some leaving;
    organizations = acme ∷ record { id = some "org2"; name = "plant" } ∷ [];
  };
  cache = [];
}

abbrev plant : NamespacedName
plant = record { namespace = "ns"; name = "plant" }

organization-IsTrace_example :
    IsTrace
      (Organizations.IsStep memory leaving)
      (Organizations.IsLast memory
        (Organizations.IsGone memory plant leaving leaving_start.world)
        leaving)
      (Organization.reconcile (journal memory) plant (recorded leaving_start)).1.world.writes
organization-IsTrace_example = organization-IsTrace memory plant leaving_start leaving refl

deletion_asked :
    Memᴰ
      (delete_organization "org2")
      (Organization.reconcile (journal memory) plant (recorded leaving_start)).1.world.writes
unfolding bucket_writes Organization.reconcile Organization.finalize_resources
    Organization.delete_found
deletion_asked = Memᴰ.tail (Memᴰ.head refl)

leaving-Admitted : Guard.Admitted leaving
unfolding default_organization validate_create_organization
leaving-Admitted = Guard.Admitted.changed leaving (Guard.Admitted.created leaving refl) refl

reconcile-Spares_example : Guard.Spares memory "influxdata" (delete_organization "org2")
reconcile-Spares_example =
    Guard.reconcile-Spares memory plant leaving_start leaving (delete_organization "org2") refl
      leaving-Admitted deletion_asked

-- A Token that is initialized, whose authorization and Secret are not there yet.
abbrev pending_token : Token
pending_token = record writer {
  finalizers = finalizer ∷ [];
  status = Handlers.initial_status none 7;
}

abbrev writer_key : NamespacedName
writer_key = record { namespace = "ns"; name = "writer" }

abbrev pending_token_start : Sys World
pending_token_start = record { world = record world { token = some pending_token }; cache = [] }
