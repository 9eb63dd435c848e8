-- ===== src/Example/Laws.antt =====
-- The world in memory meets what is assumed of the servers.
use influxdb_operator.Base.{
  String, ◌≡◌, ◌≢◌, refl, eq_iff, true, false, Option, none, some, [], ◌∷◌, ◌++◌,
}
use influxdb_operator.Base.{arith}
use influxdb_operator.Effect.{reply, refuse}
use influxdb_operator.Api.{NamespacedName, Bucket, Config}
use influxdb_operator.Environment.{Connection, NewBucket, InfluxOrganization}
use influxdb_operator.Lifecycle.Connect.{has_status}
use influxdb_operator.Const.{finalizer}
use influxdb_operator.Lifecycle.Server.{IsServer}
use influxdb_operator.Lifecycle.Configured.{IsConfigured, connection_of}
use influxdb_operator.Bucket.Server.{home_of, Remote, has_bucket, IsInflux}
use influxdb_operator.Organization.Server.{find}
use influxdb_operator.Example.Finalizers.{contains-add, contains-remove}
use influxdb_operator.Example.Memory.{World, memory, not_found, http_error, get_secret_lem}

-- The organization that the Config names.
abbrev pub org_of : World → Option InfluxOrganization
org_of w = elim w.config [ none ↦ none | some c ↦ find c.spec.org_name w.organizations ]

abbrev pub bucket_remote : World → Remote
bucket_remote w = record {
  config = w.config;
  secret = w.secret;
  organization = org_of w;
  buckets = w.buckets;
}

-- A write to the object leaves the rest alone.
pub remote-update_status :
    (w : World) (o : Bucket) → bucket_remote (memory.buckets.update_status o w).1 ≡ bucket_remote w
remote-update_status w o = ground arith

pub remote-update :
    (w : World) (o : Bucket) → bucket_remote (memory.buckets.update o w).1 ≡ bucket_remote w
remote-update w o = ground arith

create_taken_lem :
    (w : World) (k : Connection) (b : NewBucket)
    → has_bucket b.name w.buckets ≡ true
    → memory.influx.create_bucket k b w ≡ (refuse (http_error 422), w)
create_taken_lem w k b h = rw h

create_new_lem :
    (w : World) (k : Connection) (b : NewBucket)
    → has_bucket b.name w.buckets ≡ false
    → memory.influx.create_bucket k b w ≡ (
      reply tt,
      record w { buckets = w.buckets ++ record { id = some "b1"; name = b.name } ∷ [] },
    )
create_new_lem w k b h = rw h

object-create :
    (w : World) (k : Connection) (b : NewBucket)
    → (memory.influx.create_bucket k b w).1.bucket ≡ w.bucket
object-create w k b = ground arith

find_lem :
    (w : World) (c : Config) (org : InfluxOrganization) (k : Connection)
    → w.config ≡ some c
    → org_of w ≡ some org
    → (memory.influx.find_organization_by_name k c.spec.org_name w).0 ≡ reply (some org)
find_lem w c org k h e = ground arith

pub b1-ne_nil : ◌≢◌ {A = String} "b1" ""
b1-ne_nil = ground (arith, eq_iff "b1" "")

module _ (req : NamespacedName) where
  abbrev pub memory-IsServer : IsServer memory memory.buckets req Remote
  memory-IsServer = record {
    object = λ w. w.bucket;
    remote = bucket_remote;
    contains-add = λ fs. contains-add fs finalizer;
    contains-remove = λ fs. contains-remove fs finalizer;
    object-now = λ w. refl;
    remote-now = λ w. refl;
    get_found = λ w o h. rw h;
    get_missing = λ w h. (not_found, rw h, refl);
    object-get = λ w. refl;
    remote-get = λ w. refl;
    update_status_accepted = λ w old o h k. rw h;
    object-update_status = λ w old o h k. rw h;
    remote-update_status = remote-update_status;
    update_accepted = λ w old o h k. rw h;
    object-update = λ w old o h k. rw h;
    remote-update = remote-update;
  }

  bucket-IsConfigured :
      IsConfigured memory memory.buckets req memory-IsServer
        (home_of req)
        (λ (r : Remote). r.config)
        (λ (r : Remote). r.secret)
  bucket-IsConfigured = record {
    get_config_found = λ c h. rw h;
    object-get_config = λ w n. refl;
    remote-get_config = λ w n. refl;
    get_secret_found = λ {w} c x h k. get_secret_lem w c x h k;
    object-get_secret = λ w n. refl;
    remote-get_secret = λ w n. refl;
  }

  pub memory-IsInflux : IsInflux memory req memory-IsServer
  unfolding has_status
  memory-IsInflux = record {
    configured = bucket-IsConfigured;
    find_organization_found = λ {w} c x org h k t e. find_lem w c org (connection_of c x) h e;
    object-find_organization = λ w k n. refl;
    remote-find_organization = λ w k n. refl;
    create_taken = λ w k b p h.
        (http_error 422, rw (create_taken_lem w k b h), refl, rw (create_taken_lem w k b h));
    create_new =
        λ w k b p h. ("b1", b1-ne_nil, rw (create_new_lem w k b h), rw (create_new_lem w k b h));
    object-create = object-create;
    find_buckets_found = λ c x org id u few. refl;
    object-find_buckets = λ w k id. refl;
    remote-find_buckets = λ w k id. refl;
    delete_accepted = λ w k id a h. refl;
    remote-delete = λ w k id a h. refl;
    object-delete = λ w k id. refl;
  }
