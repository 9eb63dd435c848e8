-- ===== src/Example/NilListTests.antt =====
-- A client of InfluxDB that answers a nil list, in the world in memory.
use influxdb_operator.Base.{◌≡◌, refl, none, some, [], ◌∷◌}
use influxdb_operator.Effect.{Sys, reply}
use influxdb_operator.Api.{Bucket}
use influxdb_operator.Environment.{Environment}
use influxdb_operator.Lifecycle.Connect.{valid_id}
use influxdb_operator.Lifecycle.Handlers.{terminating_status}
use influxdb_operator.Journal.{bucket, update, journal, recorded}
use influxdb_operator.Bucket.Defs.{reconcile}
use influxdb_operator.Bucket.NilList.{IsNilListed, reconcile-nil_list}
use influxdb_operator.Example.Finalizers.{contains, remove}
use influxdb_operator.Example.Memory.{World, memory}
use influxdb_operator.Example.Data.{req, acme, config, secret, ready_bucket, ready_world}

abbrev nil_lists : Environment
nil_lists = record memory {
  get_config = λ n w. (reply config, w);
  secrets = record memory.secrets { get = λ n w. (reply secret, w) };
  influx = record memory.influx {
    find_organization_by_name = λ k n w. (reply (some acme), w);
    find_buckets_by_org_id = λ k id w. (reply none, w);
  };
}

nil_lists-IsNilListed : IsNilListed nil_lists config secret acme "org1"
unfolding valid_id
nil_lists-IsNilListed = record {
  config = λ n w. refl;
  secret = λ n w. refl;
  organization = λ k n w. refl;
  valid = refl;
  buckets = λ k n w. refl;
}

abbrev terminating : Bucket
terminating = record ready_bucket {
  deletion_timestamp = some 200;
  status = terminating_status tt ready_bucket.status;
}

abbrev last : Sys World
last = record { world = record ready_world { bucket = some terminating }; cache = [] }

reconcile-nil_list_example :
    (reconcile (journal nil_lists) req (recorded last)).1.world.writes
    ≡ bucket (update (record terminating { finalizers = [] })) ∷ []
unfolding contains remove terminating_status
reconcile-nil_list_example =
    reconcile-nil_list nil_lists config secret acme "org1" nil_lists-IsNilListed req terminating
      refl last refl refl refl
