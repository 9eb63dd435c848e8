-- ===== src/Example/BucketTests.antt =====
-- Runs of the Bucket controller in the world in memory, and its theorems at concrete data.
use influxdb_operator.Base.{ℕ, ◌+◌, ◌≤◌, true, ◌≡◌, refl, none, some, List, [], arith}
use influxdb_operator.Effect.{Sys, ok}
use influxdb_operator.Api.{Bucket, Status}
use influxdb_operator.Environment.{InfluxBucket}
use influxdb_operator.Lifecycle.Conditions.{has_reason, touch}
use influxdb_operator.Lifecycle.Reconcile.{Result, repeat, requeue_in_a_minute}
use influxdb_operator.Lifecycle.Connect.{valid_id}
use influxdb_operator.Lifecycle.Connect
use influxdb_operator.Lifecycle.Handlers
use influxdb_operator.Lifecycle.Reconcile
use influxdb_operator.Lifecycle.Server.{SameKey, Sees}
use influxdb_operator.Limiter.{is_due, rate_limit}
use influxdb_operator.Errors.{errors_is}
use influxdb_operator.Base.Dict.{lookup, insert}
use influxdb_operator.Example.Finalizers.{contains, add, remove}
use influxdb_operator.Bucket.Defs.{
  reconcile, reconcile_resources, finalize_resources, find_org_id, create, delete_found, find_id,
}
use influxdb_operator.Bucket.Ids.{IsKeyed, others, count}
use influxdb_operator.Lifecycle.Keyed
use influxdb_operator.Bucket.Server.{Remote, has_bucket, Usable}
use influxdb_operator.Lifecycle.Deletion.{released}
use influxdb_operator.Lifecycle.Handlers.{has_finalizer}
use influxdb_operator.Bucket.Deletes.{reconcile-lets_go}
use influxdb_operator.Bucket.Converges.{IsDone, reconcile-IsDone, reconcile-rests}
use influxdb_operator.Example.Memory.{World, memory}
use influxdb_operator.Example.Laws.{b1-ne_nil, bucket_remote, memory-IsServer, memory-IsInflux}
use influxdb_operator.Example.Data.{
  req, config, secret, acme, bucket, world, start, ready_bucket, ready_world, deleting_bucket,
  deleting, ready,
}
use influxdb_operator.Base.{inr}
use influxdb_operator.Bucket.Ids.{length}
use influxdb_operator.Bucket.Converges.{Ready}
use influxdb_operator.Example.Data.{secret-HasToken}

usable : (bs : List InfluxBucket) → Usable (record (bucket_remote world) { buckets = bs })
unfolding valid_id Keyed.find
usable bs = (
  config,
  secret,
  acme,
  "org1",
  record {
    config = refl;
    secret = refl;
    organization = refl;
    valid = refl;
    token = secret-HasToken;
  },
)

bucket-Ready :
    (bs : List InfluxBucket) → Ready bucket (record (bucket_remote world) { buckets = bs })
bucket-Ready bs = ((3600, refl, inr (omega arith)), usable bs)

-- Three calls of `Reconcile`, with all that they run.
run : ℕ → Sys World → Sys World
unfolding repeat reconcile Reconcile.reconcile Reconcile.reconcile_live Reconcile.reconcile_deleted
    Handlers.add_finalizer Handlers.initialize_status Handlers.write_status Handlers.initial_status
    Handlers.mark_created Handlers.ready_status Handlers.finalize_status Handlers.terminating_status
    Handlers.mark_deleted Handlers.deleted_status Handlers.remove_finalizer Connect.need_config
    Connect.config_or_skip Connect.connect Connect.string_at Connect.need_valid_id Connect.valid_id
    Connect.log_daily Connect.has_status reconcile_resources finalize_resources find_org_id create
    delete_found find_id has_reason touch contains add remove Keyed.without Keyed.find errors_is
    is_due rate_limit lookup insert has_bucket
run n = repeat n (reconcile memory req)

-- A new Bucket is ready after three calls.
ready_after_three : run 3 start ≡ record { world = ready_world; cache = [] }
unfolding run
ready_after_three = refl

gone_after_three : let t = run 3 deleting in (t.world.bucket ≡ none) × (t.world.buckets ≡ [])
unfolding run
gone_after_three = (refl, refl)

reconcile-IsDone_example :
    (o : Bucket) × (r : Remote) × (Sees memory memory.buckets req
      (memory-IsServer req)
      (repeat 3 (reconcile memory req) start)
      (some o)
      r)
    × SameKey o bucket
    × (o.spec ≡ bucket.spec)
    × (o.deletion_timestamp ≡ none)
    × IsDone memory req (memory-IsServer req) (memory-IsInflux req) o r
reconcile-IsDone_example =
    reconcile-IsDone memory req (memory-IsServer req) (memory-IsInflux req) 3 start bucket
      (bucket_remote world) (refl, refl) (bucket-Ready []) refl (omega arith)

ready-IsDone :
    IsDone memory req
      (memory-IsServer req)
      (memory-IsInflux req)
      ready_bucket
      (bucket_remote ready_world)
unfolding has_reason contains has_bucket
ready-IsDone = (refl, refl, refl, refl)

reconcile-rests_example :
    ((reconcile memory req ready).0 ≡ ok requeue_in_a_minute)
    × Sees memory memory.buckets req
        (memory-IsServer req)
        (repeat 5 (reconcile memory req) ready)
        (some ready_bucket)
        (bucket_remote ready_world)
reconcile-rests_example =
    reconcile-rests memory req (memory-IsServer req) (memory-IsInflux req) 5 ready ready_bucket
      (bucket_remote ready_world) (refl, refl) (bucket-Ready ready_world.buckets) refl ready-IsDone

deleting-IsKeyed : IsKeyed ready_world.buckets
unfolding Keyed.has_id
deleting-IsKeyed = ("b1", refl, b1-ne_nil, refl, tt)

deleting-held : has_finalizer memory deleting_bucket ≡ true
unfolding contains
deleting-held = refl

few : length ready_world.buckets ≤ 20
unfolding length
few = omega arith

three_are_enough : 2 + count "sensor" ready_world.buckets ≤ 3
unfolding Keyed.count
three_are_enough = omega arith

reconcile-lets_go_example :
    (st : Status (Unit {0})) × (r : Remote) × Sees memory memory.buckets req
      (memory-IsServer req)
      (repeat 3 (reconcile memory req) deleting)
      (released memory (record deleting_bucket { status = st }))
      r
    × (r.buckets ≡ others "sensor" ready_world.buckets)
reconcile-lets_go_example =
    reconcile-lets_go memory req (memory-IsServer req) (memory-IsInflux req) 3 deleting
      deleting_bucket (bucket_remote ready_world) 200 (refl, refl) (usable ready_world.buckets) few
      deleting-IsKeyed refl deleting-held three_are_enough
