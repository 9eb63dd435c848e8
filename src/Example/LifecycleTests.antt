-- ===== src/Example/LifecycleTests.antt =====
-- What holds of `Reconcile` in any world, applied in the world in memory.
use influxdb_operator.Base.{◌↔◌, ◌≡◌, refl, some, []}
use influxdb_operator.Effect.{Sys}
use influxdb_operator.Api.{Bucket}
use influxdb_operator.Lifecycle.Reconcile.{finished}
use influxdb_operator.Lifecycle.Reconcile
use influxdb_operator.Lifecycle.Safety.{IsProper, reconcile-IsProper}
use influxdb_operator.Lifecycle.Requeue.{IsAgain, IsMaintained, again, again_iff}
use influxdb_operator.Lifecycle.Table.{choose, step_of, hold, table, reconcile-table}
use influxdb_operator.Bucket.Defs.{finalize_resources, reconcile_resources}
use influxdb_operator.Example.Finalizers.{contains}
use influxdb_operator.Example.Memory.{World, memory}
use influxdb_operator.Example.Data.{ready, req, bucket, start, ready_bucket, deleting_world}

reconcile-IsProper_example :
    IsProper
      (Reconcile.reconcile memory memory.buckets tt
        (finalize_resources memory)
        (reconcile_resources memory)
        req
        start).0
reconcile-IsProper_example =
    reconcile-IsProper memory memory.buckets tt (finalize_resources memory)
      (reconcile_resources memory) req start

abbrev doomed : Bucket
doomed = record ready_bucket { deletion_timestamp = some 200 }

abbrev terminating : Bucket
terminating = record doomed { status = record doomed.status { phase = "terminating" } }

abbrev last : Sys World
last = record { world = record deleting_world { bucket = some terminating }; cache = [] }

-- A new object is adopted: the table says `hold`.
new_bucket_step : step_of memory bucket ≡ hold
unfolding choose contains
new_bucket_step = refl

reconcile-table_example :
    Reconcile.reconcile memory memory.buckets tt
      (finalize_resources memory)
      (reconcile_resources memory)
      req
      last
    ≡ table memory memory.buckets tt
        (finalize_resources memory)
        (reconcile_resources memory)
        req
        last
reconcile-table_example =
    reconcile-table memory memory.buckets tt (finalize_resources memory)
      (reconcile_resources memory) req last

-- A Bucket that is settled is looked at again.
again_iff_example :
    IsAgain (
      again memory memory.buckets tt
        (finalize_resources memory)
        (reconcile_resources memory)
        req
        ready)
    ↔ IsMaintained memory memory.buckets tt
        (finalize_resources memory)
        (reconcile_resources memory)
        req
        ready
again_iff_example =
    again_iff memory memory.buckets tt (finalize_resources memory) (reconcile_resources memory) req
      ready
