-- ===== src/Bucket/Bounds.antt =====
-- The TTL that InfluxDB gets: the webhooks and the controller together.
use influxdb_operator.Base.{ℕ, ◌≤◌, ◌≡◌, ◌∙◌, ◌⊎◌, inl, inr}
use influxdb_operator.Base.Int.{pos}
use mathlib.Core.List.{Memᴰ}
use influxdb_operator.Effect.{Sys, reply}
use influxdb_operator.Api.{NamespacedName, Bucket}
use influxdb_operator.Environment.{Environment, NewBucket}
use influxdb_operator.Journal.{create_bucket, journal, recorded}
use influxdb_operator.Journal.Trace.{IsTrace-mem}
use influxdb_operator.Webhook.Laws.{Admitted, Admitted-seconds_ttl}
use influxdb_operator.Bucket.Defs.{reconcile}
use influxdb_operator.Bucket.Writes.{IsStep, IsGone, IsLast}
use influxdb_operator.Bucket.Authority.{reconcile-IsTrace}

-- In any world, whatever the calls answer: if the Bucket that `Reconcile` reads is one that the webhooks
-- admitted, then a bucket that the call asks InfluxDB to create expires after 0 seconds, which is never,
-- or after at least 3600.
pub every_seconds_bounds :
    (E : Environment) (req : NamespacedName) (s : Sys E.World) (o : Bucket) (b : NewBucket)
    → (E.buckets.get req s.world).0 ≡ reply o
    → Admitted o
    → Memᴰ (create_bucket b) (reconcile (journal E) req (recorded s)).1.world.writes
    → (n : ℕ) × (b.every_seconds ≡ pos n) × ((n ≡ 0) ⊎ (3600 ≤ n))
every_seconds_bounds E req s o b read admitted asked =
    let Gone = IsGone E req o (E.buckets.get req s.world).1 in
    elim (IsTrace-mem (IsStep E o) (IsLast E Gone o) asked (reconcile-IsTrace E req s o read)) [
      | inl (_, _, _, same, _) ↦
          let (n, e, range) = Admitted-seconds_ttl admitted in (n, same ∙ e, range)
      | inr other ↦ absurd other
    ]
