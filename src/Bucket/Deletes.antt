-- ===== src/Bucket/Deletes.antt =====
-- A Bucket that is marked for deletion, under healthy servers, and repeated calls of `Reconcile`.
use influxdb_operator.Base.{ℕ, ◌+◌, ◌≤◌, ◌≡◌, refl, ◌∙◌, true, some, ◌==◌}
use influxdb_operator.Base.{sym}
use influxdb_operator.Effect.{Sys}
use influxdb_operator.Api.{NamespacedName, Bucket, Status}
use influxdb_operator.Environment.{Environment}
use influxdb_operator.Const.{phase_terminating}
use influxdb_operator.Lifecycle.Handlers.{has_finalizer}
use influxdb_operator.Lifecycle.Reconcile.{repeat}
use influxdb_operator.Lifecycle.Server.{IsServer, Sees}
use influxdb_operator.Lifecycle.Deletion.{released, enough_steps}
use influxdb_operator.Lifecycle.Release.{repeat-lets_go}
use influxdb_operator.Bucket.Defs.{finalize_resources, reconcile_resources, reconcile}
use influxdb_operator.Bucket.Server.{Remote, Usable, IsInflux}
use influxdb_operator.Bucket.Ids.{length, IsKeyed, count, others, others_lem}
use influxdb_operator.Bucket.Cleanup.{IsClean, amount, bucket-IsCleanup}

module _ (E : Environment) (req : NamespacedName) (S : IsServer E E.buckets req Remote)
    (I : IsInflux E req S) where
  -- For a Bucket that is marked for deletion and holds the finalizer, in any phase: two calls of
  -- `Reconcile` and one more for each bucket of its name, or more calls, under healthy servers with the
  -- Config, its Secret with a token and its organization there, up to 20 buckets in the organization
  -- and an id of its own for each, delete the buckets of its name and no other, and take the finalizer
  -- away. If there is no other finalizer, the Bucket is gone.
  pub reconcile-lets_go :
      (n : ℕ) (s : Sys E.World) (o : Bucket) (r : Remote) (t : ℕ)
      → Sees E E.buckets req S s (some o) r
      → Usable r
      → length r.buckets ≤ 20
      → IsKeyed r.buckets
      → o.deletion_timestamp ≡ some t
      → has_finalizer E o ≡ true
      → 2 + count o.name r.buckets ≤ n
      → (st : Status (Unit {0})) × (r' : Remote) × Sees E E.buckets req S
          (repeat n (reconcile E req) s)
          (released E (record o { status = st }))
          r'
        × (r'.buckets ≡ others o.name r.buckets)
  unfolding reconcile
  reconcile-lets_go n s o r t h usable few keyed marked held enough =
      let (st, r', h', (_, _, _, kept), none_left) =
        repeat-lets_go E E.buckets tt req S (finalize_resources E) (reconcile_resources E)
          (IsClean (others o.name r.buckets)) amount
          (bucket-IsCleanup E req S I (others o.name r.buckets)) n s o r t h
          (usable, few, keyed, refl) marked held
          (enough_steps (o.status.phase == phase_terminating) (count o.name r.buckets) n enough) in
      (st, r', h', sym (others_lem o.name r'.buckets none_left) ∙ kept)
