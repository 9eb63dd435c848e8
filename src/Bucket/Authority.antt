-- ===== src/Bucket/Authority.antt =====
-- What the Bucket controller writes in any world, whatever the calls answer.
use influxdb_operator.Base.{
  String, ◌≡◌, refl, inl, inr, true, false, ◌==◌, ◌<>◌, eq_iff, Bool, Option, none, some, List, [],
  ◌∷◌,
}
use influxdb_operator.Base.{arith, if◌then◌else◌}
use mathlib.Core.List.{Memᴰ}
use influxdb_operator.Errors.{message}
use influxdb_operator.Effect.{M, Sys, Reply, reply, refuse, pure, throw, call, deref, ◌>>=◌, ◌>>◌}
use influxdb_operator.Effect.Keeps.{
  Any, Replies, Invariants, Allows, Keeps, Keeps-pure, Keeps-throw, Keeps-deref, Keeps-call,
  Keeps-check, Keeps-bind, Keeps-weaken, Keeps-if,
}
use influxdb_operator.Api.{NamespacedName, Bucket, Config}
use influxdb_operator.Environment.{Environment, Connection, InfluxBucket, NewBucket}
use influxdb_operator.Const.{reason_created_bucket, reason_deleted_bucket}
use influxdb_operator.Lifecycle.Connect.{connect, need_valid_id, log_daily, has_status}
use influxdb_operator.Lifecycle.Handlers.{has_finalizer, mark_deleted, mark_created}
use influxdb_operator.Lifecycle.Reconcile.{is_deleted}
use influxdb_operator.Lifecycle.Reads.{
  IsNonempty, IsValidId, Reads, need_config-Keeps, config_or_skip-Keeps, connect-Keeps,
  need_valid_id-Keeps, log_daily-Keeps,
}
use influxdb_operator.Lifecycle.Machine.{IsPassed, IsLeaving, IsSettled}
use influxdb_operator.Lifecycle.Permitted.{Permits, mark_deleted-Keeps, mark_created-Keeps}
use influxdb_operator.Lifecycle.Authority.{reconcile-ended}
use influxdb_operator.Journal.{
  object_client, bucket, create_bucket, delete_bucket, Journaled, reading, journal, recorded,
}
use influxdb_operator.Journal.Trace.{
  IsTrace, trace, reading-Allows, writing-Allows, journal-Reads, journal-Permits,
}
use influxdb_operator.Bucket.Defs.{
  config_of, find_id, find_org_id, delete_found, finalize_resources, create, reconcile_resources,
  reconcile,
}
use influxdb_operator.Bucket.Writes.{kind, IsStep, IsAnswered, IsGone, IsLast}
use influxdb_operator.Bucket.Gone.{finalize_resources_returns}
use influxdb_operator.Bucket.Found.{IsFound, IsFound-later}

module _ (E : Environment) (o : Bucket) (Gone : Type 0) where
  abbrev V : Invariants (Journaled E.World)
  V = trace (IsStep E o) (IsLast E Gone o)

  abbrev J : Environment
  J = journal E

  R : Reads (journal E) V
  R = journal-Reads (IsStep E o) (IsLast E Gone o) E

  P : Permits (journal E) (object_client bucket E.buckets) V kind Gone o
  P = journal-Permits (IsStep E o) (IsLast E Gone o) E E.buckets bucket kind Gone o (λ x h. h)

  find_id-Keeps :
      (name : String) (bs : List InfluxBucket) → Keeps V (IsFound name bs) (find_id name bs)
  unfolding find_id
  find_id-Keeps name [] = Keeps-pure V (IsFound name []) "" (inl (refl, inl λ b m. elim m [ ]))
  find_id-Keeps name (b ∷ bs) =
      Keeps-if V (IsFound name (b ∷ bs)) (b.name == name) (deref b.id) (find_id name bs)
        (λ same.
          Keeps-deref V (IsFound name (b ∷ bs)) b.id
            (λ id e. inr (b, Memᴰ.head refl, (eq_iff b.name name).0 same, e)))
        (λ other.
          Keeps-weaken V (IsFound name bs) (IsFound name (b ∷ bs)) (find_id name bs)
            (λ id found. IsFound-later name b bs id other found) (find_id-Keeps name bs))

  find_org_id-Keeps : (k : Connection) (c : Config) → Keeps V IsNonempty (find_org_id J k c)
  unfolding find_org_id
  find_org_id-Keeps k c =
      Keeps-bind V Any IsNonempty
        (call (reading (E.influx.find_organization_by_name k c.spec.org_name))) (need_valid_id J)
        (Keeps-call V Any _ (R.find_organization k c.spec.org_name))
        (λ organization _.
          Keeps-weaken V (IsValidId organization) IsNonempty (need_valid_id J organization)
            (λ id (_, _, _, ne). ne) (need_valid_id-Keeps J V R organization))

  find_buckets-Allows :
      (k : Connection) (id : String)
      → Allows V (IsAnswered E) (reading (E.influx.find_buckets_by_org_id k id))
  find_buckets-Allows k id =
      reading-Allows (IsStep E o) (IsLast E Gone o) (IsAnswered E)
        (E.influx.find_buckets_by_org_id k id)
        (λ w. known w (E.influx.find_buckets_by_org_id k id w).0 refl)
    where
      known :
          (w : E.World) (r : Reply (Option (List InfluxBucket)))
          → (E.influx.find_buckets_by_org_id k id w).0 ≡ r
          → Replies (IsAnswered E) r
      known w (reply listed) e = (k, id, w, e)
      known w (refuse x) e = tt

  deletable :
      is_deleted o ≡ true
      → (bs : List InfluxBucket) → IsAnswered E (some bs)
      → (id : String) → (id == "") ≡ false
      → IsFound o.name bs id
      → IsStep E o (delete_bucket id)
  deletable marked bs answered id filled (inl (empty, unlisted)) =
      absurd (ground (arith, eq_iff id ""))
  deletable marked bs (k, org_id, w, e) id filled (inr (b, m, named, has)) =
      (marked, λ e. ground (arith, eq_iff id ""), (b, (k, org_id, w, bs, e, m), named, has))

  delete_found-Keeps :
      IsLeaving J o
      → (k : Connection) (listed : Option (List InfluxBucket)) → IsAnswered E listed
      → Keeps V Any (delete_found (journal E) o k listed)
  unfolding delete_found
  delete_found-Keeps leaving k none h = Keeps-pure V Any tt tt
  delete_found-Keeps leaving k (some bs) h =
      Keeps-bind V (IsFound o.name bs) Any (find_id o.name bs)
        (λ id. if id == "" then pure tt else do
          call (J.influx.delete_bucket_with_id k id)
          mark_deleted J J.buckets tt reason_deleted_bucket "deleted influxdb bucket" o)
        (find_id-Keeps o.name bs)
        (λ id found.
          Keeps-if V Any (id == "") (pure tt) _ (λ empty. Keeps-pure V Any tt tt)
            (λ filled.
              Keeps-bind V Any Any (call (J.influx.delete_bucket_with_id k id))
                (λ _. mark_deleted J J.buckets tt reason_deleted_bucket "deleted influxdb bucket" o)
                (Keeps-call V Any _ (
                  writing-Allows (IsStep E o) (IsLast E Gone o) (delete_bucket id)
                    (E.influx.delete_bucket_with_id k id)
                    (deletable leaving.marked bs h id filled found)))
                (λ _ _.
                  mark_deleted-Keeps J J.buckets V kind Gone o P leaving Any
                    "deleted influxdb bucket")))

  finalize_resources-Keeps :
      is_deleted o ≡ true
      → IsPassed J o
      → (req : NamespacedName) → Keeps V Any (finalize_resources (journal E) o req)
  unfolding finalize_resources
  finalize_resources-Keeps marked passed req =
      Keeps-if V Any (has_finalizer J o) _ (pure tt)
        (λ held. config_or_skip-Keeps J V R (config_of req) _ λ config.
          Keeps-bind V Any Any (connect J config)
            (λ k. do
              org_id ← find_org_id J k config
              buckets ← call (J.influx.find_buckets_by_org_id k org_id)
              delete_found J o k buckets)
            (connect-Keeps J V R config)
            (λ k _.
              Keeps-bind V IsNonempty Any (find_org_id J k config)
                (λ org_id. do
                  buckets ← call (J.influx.find_buckets_by_org_id k org_id)
                  delete_found J o k buckets)
                (find_org_id-Keeps k config)
                (λ org_id _.
                  Keeps-bind V (IsAnswered E) Any (call (J.influx.find_buckets_by_org_id k org_id))
                    (delete_found J o k)
                    (Keeps-call V (IsAnswered E) _ (find_buckets-Allows k org_id))
                    (λ listed answered.
                      delete_found-Keeps
                        (record { marked = marked; held = held; terminating = passed held }) k
                        listed answered))))
        (λ free. Keeps-pure V Any tt tt)

  create-Keeps :
      is_deleted o ≡ false
      → (k : Connection) (id : String) → IsNonempty id
      → Keeps V Any (create (journal E) o k id)
  unfolding create
  create-Keeps live k id ne =
      let b : NewBucket = record {
        description = o.spec.description;
        name = o.name;
        org_id = some id;
        every_seconds = o.spec.seconds_ttl;
      } in
      Keeps-check V Any Any (J.influx.create_bucket k b) _ (λ _. pure true)
        (writing-Allows (IsStep E o) (IsLast E Gone o) (create_bucket b)
          (E.influx.create_bucket k b) (live, refl, refl, refl, (id, refl, ne)))
        (λ e.
          Keeps-if V Any (has_status 422 e) _ (throw e)
            (λ _.
              Keeps-bind V Any Any (log_daily J (o.uid <> "-" <> "bucket")) (λ _. pure false)
                (log_daily-Keeps J V R _) (λ _ _. Keeps-pure V Any false tt))
            (λ _. Keeps-throw V {A = Bool} Any e))
        (λ _ _. Keeps-pure V Any true tt)

  reconcile_resources-Keeps :
      IsSettled J o → (req : NamespacedName) → Keeps V Any (reconcile_resources (journal E) o req)
  unfolding reconcile_resources
  reconcile_resources-Keeps settled req =
      let mark : Bool → M (Journaled E.World) (Unit {0}) = λ created.
        mark_created J J.buckets tt reason_created_bucket "created influxdb bucket" created tt o in
      Keeps-if V Any (has_finalizer J o) _ (throw (message "finalizer not found"))
        (λ _. need_config-Keeps J V R (config_of req) _ λ config.
          Keeps-bind V Any Any (connect J config)
            (λ k. do org_id ← find_org_id J k config; created ← create J o k org_id; mark created)
            (connect-Keeps J V R config)
            (λ k _.
              Keeps-bind V IsNonempty Any (find_org_id J k config)
                (λ org_id. create J o k org_id >>= mark) (find_org_id-Keeps k config)
                (λ org_id ne.
                  Keeps-bind V Any Any (create J o k org_id) mark
                    (create-Keeps settled.live k org_id ne)
                    (λ created _.
                      mark_created-Keeps J J.buckets V kind Gone o P settled
                        "created influxdb bucket" created tt))))
        (λ _. Keeps-throw V {A = Unit {0}} Any (message "finalizer not found"))

-- In any world, whatever the calls answer, a call of `Reconcile` that read a Bucket writes only this: a
-- bucket is created for a live object, with its name, TTL and description and a non-empty organization
-- id, or one is deleted for an object that is marked for deletion, by the non-empty id of a bucket of
-- its name that InfluxDB lists in some answer; and at most one write to the object itself, which comes
-- last and changes the finalizer or the status only. The finalizer is removed only from a terminating
-- object that holds it, once the calls that follow the read of the Bucket, each in the world that the
-- one before left, tell that its Config, `default` in the namespace of the request, is not found, or
-- answer that Config, its Secret and its organization, and a list of the buckets there that is nil, or
-- has no bucket of the name, or has one with an empty id.
pub reconcile-IsTrace :
    (E : Environment) (req : NamespacedName) (s : Sys E.World) (o : Bucket)
    → (E.buckets.get req s.world).0 ≡ reply o
    → IsTrace
        (IsStep E o)
        (IsLast E (IsGone E req o (E.buckets.get req s.world).1) o)
        (reconcile (journal E) req (recorded s)).1.world.writes
unfolding reconcile
reconcile-IsTrace E req s o read =
    let Gone = IsGone E req o (E.buckets.get req s.world).1 in
    reconcile-ended (journal E) (journal E).buckets kind Gone (finalize_resources (journal E))
      (reconcile_resources (journal E)) req (V E o Gone) o (recorded s) (P E o Gone)
      (λ marked passed. finalize_resources-Keeps E o Gone marked passed req)
      (λ marked held returned. finalize_resources_returns (journal E) req o _ held returned)
      (λ settled. reconcile_resources-Keeps E o Gone settled req) read tt
