-- ===== src/Bucket/NilList.antt =====
-- A nil list of buckets that the InfluxDB client answers without an error: the code logs it, and goes on
-- as after a deletion.
use influxdb_operator.Base.{String, ◌≡◌, refl, ◌∙◌, ◌==◌, ap, true, none, some, [], ◌∷◌}
use influxdb_operator.Effect.{Sys, ok, reply}
use influxdb_operator.Api.{NamespacedName, Bucket, Config}
use influxdb_operator.Environment.{Environment, Connection, InfluxOrganization, Secret}
use influxdb_operator.Const.{finalizer, phase_terminating}
use influxdb_operator.Lifecycle.Connect.{config_or_skip, connect, valid_id}
use influxdb_operator.Lifecycle.Handlers.{has_finalizer}
use influxdb_operator.Lifecycle.Reconcile.{is_deleted}
use influxdb_operator.Lifecycle.Rules.{need_valid_id_lem}
use influxdb_operator.Lifecycle.Safety.{finalizer_last}
use influxdb_operator.Journal.{update, bucket, Journaled, journal, recorded}
use influxdb_operator.Bucket.Defs.{
  find_org_id, delete_found, finalize_resources, reconcile_resources, reconcile,
}

-- Everything is found, but the list of buckets is nil.
pub record IsNilListed (E : Environment) (c : Config) (x : Secret) (org : InfluxOrganization)
    (id : String) : Type 0 where
  pub config : (n : NamespacedName) (w : E.World) → (E.get_config n w).0 ≡ reply c
  pub secret : (n : NamespacedName) (w : E.World) → (E.secrets.get n w).0 ≡ reply x
  pub organization :
      (k : Connection) (n : String) (w : E.World)
      → (E.influx.find_organization_by_name k n w).0 ≡ reply (some org)
  pub valid : valid_id (some org) ≡ some id
  pub buckets :
      (k : Connection) (n : String) (w : E.World)
      → (E.influx.find_buckets_by_org_id k n w).0 ≡ reply none

module _ (E : Environment) (c : Config) (x : Secret) (org : InfluxOrganization) (id : String)
    (h : IsNilListed E c x org id) (req : NamespacedName) (o : Bucket)
    (held : has_finalizer E o ≡ true) where
  abbrev J : Environment
  J = journal E

  finalized :
      (s : Sys (Journaled E.World))
      → ((finalize_resources J o req s).0 ≡ ok tt)
        × ((finalize_resources J o req s).1.world.writes ≡ s.world.writes)
  unfolding finalize_resources config_or_skip connect find_org_id delete_found
  finalized s =
      rw
        (
          held,
          h.config _ _,
          h.secret _ _,
          h.organization _ _ _,
          need_valid_id_lem J (some org) id _ h.valid,
          h.buckets _ _ _,
        )
        (refl, refl)

  -- In a world where every call is answered without an error, but the list of buckets is always nil: the
  -- call of `Reconcile` for a terminating Bucket that holds the finalizer asks for the removal of the
  -- finalizer, and for no other write, so no bucket is deleted.
  pub reconcile-nil_list :
      (s : Sys E.World)
      → (E.buckets.get req s.world).0 ≡ reply o
      → is_deleted o ≡ true
      → (o.status.phase == phase_terminating) ≡ true
      → (reconcile J req (recorded s)).1.world.writes
        ≡ bucket (update (record o { finalizers = E.finalizer_util.remove o.finalizers finalizer }))
          ∷ []
  unfolding reconcile
  reconcile-nil_list s found marked terminating =
      let read : Sys (Journaled E.World) = record (recorded s) {
        world = (J.buckets.get req (recorded s).world).1;
      } in
      let (ended, unwritten) = finalized read in
      ap (λ r. r.1.world.writes)
        (finalizer_last J J.buckets tt (finalize_resources J) (reconcile_resources J) req
          (recorded s) o found marked held terminating)
      ∙ rw (ended, unwritten) refl
