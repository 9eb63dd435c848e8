-- ===== src/Organization/Authority.antt =====
-- What the Organization controller writes in any world, whatever the calls answer.
use influxdb_operator.Base.{String, ◌≡◌, refl, Bool, true, false, ◌<>◌, Option, none, some}
use influxdb_operator.Base.{if◌then◌else◌}
use influxdb_operator.Errors.{message}
use influxdb_operator.Effect.{M, Sys, Reply, reply, refuse, pure, throw, call, check, ◌>>=◌, ◌>>◌}
use influxdb_operator.Effect.Keeps.{
  Any, Replies, Invariants, Allows, Keeps, Keeps-pure, Keeps-throw, Keeps-call, Keeps-check,
  Keeps-bind, Keeps-if,
}
use influxdb_operator.Api.{NamespacedName, Organization}
use influxdb_operator.Environment.{Environment, Connection, InfluxOrganization}
use influxdb_operator.Const.{reason_created_organization, reason_deleted_organization}
use influxdb_operator.Lifecycle.Connect.{connect, need_valid_id, log_daily, has_status}
use influxdb_operator.Lifecycle.Handlers.{has_finalizer, mark_deleted, mark_created}
use influxdb_operator.Lifecycle.Reconcile.{is_deleted}
use influxdb_operator.Lifecycle.Reads.{
  IsValidId, Reads, need_config-Keeps, config_or_skip-Keeps, connect-Keeps, need_valid_id-Keeps,
  log_daily-Keeps,
}
use influxdb_operator.Lifecycle.Machine.{IsPassed, IsLeaving, IsSettled}
use influxdb_operator.Lifecycle.Permitted.{Permits, mark_deleted-Keeps, mark_created-Keeps}
use influxdb_operator.Lifecycle.Authority.{reconcile-ended}
use influxdb_operator.Journal.{
  object_client, organization, create_organization, delete_organization, Journaled, reading,
  journal, recorded,
}
use influxdb_operator.Journal.Trace.{
  IsTrace, trace, reading-Allows, writing-Allows, journal-Reads, journal-Permits,
}
use influxdb_operator.Organization.{
  has_id, config_of, delete_found, finalize_resources, create, reconcile_resources, reconcile,
}
use influxdb_operator.Organization.Writes.{kind, IsStep, IsGone, IsLast}
use influxdb_operator.Organization.Gone.{finalize_resources_returns}
use influxdb_operator.Organization.Found.{IsFound, IsFound-some}

module _ (E : Environment) (o : Organization) (Gone : Type 0) where
  abbrev V : Invariants (Journaled E.World)
  V = trace (IsStep E o) (IsLast E Gone o)

  abbrev J : Environment
  J = journal E

  R : Reads J V
  R = journal-Reads (IsStep E o) (IsLast E Gone o) E

  P : Permits J (object_client organization E.organizations) V kind Gone o
  P =
      journal-Permits (IsStep E o) (IsLast E Gone o) E E.organizations organization kind Gone o
        (λ x h. h)

  find_organization-Allows :
      (k : Connection) (name : String)
      → Allows V (IsFound E name) (reading (E.influx.find_organization_by_name k name))
  find_organization-Allows k name =
      reading-Allows (IsStep E o) (IsLast E Gone o) (IsFound E name)
        (E.influx.find_organization_by_name k name)
        (λ w. known w (E.influx.find_organization_by_name k name w).0 refl)
    where
      known :
          (w : E.World) (r : Reply (Option InfluxOrganization))
          → (E.influx.find_organization_by_name k name w).0 ≡ r
          → Replies (IsFound E name) r
      known w (reply none) e = tt
      known w (reply (some org)) e = (k, w, e)
      known w (refuse x) e = tt

  delete_found-Keeps :
      IsLeaving J o
      → (k : Connection) (a : Option InfluxOrganization) → IsFound E o.name a
      → (G : Unit {0} → Type 0) → Keeps V G (delete_found J o k a)
  unfolding delete_found
  delete_found-Keeps leaving k a found G =
      Keeps-bind V (IsValidId a) G (need_valid_id J a)
        (λ id. do
          call (J.influx.delete_organization_with_id k id)
          mark_deleted J J.organizations tt reason_deleted_organization
              "deleted influxdb organization" o)
        (need_valid_id-Keeps J V R a)
        (λ id (org, e, ei, ne).
          Keeps-bind V Any G (call (J.influx.delete_organization_with_id k id))
            (λ _.
              mark_deleted J J.organizations tt reason_deleted_organization
                "deleted influxdb organization" o)
            (Keeps-call V Any _ (
              writing-Allows (IsStep E o) (IsLast E Gone o) (delete_organization id)
                (E.influx.delete_organization_with_id k id)
                (leaving.marked, ne, (org, IsFound-some E o.name a org found e, ei))))
            (λ _ _.
              mark_deleted-Keeps J J.organizations V kind Gone o P leaving G
                "deleted influxdb organization"))

  finalize_resources-Keeps :
      is_deleted o ≡ true
      → IsPassed J o
      → (req : NamespacedName) → Keeps V Any (finalize_resources J o req)
  unfolding finalize_resources
  finalize_resources-Keeps marked passed req =
      Keeps-if V Any (has_finalizer J o) _ (pure tt)
        (λ held. config_or_skip-Keeps J V R (config_of o req) _ λ config.
          Keeps-bind V Any Any (connect J config)
            (λ k.
              check (call (J.influx.find_organization_by_name k o.name))
                (λ e. if has_status 404 e then pure tt else throw e) (delete_found J o k))
            (connect-Keeps J V R config)
            (λ k _.
              Keeps-check V (IsFound E o.name) Any (J.influx.find_organization_by_name k o.name) _
                (delete_found J o k) (find_organization-Allows k o.name)
                (λ e.
                  Keeps-if V Any (has_status 404 e) (pure tt) (throw e)
                    (λ _. Keeps-pure V Any tt tt) (λ _. Keeps-throw V {A = Unit {0}} Any e))
                (λ a found.
                  delete_found-Keeps
                    (record { marked = marked; held = held; terminating = passed held }) k a found
                    Any)))
        (λ free. Keeps-pure V Any tt tt)

  create-Keeps : is_deleted o ≡ false → (k : Connection) → Keeps V Any (create J o k)
  unfolding create
  create-Keeps live k =
      Keeps-check V Any Any (J.influx.create_organization k o.name) _ (λ _. pure true)
        (writing-Allows (IsStep E o) (IsLast E Gone o) (create_organization o.name)
          (E.influx.create_organization k o.name) (live, refl))
        (λ e.
          Keeps-if V Any (has_status 422 e) _ (throw e)
            (λ _.
              Keeps-bind V Any Any (log_daily J (o.uid <> "-" <> "org")) (λ _. pure false)
                (log_daily-Keeps J V R _) (λ _ _. Keeps-pure V Any false tt))
            (λ _. Keeps-throw V {A = Bool} Any e))
        (λ _ _. Keeps-pure V Any true tt)

  reconcile_resources-Keeps :
      IsSettled J o → (req : NamespacedName) → Keeps V Any (reconcile_resources J o req)
  unfolding reconcile_resources
  reconcile_resources-Keeps settled req =
      let mark : Bool → M (Journaled E.World) (Unit {0}) = λ created.
        mark_created J J.organizations tt reason_created_organization
          "created influxdb organization" created tt o in
      let make : Connection → Option InfluxOrganization → M (Journaled E.World) (Unit {0}) =
        λ k a. if has_id a then create J o k >>= mark else pure tt in
      Keeps-if V Any (has_finalizer J o) _ (throw (message "finalizer not found"))
        (λ _. need_config-Keeps J V R (config_of o req) _ λ config.
          Keeps-bind V Any Any (connect J config)
            (λ k. call (J.influx.find_organization_by_name k config.spec.org_name) >>= make k)
            (connect-Keeps J V R config)
            (λ k _.
              Keeps-bind V Any Any
                (call (J.influx.find_organization_by_name k config.spec.org_name)) (make k)
                (Keeps-call V Any _ (R.find_organization k config.spec.org_name))
                (λ a _.
                  Keeps-if V Any (has_id a) (create J o k >>= mark) (pure tt)
                    (λ _.
                      Keeps-bind V Any Any (create J o k) mark (create-Keeps settled.live k)
                        (λ created _.
                          mark_created-Keeps J J.organizations V kind Gone o P settled
                            "created influxdb organization" created tt))
                    (λ _. Keeps-pure V Any tt tt))))
        (λ _. Keeps-throw V {A = Unit {0}} Any (message "finalizer not found"))

-- In any world, whatever the calls answer, a call of `Reconcile` that read an Organization writes only
-- this: an organization of its name is created for a live object, or one is deleted for an object that
-- is marked for deletion, by the non-empty id of an organization that InfluxDB answers in some world
-- for its name; and at most one write to the object itself, which comes last and changes the finalizer
-- or the status only. The finalizer is removed only from a terminating object that holds it, once the
-- calls that follow the read of the Organization, each in the world that the one before left, tell that
-- the Config that it names, in the namespace of the request, is not found, or answer that Config and
-- its Secret, and 404 to its name.
pub organization-IsTrace :
    (E : Environment) (req : NamespacedName) (s : Sys E.World) (o : Organization)
    → (E.organizations.get req s.world).0 ≡ reply o
    → IsTrace
        (IsStep E o)
        (IsLast E (IsGone E req o (E.organizations.get req s.world).1) o)
        (reconcile (journal E) req (recorded s)).1.world.writes
unfolding reconcile
organization-IsTrace E req s o read =
    let Gone = IsGone E req o (E.organizations.get req s.world).1 in
    reconcile-ended (journal E) (journal E).organizations kind Gone (finalize_resources (journal E))
      (reconcile_resources (journal E)) req (V E o Gone) o (recorded s) (P E o Gone)
      (λ marked passed. finalize_resources-Keeps E o Gone marked passed req)
      (λ marked held returned. finalize_resources_returns (journal E) req o _ held returned)
      (λ settled. reconcile_resources-Keeps E o Gone settled req) read tt
