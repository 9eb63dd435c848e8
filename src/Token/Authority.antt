-- ===== src/Token/Authority.antt =====
-- What the Token controller writes in any world, whatever the calls answer.
use influxdb_operator.Base.{String, ◌≡◌, true, Option, none, some, List, [], ◌∷◌}
use influxdb_operator.Base.{if◌then◌else◌}
use influxdb_operator.Errors.{message}
use influxdb_operator.Effect.{M, Sys, reply, pure, throw, call, check, deref, ◌>>=◌, ◌>>◌}
use influxdb_operator.Effect.Keeps.{
  Any, Keeps, Keeps-pure, Keeps-throw, Keeps-deref, Keeps-call, Keeps-check, Keeps-bind, Keeps-if,
}
use influxdb_operator.Api.{NamespacedName, Token}
use influxdb_operator.Environment.{Environment, Connection, Authorization, InfluxOrganization}
use influxdb_operator.Const.{key_token_id, reason_created_token, reason_deleted_token}
use influxdb_operator.Lifecycle.Connect.{connect, need_valid_id, has_status}
use influxdb_operator.Lifecycle.Handlers.{has_finalizer, mark_deleted, mark_created}
use influxdb_operator.Lifecycle.Reconcile.{is_deleted}
use influxdb_operator.Lifecycle.Reads.{
  IsNonempty, IsValidId, need_config-Keeps, config_or_skip-Keeps, connect-Keeps,
  need_valid_id-Keeps,
}
use influxdb_operator.Lifecycle.Machine.{IsPassed, IsLeaving, IsSettled}
use influxdb_operator.Lifecycle.Permitted.{mark_deleted-Keeps, mark_created-Keeps}
use influxdb_operator.Lifecycle.Authority.{reconcile-ended}
use influxdb_operator.Journal.{delete_authorization, Journaled, journal, recorded}
use influxdb_operator.Journal.Trace.{IsTrace, writing-Allows}
use influxdb_operator.Token.Writes.{IsGone, kind, IsStep, IsLast}
use influxdb_operator.Token.Data.{config_of, name_of, description_of, find_authorization, Issued}
use influxdb_operator.Token.Defs.{
  need_authorizations, delete_authorization as delete_found, obtain, write_secret,
  finalize_resources, reconcile_resources, reconcile,
}
use influxdb_operator.Token.Gone.{finalize_resources_returns}
use influxdb_operator.Token.Found.{AreListed, IsFound, find_authorization-IsFound}
use influxdb_operator.Token.Issuing.{
  V, J, R, P, Gives, find_authorizations-Allows, need_authorizations-Keeps, obtain-Keeps,
  write_secret-Keeps,
}

module _ (E : Environment) (o : Token) (Gone : Type 0) where
  abbrev Action : Type 0 → Type 0
  Action = M (Journaled E.World)

  delete_found-Keeps :
      IsLeaving (J E o Gone) o
      → (k : Connection) (a : Option Authorization) → IsFound E o a
      → Keeps (V E o Gone) Any (delete_found (J E o Gone) o k a)
  unfolding delete_found
  delete_found-Keeps leaving k none h = Keeps-pure (V E o Gone) Any tt tt
  delete_found-Keeps leaving k (some a) h =
      let mark : Action (Unit {0}) =
        mark_deleted (J E o Gone) (J E o Gone).tokens none reason_deleted_token
          "deleted influxdb token" o in
      Keeps-bind (V E o Gone) (λ id. a.id ≡ some id) Any (deref a.id)
        (λ id. call ((J E o Gone).influx.delete_authorization_with_id k id) >> mark)
        (Keeps-deref (V E o Gone) (λ id. a.id ≡ some id) a.id (λ id e. e))
        (λ id e.
          Keeps-bind (V E o Gone) Any Any
            (call ((J E o Gone).influx.delete_authorization_with_id k id)) (λ _. mark)
            (Keeps-call (V E o Gone) Any _ (
              writing-Allows (IsStep E o) (IsLast E Gone o) (delete_authorization id)
                (E.influx.delete_authorization_with_id k id) (leaving.marked, (a, h, e))))
            (λ _ _.
              mark_deleted-Keeps (J E o Gone) (J E o Gone).tokens (V E o Gone) kind Gone o
                (P E o Gone) leaving Any "deleted influxdb token"))

  -- From an organization to the authorizations in it: what follows is left.
  abbrev searched :
      Connection
      → (String → List Authorization → Action (Unit {0}))
      → Option InfluxOrganization
      → Action (Unit {0})
  searched k rest organization = do
    id ← need_valid_id (J E o Gone) organization
    listed ← call ((J E o Gone).influx.find_authorizations_by_org_id k id)
    all ← need_authorizations (J E o Gone) listed
    rest id all

  searched-Keeps :
      (G : Unit {0} → Type 0) (k : Connection)
      (rest : String → List Authorization → Action (Unit {0}))
      (organization : Option InfluxOrganization)
      → ((id : String)
          → IsNonempty id
          → (all : List Authorization) → AreListed E (some all)
          → Keeps (V E o Gone) G (rest id all))
      → Keeps (V E o Gone) G (searched k rest organization)
  searched-Keeps G k rest organization h =
      Keeps-bind (V E o Gone) (IsValidId organization) G (need_valid_id (J E o Gone) organization)
        (λ id. do
          listed ← call ((J E o Gone).influx.find_authorizations_by_org_id k id)
          all ← need_authorizations (J E o Gone) listed
          rest id all)
        (need_valid_id-Keeps (J E o Gone) (V E o Gone) (R E o Gone) organization)
        (λ id (_, _, _, ne).
          Keeps-bind (V E o Gone) (AreListed E) G
            (call ((J E o Gone).influx.find_authorizations_by_org_id k id))
            (λ listed. need_authorizations (J E o Gone) listed >>= rest id)
            (Keeps-call (V E o Gone) (AreListed E) _ (find_authorizations-Allows E o Gone k id))
            (λ listed hl.
              Keeps-bind (V E o Gone) (λ all. AreListed E (some all)) G
                (need_authorizations (J E o Gone) listed) (rest id)
                (need_authorizations-Keeps E o Gone listed hl) (h id ne)))

  finalize_resources-Keeps :
      is_deleted o ≡ true
      → IsPassed (J E o Gone) o
      → (req : NamespacedName) → Keeps (V E o Gone) Any (finalize_resources (J E o Gone) o req)
  unfolding finalize_resources
  finalize_resources-Keeps marked passed req =
      let delete : Connection → String → List Authorization → Action (Unit {0}) =
        λ k id all. delete_found (J E o Gone) o k (find_authorization (description_of o) all) in
      Keeps-if (V E o Gone) Any (has_finalizer (J E o Gone) o) _ (pure tt)
        (λ held.
          config_or_skip-Keeps (J E o Gone) (V E o Gone) (R E o Gone) (config_of o req) _ λ config.
            let find = (J E o Gone).influx.find_organization_by_name in
            Keeps-bind (V E o Gone) Any Any (connect (J E o Gone) config)
              (λ k.
                check (call (find k config.spec.org_name))
                  (λ e. if has_status 404 e then pure tt else throw e) (searched k (delete k)))
              (connect-Keeps (J E o Gone) (V E o Gone) (R E o Gone) config)
              (λ k _.
                Keeps-check (V E o Gone) Any Any (find k config.spec.org_name) _
                  (searched k (delete k)) ((R E o Gone).find_organization k config.spec.org_name)
                  (λ e.
                    Keeps-if (V E o Gone) Any (has_status 404 e) (pure tt) (throw e)
                      (λ _. Keeps-pure (V E o Gone) Any tt tt)
                      (λ _. Keeps-throw (V E o Gone) {A = Unit {0}} Any e))
                  (λ organization _. searched-Keeps Any k (delete k) organization (λ id _ all h.
                    delete_found-Keeps
                      (record { marked = marked; held = held; terminating = passed held }) k _
                      (find_authorization-IsFound E o all h)))))
        (λ free. Keeps-pure (V E o Gone) Any tt tt)

  -- The end of `ReconcileResources`.
  abbrev finish : Issued → Action (Unit {0})
  finish issued = do
    write_secret (J E o Gone) o issued
    mark_created (J E o Gone) (J E o Gone).tokens none reason_created_token "created influxdb token"
        issued.created (some ((key_token_id, issued.token_id) ∷ [])) o

  finish-Keeps :
      IsSettled (J E o Gone) o → (i : Issued) → Gives E o Gone i → Keeps (V E o Gone) Any (finish i)
  finish-Keeps settled i h =
      let values = some ((key_token_id, i.token_id) ∷ []) in
      Keeps-bind (V E o Gone) Any Any (write_secret (J E o Gone) o i)
        (λ _.
          mark_created (J E o Gone) (J E o Gone).tokens none reason_created_token
            "created influxdb token" i.created values o)
        (write_secret-Keeps E o Gone settled.live i h)
        (λ _ _.
          mark_created-Keeps (J E o Gone) (J E o Gone).tokens (V E o Gone) kind Gone o (P E o Gone)
            settled "created influxdb token" i.created values)

  reconcile_resources-Keeps :
      IsSettled (J E o Gone) o
      → (req : NamespacedName) → Keeps (V E o Gone) Any (reconcile_resources (J E o Gone) o req)
  unfolding reconcile_resources
  reconcile_resources-Keeps settled req =
      let issue : Connection
          → Option InfluxOrganization
          → String
          → List Authorization
          → Action (Unit {0}) =
        λ k organization id all.
          obtain (J E o Gone) o k (name_of organization) id
            (find_authorization (description_of o) all)
          >>= finish in
      Keeps-if (V E o Gone) Any (has_finalizer (J E o Gone) o) _
        (throw (message "finalizer not found"))
        (λ _. need_config-Keeps (J E o Gone) (V E o Gone) (R E o Gone) (config_of o req) _ λ config.
          let find : Connection → Action (Option InfluxOrganization) =
            λ k. call ((J E o Gone).influx.find_organization_by_name k config.spec.org_name) in
          Keeps-bind (V E o Gone) Any Any (connect (J E o Gone) config)
            (λ k. find k >>= λ organization. searched k (issue k organization) organization)
            (connect-Keeps (J E o Gone) (V E o Gone) (R E o Gone) config)
            (λ k _.
              Keeps-bind (V E o Gone) Any Any (find k)
                (λ organization. searched k (issue k organization) organization)
                (Keeps-call (V E o Gone) Any _
                  ((R E o Gone).find_organization k config.spec.org_name))
                (λ organization _.
                  searched-Keeps Any k (issue k organization) organization (λ id ne all h.
                    Keeps-bind (V E o Gone) (Gives E o Gone) Any
                      (obtain (J E o Gone) o k (name_of organization) id
                        (find_authorization (description_of o) all))
                      finish
                      (obtain-Keeps E o Gone settled.live k (name_of organization) id ne _
                        (find_authorization-IsFound E o all h))
                      (finish-Keeps settled)))))
        (λ _. Keeps-throw (V E o Gone) {A = Unit {0}} Any (message "finalizer not found"))

pub token-IsTrace :
    (E : Environment) (req : NamespacedName) (s : Sys E.World) (o : Token)
    → (E.tokens.get req s.world).0 ≡ reply o
    → IsTrace
        (IsStep E o)
        (IsLast E (IsGone E req o (E.tokens.get req s.world).1) o)
        (reconcile (journal E) req (recorded s)).1.world.writes
unfolding reconcile
token-IsTrace E req s o read =
    let Gone = IsGone E req o (E.tokens.get req s.world).1 in
    reconcile-ended (journal E) (journal E).tokens kind Gone (finalize_resources (journal E))
      (reconcile_resources (journal E)) req (V E o Gone) o (recorded s) (P E o Gone)
      (λ marked passed. finalize_resources-Keeps E o Gone marked passed req)
      (λ marked held returned. finalize_resources_returns (journal E) req o _ held returned)
      (λ settled. reconcile_resources-Keeps E o Gone settled req) read tt
