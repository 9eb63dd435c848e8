-- ===== src/Bucket/Sync.antt =====
-- `ReconcileResources` of the Bucket controller under healthy servers.
use influxdb_operator.Base.{
  String, ◌≡◌, refl, ◌∙◌, ap, Bool, true, false, ◌==◌, ◌<>◌, some, List, [], ◌∷◌, ◌++◌,
}
use influxdb_operator.Base.{if◌then◌else◌, arith}
use influxdb_operator.Errors.{client}
use influxdb_operator.Effect.{Sys, M, Outcome, ok, reply, refuse, call, throw, ◌>>=◌}
use influxdb_operator.Api.{NamespacedName, Bucket, Config}
use influxdb_operator.Environment.{Environment, Secret, InfluxOrganization, InfluxBucket, NewBucket}
use influxdb_operator.Const.{reason_created_bucket}
use influxdb_operator.Lifecycle.Handlers.{has_finalizer, mark_created}
use influxdb_operator.Lifecycle.Connect.{need_valid_id, need_config, connect, log_daily}
use influxdb_operator.Lifecycle.Server.{IsServer, Sees, Gives}
use influxdb_operator.Lifecycle.Rules.{
  need_valid_id_lem, check-ok, check-err, call-Gives, log_daily-Gives,
}
use influxdb_operator.Lifecycle.Configured.{
  valid_id-id, IsAdmin, connection_of-IsAdmin, connection_of, get_config-Gives, connect-Gives,
}
use influxdb_operator.Bucket.Defs.{find_org_id, create, reconcile_resources}
use influxdb_operator.Bucket.Server.{
  IsTtl, IsPermitted, home_of, Remote, has_bucket, IsUsable, IsInflux,
}

pub has_bucket-append :
    (name : String) (bs : List InfluxBucket) (b : InfluxBucket)
    → has_bucket name (bs ++ b ∷ []) ≡ (if b.name == name then true else has_bucket name bs)
unfolding has_bucket
has_bucket-append name [] b = refl
has_bucket-append name (c ∷ bs) b = ground (arith, has_bucket-append name bs b)

module _ (E : Environment) (req : NamespacedName) (S : IsServer E E.buckets req Remote)
    (I : IsInflux E req S) (o : Bucket) where
  abbrev pub finish : Bool → M E.World (Unit {0})
  finish created =
      mark_created E E.buckets tt reason_created_bucket "created influxdb bucket" created tt o

  module _ (r : Remote) (c : Config) (x : Secret) (org : InfluxOrganization) (id : String)
      (u : IsUsable r c x org id) where
    pub need_config-Gives :
        (s : Sys E.World)
        → Sees E E.buckets req S s (some o) r
        → Gives E E.buckets req S (call (E.get_config (home_of req)) s) (ok c) (some o) r
    need_config-Gives s h =
        get_config-Gives E E.buckets req S (home_of req) (λ (y : Remote). y.config)
          (λ (y : Remote). y.secret) I.configured o r c x u.config s h

    pub bucket_connect-Gives :
        (s : Sys E.World)
        → Sees E E.buckets req S s (some o) r
        → Gives E E.buckets req S (connect E c s) (ok (connection_of c x)) (some o) r
    bucket_connect-Gives s h =
        connect-Gives E E.buckets req S (home_of req) (λ (y : Remote). y.config)
          (λ (y : Remote). y.secret) I.configured o r c x u.config s h u.secret

    pub find_org_id-Gives :
        (s : Sys E.World)
        → Sees E E.buckets req S s (some o) r
        → Gives E E.buckets req S (find_org_id E (connection_of c x) c s) (ok id) (some o) r
    unfolding find_org_id
    find_org_id-Gives s (eo, er) =
        check-ok E E.buckets req S (λ t. Gives E E.buckets req S t (ok id) (some o) r)
          (call (E.influx.find_organization_by_name (connection_of c x) c.spec.org_name)) throw
          (need_valid_id E) s (some org) (some o) r
          (call-Gives E E.buckets req S
            (E.influx.find_organization_by_name (connection_of c x) c.spec.org_name) s
            (reply (some org)) (some o) r
            (I.find_organization_found c x org (rw er u.config) (rw er u.secret) u.token
              (rw er u.organization))
            (I.object-find_organization s.world (connection_of c x) c.spec.org_name ∙ eo)
            (I.remote-find_organization s.world (connection_of c x) c.spec.org_name ∙ er))
          (λ s' h. rw (need_valid_id_lem E (some org) id s' u.valid) (refl, h.0, h.1))

    abbrev new_bucket : NewBucket
    new_bucket = record {
      description = o.spec.description;
      name = o.name;
      org_id = some id;
      every_seconds = o.spec.seconds_ttl;
    }

    pub admin : IsAdmin r.config r.secret (connection_of c x)
    admin = connection_of-IsAdmin c x u.config u.secret u.token

    permitted : IsTtl o.spec.seconds_ttl → IsPermitted r (connection_of c x) new_bucket
    permitted ttl = (admin, (org, id, u.organization, valid_id-id org id u.valid, refl), ttl)

    -- The bucket is there already: nothing is created, and that is no error.
    pub create-Gives_taken :
        (s : Sys E.World)
        → Sees E E.buckets req S s (some o) r
        → IsTtl o.spec.seconds_ttl
        → has_bucket o.name r.buckets ≡ true
        → Gives E E.buckets req S (create E o (connection_of c x) id s) (ok false) (some o) r
    unfolding create
    create-Gives_taken s (eo, er) ttl taken =
        let k = connection_of c x in
        let (e, refused, status, same) =
          I.create_taken s.world k new_bucket (rw er (permitted ttl)) (rw er taken) in
        check-err E E.buckets req S (λ t. Gives E E.buckets req S t (ok false) (some o) r)
          (call (E.influx.create_bucket k new_bucket)) _ _ s (client e) (some o) r
          (call-Gives E E.buckets req S (E.influx.create_bucket k new_bucket) s (refuse e) (some o)
            r refused (I.object-create s.world k new_bucket ∙ eo) (same ∙ er))
          (λ s' h. rw status (
            check-ok E E.buckets req S (λ t. Gives E E.buckets req S t (ok false) (some o) r)
              (log_daily E (o.uid <> "-" <> "bucket")) throw _ s' tt (some o) r
              (log_daily-Gives E E.buckets req S _ s' (some o) r h) (λ s'' h'. (refl, h'.0, h'.1))))

    -- The bucket is not there: it is created.
    pub create-Gives_new :
        (s : Sys E.World)
        → Sees E E.buckets req S s (some o) r
        → IsTtl o.spec.seconds_ttl
        → has_bucket o.name r.buckets ≡ false
        → (new : String) × Gives E E.buckets req S
            (create E o (connection_of c x) id s)
            (ok true)
            (some o)
            (record r { buckets = r.buckets ++ record { id = some new; name = o.name } ∷ [] })
    unfolding create
    create-Gives_new s (eo, er) ttl free =
        let k = connection_of c x in
        let (new, _, accepted, more) =
          I.create_new s.world k new_bucket (rw er (permitted ttl)) (rw er free) in
        let r' = record r { buckets = r.buckets ++ record { id = some new; name = o.name } ∷ [] } in
        (
          new,
          check-ok E E.buckets req S (λ t. Gives E E.buckets req S t (ok true) (some o) r')
              (call (E.influx.create_bucket k new_bucket)) _ _ s tt (some o) r'
              (call-Gives E E.buckets req S (E.influx.create_bucket k new_bucket) s (reply tt)
                (some o) r' accepted (I.object-create s.world k new_bucket ∙ eo)
                (more
                  ∙ ap
                      (λ (y : Remote). record y {
                        buckets = y.buckets ++ record { id = some new; name = o.name } ∷ [];
                      })
                      er))
              (λ s' h. (refl, h.0, h.1)),
        )

    -- From the Config to the organization: what follows is left.
    pub connected :
        (P : Outcome (Unit {0}) × Sys E.World → Type 0) (s : Sys E.World)
        → Sees E E.buckets req S s (some o) r
        → has_finalizer E o ≡ true
        → ((s' : Sys E.World)
            → Sees E E.buckets req S s' (some o) r
            → P ((create E o (connection_of c x) id >>= finish) s'))
        → P (reconcile_resources E o req s)
    unfolding reconcile_resources need_config
    connected P s h found k = rw found (
        check-ok E E.buckets req S P (call (E.get_config (home_of req))) throw _ s c (some o) r
          (need_config-Gives s h)
          (λ s₁ h₁.
            check-ok E E.buckets req S P (connect E c) throw _ s₁ (connection_of c x) (some o) r
              (bucket_connect-Gives s₁ h₁)
              (λ s₂ h₂.
                check-ok E E.buckets req S P (find_org_id E (connection_of c x) c) throw _ s₂ id
                  (some o) r (find_org_id-Gives s₂ h₂) k)))
