-- ===== src/Bucket/Cleanup.antt =====
-- `FinalizeResources` of the Bucket controller under healthy servers.
use influxdb_operator.Base.{
  arith, ◌≤◌, ℕ, ◌<◌, ◌≡◌, refl, ◌∙◌, sym, ap, String, true, false, some, List,
}
use influxdb_operator.Errors.{object_updated}
use influxdb_operator.Effect.{Sys, Outcome, ok, err, reply, call, throw}
use influxdb_operator.Api.{NamespacedName, Bucket, Status, Config}
use influxdb_operator.Environment.{Environment, Secret, InfluxOrganization, InfluxBucket}
use influxdb_operator.Const.{reason_deleted_bucket}
use influxdb_operator.Lifecycle.Handlers.{has_finalizer}
use influxdb_operator.Lifecycle.Connect.{config_or_skip, connect}
use influxdb_operator.Lifecycle.Server.{IsServer, Sees, Gives}
use influxdb_operator.Lifecycle.Rules.{check-ok, call-Gives, mark_deleted-Gives}
use influxdb_operator.Lifecycle.Keyed.{ne_false}
use influxdb_operator.Lifecycle.Cleanup.{IsCleanup}
use influxdb_operator.Bucket.Defs.{find_org_id, delete_found, finalize_resources}
use influxdb_operator.Lifecycle.Configured.{IsAdmin, connection_of}
use influxdb_operator.Bucket.Server.{home_of, Remote, IsUsable, Usable, IsInflux}
use influxdb_operator.Bucket.Ids.{
  length, length-without, has_bucket_id, IsKeyed, count, others, without, find_id_found,
  find_id_missing,
}
use influxdb_operator.Bucket.Sync.{
  admin, need_config-Gives, bucket_connect-Gives, find_org_id-Gives,
}

-- All that the controller needs is there, the buckets are on one page and have ids, and the
-- ones of other names are `rest`.
abbrev pub IsClean : List InfluxBucket → Bucket → Remote → Type 0
IsClean rest o r =
    Usable r × (length r.buckets ≤ 20) × IsKeyed r.buckets × (others o.name r.buckets ≡ rest)

abbrev pub amount : Bucket → Remote → ℕ
amount o r = count o.name r.buckets

module _ (E : Environment) (req : NamespacedName) (S : IsServer E E.buckets req Remote)
    (I : IsInflux E req S) where
  module _ (o : Bucket) (r : Remote) (c : Config) (x : Secret) (org : InfluxOrganization)
      (id : String) (u : IsUsable r c x org id) where
    find_buckets-Gives :
        (s : Sys E.World)
        → length r.buckets ≤ 20
        → Sees E E.buckets req S s (some o) r
        → Gives E E.buckets req S
            (call (E.influx.find_buckets_by_org_id (connection_of c x) id) s)
            (ok (some r.buckets))
            (some o)
            r
    find_buckets-Gives s few (eo, er) =
        call-Gives E E.buckets req S (E.influx.find_buckets_by_org_id (connection_of c x) id) s
          (reply (some r.buckets)) (some o) r
          (I.find_buckets_found c x org id (rw er u) (rw er few) ∙ rw er refl)
          (I.object-find_buckets s.world (connection_of c x) id ∙ eo)
          (I.remote-find_buckets s.world (connection_of c x) id ∙ er)

    -- From the Config to the list of buckets: what follows is left.
    listed :
        (P : Outcome (Unit {0}) × Sys E.World → Type 0) (s : Sys E.World)
        → length r.buckets ≤ 20
        → Sees E E.buckets req S s (some o) r
        → has_finalizer E o ≡ true
        → ((s' : Sys E.World)
            → Sees E E.buckets req S s' (some o) r
            → P (delete_found E o (connection_of c x) (some r.buckets) s'))
        → P (finalize_resources E o req s)
    unfolding finalize_resources config_or_skip
    listed P s few h found k = rw found (
        check-ok E E.buckets req S P (call (E.get_config (home_of req))) _ _ s c (some o) r
          (need_config-Gives E req S I o r c x org id u s h)
          (λ s₁ h₁.
            check-ok E E.buckets req S P (connect E c) throw _ s₁ (connection_of c x) (some o) r
              (bucket_connect-Gives E req S I o r c x org id u s₁ h₁)
              (λ s₂ h₂.
                check-ok E E.buckets req S P (find_org_id E (connection_of c x) c) throw _ s₂ id
                  (some o) r (find_org_id-Gives E req S I o r c x org id u s₂ h₂)
                  (λ s₃ h₃.
                    check-ok E E.buckets req S P
                      (call (E.influx.find_buckets_by_org_id (connection_of c x) id)) throw _ s₃
                      (some r.buckets) (some o) r (find_buckets-Gives s₃ few h₃) k))))

  cleaned :
      (rest : List InfluxBucket) (s : Sys E.World) (o : Bucket) (r : Remote)
      → Sees E E.buckets req S s (some o) r
      → IsClean rest o r
      → has_finalizer E o ≡ true
      → amount o r ≡ 0
      → Gives E E.buckets req S (finalize_resources E o req s) (ok tt) (some o) r
  unfolding delete_found
  cleaned rest s o r h ((c, x, org, id, u), few, keyed, kept) held none_left =
      listed o r c x org id u (λ t. Gives E E.buckets req S t (ok tt) (some o) r) s few h held
        (λ s' h'. rw (find_id_missing o.name r.buckets s' none_left) (refl, h'.0, h'.1))

  delete-Gives :
      (o : Bucket) (r : Remote) (c : Config) (x : Secret) (old : String) (s : Sys E.World)
      → Sees E E.buckets req S s (some o) r
      → IsAdmin r.config r.secret (connection_of c x)
      → has_bucket_id old r.buckets ≡ true
      → Gives E E.buckets req S
          (call (E.influx.delete_bucket_with_id (connection_of c x) old) s)
          (ok tt)
          (some o)
          (record r { buckets = without old r.buckets })
  delete-Gives o r c x old s (eo, er) client there =
      let k = connection_of c x in
      call-Gives E E.buckets req S (E.influx.delete_bucket_with_id k old) s (reply tt) (some o)
        (record r { buckets = without old r.buckets })
        (I.delete_accepted s.world k old (rw er client) (rw er there))
        (I.object-delete s.world k old ∙ eo)
        (I.remote-delete s.world k old (rw er client) (rw er there)
          ∙ ap (λ (y : Remote). record y { buckets = without old y.buckets }) er)

  -- The outcome that `IsCleanup.deleting` asks for.
  abbrev Deleting : List InfluxBucket → Bucket → Remote → Outcome (Unit {0}) × Sys E.World → Type 0
  Deleting rest o r t =
      (st : Status (Unit {0})) × (r' : Remote) × (Gives E E.buckets req S t (err object_updated)
        (some (record o { status = st })) r')
      × IsClean rest (record o { status = st }) r'
      × (st.phase ≡ o.status.phase)
      × (amount o r' < amount o r)

  deleting :
      (rest : List InfluxBucket) (s : Sys E.World) (o : Bucket) (r : Remote)
      → Sees E E.buckets req S s (some o) r
      → IsClean rest o r
      → has_finalizer E o ≡ true
      → 0 < amount o r
      → Deleting rest o r (finalize_resources E o req s)
  unfolding delete_found
  deleting rest s o r h ((c, x, org, id, u), few, keyed, kept) held left =
      let (old, finds, ne, there, less, same, keyed') =
        find_id_found {W = E.World} o.name r.buckets keyed left in
      let r' = record r { buckets = without old r.buckets } in
      let fewer : length r'.buckets ≤ 20 = omega (arith, length-without old r.buckets, few) in
      let usable : Usable r' = (
        c,
        x,
        org,
        id,
        record {
          config = u.config;
          secret = u.secret;
          organization = u.organization;
          token = u.token;
          valid = u.valid;
        },
      ) in
      listed o r c x org id u (Deleting rest o r) s few h held (λ s' h'.
        rw (finds s', ne_false old ne)
          (check-ok E E.buckets req S (Deleting rest o r)
            (call (E.influx.delete_bucket_with_id (connection_of c x) old)) throw _ s' tt (some o)
            r' (delete-Gives o r c x old s' h' (admin E req S I o r c x org id u) there)
            (λ s'' h''.
              let (st, phase, g) =
                mark_deleted-Gives E E.buckets tt req S reason_deleted_bucket
                  "deleted influxdb bucket" s'' o r' h'' in
              (st, r', g, (usable, fewer, keyed', same ∙ kept), phase, less))))

  skipped :
      (s : Sys E.World) (o : Bucket)
      → has_finalizer E o ≡ false
      → finalize_resources E o req s ≡ (ok tt, s)
  unfolding finalize_resources
  skipped s o free = rw free refl

  pub bucket-IsCleanup :
      (rest : List InfluxBucket)
      → IsCleanup E E.buckets req S (finalize_resources E) (IsClean rest) amount
  bucket-IsCleanup rest = record {
    amount_key = λ o p r k. ap (λ n. count n r.buckets) k.name;
    usable_kept = λ o p r k e h. (h.0, h.1, h.2, ap (λ n. others n r.buckets) (sym k.name) ∙ h.3);
    skipped = skipped;
    cleaned = cleaned rest;
    deleting = deleting rest;
  }
