-- ===== src/Bucket/Converges.antt =====
-- A live Bucket under healthy servers, and repeated calls of `Reconcile`.
use influxdb_operator.Base.{
  ℕ, ◌≤◌, ◌≡◌, refl, ◌∙◌, Bool, true, false, eq_refl, ap, ◌&&◌, none, some, ◌++◌, [], ◌∷◌,
}
use influxdb_operator.Base.{arith, Bool-cases, inl, inr}
use mathlib.Core.Path.{subst}
use influxdb_operator.Effect.{Sys, Outcome, ok, throw}
use influxdb_operator.Api.{NamespacedName, Bucket}
use influxdb_operator.Environment.{Environment}
use influxdb_operator.Const.{reason_created_bucket}
use influxdb_operator.Lifecycle.Conditions.{has_reason}
use influxdb_operator.Lifecycle.Handlers.{has_finalizer}
use influxdb_operator.Lifecycle.Server.{IsServer, SameKey, Sees, Gives}
use influxdb_operator.Lifecycle.Sync.{IsSync}
use influxdb_operator.Lifecycle.Rest.{both, Recorded-Pending, repeat-IsDone, repeat-rests}
use influxdb_operator.Lifecycle.Rest
use influxdb_operator.Lifecycle.Reconcile.{repeat, requeue_in_a_minute}
use influxdb_operator.Lifecycle.Rules.{
  check-ok, mark_created_settled, mark_created_first, mark_created_again, Recorded,
}
use influxdb_operator.Bucket.Defs.{create, finalize_resources, reconcile_resources, reconcile}
use influxdb_operator.Lifecycle.Configured.{connection_of}
use influxdb_operator.Bucket.Server.{IsTtl, Remote, has_bucket, Usable, IsInflux}
use influxdb_operator.Bucket.Sync.{
  has_bucket-append, connected, create-Gives_taken, create-Gives_new, finish,
}

abbrev pub present : Bucket → Remote → Bool
present o r = has_bucket o.name r.buckets

-- The Bucket has a TTL that InfluxDB takes, and all that the controller needs is there.
abbrev pub Ready : Bucket → Remote → Type 0
Ready o r = IsTtl o.spec.seconds_ttl × Usable r

module _ (E : Environment) (req : NamespacedName) (S : IsServer E E.buckets req Remote)
    (I : IsInflux E req S) where
  settled :
      (s : Sys E.World) (o : Bucket) (r : Remote)
      → Sees E E.buckets req S s (some o) r
      → Ready o r
      → has_finalizer E o ≡ true
      → has_reason reason_created_bucket o.status.conditions && present o r ≡ true
      → Gives E E.buckets req S (reconcile_resources E o req s) (ok tt) (some o) r
  settled s o r h (ttl, (c, x, org, id, u)) found ready =
      let (old, there) = both _ _ ready in
      connected E req S I o r c x org id u (λ t. Gives E E.buckets req S t (ok tt) (some o) r) s h
        found
        (λ s' h'.
          check-ok E E.buckets req S (λ t. Gives E E.buckets req S t (ok tt) (some o) r)
            (create E o (connection_of c x) id) throw (finish E req S I o) s' false (some o) r
            (create-Gives_taken E req S I o r c x org id u s' h' ttl there)
            (λ s'' h''.
              mark_created_settled E E.buckets tt req S reason_created_bucket
                "created influxdb bucket" tt s'' o r h'' old))

  abbrev Pending : Bucket → Outcome (Unit {0}) × Sys E.World → Type 0
  Pending = Rest.Pending E E.buckets tt req S reason_created_bucket Ready present

  recorded :
      (o : Bucket) (r : Remote) (s : Sys E.World) (h : Sees E E.buckets req S s (some o) r)
      (t : Outcome (Unit {0}) × Sys E.World)
      → Ready o r
      → present o r ≡ true
      → Recorded E E.buckets tt req S reason_created_bucket "created influxdb bucket" tt s o r h t
      → Pending o t
  recorded o r s h t usable there =
      Recorded-Pending E E.buckets tt req S reason_created_bucket Ready present
        "created influxdb bucket" tt s o r h t refl (λ st. usable) there

  pending :
      (s : Sys E.World) (o : Bucket) (r : Remote)
      → Sees E E.buckets req S s (some o) r
      → Ready o r
      → has_finalizer E o ≡ true
      → has_reason reason_created_bucket o.status.conditions && present o r ≡ false
      → Pending o (reconcile_resources E o req s)
  pending s o r h (ttl, (c, x, org, id, u)) found missing =
      connected E req S I o r c x org id u (Pending o) s h found (λ s' h'.
        elim (Bool-cases (present o r)) [
          | inl there ↦
              check-ok E E.buckets req S (Pending o) (create E o (connection_of c x) id) throw
                (finish E req S I o) s' false (some o) r
                (create-Gives_taken E req S I o r c x org id u s' h' ttl there)
                (λ s'' h''.
                  recorded o r s'' h'' (finish E req S I o false s'') (ttl, (c, x, org, id, u))
                    there
                    (mark_created_first E E.buckets tt req S reason_created_bucket
                      "created influxdb bucket" tt s'' o r h'' false (ground arith)))
          | inr free ↦
              let (new, g) = create-Gives_new E req S I o r c x org id u s' h' ttl free in
              let r' = record r {
                buckets = r.buckets ++ record { id = some new; name = o.name } ∷ [];
              } in
              check-ok E E.buckets req S (Pending o) (create E o (connection_of c x) id) throw
                (finish E req S I o) s' true (some o) r' g
                (λ s'' h''.
                  recorded o r' s'' h'' (finish E req S I o true s'')
                    (
                      ttl,
                      (
                        c,
                        x,
                        org,
                        id,
                        record {
                          config = u.config;
                          secret = u.secret;
                          organization = u.organization;
                          token = u.token;
                          valid = u.valid;
                        },
                      ),
                    )
                    (has_bucket-append o.name r.buckets _ ∙ rw eq_refl)
                    (elim (Bool-cases (has_reason reason_created_bucket o.status.conditions)) [
                      | inl old ↦
                          mark_created_again E E.buckets tt req S reason_created_bucket
                            "created influxdb bucket" tt s'' o r' h'' old
                      | inr fresh ↦
                          mark_created_first E E.buckets tt req S reason_created_bucket
                            "created influxdb bucket" tt s'' o r' h'' true fresh
                    ]))
        ])

  pub bucket-IsSync :
      IsSync E E.buckets req S (reconcile_resources E) reason_created_bucket Ready present
  bucket-IsSync = record {
    present_key = λ o p r k. ap (λ n. has_bucket n r.buckets) k.name;
    usable_kept = λ o p r k e (ttl, usable). (subst (λ spec. IsTtl spec.seconds_ttl) e ttl, usable);
    settled = settled;
    pending = pending;
  }

  -- All that a live Bucket should have: its finalizer, its conditions, and its bucket.
  abbrev pub IsDone : Bucket → Remote → Type 0
  IsDone = Rest.IsDone E E.buckets tt req S reason_created_bucket Ready present

  -- From any live Bucket with a TTL of 0 or of at least 3600 seconds, whatever its finalizers, its
  -- status and the bucket in InfluxDB, three calls of `Reconcile` or more, under healthy servers with
  -- the Config, its Secret with a token and its organization there, leave the Bucket with the same key
  -- and spec, live, with its finalizer and its two conditions, and a bucket of its name in InfluxDB.
  pub reconcile-IsDone :
      (n : ℕ) (s : Sys E.World) (o : Bucket) (r : Remote)
      → Sees E E.buckets req S s (some o) r
      → Ready o r
      → o.deletion_timestamp ≡ none
      → 3 ≤ n
      → (o' : Bucket) × (r' : Remote) × (Sees E E.buckets req S
          (repeat n (reconcile E req) s)
          (some o')
          r')
        × SameKey o' o
        × (o'.spec ≡ o.spec)
        × (o'.deletion_timestamp ≡ none)
        × IsDone o' r'
  unfolding reconcile
  reconcile-IsDone =
      repeat-IsDone E E.buckets tt req S reason_created_bucket Ready present (finalize_resources E)
        (reconcile_resources E) bucket-IsSync

  -- Once a live Bucket with such a TTL has all that, a call of `Reconcile` under these servers asks for
  -- another call in a minute, and any number of calls leaves the Bucket and all that is seen of
  -- InfluxDB as they are.
  pub reconcile-rests :
      (n : ℕ) (s : Sys E.World) (o : Bucket) (r : Remote)
      → Sees E E.buckets req S s (some o) r
      → Ready o r
      → o.deletion_timestamp ≡ none
      → IsDone o r
      → ((reconcile E req s).0 ≡ ok requeue_in_a_minute)
        × Sees E E.buckets req S (repeat n (reconcile E req) s) (some o) r
  unfolding reconcile
  reconcile-rests =
      repeat-rests E E.buckets tt req S reason_created_bucket Ready present (finalize_resources E)
        (reconcile_resources E) bucket-IsSync
