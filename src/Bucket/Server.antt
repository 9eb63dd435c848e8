-- ===== src/Bucket/Server.antt =====
-- What is assumed, beyond Lifecycle/Server, of the calls of the Bucket controller: a healthy API server
-- and a healthy InfluxDB, where no other client writes the same bucket.
use influxdb_operator.Base.{
  ℕ, ◌≤◌, ◌⊎◌, String, ◌≡◌, ◌≢◌, Bool, true, false, ◌==◌, Option, some, List, [], ◌∷◌, ◌++◌,
}
use influxdb_operator.Base.{if◌then◌else◌}
use influxdb_operator.Errors.{client, ClientError}
use influxdb_operator.Effect.{reply, refuse}
use influxdb_operator.Api.{NamespacedName, Config}
use influxdb_operator.Environment.{
  Environment, Secret, Connection, InfluxOrganization, InfluxBucket, NewBucket,
}
use influxdb_operator.Lifecycle.Connect.{valid_id, has_status}
use influxdb_operator.Lifecycle.Server.{IsServer}
use influxdb_operator.Lifecycle.Configured.{IsConfigured, connection_of, HasToken, IsAdmin}
use influxdb_operator.Base.Int.{ℤ, pos}
use influxdb_operator.Bucket.Ids.{has_bucket_id, without, length}

-- What the controller can see beside the Bucket: the Config, its Secret, the organization of the
-- Config, and the buckets in it.
pub record Remote : Type 0 where
  pub config : Option Config
  pub secret : Option Secret
  pub organization : Option InfluxOrganization
  pub buckets : List InfluxBucket

-- Whether a bucket of the name is there.
unfoldable pub has_bucket : String → List InfluxBucket → Bool
has_bucket name [] = false
has_bucket name (b ∷ bs) = if b.name == name then true else has_bucket name bs

-- All that the controller needs is there.
pub record IsUsable (r : Remote) (c : Config) (x : Secret) (org : InfluxOrganization) (id : String)
    : Type 0 where
  pub config : r.config ≡ some c
  pub secret : r.secret ≡ some x
  pub organization : r.organization ≡ some org
  pub token : HasToken x
  pub valid : valid_id (some org) ≡ some id

abbrev pub Usable : Remote → Type 0
Usable r =
    (c : Config) × (x : Secret) × (org : InfluxOrganization) × (id : String) × IsUsable r c x org id

-- A retention that InfluxDB takes: none, or at least an hour.
abbrev pub IsTtl : ℤ → Type 0
IsTtl ttl = (n : ℕ) × (ttl ≡ pos n) × ((n ≡ 0) ⊎ (3600 ≤ n))

-- The client is that of the Config, and the bucket is one that InfluxDB takes, in the organization.
abbrev pub IsPermitted : Remote → Connection → NewBucket → Type 0
IsPermitted r k b =
    IsAdmin r.config r.secret k
    × ((org : InfluxOrganization) × (id : String) × (r.organization ≡ some org)
        × (org.id ≡ some id)
        × (b.org_id ≡ some id))
    × IsTtl b.every_seconds

-- The Config that a Bucket has.
abbrev pub home_of : NamespacedName → NamespacedName
home_of req = record { namespace = req.namespace; name = "default" }

module _ (E : Environment) (req : NamespacedName) where
  pub record IsInflux (S : IsServer E E.buckets req Remote) : Type 0 where
    pub configured :
        IsConfigured E E.buckets req S
          (home_of req)
          (λ (r : Remote). r.config)
          (λ (r : Remote). r.secret)
    pub find_organization_found :
        {w : E.World} (c : Config) (x : Secret) (org : InfluxOrganization)
        → (S.remote w).config ≡ some c
        → (S.remote w).secret ≡ some x
        → HasToken x
        → (S.remote w).organization ≡ some org
        → (E.influx.find_organization_by_name (connection_of c x) c.spec.org_name w).0
          ≡ reply (some org)
    pub object-find_organization :
        (w : E.World) (k : Connection) (n : String)
        → S.object (E.influx.find_organization_by_name k n w).1 ≡ S.object w
    pub remote-find_organization :
        (w : E.World) (k : Connection) (n : String)
        → S.remote (E.influx.find_organization_by_name k n w).1 ≡ S.remote w
    -- InfluxDB refuses a name that is taken, with the status 422.
    pub create_taken :
        (w : E.World) (k : Connection) (b : NewBucket)
        → IsPermitted (S.remote w) k b
        → has_bucket b.name (S.remote w).buckets ≡ true
        → (e : ClientError) × ((E.influx.create_bucket k b w).0 ≡ refuse e)
          × (has_status 422 (client e) ≡ true)
          × (S.remote (E.influx.create_bucket k b w).1 ≡ S.remote w)
    pub create_new :
        (w : E.World) (k : Connection) (b : NewBucket)
        → IsPermitted (S.remote w) k b
        → has_bucket b.name (S.remote w).buckets ≡ false
        → (id : String) × (id ≢ "")
          × ((E.influx.create_bucket k b w).0 ≡ reply tt)
          × (S.remote (E.influx.create_bucket k b w).1 ≡ record (S.remote w) {
            buckets = (S.remote w).buckets ++ record { id = some id; name = b.name } ∷ [];
          })
    pub object-create :
        (w : E.World) (k : Connection) (b : NewBucket)
        → S.object (E.influx.create_bucket k b w).1 ≡ S.object w
    -- The client asks for the first page, which has up to 20 buckets.
    pub find_buckets_found :
        {w : E.World} (c : Config) (x : Secret) (org : InfluxOrganization) (id : String)
        → IsUsable (S.remote w) c x org id
        → length (S.remote w).buckets ≤ 20
        → (E.influx.find_buckets_by_org_id (connection_of c x) id w).0
          ≡ reply (some (S.remote w).buckets)
    pub object-find_buckets :
        (w : E.World) (k : Connection) (id : String)
        → S.object (E.influx.find_buckets_by_org_id k id w).1 ≡ S.object w
    pub remote-find_buckets :
        (w : E.World) (k : Connection) (id : String)
        → S.remote (E.influx.find_buckets_by_org_id k id w).1 ≡ S.remote w
    pub delete_accepted :
        (w : E.World) (k : Connection) (id : String)
        → IsAdmin (S.remote w).config (S.remote w).secret k
        → has_bucket_id id (S.remote w).buckets ≡ true
        → (E.influx.delete_bucket_with_id k id w).0 ≡ reply tt
    pub remote-delete :
        (w : E.World) (k : Connection) (id : String)
        → IsAdmin (S.remote w).config (S.remote w).secret k
        → has_bucket_id id (S.remote w).buckets ≡ true
        → S.remote (E.influx.delete_bucket_with_id k id w).1
          ≡ record (S.remote w) { buckets = without id (S.remote w).buckets }
    pub object-delete :
        (w : E.World) (k : Connection) (id : String)
        → S.object (E.influx.delete_bucket_with_id k id w).1 ≡ S.object w
