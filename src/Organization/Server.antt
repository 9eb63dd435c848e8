-- ===== src/Organization/Server.antt =====
-- What is assumed, beyond Lifecycle/Server, of the calls of the Organization controller: a healthy API
-- server and a healthy InfluxDB, where no other client writes organizations.
use influxdb_operator.Base.{
  ℕ, String, ◌≡◌, Bool, true, false, ◌==◌, Option, none, some, List, [], ◌∷◌, ◌++◌,
}
use influxdb_operator.Errors.{client, ClientError}
use influxdb_operator.Effect.{reply, refuse}
use influxdb_operator.Api.{Organization, NamespacedName, Config}
use influxdb_operator.Environment.{Environment, Secret, Connection, InfluxOrganization}
use influxdb_operator.Lifecycle.Connect.{has_status}
use influxdb_operator.Lifecycle.Server.{IsServer}
use influxdb_operator.Lifecycle.Configured.{IsConfigured, HasToken, IsAdmin}
use influxdb_operator.Lifecycle.Keyed
use influxdb_operator.Organization.{has_id}

-- What the controller can see beside the Organization: the Config of one name, its Secret, and the
-- organizations.
pub record Remote : Type 0 where
  pub config : Option Config
  pub secret : Option Secret
  pub organizations : List InfluxOrganization

abbrev pub id_of : InfluxOrganization → Option String
id_of organization = organization.id

abbrev pub is_named : String → InfluxOrganization → Bool
is_named name organization = organization.name == name

abbrev pub find : String → List InfluxOrganization → Option InfluxOrganization
find name = Keyed.find id_of (is_named name)

abbrev pub count : String → List InfluxOrganization → ℕ
count name = Keyed.count id_of (is_named name)

abbrev pub others : String → List InfluxOrganization → List InfluxOrganization
others name = Keyed.others id_of (is_named name)

-- Whether an organization of the name is there.
abbrev pub is_there : Option InfluxOrganization → Bool
is_there none = false
is_there (some organization) = true

abbrev pub has_organization : String → List InfluxOrganization → Bool
has_organization name os = is_there (find name os)

-- The Config and its Secret with a token are there.
pub record IsUsable (r : Remote) (c : Config) (x : Secret) : Type 0 where
  pub config : r.config ≡ some c
  pub secret : r.secret ≡ some x
  pub token : HasToken x

-- The Config that an Organization names.
abbrev pub home_of : Organization → NamespacedName → NamespacedName
home_of o req = record { namespace = req.namespace; name = o.spec.config_name }

-- So is the organization that the Config names, which `ReconcileResources` looks up first.
abbrev pub HasHome : Remote → Config → Type 0
HasHome r c = has_id (find c.spec.org_name r.organizations) ≡ true

module _ (E : Environment) (req : NamespacedName) (config_name : NamespacedName) where
  pub record IsInflux (S : IsServer E E.organizations req Remote) : Type 0 where
    pub configured :
        IsConfigured E E.organizations req S config_name
          (λ (r : Remote). r.config)
          (λ (r : Remote). r.secret)
    -- A name that is not there is refused with the status 404.
    pub find_found :
        {w : E.World} (k : Connection) (name : String) (o : InfluxOrganization)
        → IsAdmin (S.remote w).config (S.remote w).secret k
        → find name (S.remote w).organizations ≡ some o
        → (E.influx.find_organization_by_name k name w).0 ≡ reply (some o)
    pub find_missing :
        {w : E.World} (k : Connection) (name : String)
        → IsAdmin (S.remote w).config (S.remote w).secret k
        → find name (S.remote w).organizations ≡ none
        → (e : ClientError) × ((E.influx.find_organization_by_name k name w).0 ≡ refuse e)
          × (has_status 404 (client e) ≡ true)
    pub object-find :
        (w : E.World) (k : Connection) (name : String)
        → S.object (E.influx.find_organization_by_name k name w).1 ≡ S.object w
    pub remote-find :
        (w : E.World) (k : Connection) (name : String)
        → S.remote (E.influx.find_organization_by_name k name w).1 ≡ S.remote w
    -- A name that is taken is refused with the status 422.
    pub create_taken :
        (w : E.World) (k : Connection) (name : String)
        → IsAdmin (S.remote w).config (S.remote w).secret k
        → has_organization name (S.remote w).organizations ≡ true
        → (e : ClientError) × ((E.influx.create_organization k name w).0 ≡ refuse e)
          × (has_status 422 (client e) ≡ true)
          × (S.remote (E.influx.create_organization k name w).1 ≡ S.remote w)
    pub create_new :
        (w : E.World) (k : Connection) (name : String)
        → IsAdmin (S.remote w).config (S.remote w).secret k
        → has_organization name (S.remote w).organizations ≡ false
        → (id : String) × ((E.influx.create_organization k name w).0 ≡ reply tt)
          × (S.remote (E.influx.create_organization k name w).1 ≡ record (S.remote w) {
            organizations = (S.remote w).organizations ++ record { id = some id; name = name } ∷ [];
          })
    pub object-create :
        (w : E.World) (k : Connection) (name : String)
        → S.object (E.influx.create_organization k name w).1 ≡ S.object w
    pub delete_accepted :
        (w : E.World) (k : Connection) (id : String)
        → IsAdmin (S.remote w).config (S.remote w).secret k
        → Keyed.has_id id_of id (S.remote w).organizations ≡ true
        → (E.influx.delete_organization_with_id k id w).0 ≡ reply tt
    pub remote-delete :
        (w : E.World) (k : Connection) (id : String)
        → IsAdmin (S.remote w).config (S.remote w).secret k
        → Keyed.has_id id_of id (S.remote w).organizations ≡ true
        → S.remote (E.influx.delete_organization_with_id k id w).1 ≡ record (S.remote w) {
          organizations = Keyed.without id_of id (S.remote w).organizations;
        }
    pub object-delete :
        (w : E.World) (k : Connection) (id : String)
        → S.object (E.influx.delete_organization_with_id k id w).1 ≡ S.object w
