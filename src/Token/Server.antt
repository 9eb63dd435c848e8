-- ===== src/Token/Server.antt =====
-- What is assumed, beyond Lifecycle/Server, of the calls of the Token controller: a healthy API server and
-- a healthy InfluxDB, where no other client writes authorizations or the Token's Secret.
use influxdb_operator.Base.{
  ◌⊎◌, ◌≢◌, String, ◌≡◌, Bool, true, false, not, ◌==◌, ◌&&◌, Option, none, some, List, [], ◌∷◌,
  ◌++◌, All,
}
use mathlib.Core.List.{Memᴰ}
use influxdb_operator.Webhook.Const.{resource_types}
use influxdb_operator.Errors.{ClientError}
use influxdb_operator.Effect.{reply, refuse}
use influxdb_operator.Api.{Permission, NamespacedName, Token, Config}
use influxdb_operator.Environment.{
  InfluxPermission, Environment, Secret, Connection, InfluxOrganization, Authorization,
  NewAuthorization,
}
use influxdb_operator.Lifecycle.Connect.{valid_id}
use influxdb_operator.Lifecycle.Server.{IsServer}
use influxdb_operator.Lifecycle.Keyed
use influxdb_operator.Lifecycle.Configured.{
  IsConfigured, HasToken, IsAdmin, connection_of, secret_of,
}
use influxdb_operator.Token.Data.{find_authorization, description_of, is_stale}

-- What the controller can see beside the Token: the Config of one name, its Secret, the organization of
-- the Config and the authorizations in it, and the Secret of one other name, for the token.
pub record Remote : Type 0 where
  pub config : Option Config
  pub secret : Option Secret
  pub organization : Option InfluxOrganization
  pub authorizations : List Authorization
  pub token_secret : Option Secret

abbrev pub id_of : Authorization → Option String
id_of a = a.id

-- Whether the Secret is there with the token.
abbrev pub holds : String → Option Secret → Bool
holds token none = false
holds token (some x) = not (is_stale token x)

-- Whether the authorization is there and the Secret holds its token.
abbrev pub issued : Option Authorization → Option Secret → Bool
issued none x = false
issued (some a) x = elim a.token [ none ↦ false | some token ↦ holds token x ]

abbrev pub present : Token → Remote → Bool
present o r = issued (find_authorization (description_of o) r.authorizations) r.token_secret

abbrev pub same_name : NamespacedName → NamespacedName → Bool
same_name m n = (m.namespace == n.namespace) && (m.name == n.name)

abbrev pub secret_name_of : Token → NamespacedName
secret_name_of o = record { namespace = o.namespace; name = o.spec.secret_name }

-- An authorization has an id and a token.
abbrev pub IsComplete : Authorization → Type 0
IsComplete a = (id : String) × (token : String) × (a.id ≡ some id) × (a.token ≡ some token)

-- All that the controller needs is there, and the Secret for the token is not that of the Config.
pub record IsUsable (secret_name : NamespacedName) (r : Remote) (c : Config) (x : Secret)
    (org : InfluxOrganization) (id : String) : Type 0 where
  pub config : r.config ≡ some c
  pub secret : r.secret ≡ some x
  pub organization : r.organization ≡ some org
  pub token : HasToken x
  pub valid : valid_id (some org) ≡ some id
  pub apart : same_name (secret_of c) secret_name ≡ false
  pub complete : All IsComplete r.authorizations

-- The Config that a Token names.
abbrev pub home_of : Token → NamespacedName → NamespacedName
home_of o req = record { namespace = req.namespace; name = o.spec.config_name }

abbrev pub IsAction : String → Type 0
IsAction a = (a ≡ "read") ⊎ (a ≡ "write")

-- The permissions that InfluxDB grants: one at least, each with an action and a resource type that it
-- knows.
abbrev pub IsGrantable : List Permission → Type 0
IsGrantable ps =
    (ps ≢ []) × All (λ p. IsAction p.permission_type × Memᴰ p.resource_type resource_types) ps

-- As they are asked for in the organization with the id, which only those on organizations leave out.
abbrev pub IsPermitted : String → List InfluxPermission → Type 0
IsPermitted id ps =
    (ps ≢ [])
    × All
        (λ p.
          IsAction p.action
          × Memᴰ p.resource_type resource_types
          × ((p.resource_type ≡ "orgs") ⊎ (p.resource_org_id ≡ some id)))
        ps

module _ (E : Environment) (req config_name secret_name : NamespacedName) where
  abbrev pub Usable : Token → Remote → Type 0
  Usable o r =
      (home_of o req ≡ config_name)
      × (secret_name_of o ≡ secret_name)
      × (c : Config) × (x : Secret) × (org : InfluxOrganization) × (id : String) × IsUsable
          secret_name r c x org id

  pub record IsInflux (S : IsServer E E.tokens req Remote) : Type 0 where
    pub configured :
        IsConfigured E E.tokens req S config_name
          (λ (r : Remote). r.config)
          (λ (r : Remote). r.secret)
    pub find_organization_found :
        {w : E.World} (c : Config) (x : Secret) (org : InfluxOrganization) (id : String)
        → IsUsable secret_name (S.remote w) c x org id
        → (E.influx.find_organization_by_name (connection_of c x) c.spec.org_name w).0
          ≡ reply (some org)
    pub object-find_organization :
        (w : E.World) (k : Connection) (n : String)
        → S.object (E.influx.find_organization_by_name k n w).1 ≡ S.object w
    pub remote-find_organization :
        (w : E.World) (k : Connection) (n : String)
        → S.remote (E.influx.find_organization_by_name k n w).1 ≡ S.remote w
    pub find_authorizations_found :
        {w : E.World} (c : Config) (x : Secret) (org : InfluxOrganization) (id : String)
        → IsUsable secret_name (S.remote w) c x org id
        → (E.influx.find_authorizations_by_org_id (connection_of c x) id w).0
          ≡ reply (some (S.remote w).authorizations)
    pub object-find_authorizations :
        (w : E.World) (k : Connection) (id : String)
        → S.object (E.influx.find_authorizations_by_org_id k id w).1 ≡ S.object w
    pub remote-find_authorizations :
        (w : E.World) (k : Connection) (id : String)
        → S.remote (E.influx.find_authorizations_by_org_id k id w).1 ≡ S.remote w
    -- InfluxDB makes the id and the token, and keeps the description.
    pub create_authorization_accepted :
        (w : E.World) (k : Connection) (a : NewAuthorization) (org : InfluxOrganization)
        (org_id : String)
        → IsAdmin (S.remote w).config (S.remote w).secret k
        → (S.remote w).organization ≡ some org
        → org.id ≡ some org_id
        → a.org_id ≡ some org_id
        → IsPermitted org_id a.permissions
        → (id : String) × (token : String) × (let new : Authorization = record {
          id = some id;
          token = some token;
          description = some a.description;
        } in
            ((E.influx.create_authorization k a w).0 ≡ (some new, none))
            × (S.remote (E.influx.create_authorization k a w).1
                ≡ record (S.remote w) { authorizations = (S.remote w).authorizations ++ new ∷ [] }))
    pub object-create_authorization :
        (w : E.World) (k : Connection) (a : NewAuthorization)
        → S.object (E.influx.create_authorization k a w).1 ≡ S.object w
    pub delete_accepted :
        (w : E.World) (k : Connection) (id : String)
        → IsAdmin (S.remote w).config (S.remote w).secret k
        → Keyed.has_id id_of id (S.remote w).authorizations ≡ true
        → (E.influx.delete_authorization_with_id k id w).0 ≡ reply tt
    pub remote-delete :
        (w : E.World) (k : Connection) (id : String)
        → IsAdmin (S.remote w).config (S.remote w).secret k
        → Keyed.has_id id_of id (S.remote w).authorizations ≡ true
        → S.remote (E.influx.delete_authorization_with_id k id w).1 ≡ record (S.remote w) {
          authorizations = Keyed.without id_of id (S.remote w).authorizations;
        }
    pub object-delete :
        (w : E.World) (k : Connection) (id : String)
        → S.object (E.influx.delete_authorization_with_id k id w).1 ≡ S.object w
    pub create_secret_new :
        (w : E.World) (x : Secret)
        → record { namespace = x.namespace; name = x.name } ≡ secret_name
        → (S.remote w).token_secret ≡ none
        → ((E.secrets.create x w).0 ≡ reply tt)
          × (S.remote (E.secrets.create x w).1 ≡ record (S.remote w) { token_secret = some x })
    pub create_secret_taken :
        (w : E.World) (x old : Secret)
        → record { namespace = x.namespace; name = x.name } ≡ secret_name
        → (S.remote w).token_secret ≡ some old
        → (e : ClientError) × ((E.secrets.create x w).0 ≡ refuse e)
          × (e.already_exists ≡ true)
          × (S.remote (E.secrets.create x w).1 ≡ S.remote w)
    pub object-create_secret :
        (w : E.World) (x : Secret) → S.object (E.secrets.create x w).1 ≡ S.object w
    pub get_token_secret_found :
        {w : E.World} (c : Config) (old : Secret)
        → (S.remote w).config ≡ some c
        → same_name (secret_of c) secret_name ≡ false
        → (S.remote w).token_secret ≡ some old
        → (E.secrets.get secret_name w).0 ≡ reply old
    pub update_secret_accepted :
        (w : E.World) (x old : Secret)
        → (S.remote w).token_secret ≡ some old
        → (x.name ≡ old.name)
        → (x.namespace ≡ old.namespace)
        → ((E.secrets.update x w).0 ≡ reply tt)
          × (S.remote (E.secrets.update x w).1 ≡ record (S.remote w) { token_secret = some x })
    pub object-update_secret :
        (w : E.World) (x : Secret) → S.object (E.secrets.update x w).1 ≡ S.object w
