-- ===== src/Lifecycle/Configured.antt =====
-- The beginning of `FinalizeResources` and `ReconcileResources` under a healthy server: the Config, and
-- the InfluxDB client that is made of it and its Secret.
use influxdb_operator.Base.{arith, ◌≡◌, refl, ap, sym, ◌∙◌, Option, some}
use mathlib.Core.Path.{subst}
use influxdb_operator.Base.{String, ◌≢◌}
use influxdb_operator.Base.Dict.{Dict, lookup}
use influxdb_operator.Effect.{Sys, ok, reply, call, throw}
use influxdb_operator.Api.{NamespacedName, Object, Config}
use influxdb_operator.Environment.{
  Environment, InfluxOrganization, ObjectClient, Secret, Connection,
}
use influxdb_operator.Const.{key_token}
use influxdb_operator.Lifecycle.Connect.{valid_id, connect, string_at}
use influxdb_operator.Lifecycle.Server.{IsServer, Sees, Gives}
use influxdb_operator.Lifecycle.Rules.{check-ok, call-Gives}

abbrev pub secret_of : Config → NamespacedName
secret_of c = record { namespace = c.spec.token_secret_namespace; name = c.spec.token_secret_name }

-- The client that the controller makes of a Config and its Secret.
unfoldable pub connection_of : Config → Secret → Connection
unfolding string_at
connection_of c x = record { addr = c.spec.addr; token = string_at x.contents key_token }

-- The token that a Secret holds.
abbrev pub IsToken : Secret → String → Type 0
IsToken x token =
    (m : Dict String) × (x.contents ≡ some m) × (lookup "token" m ≡ some token) × (token ≢ "")

abbrev pub HasToken : Secret → Type 0
HasToken x = (token : String) × IsToken x token

-- InfluxDB answers 401 to the clients of another address or with another token than those of the Config
-- and of its Secret.
abbrev pub IsAdmin : Option Config → Option Secret → Connection → Type 0
IsAdmin config secret k =
    (c : Config) × (x : Secret) × (config ≡ some c)
    × (secret ≡ some x)
    × (k.addr ≡ c.spec.addr)
    × IsToken x k.token

string_at-token :
    (m : Dict String) (token : String)
    → lookup "token" m ≡ some token
    → string_at (some m) key_token ≡ token
unfolding string_at
string_at-token m token found = rw (found, string_at) refl

pub connection_of-IsAdmin :
    (c : Config) (x : Secret) {config : Option Config} {secret : Option Secret}
    → config ≡ some c
    → secret ≡ some x
    → HasToken x
    → IsAdmin config secret (connection_of c x)
unfolding connection_of
connection_of-IsAdmin c x e_config e_secret (token, (m, e, found, ne)) =
    let same = ap (λ y. string_at y key_token) e ∙ string_at-token m token found in
    (c, x, e_config, e_secret, refl, subst (IsToken x) (sym same) (m, e, found, ne))

-- The id of a valid organization.
pub valid_id-id :
    (org : InfluxOrganization) (id : String) → valid_id (some org) ≡ some id → org.id ≡ some id
unfolding valid_id
valid_id-id org id h = ground arith

module _ (E : Environment) {Spec Data : Type 0} (client : ObjectClient E.World Spec Data)
    (req : NamespacedName) {R : Type 0} (S : IsServer E client req R) (name : NamespacedName)
    (config : R → Option Config) (secret : R → Option Secret) where
  -- `config r` is the Config of the name `name`, and `secret r` is the Secret that it names. Reading
  -- them changes nothing.
  pub record IsConfigured : Type 0 where
    pub get_config_found :
        {w : E.World} (c : Config)
        → config (S.remote w) ≡ some c
        → (E.get_config name w).0 ≡ reply c
    pub object-get_config :
        (w : E.World) (n : NamespacedName) → S.object (E.get_config n w).1 ≡ S.object w
    pub remote-get_config :
        (w : E.World) (n : NamespacedName) → S.remote (E.get_config n w).1 ≡ S.remote w
    pub get_secret_found :
        {w : E.World} (c : Config) (x : Secret)
        → config (S.remote w) ≡ some c
        → secret (S.remote w) ≡ some x
        → (E.secrets.get (secret_of c) w).0 ≡ reply x
    pub object-get_secret :
        (w : E.World) (n : NamespacedName) → S.object (E.secrets.get n w).1 ≡ S.object w
    pub remote-get_secret :
        (w : E.World) (n : NamespacedName) → S.remote (E.secrets.get n w).1 ≡ S.remote w

  module _ (C : IsConfigured) (o : Object Spec Data) (r : R) (c : Config) (x : Secret)
      (config_there : config r ≡ some c) (s : Sys E.World)
      (h : Sees E client req S s (some o) r) where
    pub get_config-Gives : Gives E client req S (call (E.get_config name) s) (ok c) (some o) r
    get_config-Gives =
        let (eo, er) = h in
        call-Gives E client req S (E.get_config name) s (reply c) (some o) r
          (C.get_config_found c (rw er config_there)) (C.object-get_config s.world name ∙ eo)
          (C.remote-get_config s.world name ∙ er)

    pub connect-Gives :
        secret r ≡ some x → Gives E client req S (connect E c s) (ok (connection_of c x)) (some o) r
    unfolding connect connection_of
    connect-Gives secret_there =
        let (eo, er) = h in
        check-ok E client req S (λ t. Gives E client req S t (ok (connection_of c x)) (some o) r)
          (call (E.secrets.get (secret_of c))) throw _ s x (some o) r
          (call-Gives E client req S (E.secrets.get (secret_of c)) s (reply x) (some o) r
            (C.get_secret_found c x (rw er config_there) (rw er secret_there))
            (C.object-get_secret s.world (secret_of c) ∙ eo)
            (C.remote-get_secret s.world (secret_of c) ∙ er))
          (λ s' h'. (refl, h'.0, h'.1))
