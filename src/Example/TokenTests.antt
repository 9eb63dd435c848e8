-- ===== src/Example/TokenTests.antt =====
-- The theorems about the Token controller in the world in memory.
use influxdb_operator.Base.{true, false, ◌≡◌, refl, none, some, [], ◌∷◌}
use influxdb_operator.Errors.{client}
use influxdb_operator.Base.{◌<>◌, ◌<>◌}
use influxdb_operator.Base.Dict.{Dict}
use influxdb_operator.Const.{finalizer}
use influxdb_operator.Token.Descriptions.{get_authorization_description_inj}
use influxdb_operator.Effect.{Sys, err, panic}
use influxdb_operator.Api.{NamespacedName, Token}
use influxdb_operator.Environment.{Environment, Connection, Secret, Authorization}
use influxdb_operator.Lifecycle.Connect.{has_status}
use influxdb_operator.Lifecycle.Keyed
use influxdb_operator.Token.Defs.{create_token}
use influxdb_operator.Token.Failures.{create_token_refused}
use influxdb_operator.Example.Memory.{World, memory, http_error}
use influxdb_operator.Example.Data.{world, token}

abbrev key : NamespacedName
key = record { namespace = "ns"; name = "writer" }

abbrev config_name : NamespacedName
config_name = record { namespace = "ns"; name = "crud" }

abbrev secret_name : NamespacedName
secret_name = record { namespace = "ns"; name = "writer-token" }

-- A Secret of the name is there with another token, and InfluxDB has another authorization.
abbrev stale_secret : Secret
stale_secret = record {
  name = "writer-token";
  namespace = "ns";
  creation_timestamp = 7;
  owner_references = [];
  contents = some (("token", "old") ∷ []);
}

abbrev foreign : Authorization
foreign = record { id = some "auth0"; token = some "t0"; description = some "other" }

abbrev start : Sys World
start = record {
  world = record world {
    token = some token;
    token_secret = some stale_secret;
    authorizations = foreign ∷ [];
  };
  cache = [];
}

abbrev connection : Connection
connection = record { addr = "http://influxdb"; token = "s3cret" }

-- An InfluxDB that refuses every new authorization.
abbrev refusing : Environment
refusing = record memory {
  influx = record memory.influx {
    create_authorization = λ k a w. ((none, some (http_error 422)), w);
  };
}

create_token_refused_example :
    (has_status 422 (client (http_error 422)) ≡ true
      → (create_token refusing token connection "acme" "org1" start).0 ≡ panic)
    × (has_status 422 (client (http_error 422)) ≡ false
        → (create_token refusing token connection "acme" "org1" start).0
          ≡ err (client (http_error 422)))
create_token_refused_example =
    create_token_refused refusing token connection "acme" "org1" start (http_error 422) refl

abbrev leaving : Token
leaving = record token { deletion_timestamp = some 300; finalizers = finalizer ∷ [] }

abbrev ours : Authorization
ours = record { id = some "auth"; token = some "t0k3n"; description = some "writer.ns.u2" }

abbrev leaving_start : Sys World
leaving_start = record {
  world = record world {
    token = some leaving;
    token_secret = some stale_secret;
    authorizations = foreign ∷ ours ∷ [];
  };
  cache = [];
}

get_authorization_description_inj_example :
    (token.uid ≡ leaving.uid)
    × (token.name <> "." <> token.namespace ≡ leaving.name <> "." <> leaving.namespace)
get_authorization_description_inj_example =
    get_authorization_description_inj token.name token.namespace token.uid leaving.name
      leaving.namespace leaving.uid refl refl
