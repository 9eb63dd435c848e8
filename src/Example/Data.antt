-- ===== src/Example/Data.antt =====
-- The objects and worlds at which the theorems are applied.
use influxdb_operator.Base.{none, some, [], ◌∷◌}
use influxdb_operator.Base.Int.{pos}
use influxdb_operator.Effect.{Sys}
use influxdb_operator.Api.{NamespacedName, Bucket, Token, Config}
use influxdb_operator.Environment.{Secret, InfluxOrganization}
use influxdb_operator.Const.{finalizer}
use influxdb_operator.Example.Memory.{World}
use influxdb_operator.Base.{refl, eq_iff, arith}
use influxdb_operator.Base.Dict.{lookup}
use influxdb_operator.Lifecycle.Configured.{HasToken}

abbrev pub req : NamespacedName
req = record { namespace = "ns"; name = "sensor" }

abbrev pub config : Config
config = record {
  name = "default";
  namespace = "ns";
  spec = record {
    addr = "http://influxdb";
    org_name = "acme";
    token_secret_name = "admin";
    token_secret_namespace = "ns";
  };
}

abbrev pub secret : Secret
secret = record {
  name = "admin";
  namespace = "ns";
  creation_timestamp = 0;
  owner_references = [];
  contents = some (("token", "s3cret") ∷ []);
}

pub secret-HasToken : HasToken secret
unfolding lookup
secret-HasToken = ("s3cret", (_, refl, refl, ground (arith, eq_iff "s3cret" "")))

abbrev pub acme : InfluxOrganization
acme = record { id = some "org1"; name = "acme" }

abbrev pub bucket : Bucket
bucket = record {
  api_version = "influxdb.kubetrail.io/v1beta1";
  kind = "Bucket";
  name = "sensor";
  namespace = "ns";
  uid = "u1";
  deletion_timestamp = none;
  finalizers = [];
  spec = record { seconds_ttl = pos 3600; description = "readings" };
  status = record { phase = ""; conditions = []; message = ""; reason = ""; values = tt };
}

abbrev pub world : World
world = record {
  clock = 100;
  organization = none;
  bucket = some bucket;
  token = none;
  config = some config;
  secret = some secret;
  token_secret = none;
  organizations = acme ∷ [];
  buckets = [];
  authorizations = [];
}

abbrev pub start : Sys World
start = record { world = world; cache = [] }

abbrev pub ready_bucket : Bucket
ready_bucket = record bucket {
  finalizers = finalizer ∷ [];
  status = record {
    phase = "ready";
    conditions =
        record {
          type = "object";
          status = "True";
          last_transition_time = 100;
          reason = "finalizerAdded";
          message = "object initialized";
        }
        ∷ record {
          type = "influxdb";
          status = "True";
          last_transition_time = 101;
          reason = "createdBucket";
          message = "created influxdb bucket";
        }
        ∷ [];
    message = "created influxdb bucket";
    reason = "createdBucket";
    values = tt;
  };
}

abbrev pub ready_world : World
ready_world = record world {
  clock = 102;
  bucket = some ready_bucket;
  buckets = record { id = some "b1"; name = "sensor" } ∷ [];
}

-- Marked for deletion, it is gone after three more: the status, the bucket, the finalizer.
abbrev pub deleting_bucket : Bucket
deleting_bucket = record ready_bucket { deletion_timestamp = some 200 }

abbrev pub deleting_world : World
deleting_world = record ready_world { bucket = some deleting_bucket }

abbrev pub deleting : Sys World
deleting = record { world = deleting_world; cache = [] }

abbrev pub ready : Sys World
ready = record { world = ready_world; cache = [] }

abbrev pub token : Token
token = record {
  api_version = "influxdb.kubetrail.io/v1beta1";
  kind = "Token";
  name = "writer";
  namespace = "ns";
  uid = "u2";
  deletion_timestamp = none;
  finalizers = [];
  spec = record {
    permissions =
        record { resource_name = ""; resource_type = "orgs"; permission_type = "read" }
        ∷ record { resource_name = "sensor"; resource_type = "buckets"; permission_type = "write" }
        ∷ [];
    secret_name = "writer-token";
    config_name = "crud";
  };
  status = record { phase = ""; conditions = []; message = ""; reason = ""; values = none };
}
