-- ===== src/Example/Memory.antt =====
-- The world in memory, and its calls.
use influxdb_operator.Base.{◌≡◌, refl, false, arith, eq_refl}
use influxdb_operator.Base.{ℕ, suc, String, true, false, Option, none, some, List, [], ◌∷◌, ◌++◌}
use influxdb_operator.Base.{if◌then◌else◌}
use influxdb_operator.Errors.{ClientError}
use influxdb_operator.Effect.{Reply, reply, refuse}
use influxdb_operator.Api.{NamespacedName, Object, Organization, Bucket, Token, Config}
use influxdb_operator.Environment.{
  Environment, ObjectClient, Secret, InfluxOrganization, InfluxBucket, NewBucket, Authorization,
  NewAuthorization,
}
use influxdb_operator.Lifecycle.Server.{updated}
use influxdb_operator.Lifecycle.Configured.{secret_of}
use influxdb_operator.Token.Server.{same_name}
use influxdb_operator.Bucket.Server.{has_bucket}
use influxdb_operator.Lifecycle.Keyed
use influxdb_operator.Organization.Server.{find, has_organization, id_of}
use influxdb_operator.Bucket.Ids.{without}
use influxdb_operator.Example.Finalizers.{list_util}

pub record World : Type 0 where
  pub clock : ℕ
  pub organization : Option Organization
  pub bucket : Option Bucket
  pub token : Option Token
  pub config : Option Config
  pub secret : Option Secret
  pub token_secret : Option Secret
  pub organizations : List InfluxOrganization
  pub buckets : List InfluxBucket
  pub authorizations : List Authorization

abbrev pub not_found : ClientError
not_found = record { not_found = true; already_exists = false; http = none; text = "not found" }

abbrev pub already_exists : ClientError
already_exists = record { not_found = false; already_exists = true; http = none; text = "exists" }

abbrev pub http_error : ℕ → ClientError
http_error code = record {
  not_found = false;
  already_exists = false;
  http = some (record { status_code = code; message = "" });
  text = "http";
}

abbrev found : {A : Type 0} → Option A → Reply A
found none = refuse not_found
found (some a) = reply a

-- The calls on one kind, whose object stands in one field of the world.
module _ {Spec Data : Type 0} (stored : World → Option (Object Spec Data))
    (store : Option (Object Spec Data) → World → World) where
  abbrev change :
      Option (Object Spec Data)
      → (Object Spec Data → Option (Object Spec Data))
      → World
      → Reply (Unit {0}) × World
  change none f w = (refuse not_found, w)
  change (some old) f w = (reply tt, store (f old) w)

  abbrev pub object_client : ObjectClient World Spec Data
  object_client = record {
    get = λ n w. (found (stored w), w);
    update = λ o w. change (stored w) (λ old. updated old o) w;
    update_status = λ o w. change (stored w) (λ old. some (record old { status = o.status })) w;
  }

abbrev find_org : Option InfluxOrganization → Reply (Option InfluxOrganization)
find_org none = refuse (http_error 404)
find_org (some o) = reply (some o)

abbrev create_organization : String → World → Reply (Unit {0}) × World
create_organization n w =
    if has_organization n w.organizations then (refuse (http_error 422), w) else (
      reply tt,
      record w { organizations = w.organizations ++ record { id = some "org2"; name = n } ∷ [] },
    )

abbrev create_bucket : NewBucket → World → Reply (Unit {0}) × World
create_bucket b w = if has_bucket b.name w.buckets then (refuse (http_error 422), w) else (
  reply tt,
  record w { buckets = w.buckets ++ record { id = some "b1"; name = b.name } ∷ [] },
)

-- The Secret of the name that the Config gives, or else the one of the Token.
abbrev get_secret : Option Config → NamespacedName → World → Reply Secret
get_secret none n w = found w.token_secret
get_secret (some c) n w = if same_name (secret_of c) n then found w.secret else found w.token_secret

abbrev put_secret : Option Secret → Secret → World → Reply (Unit {0}) × World
put_secret none x w = (reply tt, record w { token_secret = some x })
put_secret (some old) x w = (refuse already_exists, w)

abbrev pub authorization_id : Authorization → Option String
authorization_id a = a.id

abbrev new_authorization : NewAuthorization → Authorization
new_authorization a = record {
  id = some "auth";
  token = some "t0k3n";
  description = some a.description;
}

abbrev pub memory : Environment
memory = record {
  World = World;
  now = λ w. (w.clock, record w { clock = suc w.clock });
  finalizer_util = list_util;
  organizations = object_client (λ w. w.organization) (λ o w. record w { organization = o });
  buckets = object_client (λ w. w.bucket) (λ o w. record w { bucket = o });
  tokens = object_client (λ w. w.token) (λ o w. record w { token = o });
  get_config = λ n w. (found w.config, w);
  secrets = record {
    get = λ n w. (get_secret w.config n w, w);
    create = λ x w. put_secret w.token_secret x w;
    update = λ x w. (reply tt, record w { token_secret = some x });
  };
  influx = record {
    find_organization_by_name = λ k n w. (find_org (find n w.organizations), w);
    create_organization = λ k n w. create_organization n w;
    delete_organization_with_id =
        λ k id w. (reply tt, record w { organizations = Keyed.without id_of id w.organizations });
    find_buckets_by_org_id = λ k id w. (reply (some w.buckets), w);
    create_bucket = λ k b w. create_bucket b w;
    delete_bucket_with_id = λ k id w. (reply tt, record w { buckets = without id w.buckets });
    find_authorizations_by_org_id = λ k id w. (reply (some w.authorizations), w);
    create_authorization = λ k a w. (
      (some (new_authorization a), none),
      record w { authorizations = w.authorizations ++ new_authorization a ∷ [] },
    );
    delete_authorization_with_id = λ k id w. (
      reply tt,
      record w { authorizations = Keyed.without authorization_id id w.authorizations },
    );
  };
}

-- The Config's Secret is found under its name.
pub get_secret_lem :
    (w : World) (c : Config) (x : Secret)
    → w.config ≡ some c
    → w.secret ≡ some x
    → (memory.secrets.get (secret_of c) w).0 ≡ reply x
get_secret_lem w c x h k =
    ground (arith, eq_refl c.spec.token_secret_namespace, eq_refl c.spec.token_secret_name)

pub get_token_secret_lem :
    (w : World) (c : Config) (x : Secret) (n : NamespacedName)
    → w.config ≡ some c
    → same_name (secret_of c) n ≡ false
    → w.token_secret ≡ some x
    → (memory.secrets.get n w).0 ≡ reply x
get_token_secret_lem w c x n h apart k = rw (h, apart, k) refl
