-- ===== src/Environment.antt =====
-- What the controllers call and this repository does not hold: the clock, the Kubernetes client of
-- controller-runtime with its finalizer helpers, and the InfluxDB client. Each call takes the state
-- of the outside world and gives its result and the next state, so a call may fail, and the world may
-- change between two calls.
use influxdb_operator.Base.{ℕ, String, Bool, Option, List}
use influxdb_operator.Base.Int.{ℤ}
use influxdb_operator.Base.Dict.{Dict}
use influxdb_operator.Errors.{ClientError}
use influxdb_operator.Effect.{Reply}
use influxdb_operator.Api.{NamespacedName, Object, Config, OrganizationSpec, BucketSpec, TokenSpec}

-- `r.Get`, `r.Update` and `r.Status().Update` at one kind. `Update` and `Status().Update` also write
-- the server's answer to their argument, which the program does not read again.
pub record ObjectClient (W Spec Data : Type 0) : Type 0 where
  pub get : NamespacedName → W → Reply (Object Spec Data) × W
  pub update : Object Spec Data → W → Reply (Unit {0}) × W
  pub update_status : Object Spec Data → W → Reply (Unit {0}) × W

-- `controllerutil.{ContainsFinalizer, AddFinalizer, RemoveFinalizer}`, on the list of finalizers.
pub record FinalizerUtil : Type 0 where
  pub contains : List String → String → Bool
  pub add : List String → String → List String
  pub remove : List String → String → List String

-- A Secret, with the fields that the program gives. `none` is the nil map.
pub record OwnerReference : Type 0 where
  pub api_version : String
  pub kind : String
  pub name : String
  pub uid : String

pub record Secret : Type 0 where
  pub name : String
  pub namespace : String
  pub creation_timestamp : ℕ
  pub owner_references : List OwnerReference
  pub contents : Option (Dict String)  -- Data

pub record SecretClient (W : Type 0) : Type 0 where
  pub get : NamespacedName → W → Reply Secret × W
  pub create : Secret → W → Reply (Unit {0}) × W
  pub update : Secret → W → Reply (Unit {0}) × W

-- The arguments of `influxdb.NewClient`.
pub record Connection : Type 0 where
  pub addr : String
  pub token : String

-- The types of the package `domain`; a pointer is an `Option`.
pub record InfluxOrganization : Type 0 where
  pub id : Option String
  pub name : String

pub record InfluxBucket : Type 0 where
  pub id : Option String
  pub name : String

-- The fields of `domain.Bucket` that are given to `CreateBucket`; the rest are nil.
pub record NewBucket : Type 0 where
  pub description : String
  pub name : String
  pub org_id : Option String
  pub every_seconds : ℤ

pub record Authorization : Type 0 where
  pub id : Option String
  pub token : Option String
  pub description : Option String

pub record InfluxPermission : Type 0 where
  pub action : String
  pub resource_name : String
  pub resource_org : Option String
  pub resource_org_id : Option String
  pub resource_type : String

-- The fields of `domain.Authorization` that are given to `CreateAuthorization`; the rest are nil.
pub record NewAuthorization : Type 0 where
  pub description : String
  pub org_id : Option String
  pub permissions : List InfluxPermission

-- A method that returns a pointer and an error gives the pointer as an `Option`, which may be nil
-- without an error. `CreateAuthorization` gives both results, since the code reads the pointer also
-- beside an error.
pub record Influx (W : Type 0) : Type 0 where
  pub find_organization_by_name : Connection → String → W → Reply (Option InfluxOrganization) × W
  pub create_organization : Connection → String → W → Reply (Unit {0}) × W
  pub delete_organization_with_id : Connection → String → W → Reply (Unit {0}) × W
  pub find_buckets_by_org_id : Connection → String → W → Reply (Option (List InfluxBucket)) × W
  pub create_bucket : Connection → NewBucket → W → Reply (Unit {0}) × W
  pub delete_bucket_with_id : Connection → String → W → Reply (Unit {0}) × W
  pub find_authorizations_by_org_id :
      Connection → String → W → Reply (Option (List Authorization)) × W
  pub create_authorization :
      Connection → NewAuthorization → W → (Option Authorization × Option ClientError) × W
  pub delete_authorization_with_id : Connection → String → W → Reply (Unit {0}) × W

pub record Environment : Type 1 where
  pub World : Type 0
  pub now : World → ℕ × World
  pub finalizer_util : FinalizerUtil
  pub organizations : ObjectClient World OrganizationSpec (Unit {0})
  pub buckets : ObjectClient World BucketSpec (Unit {0})
  pub tokens : ObjectClient World TokenSpec (Option (Dict String))
  pub get_config : NamespacedName → World → Reply Config × World
  pub secrets : SecretClient World
  pub influx : Influx World
