-- ===== src/Api.antt =====
-- The types of api/v1beta1/*_types.go, and the fields of the Kubernetes types in them that the program
-- reads or writes. The three kinds with a controller have the same shape, but for the spec and the
-- field `Data` of a token's status: `Object Spec Data` is that shape, and for the kinds that lack the
-- field `Data` is `Unit`. pub mod Const pub mod Config pub mod Organization pub mod Bucket pub mod
-- Token
use influxdb_operator.Base.{ℕ, String, Option, List}
use influxdb_operator.Base.Int.{ℤ}
use influxdb_operator.Base.Dict.{Dict}

pub record NamespacedName : Type 0 where
  pub namespace : String
  pub name : String

-- `metav1.Condition`, whose `ObservedGeneration` the program sets to 0 always.
pub record Condition : Type 0 where
  pub type : String
  pub status : String
  pub last_transition_time : ℕ
  pub reason : String
  pub message : String

pub record Status (Data : Type 0) : Type 0 where
  pub phase : String
  pub conditions : List Condition
  pub message : String
  pub reason : String
  pub values : Data  -- Data

-- `TypeMeta` and `ObjectMeta` are embedded, so their fields are the object's.
pub record Object (Spec Data : Type 0) : Type 0 where
  pub api_version : String
  pub kind : String
  pub name : String
  pub namespace : String
  pub uid : String
  pub deletion_timestamp : Option ℕ
  pub finalizers : List String
  pub spec : Spec
  pub status : Status Data

pub record OrganizationSpec : Type 0 where
  pub config_name : String

abbrev pub Organization : Type 0
Organization = Object OrganizationSpec Unit

pub record BucketSpec : Type 0 where
  pub seconds_ttl : ℤ  -- int64
  pub description : String

abbrev pub Bucket : Type 0
Bucket = Object BucketSpec Unit

pub record Permission : Type 0 where
  pub resource_name : String
  pub resource_type : String
  pub permission_type : String

pub record TokenSpec : Type 0 where
  pub permissions : List Permission
  pub secret_name : String
  pub config_name : String

-- `none` is the nil map.
abbrev pub Token : Type 0
Token = Object TokenSpec (Option (Dict String))

pub record ConfigSpec : Type 0 where
  pub addr : String
  pub org_name : String
  pub token_secret_name : String
  pub token_secret_namespace : String

-- A `Config` has no controller, and its status is empty.
pub record Config : Type 0 where
  pub name : String
  pub namespace : String
  pub spec : ConfigSpec
