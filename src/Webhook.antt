-- ===== src/Webhook.antt =====
-- The admission webhooks of api/v1beta1/*_webhook.go, with the constants of api/v1beta1/const.go.
-- `Default` gives the defaulted object; a validator gives `none` for nil. Those that only log and
-- return nil are `accept`.
pub mod Const
pub mod Laws
use influxdb_operator.Base.{
  String, Bool, true, false, ◌==◌, ◌||◌, ◌&&◌, not, ◌<>◌, Option, none, some,
}
use influxdb_operator.Base.{List, [], ◌∷◌, if◌then◌else◌}
use influxdb_operator.Base.Int.{ℤ, pos, eq_ℤ, lt_ℤ}
use influxdb_operator.Errors.{GoError, message}
use influxdb_operator.Api.{Organization, Bucket, Token, TokenSpec, Permission, Config, ConfigSpec}
use influxdb_operator.Webhook.Const.{
  default_org_name, default_config_name, default_secret_name, default_addr, resource_types,
  permission_types,
}

-- `len(s) == 0` decides whether the default is taken.
abbrev pub or_default : String → String → String
or_default s fallback = if s == "" then fallback else s

-- `_, ok := set[key]` of a `map[string]struct{}`
unfoldable pub in_set : String → List String → Bool
in_set key [] = false
in_set key (k ∷ ks) = if k == key then true else in_set key ks

-- The validators that only log: all on delete, those of Config, and the update of an Organization and
-- of a Token.
unfoldable pub accept : {A : Type 0} → A → Option GoError
accept object = none

unfoldable pub default_config : Config → Config
default_config r = record r {
  spec = record {
    addr = or_default r.spec.addr default_addr;
    org_name = or_default r.spec.org_name default_org_name;
    token_secret_name = or_default r.spec.token_secret_name default_secret_name;
    token_secret_namespace = or_default r.spec.token_secret_namespace r.namespace;
  };
}

unfoldable pub default_organization : Organization → Organization
default_organization r = record r {
  spec = record { config_name = or_default r.spec.config_name default_config_name };
}

unfoldable pub validate_create_organization : Organization → Option GoError
validate_create_organization r =
    if r.name == default_org_name then some (message "cannot operate on influxdata") else none

unfoldable pub default_bucket : Bucket → Bucket
default_bucket r = r

unfoldable pub validate_create_bucket : Bucket → Option GoError
validate_create_bucket r =
    if not (eq_ℤ r.spec.seconds_ttl (pos 0)) && lt_ℤ r.spec.seconds_ttl (pos 3600)
    then some (message "secondsTtl needs be either 0 or >= 3600")
    else none

-- A `runtime.Object`, as the type assertion to `*Bucket` sees it.
pub data RuntimeObject : Type 0 where
  bucket : Bucket → RuntimeObject
  other : RuntimeObject

unfoldable pub validate_update_bucket : RuntimeObject → Bucket → Option GoError
validate_update_bucket other r = some (message "input type assertion error")
validate_update_bucket (bucket old) r =
    if not (eq_ℤ r.spec.seconds_ttl old.spec.seconds_ttl)
      || not (r.spec.description == old.spec.description)
    then some (message "spec fields cannot be updated")
    else none

-- `short` is `id[:5]` of the random UUID that the call makes.
unfoldable pub default_token : String → Token → Token
default_token short r = record r {
  spec = record r.spec {
    secret_name = or_default r.spec.secret_name (r.name <> "-" <> short);
    config_name = or_default r.spec.config_name default_config_name;
  };
}

-- The loop of `ValidateCreate` over the permissions.
unfoldable pub validate_permissions : List Permission → Option GoError
validate_permissions [] = none
validate_permissions (p ∷ ps) =
    if not (in_set p.permission_type permission_types)
    then some (message "invalid permission type")
    else if not (in_set p.resource_type resource_types)
    then some (message "invalid resource type")
    else validate_permissions ps

unfoldable pub validate_create_token : Token → Option GoError
unfolding validate_permissions
validate_create_token r = validate_permissions r.spec.permissions
