-- ===== src/Token/Data.antt =====
-- The data of controllers/token_controller_impl.go: the description by which an authorization is found,
-- the permissions, and the Secret.
use influxdb_operator.Base.{
  String, Bool, true, false, not, ◌==◌, ◌<>◌, Option, none, some, List, [], ◌∷◌,
}
use influxdb_operator.Base.{if◌then◌else◌}
use influxdb_operator.Base.Dict.{Dict}
use influxdb_operator.Api.{NamespacedName, Permission, Token}
use influxdb_operator.Environment.{Secret, InfluxOrganization, Authorization, InfluxPermission}
use influxdb_operator.Const.{key_token}
use influxdb_operator.Lifecycle.Connect.{string_at}
use influxdb_operator.Webhook.Const.{resource_type_orgs}

-- `getAuthorizationDescription`
unfoldable pub get_authorization_description : String → String → String → String
get_authorization_description name namespace uid = name <> "." <> namespace <> "." <> uid

abbrev pub description_of : Token → String
description_of object = get_authorization_description object.name object.namespace object.uid

-- `authorization.Description != nil && *authorization.Description == authorizationDescription`
unfoldable pub is_described : String → Authorization → Bool
is_described description a = elim a.description [ none ↦ false | some d ↦ d == description ]

-- The loop over the authorizations: the first one with the description.
unfoldable pub find_authorization : String → List Authorization → Option Authorization
find_authorization description [] = none
find_authorization description (a ∷ rest) =
    if is_described description a then some a else find_authorization description rest

-- One element of `permissions`: those on organizations name no organization.
unfoldable pub to_permission : String → String → Permission → InfluxPermission
to_permission org_name org_id p =
    if p.resource_type == resource_type_orgs
    then record {
      action = p.permission_type;
      resource_name = p.resource_name;
      resource_org = none;
      resource_org_id = none;
      resource_type = p.resource_type;
    }
    else record {
      action = p.permission_type;
      resource_name = p.resource_name;
      resource_org = some org_name;
      resource_org_id = some org_id;
      resource_type = p.resource_type;
    }

unfoldable pub to_permissions : String → String → List Permission → List InfluxPermission
to_permissions org_name org_id [] = []
to_permissions org_name org_id (p ∷ ps) =
    to_permission org_name org_id p ∷ to_permissions org_name org_id ps

-- `tokenId`, `token`, `tokenExists` and `tokenCreated` once the authorization is looked up.
pub record Issued : Type 0 where
  pub token_id : String
  pub token : String
  pub exists : Bool
  pub created : Bool

abbrev pub config_of : Token → NamespacedName → NamespacedName
config_of object req = record { namespace = req.namespace; name = object.spec.config_name }

-- `organization.Name` of an organization that was found valid.
abbrev pub name_of : Option InfluxOrganization → String
name_of none = ""
name_of (some organization) = organization.name

-- `map[string][]byte{keyToken: []byte(token)}`
abbrev pub token_contents : String → Option (Dict String)
token_contents token = some ((key_token, token) ∷ [])

-- The Secret that the operator creates, owned by the Token.
abbrev pub new_secret : Token → String → Secret
new_secret object token = record {
  name = object.spec.secret_name;
  namespace = object.namespace;
  creation_timestamp = 0;
  owner_references =
      record {
        api_version = object.api_version;
        kind = object.kind;
        name = object.name;
        uid = object.uid;
      }
      ∷ [];
  contents = token_contents token;
}

-- `secret.Data == nil || string(secret.Data[keyToken]) != token`
unfoldable pub is_stale : String → Secret → Bool
is_stale token secret = elim secret.contents [
  | none ↦ true
  | some m ↦ not (string_at (some m) key_token == token)
]
