-- ===== src/Example/RestTests.antt =====
-- A settled Token and a settled Organization in the world in memory.
use influxdb_operator.Base.{String, ◌≡◌, refl, none, some, List, [], ◌∷◌}
use influxdb_operator.Effect.{Sys, ok}
use influxdb_operator.Api.{NamespacedName, Condition, Organization, Token}
use influxdb_operator.Environment.{Secret, Authorization}
use influxdb_operator.Base.Dict.{lookup}
use influxdb_operator.Const.{finalizer}
use influxdb_operator.Lifecycle.Conditions.{has_reason}
use influxdb_operator.Lifecycle.Connect.{valid_id, string_at}
use influxdb_operator.Lifecycle.Keyed
use influxdb_operator.Lifecycle.Reconcile.{repeat, requeue_in_a_minute}
use influxdb_operator.Lifecycle.Server.{Sees}
use influxdb_operator.Organization.{has_id}
use influxdb_operator.Organization
use influxdb_operator.Organization.Sync.{Usable as OrganizationUsable}
use influxdb_operator.Organization.Converges.{IsDone as OrganizationIsDone, organization-rests}
use influxdb_operator.Token.Data.{
  find_authorization, is_described, get_authorization_description, is_stale,
}
use influxdb_operator.Token.Defs.{reconcile}
use influxdb_operator.Token.Server.{Usable}
use influxdb_operator.Token.Converges.{IsDone, token-rests}
use influxdb_operator.Example.Finalizers.{contains}
use influxdb_operator.Example.Memory.{World, memory}
use influxdb_operator.Example.OrganizationLaws.{
  organization_remote, organization-IsServer, organization-IsInflux,
}
use influxdb_operator.Example.TokenLaws.{
  permissions-IsGrantable, token_remote, token-IsServer, token-IsInflux,
}
use influxdb_operator.Example.Data.{secret-HasToken, config, secret, acme, world, token}

abbrev condition : String → Condition
condition reason = record {
  type = "influxdb";
  status = "True";
  last_transition_time = 100;
  reason = reason;
  message = "";
}

abbrev conditions : String → List Condition
conditions reason = condition "finalizerAdded" ∷ condition reason ∷ []

abbrev key : String → NamespacedName
key name = record { namespace = "ns"; name = name }

abbrev done_token : Token
done_token = record token {
  finalizers = finalizer ∷ [];
  status = record token.status { phase = "ready"; conditions = conditions "createdToken" };
}

abbrev ours : Authorization
ours = record { id = some "auth"; token = some "t0k3n"; description = some "writer.ns.u2" }

abbrev token_secret : Secret
token_secret = record {
  name = "writer-token";
  namespace = "ns";
  creation_timestamp = 7;
  owner_references = [];
  contents = some (("token", "t0k3n") ∷ []);
}

abbrev token_start : Sys World
token_start = record {
  world = record world {
    token = some done_token;
    token_secret = some token_secret;
    authorizations = ours ∷ [];
  };
  cache = [];
}

token-Usable :
    Usable memory
      (key "writer")
      (key "crud")
      (key "writer-token")
      done_token
      (token_remote token_start.world)
unfolding Keyed.find valid_id
token-Usable = (
  refl,
  refl,
  config,
  secret,
  acme,
  "org1",
  record {
    config = refl;
    secret = refl;
    organization = refl;
    token = secret-HasToken;
    valid = refl;
    apart = refl;
    complete = (("auth", "t0k3n", refl, refl), tt);
  },
)

token-IsDone :
    IsDone memory
      (key "writer")
      (key "crud")
      (key "writer-token")
      (token-IsServer (key "writer"))
      (token-IsInflux (key "writer") (key "crud") (key "writer-token"))
      done_token
      (token_remote token_start.world)
unfolding has_reason contains find_authorization is_described get_authorization_description is_stale
    string_at lookup
token-IsDone = (refl, refl, refl, refl)

token-rests_example :
    ((reconcile memory (key "writer") token_start).0 ≡ ok requeue_in_a_minute)
    × Sees memory memory.tokens
        (key "writer")
        (token-IsServer (key "writer"))
        (repeat 5 (reconcile memory (key "writer")) token_start)
        (some done_token)
        (token_remote token_start.world)
token-rests_example =
    token-rests memory (key "writer") (key "crud") (key "writer-token")
      (token-IsServer (key "writer"))
      (token-IsInflux (key "writer") (key "crud") (key "writer-token")) 5 token_start done_token
      (token_remote token_start.world) (refl, refl) (permissions-IsGrantable, token-Usable) refl
      token-IsDone

abbrev plant : Organization
plant = record {
  api_version = "influxdb.kubetrail.io/v1beta1";
  kind = "Organization";
  name = "plant";
  namespace = "ns";
  uid = "u3";
  deletion_timestamp = none;
  finalizers = finalizer ∷ [];
  spec = record { config_name = "default" };
  status = record {
    phase = "ready";
    conditions = conditions "createdOrganization";
    message = "";
    reason = "";
    values = tt;
  };
}

abbrev organization_start : Sys World
organization_start = record {
  world = record world {
    organization = some plant;
    organizations = acme ∷ record { id = some "org2"; name = "plant" } ∷ [];
  };
  cache = [];
}

plant-Usable :
    OrganizationUsable memory
      (key "plant")
      (key "default")
      (organization-IsServer (key "plant"))
      (organization-IsInflux (key "plant") (key "default"))
      plant
      (organization_remote organization_start.world)
unfolding Keyed.find has_id
plant-Usable =
    (refl, config, secret, record { config = refl; secret = refl; token = secret-HasToken }, refl)

plant-IsDone :
    OrganizationIsDone memory
      (key "plant")
      (key "default")
      (organization-IsServer (key "plant"))
      (organization-IsInflux (key "plant") (key "default"))
      plant
      (organization_remote organization_start.world)
unfolding has_reason contains Keyed.find
plant-IsDone = (refl, refl, refl, refl)

organization-rests_example :
    ((Organization.reconcile memory (key "plant") organization_start).0 ≡ ok requeue_in_a_minute)
    × Sees memory memory.organizations
        (key "plant")
        (organization-IsServer (key "plant"))
        (repeat 5 (Organization.reconcile memory (key "plant")) organization_start)
        (some plant)
        (organization_remote organization_start.world)
organization-rests_example =
    organization-rests memory (key "plant") (key "default") (organization-IsServer (key "plant"))
      (organization-IsInflux (key "plant") (key "default")) 5 organization_start plant
      (organization_remote organization_start.world) (refl, refl) plant-Usable refl plant-IsDone
