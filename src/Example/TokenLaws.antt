-- ===== src/Example/TokenLaws.antt =====
-- The world in memory meets what the Token controller's theorems assume.
use influxdb_operator.Base.{◌≡◌, refl, some, arith}
use influxdb_operator.Effect.{reply}
use influxdb_operator.Api.{NamespacedName, Token, Config}
use influxdb_operator.Environment.{Connection, InfluxOrganization, Secret}
use influxdb_operator.Const.{finalizer}
use influxdb_operator.Lifecycle.Server.{IsServer}
use influxdb_operator.Lifecycle.Configured.{connection_of}
use influxdb_operator.Token.Server.{Remote, IsInflux}
use influxdb_operator.Example.Finalizers.{contains-add, contains-remove}
use influxdb_operator.Example.Memory.{
  World, memory, not_found, already_exists, get_secret_lem, get_token_secret_lem,
}
use influxdb_operator.Example.Laws.{org_of}
use mathlib.Core.List.{Memᴰ}
use influxdb_operator.Token.Server.{IsGrantable}
use influxdb_operator.Example.Data.{token}
use influxdb_operator.Base.{inl, inr}

abbrev pub token_remote : World → Remote
token_remote w = record {
  config = w.config;
  secret = w.secret;
  organization = org_of w;
  authorizations = w.authorizations;
  token_secret = w.token_secret;
}

pub remote-update_status :
    (w : World) (o : Token) → token_remote (memory.tokens.update_status o w).1 ≡ token_remote w
remote-update_status w o = ground arith

pub remote-update :
    (w : World) (o : Token) → token_remote (memory.tokens.update o w).1 ≡ token_remote w
remote-update w o = ground arith

object-create_secret : (w : World) (x : Secret) → (memory.secrets.create x w).1.token ≡ w.token
object-create_secret w x = ground arith

find_lem :
    (w : World) (c : Config) (org : InfluxOrganization) (k : Connection)
    → w.config ≡ some c
    → org_of w ≡ some org
    → (memory.influx.find_organization_by_name k c.spec.org_name w).0 ≡ reply (some org)
find_lem w c org k h e = ground arith

module _ (req : NamespacedName) where
  abbrev pub token-IsServer : IsServer memory memory.tokens req Remote
  token-IsServer = record {
    object = λ w. w.token;
    remote = token_remote;
    contains-add = λ fs. contains-add fs finalizer;
    contains-remove = λ fs. contains-remove fs finalizer;
    object-now = λ w. refl;
    remote-now = λ w. refl;
    get_found = λ w o h. rw h;
    get_missing = λ w h. (not_found, rw h, refl);
    object-get = λ w. refl;
    remote-get = λ w. refl;
    update_status_accepted = λ w old o h k. rw h;
    object-update_status = λ w old o h k. rw h;
    remote-update_status = remote-update_status;
    update_accepted = λ w old o h k. rw h;
    object-update = λ w old o h k. rw h;
    remote-update = remote-update;
  }

  pub token-IsInflux :
      (config_name secret_name : NamespacedName)
      → IsInflux memory req config_name secret_name token-IsServer
  token-IsInflux config_name secret_name = record {
    configured = record {
      get_config_found = λ c h. rw h;
      object-get_config = λ w n. refl;
      remote-get_config = λ w n. refl;
      get_secret_found = λ {w} c x h k. get_secret_lem w c x h k;
      object-get_secret = λ w n. refl;
      remote-get_secret = λ w n. refl;
    };
    find_organization_found =
        λ {w} c x org id u. find_lem w c org (connection_of c x) u.config u.organization;
    object-find_organization = λ w k n. refl;
    remote-find_organization = λ w k n. refl;
    find_authorizations_found = λ c x org id u. refl;
    object-find_authorizations = λ w k id. refl;
    remote-find_authorizations = λ w k id. refl;
    create_authorization_accepted =
        λ w k a org org_id admin home its_id asked granted. ("auth", "t0k3n", (refl, refl));
    object-create_authorization = λ w k a. refl;
    delete_accepted = λ w k id a h. refl;
    remote-delete = λ w k id a h. refl;
    object-delete = λ w k id. refl;
    create_secret_new = λ w x named free. (rw free refl, rw free refl);
    create_secret_taken =
        λ w x old named taken. (already_exists, rw taken refl, refl, rw taken refl);
    object-create_secret = object-create_secret;
    get_token_secret_found =
        λ {w} c old h apart there. get_token_secret_lem w c old secret_name h apart there;
    update_secret_accepted = λ w x old there name namespace. (refl, refl);
    object-update_secret = λ w x. refl;
  }

pub permissions-IsGrantable : IsGrantable token.spec.permissions
permissions-IsGrantable = (
  λ e. cc,
  (
    (
      inl refl,
      Memᴰ.tail (
          Memᴰ.tail (
            Memᴰ.tail (
              Memᴰ.tail (
                Memᴰ.tail
                  (Memᴰ.tail (Memᴰ.tail (Memᴰ.tail (Memᴰ.tail (Memᴰ.tail (Memᴰ.head refl)))))))))),
    ),
    ((inr refl, Memᴰ.tail (Memᴰ.head refl)), tt),
  ),
)
