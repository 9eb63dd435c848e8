-- ===== src/Example/OrganizationLaws.antt =====
-- The world in memory meets what the Organization controller's theorems assume.
use influxdb_operator.Base.{String, ◌≡◌, refl, true, false, some, [], ◌∷◌, ◌++◌, arith}
use influxdb_operator.Effect.{reply, refuse}
use influxdb_operator.Api.{NamespacedName, Organization}
use influxdb_operator.Environment.{Connection}
use influxdb_operator.Const.{finalizer}
use influxdb_operator.Lifecycle.Connect.{has_status}
use influxdb_operator.Lifecycle.Server.{IsServer}
use influxdb_operator.Organization.Server.{Remote, IsInflux, has_organization}
use influxdb_operator.Example.Finalizers.{contains-add, contains-remove}
use influxdb_operator.Example.Memory.{World, memory, not_found, http_error, get_secret_lem}

abbrev pub organization_remote : World → Remote
organization_remote w = record {
  config = w.config;
  secret = w.secret;
  organizations = w.organizations;
}

pub remote-update_status :
    (w : World) (o : Organization)
    → organization_remote (memory.organizations.update_status o w).1 ≡ organization_remote w
remote-update_status w o = ground arith

pub remote-update :
    (w : World) (o : Organization)
    → organization_remote (memory.organizations.update o w).1 ≡ organization_remote w
remote-update w o = ground arith

create_taken_lem :
    (w : World) (k : Connection) (n : String)
    → has_organization n w.organizations ≡ true
    → memory.influx.create_organization k n w ≡ (refuse (http_error 422), w)
create_taken_lem w k n h = rw h refl

create_new_lem :
    (w : World) (k : Connection) (n : String)
    → has_organization n w.organizations ≡ false
    → memory.influx.create_organization k n w ≡ (
      reply tt,
      record w { organizations = w.organizations ++ record { id = some "org2"; name = n } ∷ [] },
    )
create_new_lem w k n h = rw h refl

object-create :
    (w : World) (k : Connection) (n : String)
    → (memory.influx.create_organization k n w).1.organization ≡ w.organization
object-create w k n = ground arith

module _ (req : NamespacedName) where
  abbrev pub organization-IsServer : IsServer memory memory.organizations req Remote
  organization-IsServer = record {
    object = λ w. w.organization;
    remote = organization_remote;
    contains-add = λ fs. contains-add fs finalizer;
    contains-remove = λ fs. contains-remove fs finalizer;
    object-now = λ w. refl;
    remote-now = λ w. refl;
    get_found = λ w o h. rw h;
    get_missing = λ w h. (not_found, rw h, refl);
    object-get = λ w. refl;
    remote-get = λ w. refl;
    update_status_accepted = λ w old o h k. rw h;
    object-update_status = λ w old o h k. rw h;
    remote-update_status = remote-update_status;
    update_accepted = λ w old o h k. rw h;
    object-update = λ w old o h k. rw h;
    remote-update = remote-update;
  }

  pub organization-IsInflux :
      (config_name : NamespacedName) → IsInflux memory req config_name organization-IsServer
  unfolding has_status
  organization-IsInflux config_name = record {
    configured = record {
      get_config_found = λ c h. rw h;
      object-get_config = λ w n. refl;
      remote-get_config = λ w n. refl;
      get_secret_found = λ {w} c x h k. get_secret_lem w c x h k;
      object-get_secret = λ w n. refl;
      remote-get_secret = λ w n. refl;
    };
    find_found = λ k n o a h. rw h;
    find_missing = λ k n a h. (http_error 404, rw h, refl);
    object-find = λ w k n. refl;
    remote-find = λ w k n. refl;
    create_taken = λ w k n a h.
        (http_error 422, rw (create_taken_lem w k n h), refl, rw (create_taken_lem w k n h));
    create_new = λ w k n a h. ("org2", rw (create_new_lem w k n h), rw (create_new_lem w k n h));
    object-create = object-create;
    delete_accepted = λ w k id a h. refl;
    remote-delete = λ w k id a h. refl;
    object-delete = λ w k id. refl;
  }
