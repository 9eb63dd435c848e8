-- ===== src/Token/Writes.antt =====
-- The writes that the Token controller may ask for.
use influxdb_operator.Base.{ℕ, String, ◌≡◌, ◌⊎◌, true, false, Option, none, some, List}
use influxdb_operator.Base.Dict.{Dict}
use influxdb_operator.Const.{reason_created_token, reason_deleted_token}
use influxdb_operator.Errors.{ClientError, client}
use influxdb_operator.Lifecycle.Connect.{has_status}
use influxdb_operator.Lifecycle.Gone.{Without}
use influxdb_operator.Lifecycle.Machine.{Kind}
use mathlib.Core.List.{Memᴰ}
use influxdb_operator.Effect.{refuse, reply}
use influxdb_operator.Api.{NamespacedName, Token, Config}
use influxdb_operator.Environment.{
  InfluxOrganization, Environment, Connection, Authorization, NewAuthorization, Secret,
}
use influxdb_operator.Lifecycle.Reconcile.{is_deleted}
use influxdb_operator.Lifecycle.Reads.{IsNonempty}
use influxdb_operator.Journal.{
  Write, token, create_secret, update_secret, create_authorization, delete_authorization,
}
use influxdb_operator.Journal.Trace.{IsOwn}
use influxdb_operator.Token.Data.{
  description_of, is_described, to_permissions, new_secret, token_contents,
}

abbrev pub kind : Kind (Option (Dict String))
kind = record { no_data = none; created = reason_created_token; deleted = reason_deleted_token }

-- InfluxDB lists the authorization in some world, and it has the description of the Token.
abbrev pub IsListed : Environment → Token → Authorization → Type 0
IsListed E o a =
    ((k : Connection) × (org_id : String) × (w : E.World) × (all : List Authorization)
      × ((E.influx.find_authorizations_by_org_id k org_id w).0 ≡ reply (some all))
      × Memᴰ a all)
    × (is_described (description_of o) a ≡ true)

-- An authorization for the Token: with its description and permissions, in an organization with an id.
abbrev pub IsFor : Token → NewAuthorization → Type 0
IsFor o a =
    (a.description ≡ description_of o)
    × ((org_name : String) × (id : String) × (a.org_id ≡ some id)
        × IsNonempty id
        × (a.permissions ≡ to_permissions org_name id o.spec.permissions))

-- A token that InfluxDB gave for the object: of an authorization that is listed with its description, or
-- that was answered to the creation of one for it.
abbrev pub IsIssued : Environment → Token → String → Type 0
IsIssued E o t =
    ((a : Authorization) × IsListed E o a × (a.token ≡ some t))
    ⊎ ((k : Connection) × (new : NewAuthorization) × (w : E.World) × (a : Authorization) × IsFor o
          new
        × ((E.influx.create_authorization k new w).0.0 ≡ some a)
        × (a.token ≡ some t))

-- An authorization is created for a live object; the Secret that the object names is created, owned by
-- the object and holding a token issued for it, or an existing Secret of that name gets the token in
-- place of its contents. An authorization is deleted for an object that is marked for deletion, by the id
-- of one that InfluxDB listed with its description.
abbrev pub IsStep : Environment → Token → Write → Type 0
IsStep E o (create_authorization a) = (is_deleted o ≡ false) × IsFor o a
IsStep E o (create_secret x) =
    (is_deleted o ≡ false)
    × ((t : String) × (time : ℕ) × IsIssued E o t
        × (x ≡ record (new_secret o t) { creation_timestamp = time }))
IsStep E o (update_secret x) =
    (is_deleted o ≡ false)
    × ((t : String) × (w : E.World) × (old : Secret) × IsIssued E o t
        × ((E.secrets.get (record { namespace = o.namespace; name = o.spec.secret_name }) w).0
            ≡ reply old)
        × (x ≡ record old { contents = token_contents t }))
IsStep E o (delete_authorization id) =
    (is_deleted o ≡ true) × ((a : Authorization) × IsListed E o a × (a.id ≡ some id))
IsStep E o _ = ⊥

-- From the world `w` on: InfluxDB answers 404 to the organization of the Config; or it answers the
-- organization, and lists no authorization with the description there.
abbrev pub IsAbsent : (E : Environment) → Token → Config → Connection → E.World → Type 0
IsAbsent E o c k w =
    let find = E.influx.find_organization_by_name k c.spec.org_name in
    ((x : ClientError) × ((find w).0 ≡ refuse x) × (has_status 404 (client x) ≡ true))
    ⊎ ((org : InfluxOrganization) × (id : String) × (all : List Authorization) × ((find w).0
          ≡ reply (some org))
        × (org.id ≡ some id)
        × ((E.influx.find_authorizations_by_org_id k id (find w).1).0 ≡ reply (some all))
        × ((a : Authorization) → Memᴰ a all → is_described (description_of o) a ≡ false))

-- From the world after the read of the Token on: its Config, in the namespace of the request, is not found,
-- or the authorization is absent.
abbrev pub IsGone : (E : Environment) → NamespacedName → Token → E.World → Type 0
IsGone E req o =
    Without E (record { namespace = req.namespace; name = o.spec.config_name }) (IsAbsent E o)

-- The write to the object itself, where its finalizer is removed once `Gone` holds.
abbrev pub IsLast : Environment → Type 0 → Token → Write → Type 0
IsLast E Gone o (token x) = IsOwn E.finalizer_util kind Gone o x
IsLast E Gone o _ = ⊥
