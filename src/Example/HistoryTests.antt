-- ===== src/Example/HistoryTests.antt =====
-- The objects that the controllers store, in the world in memory.
use influxdb_operator.Base.{◌≡◌, refl, inl, none, some, [], ◌∷◌}
use mathlib.Core.List.{Memᴰ}
use influxdb_operator.Effect.{Sys}
use influxdb_operator.Api.{NamespacedName, Organization, Bucket, Token}
use influxdb_operator.Const.{
  finalizer, reason_created_bucket, reason_created_token, reason_deleted_organization,
}
use influxdb_operator.Base.Dict.{lookup, insert}
use influxdb_operator.Limiter.{is_due, rate_limit}
use influxdb_operator.Errors.{errors_is}
use influxdb_operator.Lifecycle.Conditions.{has_reason, touch}
use influxdb_operator.Lifecycle.Connect
use influxdb_operator.Lifecycle.Handlers
use influxdb_operator.Lifecycle.Reconcile
use influxdb_operator.Lifecycle.Keyed
use influxdb_operator.Lifecycle.Machine.{Kind, Moves}
use influxdb_operator.Lifecycle.History.{History, IsKept, Follows, empty_status, History-IsKept}
use influxdb_operator.Journal.{
  ObjectWrite, bucket, token, organization, update, update_status, journal, recorded,
}
use influxdb_operator.Bucket.Defs
use influxdb_operator.Bucket.Server.{has_bucket}
use influxdb_operator.Bucket.Writes as Buckets
use influxdb_operator.Bucket.History.{reconcile-Follows}
use influxdb_operator.Token.Data
use influxdb_operator.Token.Defs as Token
use influxdb_operator.Token.Writes
use influxdb_operator.Token.History.{token-Follows}
use influxdb_operator.Organization
use influxdb_operator.Organization.Writes as Organizations
use influxdb_operator.Organization.History.{organization-Follows}
use influxdb_operator.Example.Finalizers.{contains, add, remove, list_util}
use influxdb_operator.Example.Memory.{World, memory}
use influxdb_operator.Example.Data.{req, acme, token as writer, bucket as sensor, world}
use influxdb_operator.Api.{Object}

module _ {Spec Data : Type 0} (kind : Kind Data) where
  -- A new object of the kind, once it has the finalizer and the first status.
  abbrev held : Object Spec Data → Object Spec Data
  held o = record o { finalizers = finalizer ∷ [] }

  abbrev pending : Object Spec Data → Object Spec Data
  pending o = record (held o) { status = Handlers.initial_status kind.no_data 7 }

  pending-History :
      (o : Object Spec Data)
      → o.deletion_timestamp ≡ none
      → o.finalizers ≡ []
      → o.status ≡ empty_status kind.no_data
      → History list_util kind (pending o)
  unfolding contains add has_reason
  pending-History o unmarked free new =
      let fresh = History.created o unmarked new in
      let first =
        History.wrote o (update (held o)) (inl (rw unmarked refl, rw free refl, rw free refl))
          fresh in
      History.wrote (held o) (update_status (pending o))
        (
          Handlers.initial_status kind.no_data 7,
          refl,
          Moves.initializes 7 (rw unmarked refl) (rw new refl),
          refl,
        )
        first

abbrev pending_bucket : Bucket
pending_bucket = pending Buckets.kind sensor

pending_bucket-History : History list_util Buckets.kind pending_bucket
pending_bucket-History = pending-History Buckets.kind sensor refl refl refl

History-IsKept_example : IsKept list_util Buckets.kind pending_bucket
History-IsKept_example = History-IsKept list_util Buckets.kind pending_bucket pending_bucket-History

-- All that the three calls below run.
unfolded : Unit {0}
unfolding Reconcile.reconcile Reconcile.reconcile_live Reconcile.reconcile_deleted
    Handlers.add_finalizer Handlers.initialize_status Handlers.write_status Handlers.initial_status
    Handlers.mark_created Handlers.ready_status Handlers.finalize_status Handlers.terminating_status
    Handlers.mark_deleted Handlers.deleted_status Handlers.remove_finalizer Connect.need_config
    Connect.config_or_skip Connect.connect Connect.string_at Connect.need_valid_id Connect.valid_id
    Connect.log_daily Connect.has_status has_reason touch contains add remove Keyed.without
    Keyed.find errors_is is_due rate_limit lookup insert has_bucket
unfolded = tt

abbrev ready_bucket : ObjectWrite Bucket
ready_bucket = update_status (record pending_bucket {
  status =
      Handlers.ready_status tt reason_created_bucket "created influxdb bucket" 100
        pending_bucket.status;
})

abbrev bucket_start : Sys World
bucket_start = record { world = record world { bucket = some pending_bucket }; cache = [] }

bucket_asked :
    Memᴰ
      (bucket ready_bucket)
      (Defs.reconcile (journal memory) req (recorded bucket_start)).1.world.writes
unfolding unfolded Defs.reconcile Defs.reconcile_resources Defs.find_org_id Defs.create
bucket_asked = Memᴰ.head refl

reconcile-Follows_example : Follows list_util Buckets.kind pending_bucket ready_bucket
reconcile-Follows_example =
    reconcile-Follows memory req bucket_start pending_bucket ready_bucket refl
      pending_bucket-History bucket_asked

abbrev pending_token : Token
pending_token = pending Writes.kind writer

abbrev ready_token : ObjectWrite Token
ready_token = update_status (record pending_token {
  status =
      Handlers.ready_status none reason_created_token "created influxdb token" 101
        pending_token.status;
})

abbrev token_start : Sys World
token_start = record { world = record world { token = some pending_token }; cache = [] }

abbrev writer_name : NamespacedName
writer_name = record { namespace = "ns"; name = "writer" }

token_asked :
    Memᴰ
      (token ready_token)
      (Token.reconcile (journal memory) writer_name (recorded token_start)).1.world.writes
unfolding unfolded Token.reconcile Token.reconcile_resources Token.need_authorizations Token.obtain
    Token.create_token Token.read_created Token.use_existing Token.write_secret Token.create_secret
    Token.refresh_secret Data.find_authorization
token_asked = Memᴰ.head refl

token-Follows_example : Follows list_util Writes.kind pending_token ready_token
token-Follows_example =
    token-Follows memory writer_name token_start pending_token ready_token refl
      (pending-History Writes.kind writer refl refl refl) token_asked

abbrev plant : Organization
plant = record {
  api_version = "influxdb.kubetrail.io/v1beta1";
  kind = "Organization";
  name = "plant";
  namespace = "ns";
  uid = "u3";
  deletion_timestamp = none;
  finalizers = [];
  spec = record { config_name = "default" };
  status = empty_status tt;
}

-- Its deletion is asked for before it is ready.
abbrev marked : Organization
marked = record (pending Organizations.kind plant) { deletion_timestamp = some 300 }

abbrev leaving : Organization
leaving = record marked { status = Handlers.terminating_status tt marked.status }

leaving-History : History list_util Organizations.kind leaving
unfolding contains Handlers.initial_status
leaving-History =
    History.wrote marked (update_status leaving)
      (Handlers.terminating_status tt marked.status, refl, Moves.terminates refl refl, refl)
      (History.marked (pending Organizations.kind plant) 300
        (pending-History Organizations.kind plant refl refl refl))

abbrev deleted : ObjectWrite Organization
deleted = update_status (record leaving {
  status =
      Handlers.deleted_status tt reason_deleted_organization "deleted influxdb organization" 100
        leaving.status;
})

abbrev leaving_start : Sys World
leaving_start = record {
  world = record world {
    organization = some leaving;
    organizations = acme ∷ record { id = some "org2"; name = "plant" } ∷ [];
  };
  cache = [];
}

abbrev plant_name : NamespacedName
plant_name = record { namespace = "ns"; name = "plant" }

organization_asked :
    Memᴰ
      (organization deleted)
      (Organization.reconcile (journal memory) plant_name (recorded leaving_start)).1.world.writes
unfolding unfolded Organization.reconcile Organization.finalize_resources Organization.delete_found
organization_asked = Memᴰ.head refl

organization-Follows_example : Follows list_util Organizations.kind leaving deleted
organization-Follows_example =
    organization-Follows memory plant_name leaving_start leaving deleted refl leaving-History
      organization_asked
