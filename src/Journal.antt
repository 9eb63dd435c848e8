-- ===== src/Journal.antt =====
-- Any world with a journal of the writes that the program asks for, the latest first. A write is noted
-- whatever it is answered, and the calls are answered as without the journal.
pub mod Trace
use influxdb_operator.Base.{String, List, [], ◌∷◌}
use influxdb_operator.Effect.{Sys}
use influxdb_operator.Api.{Object, Organization, Bucket, Token}
use influxdb_operator.Environment.{Environment, ObjectClient, Secret, NewBucket, NewAuthorization}

pub data ObjectWrite (O : Type 0) : Type 0 where
  update : O → ObjectWrite O
  update_status : O → ObjectWrite O

-- A call that may change the API server or InfluxDB, with its arguments but for the connection.
pub data Write : Type 0 where
  organization : ObjectWrite Organization → Write
  bucket : ObjectWrite Bucket → Write
  token : ObjectWrite Token → Write
  create_secret : Secret → Write
  update_secret : Secret → Write
  create_organization : String → Write
  delete_organization : String → Write
  create_bucket : NewBucket → Write
  delete_bucket : String → Write
  create_authorization : NewAuthorization → Write
  delete_authorization : String → Write

pub record Journaled (W : Type 0) : Type 0 where
  pub world : W
  pub writes : List Write

module _ {W : Type 0} where
  abbrev pub reading : {A : Type 0} → (W → A × W) → Journaled W → A × Journaled W
  reading f j = let (a, w) = f j.world in (a, record j { world = w })

  abbrev pub writing : {A : Type 0} → Write → (W → A × W) → Journaled W → A × Journaled W
  writing x f j = let (a, w) = f j.world in (a, record { world = w; writes = x ∷ j.writes })

  abbrev pub object_client :
      {Spec Data : Type 0}
      → (ObjectWrite (Object Spec Data) → Write)
      → ObjectClient W Spec Data
      → ObjectClient (Journaled W) Spec Data
  object_client kind client = record {
    get = λ n. reading (client.get n);
    update = λ o. writing (kind (update o)) (client.update o);
    update_status = λ o. writing (kind (update_status o)) (client.update_status o);
  }

abbrev pub journal : Environment → Environment
journal E = record {
  World = Journaled E.World;
  now = reading E.now;
  finalizer_util = E.finalizer_util;
  organizations = object_client organization E.organizations;
  buckets = object_client bucket E.buckets;
  tokens = object_client token E.tokens;
  get_config = λ n. reading (E.get_config n);
  secrets = record {
    get = λ n. reading (E.secrets.get n);
    create = λ x. writing (create_secret x) (E.secrets.create x);
    update = λ x. writing (update_secret x) (E.secrets.update x);
  };
  influx = record {
    find_organization_by_name = λ k n. reading (E.influx.find_organization_by_name k n);
    create_organization = λ k n. writing (create_organization n) (E.influx.create_organization k n);
    delete_organization_with_id =
        λ k id. writing (delete_organization id) (E.influx.delete_organization_with_id k id);
    find_buckets_by_org_id = λ k id. reading (E.influx.find_buckets_by_org_id k id);
    create_bucket = λ k b. writing (create_bucket b) (E.influx.create_bucket k b);
    delete_bucket_with_id =
        λ k id. writing (delete_bucket id) (E.influx.delete_bucket_with_id k id);
    find_authorizations_by_org_id = λ k id. reading (E.influx.find_authorizations_by_org_id k id);
    create_authorization =
        λ k a. writing (create_authorization a) (E.influx.create_authorization k a);
    delete_authorization_with_id =
        λ k id. writing (delete_authorization id) (E.influx.delete_authorization_with_id k id);
  };
}

-- The state with an empty journal.
abbrev pub recorded : {W : Type 0} → Sys W → Sys (Journaled W)
recorded s = record { world = record { world = s.world; writes = [] }; cache = s.cache }
