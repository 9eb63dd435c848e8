-- ===== src/Lifecycle/Server.antt =====
-- What is assumed of a Kubernetes API server that answers every call, where no other client writes the
-- object: the documented behaviour of the calls on one object, and that they leave InfluxDB alone.
-- `object` is what the server stores for the request, and `remote` is what the program can see of the
-- rest of the world. The theorems that need no such server do not mention this file.
use influxdb_operator.Base.{String, ◌≡◌, refl, ◌∙◌, true, false, Option, none, some, List, []}
use influxdb_operator.Errors.{ClientError}
use influxdb_operator.Effect.{reply, refuse, Outcome, Sys}
use influxdb_operator.Api.{NamespacedName, Object}
use influxdb_operator.Environment.{Environment, ObjectClient}
use influxdb_operator.Const.{finalizer}

module _ {Spec Data : Type 0} where
  -- The name, the namespace and the UID of an object never change.
  pub record SameKey (o p : Object Spec Data) : Type 0 where
    pub name : o.name ≡ p.name
    pub namespace : o.namespace ≡ p.namespace
    pub uid : o.uid ≡ p.uid

  pub SameKey-refl : (o : Object Spec Data) → SameKey o o
  SameKey-refl o = record { name = refl; namespace = refl; uid = refl }

  pub SameKey-trans : {o p q : Object Spec Data} → SameKey o p → SameKey p q → SameKey o q
  SameKey-trans h k = record {
    name = h.name ∙ k.name;
    namespace = h.namespace ∙ k.namespace;
    uid = h.uid ∙ k.uid;
  }

  -- What `Update` leaves of the stored object: it takes the spec and the finalizers, and not the
  -- status. An object that is marked for deletion goes with its last finalizer.
  abbrev pub updated : Object Spec Data → Object Spec Data → Option (Object Spec Data)
  updated old o = elim old.deletion_timestamp [
    | none ↦ some (record old { spec = o.spec; finalizers = o.finalizers })
    | some t ↦ elim o.finalizers [
      | [] ↦ none
      | _ ↦ some (record old { spec = o.spec; finalizers = o.finalizers })
    ]
  ]

pub record IsServer (E : Environment) {Spec Data : Type 0} (client : ObjectClient E.World Spec Data)
    (req : NamespacedName) (R : Type 0) : Type 0 where
  pub object : E.World → Option (Object Spec Data)
  pub remote : E.World → R
  pub contains-add :
      (fs : List String)
      → E.finalizer_util.contains (E.finalizer_util.add fs finalizer) finalizer ≡ true
  pub contains-remove :
      (fs : List String)
      → E.finalizer_util.contains (E.finalizer_util.remove fs finalizer) finalizer ≡ false
  pub object-now : (w : E.World) → object (E.now w).1 ≡ object w
  pub remote-now : (w : E.World) → remote (E.now w).1 ≡ remote w
  pub get_found :
      (w : E.World) (o : Object Spec Data) → object w ≡ some o → (client.get req w).0 ≡ reply o
  pub get_missing :
      (w : E.World)
      → object w ≡ none
      → (e : ClientError) × ((client.get req w).0 ≡ refuse e) × (e.not_found ≡ true)
  pub object-get : (w : E.World) → object (client.get req w).1 ≡ object w
  pub remote-get : (w : E.World) → remote (client.get req w).1 ≡ remote w
  pub update_status_accepted :
      (w : E.World) (old o : Object Spec Data)
      → object w ≡ some old
      → SameKey o old
      → (client.update_status o w).0 ≡ reply tt
  pub object-update_status :
      (w : E.World) (old o : Object Spec Data)
      → object w ≡ some old
      → SameKey o old
      → object (client.update_status o w).1 ≡ some (record old { status = o.status })
  pub remote-update_status :
      (w : E.World) (o : Object Spec Data) → remote (client.update_status o w).1 ≡ remote w
  pub update_accepted :
      (w : E.World) (old o : Object Spec Data)
      → object w ≡ some old
      → SameKey o old
      → (client.update o w).0 ≡ reply tt
  pub object-update :
      (w : E.World) (old o : Object Spec Data)
      → object w ≡ some old
      → SameKey o old
      → object (client.update o w).1 ≡ updated old o
  pub remote-update : (w : E.World) (o : Object Spec Data) → remote (client.update o w).1 ≡ remote w

module _ (E : Environment) {Spec Data : Type 0} (client : ObjectClient E.World Spec Data)
    (req : NamespacedName) {R : Type 0} (S : IsServer E client req R) where
  -- What is stored, and what is seen of the rest.
  abbrev pub Sees : Sys E.World → Option (Object Spec Data) → R → Type 0
  Sees s o r = (S.object s.world ≡ o) × (S.remote s.world ≡ r)

  -- What a call returns, and what is stored and seen after it.
  abbrev pub Gives :
      {A : Type 0} → Outcome A × Sys E.World → Outcome A → Option (Object Spec Data) → R → Type 0
  Gives (result, s) a o r = (result ≡ a) × (S.object s.world ≡ o) × (S.remote s.world ≡ r)
