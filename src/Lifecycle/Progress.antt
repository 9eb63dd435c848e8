-- ===== src/Lifecycle/Progress.antt =====
-- How far a call of `Reconcile` takes a live object under a healthy server.
use influxdb_operator.Base.{◌≡◌, refl, true, false, Option, none, some}
use influxdb_operator.Base.{arith, ◌∙◌, ◌⊎◌, inl, inr}
use influxdb_operator.Errors.{errors_is, object_updated}
use influxdb_operator.Effect.{M, Sys, Outcome, ok, err, pure, call, ◌>>◌, throw}
use influxdb_operator.Api.{NamespacedName, Object, Status}
use influxdb_operator.Environment.{Environment, ObjectClient}
use influxdb_operator.Const.{finalizer, reason_finalizer_added}
use influxdb_operator.Lifecycle.Conditions.{has_reason}
use influxdb_operator.Lifecycle.Handlers.{
  has_finalizer, add_finalizer, initialize_status, write_status, initial_status,
}
use influxdb_operator.Lifecycle.Reconcile.{Result, finished, requeue_in_a_minute, and_then}
use influxdb_operator.Lifecycle.Server.{IsServer, SameKey, updated, Sees, Gives}

updated_live :
    {Spec Data : Type 0} (o p : Object Spec Data)
    → o.deletion_timestamp ≡ none
    → updated o p ≡ some (record o { spec = p.spec; finalizers = p.finalizers })
updated_live o p live = ground arith

module _ (E : Environment) {Spec Data : Type 0} (client : ObjectClient E.World Spec Data)
    (no_data : Data) (req : NamespacedName) {R : Type 0} (S : IsServer E client req R) where
  pub write_status-Gives :
      (s : Sys E.World) (o : Object Spec Data) (st : Status Data) (r : R)
      → Sees E client req S s (some o) r
      → Gives E client req S
          (write_status E client no_data o st s)
          (err object_updated)
          (some (record o { status = st }))
          r
  unfolding write_status
  write_status-Gives s o st r (eo, er) =
      let p = record o { status = st } in
      let k : SameKey p o = record { name = refl; namespace = refl; uid = refl } in
      rw (S.update_status_accepted s.world o p eo k)
        (refl, S.object-update_status s.world o p eo k, rw S.remote-update_status er)

  pub update-Gives :
      (s : Sys E.World) (o p : Object Spec Data) (r : R)
      → SameKey p o
      → Sees E client req S s (some o) r
      → Gives E client req S {A = Unit}
          ((call (client.update p) >> throw object_updated) s)
          (err object_updated)
          (updated o p)
          r
  update-Gives s o p r k (eo, er) =
      rw (S.update_accepted s.world o p eo k)
        (refl, S.object-update s.world o p eo k, rw S.remote-update er)

  pub initialize_status-Gives :
      (s : Sys E.World) (o : Object Spec Data) (r : R)
      → Sees E client req S s (some o) r
      → has_finalizer E o ≡ true
      → has_reason reason_finalizer_added o.status.conditions ≡ false
      → Gives E client req S
          (initialize_status E client no_data o s)
          (err object_updated)
          (some (record o { status = initial_status no_data (E.now s.world).0 }))
          r
  unfolding initialize_status
  initialize_status-Gives s o r (eo, er) f i =
      rw (f, i)
        (write_status-Gives (record s { world = (E.now s.world).1 }) o
          (initial_status no_data (E.now s.world).0) r (rw S.object-now eo, rw S.remote-now er))

  pub add_finalizer-Gives :
      (s : Sys E.World) (o : Object Spec Data) (r : R)
      → Sees E client req S s (some o) r
      → o.deletion_timestamp ≡ none
      → has_finalizer E o ≡ false
      → Gives E client req S
          (add_finalizer E client no_data o s)
          (err object_updated)
          (some (record o { finalizers = E.finalizer_util.add o.finalizers finalizer }))
          r
  unfolding add_finalizer
  add_finalizer-Gives s o r h live f =
      let p = record o { finalizers = E.finalizer_util.add o.finalizers finalizer } in
      let k : SameKey p o = record { name = refl; namespace = refl; uid = refl } in
      let (a, b, c) = update-Gives s o p r k h in rw f (a, b ∙ updated_live o p live, c)

  -- A step that updates the object ends the call.
  pub and_then_updated :
      (step : M E.World (Unit {0})) (rest : M E.World Result) (s : Sys E.World)
      (o : Option (Object Spec Data)) (r : R)
      → Gives E client req S (step s) (err object_updated) o r
      → Gives E client req S (and_then step rest s) (ok finished) o r
  unfolding and_then errors_is
  and_then_updated step rest s o r (a, b, c) = rw a (refl, b, c)

  -- The last step.
  pub and_then_last :
      (step : M E.World (Unit {0})) (result : Result) (s : Sys E.World)
      (o : Option (Object Spec Data)) (r : R)
      → Gives E client req S (step s) (ok tt) o r
      → Gives E client req S (and_then step (pure result) s) (ok result) o r
  unfolding and_then
  and_then_last step result s o r (a, b, c) = rw a (refl, b, c)

  -- The last step of a live object, with either of its good results.
  pub and_then_synced :
      (step : M E.World (Unit {0})) (s : Sys E.World) (o : Option (Object Spec Data)) (r : R)
      (a : Outcome (Unit {0}))
      → Gives E client req S (step s) a o r
      → (a ≡ err object_updated) ⊎ (a ≡ ok tt)
      → (x : Result) × Gives E client req S (and_then step (pure requeue_in_a_minute) s) (ok x) o r
  and_then_synced step s o r a (e, eo, er) how = elim how [
    | inl wrote ↦
        (finished, and_then_updated step (pure requeue_in_a_minute) s o r (e ∙ wrote, eo, er))
    | inr nil ↦
        (requeue_in_a_minute, and_then_last step requeue_in_a_minute s o r (e ∙ nil, eo, er))
  ]

-- A step that returns nil goes on.
pub and_then_nil :
    {W : Type 0} (step : M W (Unit {0})) (rest : M W Result) (s s' : Sys W)
    → step s ≡ (ok tt, s')
    → and_then step rest s ≡ rest s'
unfolding and_then
and_then_nil step rest s s' e = rw e

module _ (E : Environment) {Spec Data : Type 0} (client : ObjectClient E.World Spec Data)
    (no_data : Data) (o : Object Spec Data) (s : Sys E.World)
    (found : has_finalizer E o ≡ true) where
  pub add_finalizer_skips : add_finalizer E client no_data o s ≡ (ok tt, s)
  unfolding add_finalizer
  add_finalizer_skips = rw found

  pub initialize_status_skips :
      has_reason reason_finalizer_added o.status.conditions ≡ true
      → initialize_status E client no_data o s ≡ (ok tt, s)
  unfolding initialize_status
  initialize_status_skips h = rw (found, h)
