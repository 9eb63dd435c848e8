-- ===== src/Lifecycle/Handlers.antt =====
-- What the three controllers have in common. controllers/organization_controller_impl.go,
-- bucket_controller_impl.go and token_controller_impl.go hold the same text three times for
-- `FinalizeStatus`, `RemoveFinalizer`, `AddFinalizer`, `InitializeStatus` and the two ends of
-- `FinalizeResources` and `ReconcileResources`; here it stands once, over a kind's client and the zero
-- value of its status data. The type assertion in each of them always succeeds, since `Reconcile`
-- passes an object of the kind. Logging is left out.
use influxdb_operator.Base.{ℕ, String, Bool, ◌==◌, [], ◌∷◌, ◌++◌}
use influxdb_operator.Base.{if◌then◌else◌}
use influxdb_operator.Errors.{message, object_updated}
use influxdb_operator.Effect.{M, pure, throw, call, ask, ◌>>=◌, ◌>>◌}
use influxdb_operator.Api.{Condition, Status, Object}
use influxdb_operator.Environment.{Environment, ObjectClient}
use influxdb_operator.Lifecycle.Conditions.{has_reason, touch}
use influxdb_operator.Const.{
  finalizer, reason_object_initialized, reason_object_marked_for_deletion, reason_finalizer_added,
  phase_pending, phase_ready, phase_terminating, condition_type_object, condition_type_influxdb,
  condition_true,
}

-- The status that `FinalizeStatus` writes.
unfoldable pub terminating_status : {Data : Type 0} → Data → Status Data → Status Data
terminating_status no_data status = record {
  phase = phase_terminating;
  conditions = status.conditions;
  message = "object is marked for deletion";
  reason = reason_object_marked_for_deletion;
  values = no_data;
}

-- The status that `InitializeStatus` writes.
unfoldable pub initial_status : {Data : Type 0} → Data → ℕ → Status Data
initial_status no_data time = record {
  phase = phase_pending;
  conditions =
      record {
        type = condition_type_object;
        status = condition_true;
        last_transition_time = time;
        reason = reason_finalizer_added;
        message = "object initialized";
      }
      ∷ [];
  message = "object initialized";
  reason = reason_object_initialized;
  values = no_data;
}

-- A condition of the type `influxdb`, as both ends of a resource's life append it.
abbrev influxdb_condition : String → String → ℕ → Condition
influxdb_condition reason text time = record {
  type = condition_type_influxdb;
  status = condition_true;
  last_transition_time = time;
  reason = reason;
  message = text;
}

-- The status that `FinalizeResources` writes once the resource is deleted.
unfoldable pub deleted_status :
    {Data : Type 0} → Data → String → String → ℕ → Status Data → Status Data
deleted_status no_data reason text time status =
    if has_reason reason status.conditions
    then record status { conditions = touch reason time status.conditions }
    else record {
      phase = status.phase;
      conditions = status.conditions ++ influxdb_condition reason text time ∷ [];
      message = text;
      reason = reason;
      values = no_data;
    }

-- The status that `ReconcileResources` writes where the reason is not there yet.
unfoldable pub ready_status :
    {Data : Type 0} → Data → String → String → ℕ → Status Data → Status Data
ready_status no_data reason text time status = record {
  phase = phase_ready;
  conditions = status.conditions ++ influxdb_condition reason text time ∷ [];
  message = text;
  reason = reason;
  values = no_data;
}

-- `controllerutil.ContainsFinalizer(clientObject, finalizer)`
abbrev pub has_finalizer : (E : Environment) {Spec Data : Type 0} → Object Spec Data → Bool
has_finalizer E object = E.finalizer_util.contains object.finalizers finalizer

module _ (E : Environment) {Spec Data : Type 0} (client : ObjectClient E.World Spec Data)
    (no_data : Data) where
  -- `r.Status().Update` with a new status, and `return ObjectUpdated`.
  unfoldable pub write_status : Object Spec Data → Status Data → M E.World (Unit {0})
  write_status object status = do
    call (client.update_status (record object { status = status }))
    throw object_updated

  unfoldable pub finalize_status : Object Spec Data → M E.World (Unit {0})
  finalize_status object =
      if has_finalizer E object
      then if object.status.phase == phase_terminating
        then pure tt
        else write_status object (terminating_status no_data object.status)
      else pure tt

  unfoldable pub remove_finalizer : Object Spec Data → M E.World (Unit {0})
  remove_finalizer object =
      if has_finalizer E object
      then (do
        call (
            client.update
              (record object { finalizers = E.finalizer_util.remove object.finalizers finalizer }))
        throw object_updated)
      else pure tt

  unfoldable pub add_finalizer : Object Spec Data → M E.World (Unit {0})
  add_finalizer object = if has_finalizer E object then pure tt else do
    call (
        client.update
          (record object { finalizers = E.finalizer_util.add object.finalizers finalizer }))
    throw object_updated

  unfoldable pub initialize_status : Object Spec Data → M E.World (Unit {0})
  initialize_status object =
      if has_finalizer E object
      then if has_reason reason_finalizer_added object.status.conditions
        then pure tt
        else (do time ← ask E.now; write_status object (initial_status no_data time))
      else throw (message "finalizer not found")

  -- The end of `FinalizeResources`, with the kind's reason and text.
  unfoldable pub mark_deleted : String → String → Object Spec Data → M E.World (Unit {0})
  mark_deleted reason text object = do
    time ← ask E.now
    write_status object (deleted_status no_data reason text time object.status)

  -- The end of `ReconcileResources`. `created` tells whether this call created the resource; if the
  -- reason is there already, the resource was created anew, and `values` is the status data to store.
  unfoldable pub mark_created :
      String → String → Bool → Data → Object Spec Data → M E.World (Unit {0})
  mark_created reason text created values object =
      if has_reason reason object.status.conditions
      then if created
        then (do
          time ← ask E.now
          write_status object (record object.status {
            conditions = touch reason time object.status.conditions;
            values = values;
          }))
        else pure tt
      else do
        time ← ask E.now
        write_status object (ready_status no_data reason text time object.status)
