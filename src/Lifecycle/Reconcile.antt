-- ===== src/Lifecycle/Reconcile.antt =====
-- `Reconcile` of controllers/{organization,bucket,token}_controller.go, which differ in the kind only.
-- The kind's `FinalizeResources` and `ReconcileResources` are parameters.
use influxdb_operator.Base.{ℕ, zero, suc, Bool, true, false, none, some, if◌then◌else◌}
use influxdb_operator.Errors.{GoError, errors_is, object_updated, is_not_found}
use influxdb_operator.Effect.{M, Sys, pure, throw, call, check}
use influxdb_operator.Api.{NamespacedName, Object}
use influxdb_operator.Environment.{Environment, ObjectClient}
use influxdb_operator.Const.{minute}
use influxdb_operator.Lifecycle.Handlers.{
  finalize_status, remove_finalizer, add_finalizer, initialize_status,
}

-- `ctrl.Result`
pub record Result : Type 0 where
  pub requeue : Bool
  pub requeue_after : ℕ

-- `ctrl.Result{}`
abbrev pub finished : Result
finished = record { requeue = false; requeue_after = 0 }

abbrev pub requeue_in_a_minute : Result
requeue_in_a_minute = record { requeue = true; requeue_after = minute }

module _ {W : Type 0} where
  -- What `Reconcile` does with an error of a step: `ObjectUpdated` ends the call without an error.
  unfoldable pub stop : GoError → M W Result
  stop e = if errors_is e object_updated then pure finished else throw e

  -- `if err := step(); err != nil { … }`, and what follows it.
  unfoldable pub and_then : M W (Unit {0}) → M W Result → M W Result
  unfolding stop
  and_then step rest = check step stop (λ _. rest)

-- `object.GetDeletionTimestamp() != nil`
abbrev pub is_deleted : {Spec Data : Type 0} → Object Spec Data → Bool
is_deleted object = elim object.deletion_timestamp [ none ↦ false | some t ↦ true ]

-- `n` calls in a row, with whatever they return.
unfoldable pub repeat : {W : Type 0} → ℕ → M W Result → Sys W → Sys W
repeat zero action s = s
repeat (suc n) action s = repeat n action (action s).1

module _ (E : Environment) {Spec Data : Type 0} (client : ObjectClient E.World Spec Data)
    (no_data : Data)
    (finalize_resources reconcile_resources : Object Spec Data
      → NamespacedName
      → M E.World (Unit {0})) where
  unfoldable pub reconcile_deleted : Object Spec Data → NamespacedName → M E.World Result
  unfolding and_then
  reconcile_deleted object req = and_then (finalize_status E client no_data object) (
      and_then (finalize_resources object req)
        (and_then (remove_finalizer E client no_data object) (pure finished)))

  unfoldable pub reconcile_live : Object Spec Data → NamespacedName → M E.World Result
  unfolding and_then
  reconcile_live object req = and_then (add_finalizer E client no_data object) (
      and_then (initialize_status E client no_data object)
        (and_then (reconcile_resources object req) (pure requeue_in_a_minute)))

  unfoldable pub reconcile : NamespacedName → M E.World Result
  unfolding reconcile_deleted reconcile_live
  reconcile req =
      check (call (client.get req)) (λ e. if is_not_found e then pure finished else throw e)
        (λ object.
          if is_deleted object then reconcile_deleted object req else reconcile_live object req)
