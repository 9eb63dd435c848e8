-- ===== src/Token/Handlers.antt =====
-- The handlers of controllers/token_controller_impl.go that do not differ from the other kinds', and
-- `Reconcile` of token_controller.go as a chain of the kind's own handlers.
use influxdb_operator.Base.{◌≡◌, refl, none, if◌then◌else◌}
use influxdb_operator.Errors.{is_not_found}
use influxdb_operator.Effect.{M, pure, throw, call, check}
use influxdb_operator.Api.{NamespacedName, Token}
use influxdb_operator.Environment.{Environment}
use influxdb_operator.Lifecycle.Handlers
use influxdb_operator.Lifecycle.Reconcile.{
  Result, finished, requeue_in_a_minute, and_then, is_deleted,
}
use influxdb_operator.Lifecycle.Reconcile
use influxdb_operator.Token.Defs.{finalize_resources, reconcile_resources, reconcile}

module _ (E : Environment) where
  unfoldable pub finalize_status : Token → M E.World (Unit {0})
  finalize_status = Handlers.finalize_status E E.tokens none

  unfoldable pub remove_finalizer : Token → M E.World (Unit {0})
  remove_finalizer = Handlers.remove_finalizer E E.tokens none

  unfoldable pub add_finalizer : Token → M E.World (Unit {0})
  add_finalizer = Handlers.add_finalizer E E.tokens none

  unfoldable pub initialize_status : Token → M E.World (Unit {0})
  initialize_status = Handlers.initialize_status E E.tokens none

  -- The body of `Reconcile`.
  abbrev handled : Token → NamespacedName → M E.World Result
  handled object req =
      if is_deleted object
      then and_then (finalize_status object) (
          and_then (finalize_resources E object req)
            (and_then (remove_finalizer object) (pure finished)))
      else and_then (add_finalizer object) (
          and_then (initialize_status object)
            (and_then (reconcile_resources E object req) (pure requeue_in_a_minute)))

  reconcile_lem :
      (req : NamespacedName)
      → reconcile E req
        ≡ check
            (call (E.tokens.get req))
            (λ e. if is_not_found e then pure finished else throw e)
            (λ object. handled object req)
  unfolding reconcile Reconcile.reconcile Reconcile.reconcile_deleted Reconcile.reconcile_live
      finalize_status remove_finalizer add_finalizer initialize_status
  reconcile_lem req = refl
