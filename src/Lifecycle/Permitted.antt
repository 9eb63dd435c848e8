-- ===== src/Lifecycle/Permitted.antt =====
-- The writes to the object itself, in any world: the handlers keep an invariant of the world that these
-- writes keep, and after such a write they end.
use influxdb_operator.Base.{ℕ, String, ◌≡◌, Bool, true, false, ◌==◌}
use influxdb_operator.Base.{arith}
use influxdb_operator.Errors.{message, object_updated}
use influxdb_operator.Effect.{ask, ◌>>=◌}
use influxdb_operator.Effect.Keeps.{
  Any, Invariants, AllowsLast, Keeps, Keeps-pure, Keeps-throw, Keeps-ask, Keeps-last, Keeps-bind,
  Keeps-if,
}
use influxdb_operator.Api.{Object, Status}
use influxdb_operator.Environment.{Environment, ObjectClient}
use influxdb_operator.Const.{finalizer, phase_terminating, reason_finalizer_added}
use influxdb_operator.Lifecycle.Conditions.{has_reason, touch}
use influxdb_operator.Lifecycle.Handlers.{
  initial_status, deleted_status, ready_status, has_finalizer, write_status, finalize_status,
  remove_finalizer, add_finalizer, initialize_status, mark_deleted, mark_created,
}
use influxdb_operator.Lifecycle.Reconcile.{is_deleted}
use influxdb_operator.Lifecycle.Machine.{Kind, Moves, IsPassed, IsLeaving, IsSettled}

-- The permitted writes to the object `o` that was read: the finalizer is added to a live object that
-- lacks it, or removed from a terminating one that holds it, once what `FinalizeResources` has to make
-- sure of is `Done`; another write changes the status only, by a step of the machine, and the object
-- holds the finalizer.
pub record Permits (E : Environment) {Spec Data : Type 0} (client : ObjectClient E.World Spec Data)
    (V : Invariants E.World) (kind : Kind Data) (Done : Type 0) (o : Object Spec Data)
    : Type 0 where
  pub now : (w : E.World) → V.running w → V.running (E.now w).1
  pub finalizer_added :
      is_deleted o ≡ false
      → has_finalizer E o ≡ false
      → AllowsLast V
          (client.update (record o { finalizers = E.finalizer_util.add o.finalizers finalizer }))
  pub finalizer_removed :
      IsLeaving E o
      → Done
      → AllowsLast V
          (client.update (record o { finalizers = E.finalizer_util.remove o.finalizers finalizer }))
  pub status_written :
      (st : Status Data)
      → has_finalizer E o ≡ true
      → Moves kind (is_deleted o) o.status st
      → AllowsLast V (client.update_status (record o { status = st }))

module _ (E : Environment) {Spec Data : Type 0} (client : ObjectClient E.World Spec Data)
    (V : Invariants E.World) (kind : Kind Data) (Done : Type 0) (o : Object Spec Data)
    (P : Permits E client V kind Done o) where
  write_status-Keeps :
      (A : Unit {0} → Type 0) (st : Status Data)
      → has_finalizer E o ≡ true
      → Moves kind (is_deleted o) o.status st
      → Keeps V A (write_status E client kind.no_data o st)
  unfolding write_status
  write_status-Keeps A st held move =
      Keeps-last V A (client.update_status (record o { status = st })) object_updated
        (P.status_written st held move)

  timed_status-Keeps :
      (A : Unit {0} → Type 0) (st : ℕ → Status Data)
      → has_finalizer E o ≡ true
      → ((time : ℕ) → Moves kind (is_deleted o) o.status (st time))
      → Keeps V A (ask E.now >>= λ time. write_status E client kind.no_data o (st time))
  timed_status-Keeps A st held move =
      Keeps-bind V Any A (ask E.now) (λ time. write_status E client kind.no_data o (st time))
        (Keeps-ask V E.now P.now) (λ time _. write_status-Keeps A (st time) held (move time))

  pub finalize_status-Keeps :
      is_deleted o ≡ true → Keeps V (λ _. IsPassed E o) (finalize_status E client kind.no_data o)
  unfolding finalize_status
  finalize_status-Keeps marked =
      let Q : Unit {0} → Type 0 = λ _. IsPassed E o in
      Keeps-if V Q (has_finalizer E o) _ _
        (λ held.
          Keeps-if V Q (o.status.phase == phase_terminating) _ _
            (λ passed. Keeps-pure V Q tt (λ _. passed))
            (λ other. write_status-Keeps Q _ held (Moves.terminates marked other)))
        (λ free. Keeps-pure V Q tt (λ held. ground arith))

  pub remove_finalizer-Keeps :
      is_deleted o ≡ true
      → IsPassed E o
      → (has_finalizer E o ≡ true → Done)
      → Keeps V Any (remove_finalizer E client kind.no_data o)
  unfolding remove_finalizer
  remove_finalizer-Keeps marked passed done =
      Keeps-if V Any (has_finalizer E o) _ _
        (λ held. Keeps-last V Any _ object_updated (
          P.finalizer_removed (record { marked = marked; held = held; terminating = passed held })
            (done held)))
        (λ _. Keeps-pure V Any tt tt)

  pub add_finalizer-Keeps :
      is_deleted o ≡ false
      → Keeps V (λ _. has_finalizer E o ≡ true) (add_finalizer E client kind.no_data o)
  unfolding add_finalizer
  add_finalizer-Keeps live =
      let Q : Unit {0} → Type 0 = λ _. has_finalizer E o ≡ true in
      Keeps-if V Q (has_finalizer E o) _ _ (λ held. Keeps-pure V Q tt held)
        (λ free. Keeps-last V Q _ object_updated (P.finalizer_added live free))

  pub initialize_status-Keeps :
      is_deleted o ≡ false
      → Keeps V
          (λ _. has_reason reason_finalizer_added o.status.conditions ≡ true)
          (initialize_status E client kind.no_data o)
  unfolding initialize_status
  initialize_status-Keeps live =
      let Q : Unit {0} → Type 0 =
        λ _. has_reason reason_finalizer_added o.status.conditions ≡ true in
      Keeps-if V Q (has_finalizer E o) _ _
        (λ held.
          Keeps-if V Q (has_reason reason_finalizer_added o.status.conditions) _ _
            (λ old. Keeps-pure V Q tt old)
            (λ new.
              timed_status-Keeps Q (initial_status kind.no_data) held
                (λ time. Moves.initializes time live new)))
        (λ _. Keeps-throw V {A = Unit {0}} Q (message "finalizer not found"))

  pub mark_deleted-Keeps :
      IsLeaving E o
      → (A : Unit {0} → Type 0) (text : String)
      → Keeps V A (mark_deleted E client kind.no_data kind.deleted text o)
  unfolding mark_deleted
  mark_deleted-Keeps leaving A text =
      timed_status-Keeps A (λ time. deleted_status kind.no_data kind.deleted text time o.status)
        leaving.held (λ time. Moves.deletes text time leaving.marked leaving.terminating)

  pub mark_created-Keeps :
      IsSettled E o
      → (text : String) (created : Bool) (values : Data)
      → Keeps V Any (mark_created E client kind.no_data kind.created text created values o)
  unfolding mark_created
  mark_created-Keeps settled text created values =
      Keeps-if V Any (has_reason kind.created o.status.conditions) _ _
        (λ old.
          Keeps-if V Any created _ _
            (λ _.
              timed_status-Keeps Any
                (λ time. record o.status {
                  conditions = touch kind.created time o.status.conditions;
                  values = values;
                })
                settled.held
                (λ time. Moves.repairs time values settled.live settled.initialized old))
            (λ _. Keeps-pure V Any tt tt))
        (λ new.
          timed_status-Keeps Any (λ time. ready_status kind.no_data kind.created text time o.status)
            settled.held (λ time. Moves.completes text time settled.live settled.initialized new))
