-- ===== src/Lifecycle/Machine.antt =====
-- The statuses of an object as a state machine: the changes that the handlers and the two functions of a
-- kind make, each with what the code has tested before it.
use influxdb_operator.Base.{ℕ, String, ◌≡◌, Bool, true, false, ◌==◌}
use influxdb_operator.Api.{Status, Object}
use influxdb_operator.Environment.{Environment}
use influxdb_operator.Const.{phase_terminating, reason_finalizer_added}
use influxdb_operator.Lifecycle.Conditions.{has_reason, touch}
use influxdb_operator.Lifecycle.Handlers.{
  has_finalizer, terminating_status, initial_status, deleted_status, ready_status,
}
use influxdb_operator.Lifecycle.Reconcile.{is_deleted}

-- What the kinds differ in: the zero value of the status data, and the reasons of the conditions that
-- tell of the resource's creation and deletion.
pub record Kind (Data : Type 0) : Type 0 where
  pub no_data : Data
  pub created : String
  pub deleted : String

pub data Moves {Data : Type 0} (kind : Kind Data) (marked : Bool) (st : Status Data)
    : Status Data → Type 0 where
  terminates :
      marked ≡ true
      → (st.phase == phase_terminating) ≡ false
      → Moves kind marked st (terminating_status kind.no_data st)
  deletes :
      (text : String) (time : ℕ)
      → marked ≡ true
      → (st.phase == phase_terminating) ≡ true
      → Moves kind marked st (deleted_status kind.no_data kind.deleted text time st)
  initializes :
      (time : ℕ)
      → marked ≡ false
      → has_reason reason_finalizer_added st.conditions ≡ false
      → Moves kind marked st (initial_status kind.no_data time)
  completes :
      (text : String) (time : ℕ)
      → marked ≡ false
      → has_reason reason_finalizer_added st.conditions ≡ true
      → has_reason kind.created st.conditions ≡ false
      → Moves kind marked st (ready_status kind.no_data kind.created text time st)
  repairs :
      (time : ℕ) (values : Data)
      → marked ≡ false
      → has_reason reason_finalizer_added st.conditions ≡ true
      → has_reason kind.created st.conditions ≡ true
      → Moves kind marked st
          (record st { conditions = touch kind.created time st.conditions; values = values })

module _ (E : Environment) {Spec Data : Type 0} (o : Object Spec Data) where
  -- What `FinalizeStatus` has made sure of where `FinalizeResources` runs.
  abbrev pub IsPassed : Type 0
  IsPassed = has_finalizer E o ≡ true → (o.status.phase == phase_terminating) ≡ true

  -- What is known where `FinalizeResources` has found the finalizer.
  pub record IsLeaving : Type 0 where
    pub marked : is_deleted o ≡ true
    pub held : has_finalizer E o ≡ true
    pub terminating : (o.status.phase == phase_terminating) ≡ true

  -- What the handlers have made sure of where `ReconcileResources` runs.
  pub record IsSettled : Type 0 where
    pub live : is_deleted o ≡ false
    pub held : has_finalizer E o ≡ true
    pub initialized : has_reason reason_finalizer_added o.status.conditions ≡ true
