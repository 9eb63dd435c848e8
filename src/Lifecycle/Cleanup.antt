-- ===== src/Lifecycle/Cleanup.antt =====
-- What the proofs about deletions ask of a kind's `FinalizeResources` under a healthy server.
use influxdb_operator.Base.{ℕ, ◌<◌, ◌≡◌, true, false, some}
use influxdb_operator.Errors.{object_updated}
use influxdb_operator.Effect.{M, Sys, ok, err}
use influxdb_operator.Api.{NamespacedName, Object, Status}
use influxdb_operator.Environment.{Environment, ObjectClient}
use influxdb_operator.Lifecycle.Handlers.{has_finalizer}
use influxdb_operator.Lifecycle.Server.{IsServer, SameKey, Sees, Gives}
use influxdb_operator.Lifecycle.Progress.{}

module _ (E : Environment) {Spec Data : Type 0} (client : ObjectClient E.World Spec Data)
    (req : NamespacedName) {R : Type 0} (S : IsServer E client req R) where
  -- What is known of a kind's `FinalizeResources`. `amount o r` is how many deletions in `r` the object
  -- still needs.
  pub record IsCleanup
      (finalize_resources : Object Spec Data → NamespacedName → M E.World (Unit {0}))
      (Usable : Object Spec Data → R → Type 0) (amount : Object Spec Data → R → ℕ) : Type 0 where
    -- The resources are known by the parts of the object that never change.
    pub amount_key : (o p : Object Spec Data) (r : R) → SameKey o p → amount o r ≡ amount p r
    pub usable_kept :
        (o p : Object Spec Data) (r : R) → SameKey o p → o.spec ≡ p.spec → Usable o r → Usable p r
    -- Without the finalizer, nothing is done.
    pub skipped :
        (s : Sys E.World) (o : Object Spec Data)
        → has_finalizer E o ≡ false
        → finalize_resources o req s ≡ (ok tt, s)
    -- Where nothing is left to delete, nothing is changed.
    pub cleaned :
        (s : Sys E.World) (o : Object Spec Data) (r : R)
        → Sees E client req S s (some o) r
        → Usable o r
        → has_finalizer E o ≡ true
        → amount o r ≡ 0
        → Gives E client req S (finalize_resources o req s) (ok tt) (some o) r
    -- Otherwise a resource is deleted, and the status tells so in the same phase.
    pub deleting :
        (s : Sys E.World) (o : Object Spec Data) (r : R)
        → Sees E client req S s (some o) r
        → Usable o r
        → has_finalizer E o ≡ true
        → 0 < amount o r
        → (st : Status Data) × (r' : R) × (Gives E client req S
            (finalize_resources o req s)
            (err object_updated)
            (some (record o { status = st }))
            r')
          × Usable (record o { status = st }) r'
          × (st.phase ≡ o.status.phase)
          × (amount o r' < amount o r)
