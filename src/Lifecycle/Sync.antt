-- ===== src/Lifecycle/Sync.antt =====
-- What a live object still needs, and what is known of a kind's `ReconcileResources` under a healthy
-- server.
use influxdb_operator.Base.{ℕ, ◌≤◌, ◌<◌, String, ◌≡◌, Bool, true, false, some}
use influxdb_operator.Base.{◌&&◌, ◌⊎◌, arith}
use influxdb_operator.Errors.{object_updated}
use influxdb_operator.Effect.{M, Sys, Outcome, ok, err}
use influxdb_operator.Api.{NamespacedName, Object, Status}
use influxdb_operator.Environment.{Environment, ObjectClient}
use influxdb_operator.Const.{reason_finalizer_added}
use influxdb_operator.Lifecycle.Conditions.{has_reason}
use influxdb_operator.Lifecycle.Handlers.{has_finalizer}
use influxdb_operator.Lifecycle.Server.{IsServer, SameKey, Sees, Gives}

-- The steps that a live object still needs: the finalizer, the first condition, and the resource with
-- its condition.
unfoldable pub rank : Bool → Bool → Bool → ℕ
rank false initialized ready = 3
rank true false ready = 2
rank true true false = 1
rank true true true = 0

module _ (E : Environment) {Spec Data : Type 0} (client : ObjectClient E.World Spec Data)
    (req : NamespacedName) {R : Type 0} (S : IsServer E client req R) where
  -- What is known of a kind's `ReconcileResources`. `present o r` says that the resource of `o` is in
  -- `r`, and `created` is the reason of the condition that is written for it.
  pub record IsSync (reconcile_resources : Object Spec Data → NamespacedName → M E.World (Unit {0}))
      (created : String) (Usable : Object Spec Data → R → Type 0)
      (present : Object Spec Data → R → Bool) : Type 0 where
    -- The resource is known by the parts of the object that never change.
    pub present_key : (o p : Object Spec Data) (r : R) → SameKey o p → present o r ≡ present p r
    -- So is what the resource needs, but for the spec.
    pub usable_kept :
        (o p : Object Spec Data) (r : R) → SameKey o p → o.spec ≡ p.spec → Usable o r → Usable p r
    -- Where all is there, nothing is changed.
    pub settled :
        (s : Sys E.World) (o : Object Spec Data) (r : R)
        → Sees E client req S s (some o) r
        → Usable o r
        → has_finalizer E o ≡ true
        → has_reason created o.status.conditions && present o r ≡ true
        → Gives E client req S (reconcile_resources o req s) (ok tt) (some o) r
    -- Otherwise the resource is created or repaired, and the status tells so, which ends the call, or
    -- told so before.
    pub pending :
        (s : Sys E.World) (o : Object Spec Data) (r : R)
        → Sees E client req S s (some o) r
        → Usable o r
        → has_finalizer E o ≡ true
        → has_reason created o.status.conditions && present o r ≡ false
        → (a : Outcome (Unit {0})) × (st : Status Data) × (r' : R) × (Gives E client req S
            (reconcile_resources o req s)
            a
            (some (record o { status = st }))
            r')
          × ((a ≡ err object_updated) ⊎ (a ≡ ok tt))
          × Usable (record o { status = st }) r'
          × (has_reason created st.conditions && present o r' ≡ true)
          × (has_reason reason_finalizer_added st.conditions
              ≡ has_reason reason_finalizer_added o.status.conditions)

pub rank_bounded : (initialized ready : Bool) → rank true initialized ready < 3
unfolding rank
rank_bounded initialized ready = ground arith

pub rank_limit : (finalized initialized ready : Bool) → rank finalized initialized ready ≤ 3
unfolding rank
rank_limit finalized initialized ready = ground arith

pub rank_initialized : (ready : Bool) → rank true true ready < 2
unfolding rank
rank_initialized ready = ground arith
