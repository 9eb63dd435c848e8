-- ===== src/Lifecycle/Rest.antt =====
-- Repeated calls of `Reconcile` on a live object, under a healthy server, and all that the object should
-- have.
use influxdb_operator.Base.{
  ℕ, String, ◌↔◌, ◌≤◌, ◌≡◌, refl, Bool, true, false, ◌==◌, none, some, ◌&&◌,
}
use influxdb_operator.Base.{arith, ◌⊎◌, inl, inr}
use influxdb_operator.Errors.{object_updated}
use influxdb_operator.Effect.{M, Sys, Outcome, ok, err}
use influxdb_operator.Api.{NamespacedName, Object, Status}
use influxdb_operator.Environment.{Environment, ObjectClient}
use influxdb_operator.Const.{reason_finalizer_added}
use influxdb_operator.Lifecycle.Conditions.{has_reason}
use influxdb_operator.Lifecycle.Handlers.{has_finalizer}
use influxdb_operator.Lifecycle.Reconcile.{Result, requeue_in_a_minute, reconcile, repeat}
use influxdb_operator.Lifecycle.Server.{IsServer, SameKey, Sees, Gives}
use influxdb_operator.Lifecycle.Rules.{Recorded}
use influxdb_operator.Lifecycle.Sync.{IsSync, rank, rank_limit}
use influxdb_operator.Lifecycle.Convergence.{repeat-settled, repeat-fixed, reconcile-Advances}
use influxdb_operator.Lifecycle.Convergence

pub both : (a b : Bool) → a && b ≡ true → (a ≡ true) × (b ≡ true)
both a b h = ground arith

module _ (E : Environment) {Spec Data : Type 0} (client : ObjectClient E.World Spec Data)
    (no_data : Data) (req : NamespacedName) {R : Type 0} (S : IsServer E client req R)
    (created : String) (Usable : Object Spec Data → R → Type 0)
    (present : Object Spec Data → R → Bool) where
  -- The outcome that `IsSync.pending` asks for.
  abbrev pub Pending : Object Spec Data → Outcome (Unit {0}) × Sys E.World → Type 0
  Pending o t =
      (a : Outcome (Unit {0})) × (st : Status Data) × (r' : R) × (Gives E client req S t a
        (some (record o { status = st })) r')
      × ((a ≡ err object_updated) ⊎ (a ≡ ok tt))
      × Usable (record o { status = st }) r'
      × (has_reason created st.conditions && present o r' ≡ true)
      × (has_reason reason_finalizer_added st.conditions
          ≡ has_reason reason_finalizer_added o.status.conditions)

  -- What `mark_created` records is such an outcome, if the resource is there.
  pub Recorded-Pending :
      (text : String) (values : Data) (s : Sys E.World) (o : Object Spec Data) (r : R)
      (h : Sees E client req S s (some o) r) (t : Outcome (Unit {0}) × Sys E.World)
      → (created == reason_finalizer_added) ≡ false
      → ((st : Status Data) → Usable (record o { status = st }) r)
      → present o r ≡ true
      → Recorded E client no_data req S created text values s o r h t
      → Pending o t
  Recorded-Pending text values s o r h t apart usable there (st, g, new, kept) = (
    err object_updated,
    st,
    r,
    g,
    inl refl,
    usable st,
    rw (new, there) refl,
    kept reason_finalizer_added apart,
  )

  -- All that a live object should have: its finalizer, its conditions, and its resource.
  abbrev pub IsDone : Object Spec Data → R → Type 0
  IsDone o r =
      (has_finalizer E o ≡ true)
      × (has_reason reason_finalizer_added o.status.conditions ≡ true)
      × (has_reason created o.status.conditions ≡ true)
      × (present o r ≡ true)

  module _
      (finalize_resources reconcile_resources : Object Spec Data
        → NamespacedName
        → M E.World (Unit {0}))
      (K : IsSync E client req S reconcile_resources created Usable present) where
    abbrev again : M E.World Result
    again = reconcile E client no_data finalize_resources reconcile_resources req

    abbrev object_rank : Object Spec Data → R → ℕ
    object_rank =
        Convergence.object_rank E client no_data req S finalize_resources reconcile_resources
          created Usable present K

    rank-IsDone : (o : Object Spec Data) (r : R) → (object_rank o r ≡ 0) ↔ IsDone o r
    unfolding rank
    rank-IsDone o r = (λ done. ground arith, λ done. ground arith)

    pub repeat-IsDone :
        (n : ℕ) (s : Sys E.World) (o : Object Spec Data) (r : R)
        → Sees E client req S s (some o) r
        → Usable o r
        → o.deletion_timestamp ≡ none
        → 3 ≤ n
        → (o' : Object Spec Data) × (r' : R) × (Sees E client req S (repeat n again s) (some o') r')
          × SameKey o' o
          × (o'.spec ≡ o.spec)
          × (o'.deletion_timestamp ≡ none)
          × IsDone o' r'
    repeat-IsDone n s o r h usable live enough =
        let (o', r', h', key, spec, usable', live', done) =
          repeat-settled E client no_data req S finalize_resources reconcile_resources created
            Usable present K n s o r h usable live (omega (arith, rank_limit)) in
        (o', r', h', key, spec, live', (rank-IsDone o' r').0 done)

    pub repeat-rests :
        (n : ℕ) (s : Sys E.World) (o : Object Spec Data) (r : R)
        → Sees E client req S s (some o) r
        → Usable o r
        → o.deletion_timestamp ≡ none
        → IsDone o r
        → ((again s).0 ≡ ok requeue_in_a_minute) × Sees E client req S (repeat n again s) (some o) r
    repeat-rests n s o r h usable live done =
        let zero_rank = (rank-IsDone o r).1 done in
        (
          elim (reconcile-Advances E client no_data req S finalize_resources reconcile_resources
              created Usable present K s o r h usable live) [
                | inl (_, g) ↦ g.0
                | inr (x, o', r', g, key, spec, live', usable', lt) ↦ absurd (omega arith)
              ],
          repeat-fixed E client no_data req S finalize_resources reconcile_resources created Usable
              present K n s o r h usable live zero_rank,
        )
