-- ===== src/Lifecycle/Deletion.antt =====
-- A call of `Reconcile` on an object that is marked for deletion and holds the finalizer, under a healthy
-- server.
use influxdb_operator.Base.{
  ℕ, zero, suc, ◌<◌, ◌≤◌, ◌+◌, ◌≡◌, refl, Bool, true, false, Option, none, some, [], ◌==◌,
  if◌then◌else◌,
}
use influxdb_operator.Base.{◌⊎◌, inl, inr, arith, Bool-cases, ◌∙◌}
use influxdb_operator.Errors.{object_updated}
use influxdb_operator.Effect.{M, Sys, Outcome, ok, err, pure}
use influxdb_operator.Api.{NamespacedName, Object, Status}
use influxdb_operator.Environment.{Environment, ObjectClient}
use influxdb_operator.Const.{finalizer, phase_terminating}
use influxdb_operator.Lifecycle.Handlers.{
  has_finalizer, finalize_status, remove_finalizer, terminating_status,
}
use influxdb_operator.Lifecycle.Reconcile.{Result, finished, and_then, reconcile_deleted, reconcile}
use influxdb_operator.Lifecycle.Server.{IsServer, Sees, Gives, updated}
use influxdb_operator.Lifecycle.Progress.{
  write_status-Gives, update-Gives, and_then_updated, and_then_nil,
}
use influxdb_operator.Lifecycle.Cleanup.{IsCleanup}

zero-cases : (n : ℕ) → (n ≡ 0) ⊎ (0 < n)
zero-cases zero = inl refl
zero-cases (suc n) = inr (omega arith)

pub enough_steps :
    (terminating : Bool) (m n : ℕ) → 2 + m ≤ n → (if terminating then 1 else 2) + m ≤ n
enough_steps terminating m n h = ground arith

-- What is left of an object that is marked for deletion when its finalizer is removed.
abbrev pub released :
    (E : Environment) {Spec Data : Type 0} → Object Spec Data → Option (Object Spec Data)
released E o = elim (E.finalizer_util.remove o.finalizers finalizer) [
  | [] ↦ none
  | fs ↦ some (record o { finalizers = fs })
]

module _ (E : Environment) {Spec Data : Type 0} (client : ObjectClient E.World Spec Data)
    (no_data : Data) (req : NamespacedName) {R : Type 0} (S : IsServer E client req R)
    (finalize_resources reconcile_resources : Object Spec Data
      → NamespacedName
      → M E.World (Unit {0}))
    (Usable : Object Spec Data → R → Type 0) (amount : Object Spec Data → R → ℕ)
    (K : IsCleanup E client req S finalize_resources Usable amount) where
  -- The calls that the object still needs: one for the phase, one for each resource, and one for the
  -- finalizer.
  abbrev pub steps : Object Spec Data → R → ℕ
  steps o r = (if o.status.phase == phase_terminating then 1 else 2) + amount o r

  abbrev again : M E.World Result
  again = reconcile E client no_data finalize_resources reconcile_resources req

  -- A call either lets the object go, with its resources deleted, or changes its status only and
  -- leaves fewer steps.
  abbrev pub Descends : Outcome Result × Sys E.World → Object Spec Data → R → Type 0
  Descends t o r =
      ((amount o r ≡ 0) × Gives E client req S t (ok finished) (released E o) r)
      ⊎ ((st : Status Data) × (r' : R) × (Gives E client req S t (ok finished)
            (some (record o { status = st })) r')
          × Usable (record o { status = st }) r'
          × (steps (record o { status = st }) r' < steps o r))

  pub get-deleted :
      (s : Sys E.World) (o : Object Spec Data) (t : ℕ)
      → S.object s.world ≡ some o
      → o.deletion_timestamp ≡ some t
      → again s
        ≡ reconcile_deleted E client no_data finalize_resources reconcile_resources o req
            (record s { world = (client.get req s.world).1 })
  unfolding reconcile
  get-deleted s o t h marked = rw (S.get_found s.world o h) (ground arith)

  abbrev rest_of : Object Spec Data → M E.World Result
  rest_of o =
      and_then (finalize_resources o req)
        (and_then (remove_finalizer E client no_data o) (pure finished))

  amount_status :
      (o : Object Spec Data) (st : Status Data) (r : R)
      → amount (record o { status = st }) r ≡ amount o r
  amount_status o st r =
      K.amount_key (record o { status = st }) o r
        (record { name = refl; namespace = refl; uid = refl })

  module _ (s : Sys E.World) (o : Object Spec Data) (r : R) (h : Sees E client req S s (some o) r)
      (usable : Usable o r) (held : has_finalizer E o ≡ true) where
    phase-Descends :
        (o.status.phase == phase_terminating) ≡ false
        → Descends (and_then (finalize_status E client no_data o) (rest_of o) s) o r
    unfolding finalize_status terminating_status
    phase-Descends other =
        let st = terminating_status no_data o.status in
        inr (
          st,
          r,
          and_then_updated E client no_data req S (finalize_status E client no_data o) (rest_of o) s
              _ r (rw (held, other) (write_status-Gives E client no_data req S s o st r h)),
          K.usable_kept o (record o { status = st }) r
              (record { name = refl; namespace = refl; uid = refl }) refl usable,
          rw (other, amount_status o st r) (omega arith),
        )

    resource-Descends :
        (o.status.phase == phase_terminating) ≡ true → 0 < amount o r → Descends (rest_of o s) o r
    resource-Descends terminating left =
        let (st, r', g, usable', phase, lt) = K.deleting s o r h usable held left in
        inr (
          st,
          r',
          and_then_updated E client no_data req S (finalize_resources o req)
              (and_then (remove_finalizer E client no_data o) (pure finished)) s _ r' g,
          usable',
          rw (amount_status o st r', phase, terminating) (omega arith),
        )

    updated-released :
        (t : ℕ)
        → o.deletion_timestamp ≡ some t
        → updated o (record o { finalizers = E.finalizer_util.remove o.finalizers finalizer })
          ≡ released E o
    updated-released t marked = ground arith

    remove_finalizer-Gives :
        (t : ℕ) (s' : Sys E.World)
        → o.deletion_timestamp ≡ some t
        → Sees E client req S s' (some o) r
        → Gives E client req S
            (remove_finalizer E client no_data o s')
            (err object_updated)
            (released E o)
            r
    unfolding remove_finalizer
    remove_finalizer-Gives t s' marked h' =
        let p = record o { finalizers = E.finalizer_util.remove o.finalizers finalizer } in
        let (a, b, c) =
          update-Gives E client no_data req S s' o p r
            (record { name = refl; namespace = refl; uid = refl }) h' in
        rw held (a, b ∙ updated-released t marked, c)

    nothing-Descends :
        (t : ℕ) → o.deletion_timestamp ≡ some t → amount o r ≡ 0 → Descends (rest_of o s) o r
    nothing-Descends t marked none_left =
        let (a, b, c) = K.cleaned s o r h usable held none_left in
        let s' = (finalize_resources o req s).1 in
        inl (
          none_left,
          rw
              (and_then_nil (finalize_resources o req)
                (and_then (remove_finalizer E client no_data o) (pure finished)) s s' (rw a refl))
              (and_then_updated E client no_data req S (remove_finalizer E client no_data o)
                (pure finished) s' (released E o) r (remove_finalizer-Gives t s' marked (b, c))),
        )

    skip_status :
        (o.status.phase == phase_terminating) ≡ true
        → and_then (finalize_status E client no_data o) (rest_of o) s ≡ rest_of o s
    unfolding finalize_status
    skip_status terminating =
        and_then_nil (finalize_status E client no_data o) (rest_of o) s s
          (rw (held, terminating) refl)

    reconcile_deleted-Descends :
        (t : ℕ)
        → o.deletion_timestamp ≡ some t
        → Descends
            (reconcile_deleted E client no_data finalize_resources reconcile_resources o req s)
            o
            r
    unfolding reconcile_deleted
    reconcile_deleted-Descends t marked = elim (Bool-cases (o.status.phase == phase_terminating)) [
      | inr other ↦ phase-Descends other
      | inl terminating ↦ rw (skip_status terminating) (elim (zero-cases (amount o r)) [
        | inl none_left ↦ nothing-Descends t marked none_left
        | inr left ↦ resource-Descends terminating left
      ])
    ]

  -- One call of `Reconcile` on an object that is marked for deletion and holds the finalizer.
  pub reconcile-Descends :
      (s : Sys E.World) (o : Object Spec Data) (r : R) (t : ℕ)
      → Sees E client req S s (some o) r
      → Usable o r
      → o.deletion_timestamp ≡ some t
      → has_finalizer E o ≡ true
      → Descends (again s) o r
  reconcile-Descends s o r t (eo, er) usable marked held = rw (get-deleted s o t eo marked) (
      reconcile_deleted-Descends (record s { world = (client.get req s.world).1 }) o r
        (S.object-get s.world ∙ eo, S.remote-get s.world ∙ er) usable held t marked)
