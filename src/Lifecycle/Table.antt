-- ===== src/Lifecycle/Table.antt =====
-- `Reconcile` as a table: the answer to `Get` decides on one step. Its definition in the code is a chain
-- of handlers, each of which looks at the object again and may end the call.
use influxdb_operator.Base.{
  ◌≡◌, refl, ◌∙◌, sym, Bool, true, false, ◌==◌, inl, inr, arith, Bool-cases,
}
use influxdb_operator.Base.{if◌then◌else◌}
use influxdb_operator.Errors.{client as client_error, errors_is, object_updated}
use influxdb_operator.Effect.{
  M, Sys, Outcome, Reply, reply, refuse, call, ask, pure, throw, ◌>>=◌, ◌>>◌,
}
use influxdb_operator.Api.{NamespacedName, Object}
use influxdb_operator.Environment.{Environment, ObjectClient}
use influxdb_operator.Const.{finalizer, phase_terminating, reason_finalizer_added}
use influxdb_operator.Lifecycle.Conditions.{has_reason}
use influxdb_operator.Lifecycle.Handlers.{
  has_finalizer, finalize_status, remove_finalizer, add_finalizer, initialize_status, write_status,
  terminating_status, initial_status,
}
use influxdb_operator.Lifecycle.Reconcile.{
  Result, finished, requeue_in_a_minute, and_then, stop, reconcile_live, reconcile_deleted,
  is_deleted, reconcile,
}
use influxdb_operator.Lifecycle.Safety.{
  written, gated, Reply-cases, get-deleted, get-live, finalizer_first, terminating_first,
  finalizer_last,
}
use influxdb_operator.Lifecycle.Progress.{
  and_then_nil, add_finalizer_skips, initialize_status_skips,
}

-- The steps. Three only write the object: `terminate` its status, `hold` the finalizer, `initialize` its
-- status. The others run a function of the kind: `clean` and `pass` run `FinalizeResources`, of which
-- `clean` then takes the finalizer away, and `maintain` runs `ReconcileResources`.
pub data Step : Type 0 where
  terminate clean pass hold initialize maintain : Step

-- By whether the object is marked for deletion, holds the finalizer, is in the phase `terminating`, and
-- has its first condition.
unfoldable pub choose : Bool → Bool → Bool → Bool → Step
choose true true false initialized = terminate
choose true true true initialized = clean
choose true false terminating initialized = pass
choose false false terminating initialized = hold
choose false true terminating false = initialize
choose false true terminating true = maintain

abbrev pub step_of : (E : Environment) {Spec Data : Type 0} → Object Spec Data → Step
step_of E o =
    choose (is_deleted o) (has_finalizer E o) (o.status.phase == phase_terminating)
      (has_reason reason_finalizer_added o.status.conditions)

module _ {W : Type 0} where
  -- A write that ends the call.
  abbrev pub last : (W → Reply (Unit {0}) × W) → M W Result
  last f s = let (r, w) = f s.world in (written r, record s { world = w })

  -- What follows a function of the kind, if that returns nil.
  abbrev pub guarded : M W (Unit {0}) → M W Result → M W Result
  guarded m rest s = let (r, t) = m s in gated r t (rest t)

module _ (E : Environment) {Spec Data : Type 0} (client : ObjectClient E.World Spec Data)
    (no_data : Data)
    (finalize_resources reconcile_resources : Object Spec Data
      → NamespacedName
      → M E.World (Unit {0}))
    (req : NamespacedName) where
  unfoldable pub perform : Object Spec Data → Step → M E.World Result
  perform o terminate =
      last (client.update_status (record o { status = terminating_status no_data o.status }))
  perform o clean = guarded (finalize_resources o req) (
      last
        (client.update (record o { finalizers = E.finalizer_util.remove o.finalizers finalizer })))
  perform o pass = guarded (finalize_resources o req) (pure finished)
  perform o hold =
      last (client.update (record o { finalizers = E.finalizer_util.add o.finalizers finalizer }))
  perform o initialize = ask E.now >>= λ time.
      last (client.update_status (record o { status = initial_status no_data time }))
  perform o maintain = guarded (reconcile_resources o req) (pure requeue_in_a_minute)

  unfoldable pub answer : Reply (Object Spec Data) → M E.World Result
  unfolding perform
  answer (reply o) = perform o (step_of E o)
  answer (refuse e) = if e.not_found then pure finished else throw (client_error e)

  unfoldable pub table : M E.World Result
  unfolding answer
  table s = let (r, w) = client.get req s.world in answer r (record s { world = w })

  -- A function of the kind, with what follows.
  and_then-guarded :
      (m : M E.World (Unit {0})) (rest : M E.World Result) (t : Sys E.World)
      → and_then m rest t ≡ guarded m rest t
  unfolding and_then stop
  and_then-guarded m rest t = ground arith

  -- A write is followed by nothing.
  and_then-last :
      (f : E.World → Reply (Unit {0}) × E.World) (rest : M E.World Result) (t : Sys E.World)
      → and_then (call f >> throw object_updated) rest t ≡ last f t
  unfolding and_then stop errors_is
  and_then-last f rest t = ground arith

  module _ (s : Sys E.World) (o : Object Spec Data)
      (found : (client.get req s.world).0 ≡ reply o) where
    abbrev read : Sys E.World
    read = record s { world = (client.get req s.world).1 }

    abbrev again : Outcome Result × Sys E.World
    again = reconcile E client no_data finalize_resources reconcile_resources req s

    abbrev maintained : M E.World Result
    maintained = and_then (reconcile_resources o req) (pure requeue_in_a_minute)

    passed : is_deleted o ≡ true → has_finalizer E o ≡ false → again ≡ perform o pass read
    unfolding reconcile_deleted finalize_status remove_finalizer perform
    passed marked free =
        get-deleted E client no_data finalize_resources reconcile_resources req s o found marked
        ∙ rw free (and_then-guarded (finalize_resources o req) (pure finished) read)

    skip_finalizer :
        is_deleted o ≡ false
        → has_finalizer E o ≡ true
        → again ≡ and_then (initialize_status E client no_data o) maintained read
    unfolding reconcile_live
    skip_finalizer live held =
        get-live E client no_data finalize_resources reconcile_resources req s o found live
        ∙ and_then_nil (add_finalizer E client no_data o)
            (and_then (initialize_status E client no_data o) maintained) read read
            (add_finalizer_skips E client no_data o read held)

    initialized :
        is_deleted o ≡ false
        → has_finalizer E o ≡ true
        → has_reason reason_finalizer_added o.status.conditions ≡ false
        → again ≡ perform o initialize read
    unfolding initialize_status write_status perform and_then
    initialized live held fresh =
        let (time, w) = E.now read.world in
        skip_finalizer live held
        ∙ rw (held, fresh)
            (and_then-last
              (client.update_status (record o { status = initial_status no_data time })) maintained
              (record read { world = w }))

    settled :
        is_deleted o ≡ false
        → has_finalizer E o ≡ true
        → has_reason reason_finalizer_added o.status.conditions ≡ true
        → again ≡ perform o maintain read
    unfolding perform
    settled live held old =
        skip_finalizer live held
        ∙ (and_then_nil (initialize_status E client no_data o) maintained read read
              (initialize_status_skips E client no_data o read held old)
            ∙ and_then-guarded (reconcile_resources o req) (pure requeue_in_a_minute) read)

    chosen : again ≡ perform o (step_of E o) read
    unfolding choose perform
    chosen = elim (Bool-cases (is_deleted o)) [
      | inl marked ↦ elim (Bool-cases (has_finalizer E o)) [
        | inr free ↦ rw (marked, free) (passed marked free)
        | inl held ↦ elim (Bool-cases (o.status.phase == phase_terminating)) [
          | inr other ↦
              rw (marked, held, other)
                (terminating_first E client no_data finalize_resources reconcile_resources req s o
                  found marked held other)
          | inl terminating ↦
              rw (marked, held, terminating)
                (finalizer_last E client no_data finalize_resources reconcile_resources req s o
                  found marked held terminating)
        ]
      ]
      | inr live ↦ elim (Bool-cases (has_finalizer E o)) [
        | inr free ↦
            rw (live, free)
              (finalizer_first E client no_data finalize_resources reconcile_resources req s o found
                live free)
        | inl held ↦ elim (Bool-cases (has_reason reason_finalizer_added o.status.conditions)) [
          | inr fresh ↦ rw (live, held, fresh) (initialized live held fresh)
          | inl old ↦ rw (live, held, old) (settled live held old)
        ]
      ]
    ]

  pub table-reply :
      (s : Sys E.World) (o : Object Spec Data)
      → (client.get req s.world).0 ≡ reply o
      → table s ≡ perform o (step_of E o) (record s { world = (client.get req s.world).1 })
  unfolding table answer
  table-reply s o found = rw found refl

  -- In any world, whatever the calls and the functions of the kind answer, `Reconcile` does exactly what
  -- the table says.
  pub reconcile-table :
      (s : Sys E.World)
      → reconcile E client no_data finalize_resources reconcile_resources req s ≡ table s
  reconcile-table s = elim (Reply-cases (client.get req s.world).0) [
    | inr (e, missing) ↦ unfold reconcile table answer in rw missing refl
    | inl (o, found) ↦ chosen s o found ∙ sym (table-reply s o found)
  ]
