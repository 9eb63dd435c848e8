-- ===== src/Lifecycle/Requeue.antt =====
-- When `Reconcile` asks for another call.
use influxdb_operator.Base.{
  ◌≡◌, ◌≢◌, refl, ◌∙◌, sym, ap, ◌↔◌, inl, inr, Bool, true, false, ◌==◌, arith,
}
use influxdb_operator.Base.{if◌then◌else◌, Bool-cases}
use influxdb_operator.Errors.{
  GoError, ClientError, client as client_error, errors_is, object_updated,
}
use influxdb_operator.Effect.{M, Sys, Outcome, ok, err, panic, Reply, reply, refuse}
use influxdb_operator.Api.{NamespacedName, Object}
use influxdb_operator.Environment.{Environment, ObjectClient}
use influxdb_operator.Const.{phase_terminating, reason_finalizer_added}
use influxdb_operator.Lifecycle.Conditions.{has_reason}
use influxdb_operator.Lifecycle.Handlers.{has_finalizer}
use influxdb_operator.Lifecycle.Reconcile.{
  Result, finished, requeue_in_a_minute, is_deleted, reconcile,
}
use influxdb_operator.Lifecycle.Safety.{written, gated, Reply-cases}
use influxdb_operator.Lifecycle.Table.{
  Step, terminate, clean, pass, hold, initialize, maintain, choose, step_of, perform, answer, table,
  reconcile-table, table-reply,
}

-- The call asks to be made again in a minute.
abbrev pub IsAgain : Outcome Result → Type 0
IsAgain r = r ≡ ok requeue_in_a_minute

ok-inj : {A : Type 0} {a b : A} → Outcome.ok a ≡ ok b → a ≡ b
ok-inj e = cc

finished-ends : finished ≢ requeue_in_a_minute
finished-ends e = ground (arith, ap (λ r. r.requeue) e)

written-ends : (r : Reply (Unit {0})) → IsAgain (written r) → ⊥
written-ends (reply tt) e = finished-ends (ok-inj e)
written-ends (refuse x) e = cc

stopped-ends : (b : Bool) (x : GoError) → IsAgain (if b then ok finished else err x) → ⊥
stopped-ends true x e = finished-ends (ok-inj e)
stopped-ends false x e = cc

gated-ends :
    {W : Type 0} (r : Outcome (Unit {0})) (t : Sys W) (next : Outcome Result × Sys W)
    → IsAgain (gated r t next).0
    → IsAgain next.0 × (r ≡ ok tt)
gated-ends (ok u) t next e = (e, refl)
gated-ends (err x) t next e = absurd (stopped-ends (errors_is x object_updated) x e)
gated-ends panic t next e = cc

choose-maintain :
    (marked held terminating initialized : Bool)
    → choose marked held terminating initialized ≡ maintain
    → (marked ≡ false) × (held ≡ true) × (initialized ≡ true)
unfolding choose
choose-maintain marked held terminating initialized e = ground arith

module _ (E : Environment) {Spec Data : Type 0} (client : ObjectClient E.World Spec Data)
    (no_data : Data)
    (finalize_resources reconcile_resources : Object Spec Data
      → NamespacedName
      → M E.World (Unit {0}))
    (req : NamespacedName) where
  perform-again :
      (o : Object Spec Data) (step : Step) (t : Sys E.World)
      → IsAgain (perform E client no_data finalize_resources reconcile_resources req o step t).0
      → (step ≡ maintain) × ((reconcile_resources o req t).0 ≡ ok tt)
  unfolding perform
  perform-again o terminate t e = absurd (written-ends _ e)
  perform-again o clean t e = absurd (
      written-ends _
        (gated-ends (finalize_resources o req t).0 (finalize_resources o req t).1 _ e).0)
  perform-again o pass t e = absurd (
      finished-ends
        (ok-inj (gated-ends (finalize_resources o req t).0 (finalize_resources o req t).1 _ e).0))
  perform-again o hold t e = absurd (written-ends _ e)
  perform-again o initialize t e = absurd (written-ends _ e)
  perform-again o maintain t e =
      (refl, (gated-ends (reconcile_resources o req t).0 (reconcile_resources o req t).1 _ e).1)

  module _ (s : Sys E.World) where
    abbrev pub again : Outcome Result
    again = (reconcile E client no_data finalize_resources reconcile_resources req s).0

    -- The object that was read is live, initialized and holds the finalizer, and `ReconcileResources`
    -- returns nil for it.
    abbrev pub IsMaintained : Type 0
    IsMaintained =
        (o : Object Spec Data) × ((client.get req s.world).0 ≡ reply o)
        × (is_deleted o ≡ false)
        × (has_finalizer E o ≡ true)
        × (has_reason reason_finalizer_added o.status.conditions ≡ true)
        × ((reconcile_resources o req (record s { world = (client.get req s.world).1 })).0 ≡ ok tt)

    abbrev read : Sys E.World
    read = record s { world = (client.get req s.world).1 }

    tabled :
        reconcile E client no_data finalize_resources reconcile_resources req s
        ≡ table E client no_data finalize_resources reconcile_resources req s
    tabled = reconcile-table E client no_data finalize_resources reconcile_resources req s

    chosen :
        (o : Object Spec Data)
        → (client.get req s.world).0 ≡ reply o
        → again
          ≡ (perform E client no_data finalize_resources reconcile_resources req o
              (step_of E o)
              read).0
    chosen o found =
        ap (λ r. r.0)
          (tabled
            ∙ table-reply E client no_data finalize_resources reconcile_resources req s o found)

    unread :
        {x : ClientError}
        → (client.get req s.world).0 ≡ refuse x
        → (table E client no_data finalize_resources reconcile_resources req s).0
          ≡ (if x.not_found then ok finished else err (client_error x))
    unfolding table answer
    unread {x} missing =
        rw missing
          (elim (Bool-cases x.not_found) [ inl gone ↦ rw gone refl | inr other ↦ rw other refl ])

    again_maintained : IsAgain again → IsMaintained
    again_maintained e = elim (Reply-cases (client.get req s.world).0) [
      | inr (x, missing) ↦ absurd (
          stopped-ends x.not_found (client_error x)
            (sym (unread missing) ∙ (sym (ap (λ r. r.0) tabled) ∙ e)))
      | inl (o, found) ↦
          let (step, nil) = perform-again o (step_of E o) read (sym (chosen o found) ∙ e) in
          let (live, held, old) =
            choose-maintain (is_deleted o) (has_finalizer E o) (o.status.phase == phase_terminating)
              (has_reason reason_finalizer_added o.status.conditions) step in
          (o, found, live, held, old, nil)
    ]

    maintained_again : IsMaintained → IsAgain again
    unfolding perform choose
    maintained_again (o, found, live, held, old, nil) =
        chosen o found ∙ rw (live, held, old, nil) refl

    -- In any world, `Reconcile` asks for another call in a minute exactly if it has read an object that is
    -- live and initialized and holds the finalizer, and `ReconcileResources` returns nil for it.
    pub again_iff : IsAgain again ↔ IsMaintained
    again_iff = (again_maintained, maintained_again)
