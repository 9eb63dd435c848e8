-- ===== src/Lifecycle/Safety.antt =====
-- What `Reconcile` guarantees in any world, whatever the calls return: how errors come out, and what is
-- called before what. The kind's `FinalizeResources` and `ReconcileResources` may be any functions.
use influxdb_operator.Base.{
  ◌≡◌, ◌≢◌, refl, ◌∙◌, ◌⊎◌, inl, inr, true, false, ◌==◌, arith, if◌then◌else◌, Bool-cases,
}
use influxdb_operator.Errors.{
  GoError, client as client_error, errors_is, object_updated, errors_is-iff_updated, ClientError,
}
use influxdb_operator.Effect.{
  M, Sys, Outcome, ok, err, panic, Reply, reply, refuse, call, ◌>>◌, continue, pure, throw,
}
use influxdb_operator.Api.{NamespacedName, Object}
use influxdb_operator.Environment.{Environment, ObjectClient}
use influxdb_operator.Const.{finalizer, phase_terminating}
use influxdb_operator.Lifecycle.Handlers.{
  has_finalizer, finalize_status, remove_finalizer, add_finalizer, initialize_status, write_status,
  terminating_status,
}
use influxdb_operator.Lifecycle.Reconcile.{
  Result, finished, requeue_in_a_minute, stop, and_then, reconcile_live, reconcile_deleted,
  is_deleted, reconcile,
}

-- The outcome is not the error `ObjectUpdated`.
abbrev pub IsProper : {A : Type 0} → Outcome A → Type 0
IsProper o = o ≢ err object_updated

stop-IsProper : {W : Type 0} (e : GoError) (s : Sys W) → IsProper (stop e s).0
unfolding stop
stop-IsProper e s = elim (Bool-cases (errors_is e object_updated)) [
  | inl same ↦ rw same (λ h. cc)
  | inr other ↦ rw other (λ h. ground (arith, errors_is-iff_updated e))
]

and_then-IsProper :
    {W : Type 0} (step : M W (Unit {0})) (rest : M W Result) (s : Sys W)
    → ((t : Sys W) → IsProper (rest t).0)
    → IsProper (and_then step rest s).0
unfolding and_then
and_then-IsProper {W} step rest s k = go (step s).0 (step s).1
  where
    go : (o : Outcome (Unit {0})) (t : Sys W) → IsProper (continue o stop (λ _. rest) t).0
    go (ok tt) t = k t
    go (err e) t = stop-IsProper e t
    go panic t = λ h. cc

pure-IsProper : {A W : Type 0} (a : A) (s : Sys W) → IsProper (pure a s).0
pure-IsProper a s h = cc

pub Reply-cases :
    {A : Type 0} (m : Reply A) → ((a : A) × (m ≡ reply a)) ⊎ ((e : ClientError) × (m ≡ refuse e))
Reply-cases (reply a) = inl (a, refl)
Reply-cases (refuse e) = inr (e, refl)

-- What a write makes of the call.
abbrev pub written : Reply (Unit {0}) → Outcome Result
written (reply tt) = ok finished
written (refuse e) = err (client_error e)

-- What follows from the result of `FinalizeResources`, with the state that it left: `next` only if it
-- returned nil.
abbrev pub gated :
    {W : Type 0} → Outcome (Unit {0}) → Sys W → Outcome Result × Sys W → Outcome Result × Sys W
gated (ok _) t next = next
gated (err e) t next = (if errors_is e object_updated then ok finished else err e, t)
gated panic t next = (panic, t)

module _ (E : Environment) {Spec Data : Type 0} (client : ObjectClient E.World Spec Data)
    (no_data : Data)
    (finalize_resources reconcile_resources : Object Spec Data
      → NamespacedName
      → M E.World (Unit {0}))
    (req : NamespacedName) (s : Sys E.World) where
  -- The state after `Get`.
  abbrev read : Sys E.World
  read = record s { world = (client.get req s.world).1 }

  abbrev deleted : Object Spec Data → M E.World Result
  deleted o = reconcile_deleted E client no_data finalize_resources reconcile_resources o req

  abbrev live : Object Spec Data → M E.World Result
  live o = reconcile_live E client no_data finalize_resources reconcile_resources o req

  pub get-deleted :
      (o : Object Spec Data)
      → (client.get req s.world).0 ≡ reply o
      → is_deleted o ≡ true
      → reconcile E client no_data finalize_resources reconcile_resources req s ≡ deleted o read
  unfolding reconcile
  get-deleted o found marked = rw found (rw marked)

  pub get-live :
      (o : Object Spec Data)
      → (client.get req s.world).0 ≡ reply o
      → is_deleted o ≡ false
      → reconcile E client no_data finalize_resources reconcile_resources req s ≡ live o read
  unfolding reconcile
  get-live o found unmarked = rw found (rw unmarked)

  deleted-IsProper : (o : Object Spec Data) (t : Sys E.World) → IsProper (deleted o t).0
  unfolding reconcile_deleted
  deleted-IsProper o t =
      and_then-IsProper (finalize_status E client no_data o)
        (and_then (finalize_resources o req)
          (and_then (remove_finalizer E client no_data o) (pure finished)))
        t
        (λ t₁.
          and_then-IsProper (finalize_resources o req)
            (and_then (remove_finalizer E client no_data o) (pure finished)) t₁
            (λ t₂.
              and_then-IsProper (remove_finalizer E client no_data o) (pure finished) t₂
                (λ t₃. pure-IsProper finished t₃)))

  live-IsProper : (o : Object Spec Data) (t : Sys E.World) → IsProper (live o t).0
  unfolding reconcile_live
  live-IsProper o t =
      and_then-IsProper (add_finalizer E client no_data o)
        (and_then (initialize_status E client no_data o)
          (and_then (reconcile_resources o req) (pure requeue_in_a_minute)))
        t
        (λ t₁.
          and_then-IsProper (initialize_status E client no_data o)
            (and_then (reconcile_resources o req) (pure requeue_in_a_minute)) t₁
            (λ t₂.
              and_then-IsProper (reconcile_resources o req) (pure requeue_in_a_minute) t₂
                (λ t₃. pure-IsProper requeue_in_a_minute t₃)))

  -- Whatever the calls and the steps return, `Reconcile` never returns the error `ObjectUpdated`.
  pub reconcile-IsProper :
      IsProper (reconcile E client no_data finalize_resources reconcile_resources req s).0
  reconcile-IsProper = elim (Reply-cases (client.get req s.world).0) [
    | inr (e, missing) ↦ unfold reconcile in rw missing (ground arith)
    | inl (o, found) ↦ elim (Bool-cases (is_deleted o)) [
      | inl marked ↦ rw (get-deleted o found marked) (deleted-IsProper o read)
      | inr unmarked ↦ rw (get-live o found unmarked) (live-IsProper o read)
    ]
  ]

  -- A step that only writes the object ends the call with the answer to the write.
  write_ends :
      (write : E.World → Reply (Unit {0}) × E.World) (rest : M E.World Result) (t : Sys E.World)
      → and_then (call write >> throw object_updated) rest t
        ≡ (written (write t.world).0, record t { world = (write t.world).1 })
  unfolding and_then errors_is
  write_ends write rest t = ground arith

  -- A live object without the finalizer: the call reads the object, updates it with the finalizer
  -- added, and ends. Nothing else is called, in InfluxDB or elsewhere, and the cache stays.
  pub finalizer_first :
      (o : Object Spec Data)
      → (client.get req s.world).0 ≡ reply o
      → is_deleted o ≡ false
      → has_finalizer E o ≡ false
      → let p = record o { finalizers = E.finalizer_util.add o.finalizers finalizer } in
        let (answer, w) = client.update p (client.get req s.world).1 in
        reconcile E client no_data finalize_resources reconcile_resources req s
        ≡ (written answer, record s { world = w })
  unfolding reconcile_live add_finalizer
  finalizer_first o found unmarked absent =
      let p = record o { finalizers = E.finalizer_util.add o.finalizers finalizer } in
      get-live o found unmarked ∙ rw absent (write_ends (client.update p) _ read)

  -- An object that is marked for deletion and holds the finalizer, but is not in the phase
  -- `terminating`: the call reads it, writes the terminating status, and ends.
  pub terminating_first :
      (o : Object Spec Data)
      → (client.get req s.world).0 ≡ reply o
      → is_deleted o ≡ true
      → has_finalizer E o ≡ true
      → (o.status.phase == phase_terminating) ≡ false
      → let p = record o { status = terminating_status no_data o.status } in
        let (answer, w) = client.update_status p (client.get req s.world).1 in
        reconcile E client no_data finalize_resources reconcile_resources req s
        ≡ (written answer, record s { world = w })
  unfolding reconcile_deleted finalize_status write_status
  terminating_first o found marked held phase =
      let p = record o { status = terminating_status no_data o.status } in
      get-deleted o found marked ∙ rw (held, phase) (write_ends (client.update_status p) _ read)

  gates :
      (finalize : M E.World (Unit {0})) (write : E.World → Reply (Unit {0}) × E.World)
      (t : Sys E.World)
      → and_then finalize (and_then (call write >> throw object_updated) (pure finished)) t ≡ (
          let t' = (finalize t).1 in
          gated
            (finalize t).0
            t'
            (written (write t'.world).0, record t' { world = (write t'.world).1 }))
  unfolding and_then errors_is
  gates finalize write t = ground arith

  -- An object that is marked for deletion, holds the finalizer and is terminating: if
  -- `FinalizeResources` fails, the call ends there with its error, and the finalizer is not touched;
  -- only if it returns nil, the finalizer is removed, and that ends the call.
  pub finalizer_last :
      (o : Object Spec Data)
      → (client.get req s.world).0 ≡ reply o
      → is_deleted o ≡ true
      → has_finalizer E o ≡ true
      → (o.status.phase == phase_terminating) ≡ true
      → let (result, t) = finalize_resources o req read in
        let p = record o { finalizers = E.finalizer_util.remove o.finalizers finalizer } in
        let (answer, w) = client.update p t.world in
        reconcile E client no_data finalize_resources reconcile_resources req s
        ≡ gated result t (written answer, record t { world = w })
  unfolding reconcile_deleted finalize_status remove_finalizer
  finalizer_last o found marked held phase =
      let p = record o { finalizers = E.finalizer_util.remove o.finalizers finalizer } in
      get-deleted o found marked
      ∙ rw (held, phase) (gates (finalize_resources o req) (client.update p) read)
