-- ===== src/Lifecycle/Authority.antt =====
-- What `Reconcile` writes in any world, whatever the calls answer: it keeps an invariant of the world that
-- the permitted calls keep, and after a write to the object itself the call ends.
use influxdb_operator.Base.{◌≡◌, refl, ◌==◌, true, false, inl, inr}
use influxdb_operator.Base.{arith, Bool-cases}
use influxdb_operator.Errors.{GoError, ClientError, object_updated, errors_is}
use influxdb_operator.Effect.{M, Sys, Outcome, ok, err, panic, reply, refuse, pure, continue}
use influxdb_operator.Effect.Keeps.{Any, Invariants, Post, Keeps, Keeps-weaken}
use influxdb_operator.Api.{NamespacedName, Object}
use influxdb_operator.Environment.{Environment, ObjectClient}
use influxdb_operator.Const.{reason_finalizer_added, phase_terminating}
use influxdb_operator.Lifecycle.Conditions.{has_reason}
use influxdb_operator.Lifecycle.Handlers.{
  has_finalizer, finalize_status, remove_finalizer, add_finalizer, initialize_status,
}
use influxdb_operator.Lifecycle.Reconcile.{
  Result, finished, requeue_in_a_minute, stop, and_then, is_deleted, reconcile_deleted,
  reconcile_live, reconcile,
}
use influxdb_operator.Lifecycle.Machine.{Kind, IsPassed, IsSettled}
use influxdb_operator.Lifecycle.Progress.{and_then_nil}
use influxdb_operator.Lifecycle.Permitted.{
  Permits, finalize_status-Keeps, remove_finalizer-Keeps, add_finalizer-Keeps,
  initialize_status-Keeps,
}

stop-ended :
    {W : Type 0} (V : Invariants W) (e : GoError) (s : Sys W)
    → V.ended s.world
    → V.ended (stop e s).1.world
unfolding stop
stop-ended V e s h = elim (Bool-cases (errors_is e object_updated)) [
  | inl same ↦ rw same h
  | inr other ↦ rw other h
]

and_then-ended :
    {W : Type 0} (V : Invariants W) (Q : Type 0) (step : M W (Unit {0})) (rest : M W Result)
    (s : Sys W)
    → Post V (λ _. Q) (step s).0 (step s).1.world
    → (Q → (t : Sys W) → V.running t.world → V.ended (rest t).1.world)
    → V.ended (and_then step rest s).1.world
unfolding and_then
and_then-ended {W} V Q step rest s hs hr = go (step s).0 (step s).1 hs
  where
    go :
        (a : Outcome (Unit {0})) (t : Sys W)
        → Post V (λ _. Q) a t.world
        → V.ended (continue a stop (λ _. rest) t).1.world
    go (ok a) t (i, q) = hr q t i
    go (err e) t i = stop-ended V e t i
    go panic t i = i

steps-ended :
    {W : Type 0} (V : Invariants W) (Q R : Type 0) (a b c : M W (Unit {0})) (result : Result)
    (s : Sys W)
    → Keeps V (λ _. Q) a
    → (Q → Keeps V (λ _. R) b)
    → (Q → R → Keeps V Any c)
    → V.running s.world
    → V.ended (and_then a (and_then b (and_then c (pure result))) s).1.world
steps-ended V Q R a b c result s ha hb hc inv =
    and_then-ended V Q a (and_then b (and_then c (pure result))) s (ha s inv) λ q t i.
      and_then-ended V R b (and_then c (pure result)) t (hb q t i)
        λ r u j. and_then-ended V Unit c (pure result) u (hc q r u j) λ _ v. V.ends v.world

-- What follows from the return of nil.
Post-returned :
    {W : Type 0} (V : Invariants W) (D : Type 0) (a : Outcome (Unit {0})) (w : W)
    → Post V Any a w
    → (a ≡ ok tt → D)
    → Post V (λ _. D) a w
Post-returned V D (ok x) w (i, _) h = (i, h refl)
Post-returned V D (err e) w i h = i
Post-returned V D panic w i h = i

module _ (E : Environment) {Spec Data : Type 0} (client : ObjectClient E.World Spec Data)
    (kind : Kind Data) (Done : Type 0)
    (finalize_resources reconcile_resources : Object Spec Data
      → NamespacedName
      → M E.World (Unit {0}))
    (req : NamespacedName) where
  finalize_status_skips :
      (o : Object Spec Data) (s : Sys E.World)
      → has_finalizer E o ≡ true
      → (o.status.phase == phase_terminating) ≡ true
      → finalize_status E client kind.no_data o s ≡ (ok tt, s)
  unfolding finalize_status
  finalize_status_skips o s held passed = rw (held, passed) refl

  deleted-ended :
      (V : Invariants E.World) (o : Object Spec Data)
      → Permits E client V kind Done o
      → is_deleted o ≡ true
      → (IsPassed E o → Keeps V Any (finalize_resources o req))
      → (s : Sys E.World)
      → (has_finalizer E o ≡ true → (finalize_resources o req s).0 ≡ ok tt → Done)
      → V.running s.world
      → V.ended
          (reconcile_deleted E client kind.no_data finalize_resources reconcile_resources o req
            s).1.world
  unfolding reconcile_deleted
  deleted-ended V o P marked hf s hd inv =
      let Q : Type 0 = has_finalizer E o ≡ true → Done in
      let remove = remove_finalizer E client kind.no_data o in
      let steps = λ (h : IsPassed E o → Keeps V (λ _. Q) (finalize_resources o req)).
        steps-ended V (IsPassed E o) Q (finalize_status E client kind.no_data o)
          (finalize_resources o req) remove finished s
          (finalize_status-Keeps E client V kind Done o P marked) h
          (remove_finalizer-Keeps E client V kind Done o P marked) inv in
      elim (Bool-cases (has_finalizer E o)) [
        | inr free ↦ steps λ passed.
            Keeps-weaken V Any (λ _. Q) (finalize_resources o req) (λ _ _ held. ground arith)
              (hf passed)
        | inl held ↦ elim (Bool-cases (o.status.phase == phase_terminating)) [
          | inr other ↦ steps λ passed. absurd (ground arith)
          | inl passed ↦
              rw
                (and_then_nil (finalize_status E client kind.no_data o)
                  (and_then (finalize_resources o req) (and_then remove (pure finished))) s s
                  (finalize_status_skips o s held passed))
                (and_then-ended V Done (finalize_resources o req) (and_then remove (pure finished))
                  s (Post-returned V Done _ _ (hf (λ _. passed) s inv) (hd held))
                  λ done t i.
                    and_then-ended V Unit remove (pure finished) t
                      (remove_finalizer-Keeps E client V kind Done o P marked (λ _. passed)
                        (λ _. done) t i)
                      λ _ v. V.ends v.world)
        ]
      ]

  live-ended :
      (V : Invariants E.World) (o : Object Spec Data)
      → Permits E client V kind Done o
      → is_deleted o ≡ false
      → (IsSettled E o → Keeps V Any (reconcile_resources o req))
      → (s : Sys E.World) → V.running s.world
      → V.ended
          (reconcile_live E client kind.no_data finalize_resources reconcile_resources o req
            s).1.world
  unfolding reconcile_live
  live-ended V o P live hr s =
      steps-ended V (has_finalizer E o ≡ true)
        (has_reason reason_finalizer_added o.status.conditions ≡ true)
        (add_finalizer E client kind.no_data o) (initialize_status E client kind.no_data o)
        (reconcile_resources o req) requeue_in_a_minute s
        (add_finalizer-Keeps E client V kind Done o P live)
        (λ _. initialize_status-Keeps E client V kind Done o P live)
        (λ held old. hr (record { live = live; held = held; initialized = old }))

  -- Where the object was read, `Reconcile` keeps the invariants that the permitted writes and the two
  -- functions of the kind keep, if `FinalizeResources`, where it returns nil after the object is read, has
  -- made sure of `Done`.
  pub reconcile-ended :
      (V : Invariants E.World) (o : Object Spec Data) (s : Sys E.World)
      → Permits E client V kind Done o
      → (is_deleted o ≡ true → IsPassed E o → Keeps V Any (finalize_resources o req))
      → (is_deleted o ≡ true
          → has_finalizer E o ≡ true
          → (finalize_resources o req (record s { world = (client.get req s.world).1 })).0 ≡ ok tt
          → Done)
      → (IsSettled E o → Keeps V Any (reconcile_resources o req))
      → (client.get req s.world).0 ≡ reply o
      → V.running (client.get req s.world).1
      → V.ended
          (reconcile E client kind.no_data finalize_resources reconcile_resources req s).1.world
  unfolding reconcile
  reconcile-ended V o s P hf hd hr e inv = rw e (elim (Bool-cases (is_deleted o)) [
    | inl marked ↦ rw marked (deleted-ended V o P marked (hf marked) _ (hd marked) inv)
    | inr live ↦ rw live (live-ended V o P live hr _ inv)
  ])

  -- Where it was not, nothing else is called.
  pub reconcile_unread :
      (s : Sys E.World) (e : ClientError)
      → (client.get req s.world).0 ≡ refuse e
      → (reconcile E client kind.no_data finalize_resources reconcile_resources req s).1.world
        ≡ (client.get req s.world).1
  unfolding reconcile
  reconcile_unread s e h = ground arith
