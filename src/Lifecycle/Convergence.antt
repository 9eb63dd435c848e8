-- ===== src/Lifecycle/Convergence.antt =====
-- Repeated calls of `Reconcile` on a live object, under a healthy server.
use influxdb_operator.Base.{
  ℕ, zero, suc, ◌≤◌, ◌<◌, String, ◌≡◌, refl, Bool, true, false, none, some,
}
use influxdb_operator.Base.{◌⊎◌, inl, inr, ◌&&◌, arith, Bool-cases, ◌∙◌}
use influxdb_operator.Effect.{M, Sys, Outcome, ok, pure}
use influxdb_operator.Api.{NamespacedName, Object, Status}
use influxdb_operator.Environment.{Environment, ObjectClient}
use influxdb_operator.Const.{finalizer, reason_finalizer_added}
use influxdb_operator.Lifecycle.Conditions.{has_reason}
use influxdb_operator.Lifecycle.Handlers.{
  has_finalizer, add_finalizer, initialize_status, initial_status,
}
use influxdb_operator.Lifecycle.Reconcile.{
  Result, finished, requeue_in_a_minute, and_then, reconcile_live, reconcile, repeat,
}
use influxdb_operator.Lifecycle.Server.{IsServer, SameKey, SameKey-refl, SameKey-trans, Sees, Gives}
use influxdb_operator.Lifecycle.Progress.{
  add_finalizer-Gives, initialize_status-Gives, and_then_updated, and_then_synced, and_then_last,
  and_then_nil, add_finalizer_skips, initialize_status_skips,
}
use influxdb_operator.Lifecycle.Sync.{rank, IsSync, rank_bounded, rank_initialized}

module _ (E : Environment) {Spec Data : Type 0} (client : ObjectClient E.World Spec Data)
    (no_data : Data) (req : NamespacedName) {R : Type 0} (S : IsServer E client req R)
    (finalize_resources reconcile_resources : Object Spec Data
      → NamespacedName
      → M E.World (Unit {0}))
    (created : String) (Usable : Object Spec Data → R → Type 0)
    (present : Object Spec Data → R → Bool)
    (K : IsSync E client req S reconcile_resources created Usable present) where
  abbrev pub object_rank : Object Spec Data → R → ℕ
  object_rank o r =
      rank (has_finalizer E o) (has_reason reason_finalizer_added o.status.conditions)
        (has_reason created o.status.conditions && present o r)

  -- A call that finds nothing to do asks for another one in a minute; any other call ends without an
  -- error and leaves a live object that needs fewer steps.
  abbrev pub Advances : Outcome Result × Sys E.World → Object Spec Data → R → Type 0
  Advances t o r =
      ((object_rank o r ≡ 0) × Gives E client req S t (ok requeue_in_a_minute) (some o) r)
      ⊎ ((x : Result) × (o' : Object Spec Data) × (r' : R) × Gives E client req S t (ok x) (some o')
            r'
          × SameKey o' o
          × (o'.spec ≡ o.spec)
          × (o'.deletion_timestamp ≡ none)
          × Usable o' r'
          × (object_rank o' r' < object_rank o r))

  get-reconcile :
      (s : Sys E.World) (o : Object Spec Data)
      → S.object s.world ≡ some o
      → o.deletion_timestamp ≡ none
      → reconcile E client no_data finalize_resources reconcile_resources req s
        ≡ reconcile_live E client no_data finalize_resources reconcile_resources o req
            (record s { world = (client.get req s.world).1 })
  unfolding reconcile
  get-reconcile s o h live = rw (S.get_found s.world o h) (ground arith)

  module _ (s : Sys E.World) (o : Object Spec Data) (r : R) (h : Sees E client req S s (some o) r)
      (usable : Usable o r) (live : o.deletion_timestamp ≡ none) where
    present_key :
        (p : Object Spec Data) (st : Status Data) (x : R)
        → present p x ≡ present (record p { status = st }) x
    present_key p st x =
        K.present_key p (record p { status = st }) x
          (record { name = refl; namespace = refl; uid = refl })

    abbrev rest_of : M E.World Result
    rest_of = and_then (reconcile_resources o req) (pure requeue_in_a_minute)

    unfinalized-Advances :
        has_finalizer E o ≡ false
        → Advances
            (reconcile_live E client no_data finalize_resources reconcile_resources o req s)
            o
            r
    unfolding reconcile_live rank
    unfinalized-Advances absent = inr (
      finished,
      record o { finalizers = E.finalizer_util.add o.finalizers finalizer },
      r,
      and_then_updated E client no_data req S (add_finalizer E client no_data o)
          (and_then (initialize_status E client no_data o) rest_of) s _ r
          (add_finalizer-Gives E client no_data req S s o r h live absent),
      record { name = refl; namespace = refl; uid = refl },
      refl,
      live,
      K.usable_kept o (record o { finalizers = E.finalizer_util.add o.finalizers finalizer }) r
          (record { name = refl; namespace = refl; uid = refl }) refl usable,
      rw (absent, S.contains-add o.finalizers) (rank_bounded _ _),
    )

    uninitialized-Advances :
        has_finalizer E o ≡ true
        → has_reason reason_finalizer_added o.status.conditions ≡ false
        → Advances (and_then (initialize_status E client no_data o) rest_of s) o r
    unfolding rank initial_status has_reason
    uninitialized-Advances found fresh = inr (
      finished,
      record o { status = initial_status no_data (E.now s.world).0 },
      r,
      and_then_updated E client no_data req S (initialize_status E client no_data o) rest_of s _ r
          (initialize_status-Gives E client no_data req S s o r h found fresh),
      record { name = refl; namespace = refl; uid = refl },
      refl,
      live,
      K.usable_kept o (record o { status = initial_status no_data (E.now s.world).0 }) r
          (record { name = refl; namespace = refl; uid = refl }) refl usable,
      rw (found, fresh) (rank_initialized _),
    )

    initialized-Advances :
        has_finalizer E o ≡ true
        → has_reason reason_finalizer_added o.status.conditions ≡ true
        → Advances (rest_of s) o r
    unfolding rank
    initialized-Advances found old =
        elim (Bool-cases (has_reason created o.status.conditions && present o r)) [
          | inl ready ↦ inl (
            rw (found, old, ready) refl,
            and_then_last E client no_data req S (reconcile_resources o req) requeue_in_a_minute s
                (some o) r (K.settled s o r h usable found ready),
          )
          | inr missing ↦
              let (a, st, r', g, how, usable', ready, kept) =
                K.pending s o r h usable found missing in
              let (x, g') =
                and_then_synced E client no_data req S (reconcile_resources o req) s _ r' a g how in
              inr (
                x,
                record o { status = st },
                r',
                g',
                record { name = refl; namespace = refl; uid = refl },
                refl,
                live,
                usable',
                rw (found, old, missing, kept, old, ← present_key o st r', ready) (omega arith),
              )
        ]

    skip_finalizer :
        has_finalizer E o ≡ true
        → reconcile_live E client no_data finalize_resources reconcile_resources o req s
          ≡ and_then (initialize_status E client no_data o) rest_of s
    unfolding reconcile_live
    skip_finalizer found =
        and_then_nil (add_finalizer E client no_data o)
          (and_then (initialize_status E client no_data o) rest_of) s s
          (add_finalizer_skips E client no_data o s found)

    skip_status :
        has_finalizer E o ≡ true
        → has_reason reason_finalizer_added o.status.conditions ≡ true
        → and_then (initialize_status E client no_data o) rest_of s ≡ rest_of s
    skip_status found old =
        and_then_nil (initialize_status E client no_data o) rest_of s s
          (initialize_status_skips E client no_data o s found old)

    reconcile_live-Advances :
        Advances
          (reconcile_live E client no_data finalize_resources reconcile_resources o req s)
          o
          r
    reconcile_live-Advances = elim (Bool-cases (has_finalizer E o)) [
      | inr absent ↦ unfinalized-Advances absent
      | inl found ↦ elim (Bool-cases (has_reason reason_finalizer_added o.status.conditions)) [
        | inr fresh ↦ rw (skip_finalizer found) (uninitialized-Advances found fresh)
        | inl old ↦
            rw (skip_finalizer found ∙ skip_status found old) (initialized-Advances found old)
      ]
    ]

  -- One call of `Reconcile` on a live object, under a healthy server with all that the kind needs.
  pub reconcile-Advances :
      (s : Sys E.World) (o : Object Spec Data) (r : R)
      → Sees E client req S s (some o) r
      → Usable o r
      → o.deletion_timestamp ≡ none
      → Advances (reconcile E client no_data finalize_resources reconcile_resources req s) o r
  reconcile-Advances s o r (eo, er) usable live = rw (get-reconcile s o eo live) (
      reconcile_live-Advances (record s { world = (client.get req s.world).1 }) o r
        (S.object-get s.world ∙ eo, S.remote-get s.world ∙ er) usable live)

  abbrev again : M E.World Result
  again = reconcile E client no_data finalize_resources reconcile_resources req

  -- After as many calls as the object needs steps, and after any more, all is there: the object is
  -- live with its finalizer and its conditions, and its resource exists.
  pub repeat-settled :
      (n : ℕ) (s : Sys E.World) (o : Object Spec Data) (r : R)
      → Sees E client req S s (some o) r
      → Usable o r
      → o.deletion_timestamp ≡ none
      → object_rank o r ≤ n
      → (o' : Object Spec Data) × (r' : R) × (Sees E client req S (repeat n again s) (some o') r')
        × SameKey o' o
        × (o'.spec ≡ o.spec)
        × Usable o' r'
        × (o'.deletion_timestamp ≡ none)
        × (object_rank o' r' ≡ 0)
  unfolding repeat
  repeat-settled zero s o r h usable live le =
      (o, r, h, SameKey-refl o, refl, usable, live, omega arith)
  repeat-settled (suc n) s o r h usable live le = elim (reconcile-Advances s o r h usable live) [
    | inl (done, g) ↦ repeat-settled n _ o r (g.1, g.2) usable live (omega arith)
    | inr (x, o', r', g, key, spec, live', usable', lt) ↦
        let (o'', r'', h'', key', spec', usable'', live'', done) =
          repeat-settled n _ o' r' (g.1, g.2) usable' live' (omega arith) in
        (o'', r'', h'', SameKey-trans key' key, spec' ∙ spec, usable'', live'', done)
  ]

  -- Once all is there, any number of calls changes neither the object nor what is seen of the rest.
  pub repeat-fixed :
      (n : ℕ) (s : Sys E.World) (o : Object Spec Data) (r : R)
      → Sees E client req S s (some o) r
      → Usable o r
      → o.deletion_timestamp ≡ none
      → object_rank o r ≡ 0
      → Sees E client req S (repeat n again s) (some o) r
  unfolding repeat
  repeat-fixed zero s o r h usable live done = h
  repeat-fixed (suc n) s o r h usable live done = elim (reconcile-Advances s o r h usable live) [
    | inl (_, g) ↦ repeat-fixed n _ o r (g.1, g.2) usable live done
    | inr (x, o', r', g, key, spec, live', usable', lt) ↦ absurd (omega arith)
  ]
