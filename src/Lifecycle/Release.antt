-- ===== src/Lifecycle/Release.antt =====
-- Calls of `Reconcile` on an object that is marked for deletion, until it is let go, and after that.
use influxdb_operator.Base.{
  String, ℕ, zero, suc, ◌≤◌, ◌≡◌, refl, true, false, none, some, List, [], ◌∷◌,
}
use influxdb_operator.Base.{◌⊎◌, inl, inr, arith, ◌∙◌}
use influxdb_operator.Effect.{M, Sys, ok}
use influxdb_operator.Api.{NamespacedName, Object, Status}
use influxdb_operator.Environment.{Environment, ObjectClient}
use influxdb_operator.Const.{finalizer}
use influxdb_operator.Lifecycle.Handlers.{has_finalizer, finalize_status, remove_finalizer}
use influxdb_operator.Lifecycle.Reconcile.{
  Result, finished, and_then, reconcile_deleted, reconcile, repeat,
}
use influxdb_operator.Lifecycle.Server.{IsServer, Sees, Gives}
use influxdb_operator.Lifecycle.Cleanup.{IsCleanup}
use influxdb_operator.Lifecycle.Deletion.{released, reconcile-Descends, get-deleted}
use influxdb_operator.Lifecycle.Deletion

module _ (E : Environment) {Spec Data : Type 0} (client : ObjectClient E.World Spec Data)
    (no_data : Data) (req : NamespacedName) {R : Type 0} (S : IsServer E client req R)
    (finalize_resources reconcile_resources : Object Spec Data
      → NamespacedName
      → M E.World (Unit {0}))
    (Usable : Object Spec Data → R → Type 0) (amount : Object Spec Data → R → ℕ)
    (K : IsCleanup E client req S finalize_resources Usable amount) where
  abbrev again : M E.World Result
  again = reconcile E client no_data finalize_resources reconcile_resources req

  abbrev pub steps : Object Spec Data → R → ℕ
  steps =
      Deletion.steps E client no_data req S finalize_resources reconcile_resources Usable amount K

  -- Nothing of the name is stored: the call ends.
  missing-Gives :
      (s : Sys E.World) (r : R)
      → Sees E client req S s none r
      → Gives E client req S (again s) (ok finished) none r
  unfolding reconcile
  missing-Gives s r (eo, er) =
      let (e, refused, missing) = S.get_missing s.world eo in
      rw (refused, missing) (refl, S.object-get s.world ∙ eo, S.remote-get s.world ∙ er)

  -- Without the finalizer, a call on an object that is marked for deletion does nothing.
  without_finalizer-Gives :
      (s : Sys E.World) (o : Object Spec Data) (r : R) (t : ℕ)
      → Sees E client req S s (some o) r
      → o.deletion_timestamp ≡ some t
      → has_finalizer E o ≡ false
      → Gives E client req S (again s) (ok finished) (some o) r
  unfolding reconcile_deleted finalize_status remove_finalizer and_then
  without_finalizer-Gives s o r t (eo, er) marked free =
      let s' = record s { world = (client.get req s.world).1 } in
      rw
        (
          get-deleted E client no_data req S finalize_resources reconcile_resources Usable amount K
              s o t eo marked,
          free,
          K.skipped s' o free,
        )
        (refl, S.object-get s.world ∙ eo, S.remote-get s.world ∙ er)

  -- What `released` leaves, by the finalizers that are left.
  left_of :
      (o : Object Spec Data)
      → (released E o ≡ none)
        ⊎ ((p : Object Spec Data) × (released E o ≡ some p)
            × (p.deletion_timestamp ≡ o.deletion_timestamp)
            × (has_finalizer E p ≡ false))
  left_of o = go (E.finalizer_util.remove o.finalizers finalizer) refl
    where
      go :
          (fs : List String)
          → E.finalizer_util.remove o.finalizers finalizer ≡ fs
          → (released E o ≡ none)
            ⊎ ((p : Object Spec Data) × (released E o ≡ some p)
                × (p.deletion_timestamp ≡ o.deletion_timestamp)
                × (has_finalizer E p ≡ false))
      go [] e = inl (rw (released, e) refl)
      go (f ∷ fs) e = inr (
        record o { finalizers = f ∷ fs },
        rw (released, e) refl,
        refl,
        rw (← e, S.contains-remove o.finalizers) refl,
      )

  released-Gives :
      (s : Sys E.World) (o : Object Spec Data) (r : R) (t : ℕ)
      → Sees E client req S s (released E o) r
      → o.deletion_timestamp ≡ some t
      → Gives E client req S (again s) (ok finished) (released E o) r
  released-Gives s o r t h marked = elim (left_of o) [
    | inl gone ↦ rw gone (missing-Gives s r (h.0 ∙ gone, h.1))
    | inr (p, kept, same, free) ↦
        rw kept (without_finalizer-Gives s p r t (h.0 ∙ kept, h.1) (same ∙ marked) free)
  ]

  repeat-released :
      (n : ℕ) (s : Sys E.World) (o : Object Spec Data) (r : R) (t : ℕ)
      → Sees E client req S s (released E o) r
      → o.deletion_timestamp ≡ some t
      → Sees E client req S (repeat n again s) (released E o) r
  unfolding repeat
  repeat-released zero s o r t h marked = h
  repeat-released (suc n) s o r t h marked =
      let (_, eo, er) = released-Gives s o r t h marked in
      repeat-released n (again s).1 o r t (eo, er) marked

  -- After as many calls as the object needs, and after any more, its resources are deleted and the object
  -- is let go.
  pub repeat-lets_go :
      (n : ℕ) (s : Sys E.World) (o : Object Spec Data) (r : R) (t : ℕ)
      → Sees E client req S s (some o) r
      → Usable o r
      → o.deletion_timestamp ≡ some t
      → has_finalizer E o ≡ true
      → steps o r ≤ n
      → (st : Status Data) × (r' : R) × Sees E client req S
          (repeat n again s)
          (released E (record o { status = st }))
          r'
        × Usable (record o { status = st }) r'
        × (amount o r' ≡ 0)
  unfolding repeat
  repeat-lets_go zero s o r t h usable marked held le = absurd (ground arith)
  repeat-lets_go (suc n) s o r t h usable marked held le =
      elim (reconcile-Descends E client no_data req S finalize_resources reconcile_resources Usable
        amount K s o r t h usable marked held) [
          | inl (none_left, g) ↦ (
            o.status,
            r,
            repeat-released n (again s).1 o r t (g.1, g.2) marked,
            usable,
            none_left,
          )
          | inr (st, r', g, usable', lt) ↦
              let (st', r'', h'', usable'', none_left) =
                repeat-lets_go n (again s).1 (record o { status = st }) r' t (g.1, g.2) usable'
                  marked held (omega arith) in
              (
                st',
                r'',
                h'',
                usable'',
                K.amount_key o (record o { status = st }) r''
                      (record { name = refl; namespace = refl; uid = refl })
                    ∙ none_left,
              )
        ]
