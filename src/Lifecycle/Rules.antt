-- ===== src/Lifecycle/Rules.antt =====
-- Rules to follow a chain of calls under a healthy server: each call returns a known value and keeps
-- what is stored and seen, and the rest of the chain starts from there.
use influxdb_operator.Base.{ℕ, String, ◌≡◌, refl, ◌∙◌, Bool, true, false, Option, some, ◌==◌}
use influxdb_operator.Base.{if◌then◌else◌, arith, Bool-cases, inl, inr, eq_refl}
use influxdb_operator.Errors.{GoError, object_updated}
use influxdb_operator.Effect.{M, Sys, Outcome, ok, err, Reply, outcome, call, check}
use influxdb_operator.Api.{NamespacedName, Object, Status}
use influxdb_operator.Environment.{Environment, ObjectClient, InfluxOrganization}
use influxdb_operator.Limiter.{is_due}
use influxdb_operator.Base.Dict.{lookup}
use influxdb_operator.Const.{day}
use influxdb_operator.Lifecycle.Conditions.{has_reason, touch, has_reason-touch, has_reason-append}
use influxdb_operator.Lifecycle.Handlers.{mark_created, ready_status, mark_deleted, deleted_status}
use influxdb_operator.Lifecycle.Connect.{log_daily, valid_id, need_valid_id}
use influxdb_operator.Lifecycle.Server.{IsServer, Sees, Gives}
use influxdb_operator.Lifecycle.Progress.{write_status-Gives}

module _ (E : Environment) {Spec Data : Type 0} (client : ObjectClient E.World Spec Data)
    (req : NamespacedName) {R : Type 0} (S : IsServer E client req R) where
  pub check-ok :
      {A B : Type 0} (P : Outcome B × Sys E.World → Type 0) (m : M E.World A)
      (handler : GoError → M E.World B) (rest : A → M E.World B) (s : Sys E.World) (a : A)
      (o : Option (Object Spec Data)) (r : R)
      → Gives E client req S (m s) (ok a) o r
      → ((s' : Sys E.World) → Sees E client req S s' o r → P (rest a s'))
      → P (check m handler rest s)
  check-ok P m handler rest s a o r (e, eo, er) k = rw e (k (m s).1 (eo, er))

  pub check-err :
      {A B : Type 0} (P : Outcome B × Sys E.World → Type 0) (m : M E.World A)
      (handler : GoError → M E.World B) (rest : A → M E.World B) (s : Sys E.World) (x : GoError)
      (o : Option (Object Spec Data)) (r : R)
      → Gives E client req S (m s) (err x) o r
      → ((s' : Sys E.World) → Sees E client req S s' o r → P (handler x s'))
      → P (check m handler rest s)
  check-err P m handler rest s x o r (e, eo, er) k = rw e (k (m s).1 (eo, er))

  pub call-Gives :
      {A : Type 0} (f : E.World → Reply A × E.World) (s : Sys E.World) (a : Reply A)
      (o : Option (Object Spec Data)) (r : R)
      → (f s.world).0 ≡ a
      → S.object (f s.world).1 ≡ o
      → S.remote (f s.world).1 ≡ r
      → Gives E client req S (call f s) (outcome a) o r
  call-Gives f s a o r e eo er = rw e (refl, eo, er)

  -- Reading the clock and logging at most once a day keep all that is stored and seen.
  pub log_daily-Gives :
      (name : String) (s : Sys E.World) (o : Option (Object Spec Data)) (r : R)
      → Sees E client req S s o r
      → Gives E client req S (log_daily E name s) (ok tt) o r
  unfolding log_daily
  log_daily-Gives name s o r (eo, er) =
      elim (Bool-cases (is_due (lookup name s.cache) day (E.now s.world).0)) [
        | inl due ↦
            rw due
              (refl, S.object-now _ ∙ (S.object-now _ ∙ eo), S.remote-now _ ∙ (S.remote-now _ ∙ er))
        | inr early ↦ rw early (refl, S.object-now _ ∙ eo, S.remote-now _ ∙ er)
      ]

pub need_valid_id_lem :
    (E : Environment) (organization : Option InfluxOrganization) (id : String) (s : Sys E.World)
    → valid_id organization ≡ some id
    → need_valid_id E organization s ≡ (ok id, s)
unfolding need_valid_id
need_valid_id_lem E organization id s valid = rw (valid, need_valid_id)

-- The status that is written for a resource has its reason, and the other reasons that it had.
has_reason-ready_status :
    {Data : Type 0} (no_data : Data) (reason text q : String) (time : ℕ) (st : Status Data)
    → has_reason q (ready_status no_data reason text time st).conditions
      ≡ (if reason == q then true else has_reason q st.conditions)
unfolding ready_status
has_reason-ready_status no_data reason text q time st = has_reason-append q st.conditions _

module _ (E : Environment) {Spec Data : Type 0} (client : ObjectClient E.World Spec Data)
    (no_data : Data) (req : NamespacedName) {R : Type 0} (S : IsServer E client req R)
    (reason text : String) (values : Data) (s : Sys E.World) (o : Object Spec Data) (r : R)
    (h : Sees E client req S s (some o) r) where
  pub mark_created_settled :
      has_reason reason o.status.conditions ≡ true
      → Gives E client req S
          (mark_created E client no_data reason text false values o s)
          (ok tt)
          (some o)
          r
  unfolding mark_created
  mark_created_settled old = rw old (refl, h.0, h.1)

  abbrev pub Recorded : Outcome (Unit {0}) × Sys E.World → Type 0
  Recorded t =
      (st : Status Data) × (Gives E client req S t (err object_updated)
        (some (record o { status = st })) r)
      × (has_reason reason st.conditions ≡ true)
      × ((q : String)
          → (reason == q) ≡ false
          → has_reason q st.conditions ≡ has_reason q o.status.conditions)

  clock-Sees : Sees E client req S (record s { world = (E.now s.world).1 }) (some o) r
  clock-Sees = (S.object-now s.world ∙ h.0, S.remote-now s.world ∙ h.1)

  pub mark_created_first :
      (created : Bool)
      → has_reason reason o.status.conditions ≡ false
      → Recorded (mark_created E client no_data reason text created values o s)
  unfolding mark_created
  mark_created_first created fresh =
      let st = ready_status no_data reason text (E.now s.world).0 o.status in
      (
        st,
        rw fresh (
            write_status-Gives E client no_data req S (record s { world = (E.now s.world).1 }) o st
              r clock-Sees),
        has_reason-ready_status no_data reason text reason _ o.status ∙ rw eq_refl,
        λ q ne. has_reason-ready_status no_data reason text q _ o.status ∙ rw ne,
      )

  pub mark_created_again :
      has_reason reason o.status.conditions ≡ true
      → Recorded (mark_created E client no_data reason text true values o s)
  unfolding mark_created
  mark_created_again old =
      let cs = touch reason (E.now s.world).0 o.status.conditions in
      let st = record o.status { conditions = cs; values = values } in
      (
        st,
        rw old (
            write_status-Gives E client no_data req S (record s { world = (E.now s.world).1 }) o st
              r clock-Sees),
        has_reason-touch reason reason _ o.status.conditions ∙ old,
        λ q _. has_reason-touch reason q _ o.status.conditions,
      )

-- The status that is written for a deleted resource keeps the phase.
deleted_status-phase :
    {Data : Type 0} (no_data : Data) (reason text : String) (time : ℕ) (st : Status Data)
    → (deleted_status no_data reason text time st).phase ≡ st.phase
unfolding deleted_status
deleted_status-phase no_data reason text time st = ground arith

module _ (E : Environment) {Spec Data : Type 0} (client : ObjectClient E.World Spec Data)
    (no_data : Data) (req : NamespacedName) {R : Type 0} (S : IsServer E client req R) where
  pub mark_deleted-Gives :
      (reason text : String) (s : Sys E.World) (o : Object Spec Data) (r : R)
      → Sees E client req S s (some o) r
      → (st : Status Data) × (st.phase ≡ o.status.phase)
        × Gives E client req S
            (mark_deleted E client no_data reason text o s)
            (err object_updated)
            (some (record o { status = st }))
            r
  unfolding mark_deleted
  mark_deleted-Gives reason text s o r h =
      let st = deleted_status no_data reason text (E.now s.world).0 o.status in
      (
        st,
        deleted_status-phase no_data reason text _ o.status,
        write_status-Gives E client no_data req S (record s { world = (E.now s.world).1 }) o st r
            (S.object-now s.world ∙ h.0, S.remote-now s.world ∙ h.1),
      )
