-- ===== src/Lifecycle/Sound.antt =====
-- Statuses that the controllers may write: a phase of const.go, or none yet, and no two conditions with
-- one reason.
use influxdb_operator.Base.{
  ℕ, String, ◌≡◌, refl, ◌∙◌, ◌⊎◌, inl, inr, false, ◌==◌, eq_iff, List, [], ◌∷◌, ◌++◌,
}
use influxdb_operator.Base.{arith, Bool-cases}
use influxdb_operator.Api.{Condition, Status}
use influxdb_operator.Const.{phase_pending, phase_ready, phase_terminating}
use influxdb_operator.Lifecycle.Conditions.{has_reason, touch, has_reason-touch, has_reason-append}
use influxdb_operator.Lifecycle.Handlers.{
  terminating_status, initial_status, deleted_status, ready_status,
}

-- No two conditions have one reason.
abbrev pub IsDistinct : List Condition → Type 0
IsDistinct [] = Unit
IsDistinct (c ∷ cs) = (has_reason c.reason cs ≡ false) × IsDistinct cs

abbrev pub IsPhase : String → Type 0
IsPhase p = (p ≡ "") ⊎ ((p ≡ phase_pending) ⊎ ((p ≡ phase_ready) ⊎ (p ≡ phase_terminating)))

abbrev pub IsSound : {Data : Type 0} → Status Data → Type 0
IsSound st = IsPhase st.phase × IsDistinct st.conditions

IsDistinct-touch :
    (reason : String) (time : ℕ) (cs : List Condition)
    → IsDistinct cs
    → IsDistinct (touch reason time cs)
unfolding touch
IsDistinct-touch reason time [] h = tt
IsDistinct-touch reason time (c ∷ cs) (new, h) = elim (Bool-cases (c.reason == reason)) [
  | inl same ↦ rw same (new, h)
  | inr other ↦
      rw other (has_reason-touch reason c.reason time cs ∙ new, IsDistinct-touch reason time cs h)
]

has_reason-split :
    (d c : Condition) (cs : List Condition)
    → has_reason c.reason (d ∷ cs) ≡ false
    → ((d.reason == c.reason) ≡ false) × (has_reason c.reason cs ≡ false)
unfolding has_reason
has_reason-split d c cs h = ground arith

pub IsDistinct-append :
    (cs : List Condition) (c : Condition)
    → has_reason c.reason cs ≡ false
    → IsDistinct cs
    → IsDistinct (cs ++ c ∷ [])
unfolding has_reason
IsDistinct-append [] c new h = (refl, tt)
IsDistinct-append (d ∷ cs) c new (fresh, h) =
    let (apart, later) = has_reason-split d c cs new in
    (
      has_reason-append d.reason cs c
          ∙ ground (arith, eq_iff c.reason d.reason, eq_iff d.reason c.reason),
      IsDistinct-append cs c later h,
    )

module _ {Data : Type 0} (no_data : Data) where
  pub terminating_status-IsSound :
      (st : Status Data) → IsSound st → IsSound (terminating_status no_data st)
  unfolding terminating_status
  terminating_status-IsSound st (phase, distinct) = (inr (inr (inr refl)), distinct)

  pub initial_status-IsSound : (time : ℕ) → IsSound (initial_status no_data time)
  unfolding initial_status has_reason
  initial_status-IsSound time = (inr (inl refl), (refl, tt))

  pub touched-IsSound :
      (reason : String) (time : ℕ) (values : Data) (st : Status Data)
      → IsSound st
      → IsSound (record st { conditions = touch reason time st.conditions; values = values })
  touched-IsSound reason time values st (phase, distinct) =
      (phase, IsDistinct-touch reason time st.conditions distinct)

  pub ready_status-IsSound :
      (reason text : String) (time : ℕ) (st : Status Data)
      → has_reason reason st.conditions ≡ false
      → IsSound st
      → IsSound (ready_status no_data reason text time st)
  unfolding ready_status
  ready_status-IsSound reason text time st new (phase, distinct) =
      (inr (inr (inl refl)), IsDistinct-append st.conditions _ new distinct)

  pub deleted_status-IsSound :
      (reason text : String) (time : ℕ) (st : Status Data)
      → IsSound st
      → IsSound (deleted_status no_data reason text time st)
  unfolding deleted_status
  deleted_status-IsSound reason text time st (phase, distinct) =
      elim (Bool-cases (has_reason reason st.conditions)) [
        | inl old ↦ rw old (phase, IsDistinct-touch reason time st.conditions distinct)
        | inr new ↦ rw new (phase, IsDistinct-append st.conditions _ new distinct)
      ]
