-- ===== src/Lifecycle/Orderly.antt =====
-- What holds of a status through every step of the machine, and the order of the phases.
use influxdb_operator.Base.{
  ℕ, String, ◌≡◌, refl, ◌∙◌, sym, inl, inr, Bool, true, false, ◌==◌, eq_refl, List, [], ◌∷◌, ◌++◌,
}
use influxdb_operator.Base.{if◌then◌else◌, ◌≤◌, arith, Bool-cases}
use influxdb_operator.Api.{Condition, Status}
use influxdb_operator.Const.{phase_pending, phase_ready, phase_terminating, reason_finalizer_added}
use influxdb_operator.Lifecycle.Conditions.{has_reason, touch, has_reason-touch, has_reason-append}
use influxdb_operator.Lifecycle.Handlers.{
  terminating_status, initial_status, deleted_status, ready_status,
}
use influxdb_operator.Lifecycle.Sound.{
  IsSound, terminating_status-IsSound, initial_status-IsSound, touched-IsSound,
  ready_status-IsSound, IsDistinct-append,
}
use influxdb_operator.Lifecycle.Machine.{Kind, Moves}

module _ {Data : Type 0} (kind : Kind Data) where
  -- Only an object that is marked for deletion is terminating. One that is pending or ready has the
  -- condition of its initialization, and one that is ready the one of its creation; status data is there
  -- only beside the latter.
  pub record IsOrderly (marked : Bool) (st : Status Data) : Type 0 where
    pub sound : IsSound st
    pub terminating : (st.phase == phase_terminating) ≡ true → marked ≡ true
    pub pending :
        (st.phase == phase_pending) ≡ true → has_reason reason_finalizer_added st.conditions ≡ true
    pub initialized :
        (st.phase == phase_ready) ≡ true → has_reason reason_finalizer_added st.conditions ≡ true
    pub ready : (st.phase == phase_ready) ≡ true → has_reason kind.created st.conditions ≡ true
    pub data_less : has_reason kind.created st.conditions ≡ false → st.values ≡ kind.no_data

  kept-append :
      (r : String) (cs : List Condition) (c : Condition)
      → has_reason r cs ≡ true
      → has_reason r (cs ++ c ∷ []) ≡ true
  kept-append r cs c h = has_reason-append r cs c ∙ ground arith

  module _ (marked : Bool) (st : Status Data) (h : IsOrderly marked st) where
    terminating_status-IsOrderly :
        marked ≡ true → IsOrderly marked (terminating_status kind.no_data st)
    unfolding terminating_status
    terminating_status-IsOrderly m = record {
      sound = terminating_status-IsSound kind.no_data st h.sound;
      terminating = λ _. m;
      pending = λ e. ground arith;
      initialized = λ e. ground arith;
      ready = λ e. ground arith;
      data_less = λ _. refl;
    }

    initial_status-IsOrderly : (time : ℕ) → IsOrderly marked (initial_status kind.no_data time)
    unfolding initial_status has_reason
    initial_status-IsOrderly time = record {
      sound = initial_status-IsSound kind.no_data time;
      terminating = λ e. ground arith;
      pending = λ _. refl;
      initialized = λ _. refl;
      ready = λ e. ground arith;
      data_less = λ _. refl;
    }

    touched-IsOrderly :
        (reason : String) (time : ℕ) (values : Data)
        → (has_reason kind.created st.conditions ≡ false → values ≡ kind.no_data)
        → IsOrderly marked
            (record st { conditions = touch reason time st.conditions; values = values })
    touched-IsOrderly reason time values known = record {
      sound = touched-IsSound kind.no_data reason time values st h.sound;
      terminating = h.terminating;
      pending =
          λ e. has_reason-touch reason reason_finalizer_added time st.conditions ∙ h.pending e;
      initialized =
          λ e. has_reason-touch reason reason_finalizer_added time st.conditions ∙ h.initialized e;
      ready = λ e. has_reason-touch reason kind.created time st.conditions ∙ h.ready e;
      data_less = λ e. known (sym (has_reason-touch reason kind.created time st.conditions) ∙ e);
    }

    deleted_status-IsOrderly :
        (text : String) (time : ℕ)
        → IsOrderly marked (deleted_status kind.no_data kind.deleted text time st)
    unfolding deleted_status
    deleted_status-IsOrderly text time = elim (Bool-cases (has_reason kind.deleted st.conditions)) [
      | inl old ↦ rw old (touched-IsOrderly kind.deleted time st.values h.data_less)
      | inr new ↦ rw new (record {
        sound = (h.sound.0, IsDistinct-append st.conditions _ new h.sound.1);
        terminating = h.terminating;
        pending = λ e. kept-append reason_finalizer_added st.conditions _ (h.pending e);
        initialized = λ e. kept-append reason_finalizer_added st.conditions _ (h.initialized e);
        ready = λ e. kept-append kind.created st.conditions _ (h.ready e);
        data_less = λ _. refl;
      })
    ]

    ready_status-IsOrderly :
        (text : String) (time : ℕ)
        → has_reason reason_finalizer_added st.conditions ≡ true
        → has_reason kind.created st.conditions ≡ false
        → IsOrderly marked (ready_status kind.no_data kind.created text time st)
    unfolding ready_status
    ready_status-IsOrderly text time old new = record {
      sound = ready_status-IsSound kind.no_data kind.created text time st new h.sound;
      terminating = λ e. ground arith;
      pending = λ e. kept-append reason_finalizer_added st.conditions _ old;
      initialized = λ e. kept-append reason_finalizer_added st.conditions _ old;
      ready = λ e. has_reason-append kind.created st.conditions _ ∙ rw (eq_refl kind.created) refl;
      data_less = λ _. refl;
    }

    pub Moves-IsOrderly : (next : Status Data) → Moves kind marked st next → IsOrderly marked next
    Moves-IsOrderly _ (Moves.terminates m other) = terminating_status-IsOrderly m
    Moves-IsOrderly _ (Moves.deletes text time m e) = deleted_status-IsOrderly text time
    Moves-IsOrderly _ (Moves.initializes time m new) = initial_status-IsOrderly time
    Moves-IsOrderly _ (Moves.completes text time m old new) =
        ready_status-IsOrderly text time old new
    Moves-IsOrderly _ (Moves.repairs time values m old made) =
        touched-IsOrderly kind.created time values (λ e. ground arith)

  pub empty-IsOrderly :
      (marked : Bool)
      → IsOrderly marked
          (record { phase = ""; conditions = []; message = ""; reason = ""; values = kind.no_data })
  empty-IsOrderly marked = record {
    sound = (inl refl, tt);
    terminating = λ e. ground arith;
    pending = λ e. ground arith;
    initialized = λ e. ground arith;
    ready = λ e. ground arith;
    data_less = λ _. refl;
  }

  -- The phases in the order in which an object goes through them.
  abbrev pub rank : String → ℕ
  rank phase =
      if phase == phase_pending
      then 1
      else if phase == phase_ready
      then 2
      else if phase == phase_terminating
      then 3
      else 0

  phase-deleted_status :
      (text : String) (time : ℕ) (st : Status Data)
      → (deleted_status kind.no_data kind.deleted text time st).phase ≡ st.phase
  unfolding deleted_status
  phase-deleted_status text time st = ground arith

  rank_below : (phase : String) → rank phase ≤ 3
  rank_below phase = ground arith

  rank_live :
      (phase : String) → ((phase == phase_terminating) ≡ true → true ≡ false) → rank phase ≤ 2
  rank_live phase other = ground arith

  pub Moves-rank :
      (marked : Bool) (st next : Status Data)
      → IsOrderly marked st
      → Moves kind marked st next
      → rank st.phase ≤ rank next.phase
  unfolding terminating_status initial_status ready_status
  Moves-rank marked st _ h (Moves.terminates m other) = rank_below st.phase
  Moves-rank marked st _ h (Moves.deletes text time m e) =
      rw (phase-deleted_status text time st) (omega arith)
  Moves-rank marked st _ h (Moves.initializes time m new) =
      ground (arith, h.pending, h.initialized, h.terminating)
  Moves-rank marked st _ h (Moves.completes text time m old new) = ground (arith, h.terminating)
  Moves-rank marked st _ h (Moves.repairs time values m old made) = omega arith
