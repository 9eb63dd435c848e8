-- ===== src/Journal/Trace.antt =====
-- The writes of one call of `Reconcile`: steps of the kind, and at most one write to the object itself,
-- which comes last.
use influxdb_operator.Base.{◌==◌, ◌≡◌, refl, ◌⊎◌, inl, inr, false, true, List, [], ◌∷◌, All}
use influxdb_operator.Effect.{Reply}
use mathlib.Core.List.{Memᴰ}
use mathlib.Core.Path.{subst, sym}
use influxdb_operator.Effect.Keeps.{Any, Replies-Any, Replies, Invariants, Allows}
use influxdb_operator.Api.{Object, Status}
use influxdb_operator.Environment.{Environment, ObjectClient, FinalizerUtil}
use influxdb_operator.Const.{finalizer, phase_terminating}
use influxdb_operator.Lifecycle.Reconcile.{is_deleted}
use influxdb_operator.Lifecycle.Machine.{Kind, Moves}
use influxdb_operator.Lifecycle.Reads.{Reads}
use influxdb_operator.Lifecycle.Permitted.{Permits}
use influxdb_operator.Journal.{
  ObjectWrite, update, update_status, Write, Journaled, reading, writing, object_client, journal,
}

-- The permitted writes to the object `o` that was read: the finalizer is added to a live object that
-- lacks it, or removed from a terminating one that holds it once `Done` holds, and nothing else is changed;
-- or the object holds the finalizer and its status is changed, by a step of the machine.
abbrev pub IsOwn :
    FinalizerUtil
    → {Spec Data : Type 0} → Kind Data
    → Type 0
    → Object Spec Data
    → ObjectWrite (Object Spec Data)
    → Type 0
IsOwn util kind Done o (update p) =
    ((is_deleted o ≡ false)
      × (util.contains o.finalizers finalizer ≡ false)
      × (p ≡ record o { finalizers = util.add o.finalizers finalizer }))
    ⊎ ((is_deleted o ≡ true)
        × (util.contains o.finalizers finalizer ≡ true)
        × ((o.status.phase == phase_terminating) ≡ true)
        × Done
        × (p ≡ record o { finalizers = util.remove o.finalizers finalizer }))
IsOwn util {Spec} {Data} kind Done o (update_status p) =
    (st : Status Data) × (util.contains o.finalizers finalizer ≡ true)
    × Moves kind (is_deleted o) o.status st
    × (p ≡ record o { status = st })

module _ (IsStep IsLast : Write → Type 0) where
  -- The latest write comes first.
  abbrev pub IsTrace : List Write → Type 0
  IsTrace [] = Unit
  IsTrace (x ∷ xs) = (IsStep x ⊎ IsLast x) × All IsStep xs

  pub IsTrace-All : (xs : List Write) → All IsStep xs → IsTrace xs
  IsTrace-All [] h = tt
  IsTrace-All (x ∷ xs) (h, rest) = (inl h, rest)

  All-mem : {x : Write} {xs : List Write} → Memᴰ x xs → All IsStep xs → IsStep x
  All-mem (Memᴰ.head e) (h, rest) = subst IsStep (sym e) h
  All-mem (Memᴰ.tail m) (h, rest) = All-mem m rest

  -- Every write of a trace is permitted.
  pub IsTrace-mem : {x : Write} {xs : List Write} → Memᴰ x xs → IsTrace xs → IsStep x ⊎ IsLast x
  IsTrace-mem (Memᴰ.head e) (h, rest) = subst (λ y. IsStep y ⊎ IsLast y) (sym e) h
  IsTrace-mem (Memᴰ.tail m) (h, rest) = inl (All-mem m rest)

  abbrev pub trace : {W : Type 0} → Invariants (Journaled W)
  trace = record {
    running = λ j. All IsStep j.writes;
    ended = λ j. IsTrace j.writes;
    ends = λ j. IsTrace-All j.writes;
  }

  module _ {W A : Type 0} where
    pub reading-Allows :
        (Q : A → Type 0) (f : W → Reply A × W)
        → ((w : W) → Replies Q (f w).0)
        → Allows trace Q (reading f)
    reading-Allows Q f h j inv = (inv, h j.world)

    pub writing-Allows :
        (x : Write) (f : W → Reply A × W) → IsStep x → Allows trace Any (writing x f)
    writing-Allows x f step j inv = ((step, inv), Replies-Any _)

  pub journal-Reads : (E : Environment) → Reads (journal E) trace
  journal-Reads E = record {
    now = λ j inv. inv;
    get_config = λ n. reading-Allows Any (E.get_config n) (λ w. Replies-Any _);
    get_secret = λ n. reading-Allows Any (E.secrets.get n) (λ w. Replies-Any _);
    find_organization = λ k name.
        reading-Allows Any (E.influx.find_organization_by_name k name) (λ w. Replies-Any _);
  }

  -- Writes of a kind are permitted where its own writes may come last.
  pub journal-Permits :
      (E : Environment) {Spec Data : Type 0} (client : ObjectClient E.World Spec Data)
      (write : ObjectWrite (Object Spec Data) → Write) (kind : Kind Data) (Done : Type 0)
      (o : Object Spec Data)
      → ((x : ObjectWrite (Object Spec Data))
          → IsOwn E.finalizer_util kind Done o x
          → IsLast (write x))
      → Permits (journal E) (object_client write client) trace kind Done o
  journal-Permits E client write kind Done o h = record {
    now = λ j inv. inv;
    finalizer_added = λ live free j inv. (inr (h (update _) (inl (live, free, refl))), inv);
    finalizer_removed = λ leaving done j inv. (
      inr (h (update _) (inr (leaving.marked, leaving.held, leaving.terminating, done, refl))),
      inv,
    );
    status_written = λ st held move j inv. (inr (h (update_status _) (st, held, move, refl)), inv);
  }
