-- ===== src/Lifecycle/History.antt =====
-- The objects that are stored for one resource: from its creation on, changed by its users, marked for
-- deletion, and written by the controller. A write of the controller that the API server accepts starts
-- from the object that is stored, since it checks the resource version. The users may change everything,
-- the finalizers too, but the status, which they do not write, and the deletion mark, which the API server
-- sets once a deletion is asked for and never takes back.
use influxdb_operator.Base.{ℕ, ◌≡◌, refl, sym, inl, inr, none, some, [], ◌≤◌}
use influxdb_operator.Base.{arith}
use influxdb_operator.Api.{Object, Status}
use influxdb_operator.Environment.{FinalizerUtil}
use influxdb_operator.Lifecycle.Reconcile.{is_deleted}
use influxdb_operator.Lifecycle.Machine.{Kind}
use influxdb_operator.Lifecycle.Orderly.{
  IsOrderly, Moves-IsOrderly, empty-IsOrderly, rank, Moves-rank,
}
use mathlib.Core.Path.{subst}
use influxdb_operator.Journal.{ObjectWrite, update, update_status}
use influxdb_operator.Journal.Trace.{IsOwn}

abbrev pub object_of : {O : Type 0} → ObjectWrite O → O
object_of (update p) = p
object_of (update_status p) = p

-- The status of an object that no one has written.
abbrev pub empty_status : {Data : Type 0} → Data → Status Data
empty_status no_data = record {
  phase = "";
  conditions = [];
  message = "";
  reason = "";
  values = no_data;
}

module _ (util : FinalizerUtil) {Spec Data : Type 0} (kind : Kind Data) where
  pub data History : Object Spec Data → Type 0 where
    created :
        (o : Object Spec Data)
        → o.deletion_timestamp ≡ none
        → o.status ≡ empty_status kind.no_data
        → History o
    edited :
        (o p : Object Spec Data)
        → p.deletion_timestamp ≡ o.deletion_timestamp
        → p.status ≡ o.status
        → History o
        → History p
    marked :
        (o : Object Spec Data) (time : ℕ)
        → History o
        → History (record o { deletion_timestamp = some time })
    wrote :
        (o : Object Spec Data) (x : ObjectWrite (Object Spec Data))
        → IsOwn util kind Unit o x
        → History o
        → History (object_of x)

  abbrev pub IsKept : Object Spec Data → Type 0
  IsKept o = IsOrderly kind (is_deleted o) o.status

  -- The object that a write asks for has a history again, its status is orderly, and its phase is not
  -- taken back.
  abbrev pub Follows : Object Spec Data → ObjectWrite (Object Spec Data) → Type 0
  Follows o x =
      History (object_of x)
      × IsKept (object_of x)
      × (rank kind o.status.phase ≤ rank kind (object_of x).status.phase)

  forget :
      (Done : Type 0) (o : Object Spec Data) (x : ObjectWrite (Object Spec Data))
      → IsOwn util kind Done o x
      → IsOwn util kind Unit o x
  forget Done o (update p) (inl own) = inl own
  forget Done o (update p) (inr (mark, held, terminating, done, e)) =
      inr (mark, held, terminating, tt, e)
  forget Done o (update_status p) own = own

  marked-IsKept :
      (o : Object Spec Data) (time : ℕ)
      → IsKept o
      → IsKept (record o { deletion_timestamp = some time })
  marked-IsKept o time h = record {
    sound = h.sound;
    terminating = λ _. refl;
    pending = h.pending;
    initialized = h.initialized;
    ready = h.ready;
    data_less = h.data_less;
  }

  wrote-IsKept :
      (o : Object Spec Data) (x : ObjectWrite (Object Spec Data))
      → IsOwn util kind Unit o x
      → IsKept o
      → IsKept (object_of x)
  wrote-IsKept o (update p) (inl (live, free, e)) h = rw e h
  wrote-IsKept o (update p) (inr (mark, held, terminating, done, e)) h = rw e h
  wrote-IsKept o (update_status p) (st, held, move, e) h =
      rw e (Moves-IsOrderly kind (is_deleted o) o.status h st move)

  -- Whatever the users and the controller do in turn, where the users change anything but the status and
  -- the deletion mark, and may ask for the deletion: no two conditions of the stored object have one
  -- reason, it is terminating only if it is marked for deletion, pending or ready only with the condition
  -- of its initialization, ready only with the one of its creation, and has status data only beside the
  -- latter.
  pub History-IsKept : (o : Object Spec Data) → History o → IsKept o
  History-IsKept o (History.created _ unmarked new) =
      subst (IsOrderly kind (is_deleted o)) (sym new) (empty-IsOrderly kind (is_deleted o))
  History-IsKept o (History.edited p _ e_mark e_status before) =
      rw (e_mark, e_status) (History-IsKept p before)
  History-IsKept _ (History.marked p time before) = marked-IsKept p time (History-IsKept p before)
  History-IsKept _ (History.wrote p x own before) = wrote-IsKept p x own (History-IsKept p before)

  written-rank :
      (o : Object Spec Data) (x : ObjectWrite (Object Spec Data))
      → History o
      → IsOwn util kind Unit o x
      → rank kind o.status.phase ≤ rank kind (object_of x).status.phase
  written-rank o (update p) before (inl (live, free, e)) = rw e (omega arith)
  written-rank o (update p) before (inr (mark, held, terminating, done, e)) = rw e (omega arith)
  written-rank o (update_status p) before (st, held, move, e) =
      rw e (Moves-rank kind (is_deleted o) o.status st (History-IsKept o before) move)

  pub own-Follows :
      (Done : Type 0) (o : Object Spec Data) (x : ObjectWrite (Object Spec Data))
      → History o
      → IsOwn util kind Done o x
      → Follows o x
  own-Follows Done o x before own =
      let after = History.wrote o x (forget Done o x own) before in
      (after, History-IsKept (object_of x) after, written-rank o x before (forget Done o x own))
