-- ===== src/Token/History.antt =====
-- The Tokens that the controller stores, over the whole life of one.
use influxdb_operator.Base.{◌≡◌, inl, inr}
use mathlib.Core.List.{Memᴰ}
use influxdb_operator.Effect.{Sys, reply}
use influxdb_operator.Api.{NamespacedName, Token}
use influxdb_operator.Environment.{Environment}
use influxdb_operator.Lifecycle.History.{History, Follows, own-Follows}
use influxdb_operator.Journal.{ObjectWrite, token, journal, recorded}
use influxdb_operator.Journal.Trace.{IsTrace-mem}
use influxdb_operator.Token.Writes.{kind, IsGone, IsStep, IsLast}
use influxdb_operator.Token.Authority.{token-IsTrace}
use influxdb_operator.Token.Defs.{reconcile}

-- In any world, whatever the calls answer: if the Token that `Reconcile` reads is one that can be
-- stored, after changes by its users of anything but the status and the deletion mark, a request of its
-- deletion and writes of the controller, then so is every one that the call asks the API server to
-- store. No two conditions of that one have one reason; it is terminating only if it is marked for
-- deletion, pending or ready only with the condition of its initialization, and ready only with the one
-- of its creation, and has status data only beside the latter; and its phase is not an earlier one than
-- that of the Token that was read, in the order none, pending, ready, terminating.
pub token-Follows :
    (E : Environment) (req : NamespacedName) (s : Sys E.World) (o : Token) (x : ObjectWrite Token)
    → (E.tokens.get req s.world).0 ≡ reply o
    → History E.finalizer_util kind o
    → Memᴰ (token x) (reconcile (journal E) req (recorded s)).1.world.writes
    → Follows E.finalizer_util kind o x
token-Follows E req s o x read before asked =
    let Gone = IsGone E req o (E.tokens.get req s.world).1 in
    elim (IsTrace-mem (IsStep E o) (IsLast E Gone o) asked (token-IsTrace E req s o read)) [
      | inl step ↦ absurd step
      | inr own ↦ own-Follows E.finalizer_util kind Gone o x before own
    ]
