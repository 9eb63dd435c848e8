-- ===== src/Token/Converges.antt =====
-- A live Token under healthy servers, and repeated calls of `Reconcile`.
use influxdb_operator.Base.{ℕ, ◌≤◌, ◌≡◌, none, some}
use influxdb_operator.Effect.{Sys, ok}
use influxdb_operator.Api.{NamespacedName, Token}
use influxdb_operator.Environment.{Environment}
use influxdb_operator.Const.{reason_created_token}
use influxdb_operator.Lifecycle.Reconcile.{repeat, requeue_in_a_minute}
use influxdb_operator.Lifecycle.Server.{IsServer, SameKey, Sees}
use influxdb_operator.Lifecycle.Rest.{both, Recorded-Pending, repeat-IsDone, repeat-rests}
use influxdb_operator.Lifecycle.Rest
use influxdb_operator.Token.Defs.{finalize_resources, reconcile_resources, reconcile}
use influxdb_operator.Token.Server.{Remote, IsInflux, present}
use influxdb_operator.Token.Present.{Needs}
use influxdb_operator.Token.Sync.{token-IsSync}

module _ (E : Environment) (req config_name secret_name : NamespacedName)
    (S : IsServer E E.tokens req Remote) (I : IsInflux E req config_name secret_name S) where
  -- All that a live Token should have: its finalizer, its conditions, an authorization with its
  -- description, and the Secret with the token of that authorization.
  abbrev pub IsDone : Token → Remote → Type 0
  IsDone =
      Rest.IsDone E E.tokens none req S reason_created_token
        (Needs E req config_name secret_name S I) present

  pub token-IsDone :
      (n : ℕ) (s : Sys E.World) (o : Token) (r : Remote)
      → Sees E E.tokens req S s (some o) r
      → Needs E req config_name secret_name S I o r
      → o.deletion_timestamp ≡ none
      → 3 ≤ n
      → (o' : Token) × (r' : Remote) × (Sees E E.tokens req S
          (repeat n (reconcile E req) s)
          (some o')
          r')
        × SameKey o' o
        × (o'.spec ≡ o.spec)
        × (o'.deletion_timestamp ≡ none)
        × IsDone o' r'
  unfolding reconcile
  token-IsDone =
      repeat-IsDone E E.tokens none req S reason_created_token
        (Needs E req config_name secret_name S I) present (finalize_resources E)
        (reconcile_resources E) (token-IsSync E req config_name secret_name S I)

  -- Once a live Token with such permissions has all that, a call of `Reconcile` under these servers asks
  -- for another call in a minute, and any number of calls leaves the Token, the authorizations and the
  -- Secret as they are.
  pub token-rests :
      (n : ℕ) (s : Sys E.World) (o : Token) (r : Remote)
      → Sees E E.tokens req S s (some o) r
      → Needs E req config_name secret_name S I o r
      → o.deletion_timestamp ≡ none
      → IsDone o r
      → ((reconcile E req s).0 ≡ ok requeue_in_a_minute)
        × Sees E E.tokens req S (repeat n (reconcile E req) s) (some o) r
  unfolding reconcile
  token-rests =
      repeat-rests E E.tokens none req S reason_created_token
        (Needs E req config_name secret_name S I) present (finalize_resources E)
        (reconcile_resources E) (token-IsSync E req config_name secret_name S I)
