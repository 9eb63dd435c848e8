-- ===== src/Effect.antt =====
-- What the controllers' functions do: they call the outside world, they return a value or an
-- `error`, or they panic on a nil pointer. The world and the cache of limiter.go stay as the calls
-- left them, whatever is returned. A Go function whose only result is an `error` returns
-- `ok tt` for nil.
pub mod Keeps
pub mod Returns
use influxdb_operator.Base.{Option, none, some}
use influxdb_operator.Errors.{GoError, client, ClientError}
use influxdb_operator.Limiter.{Cache}

-- The result of a call of a client library.
pub data Reply {ℓ} (A : Type ℓ) : Type ℓ where
  reply : A → Reply A
  refuse : ClientError → Reply A

pub data Outcome {ℓ} (A : Type ℓ) : Type ℓ where
  ok : A → Outcome A
  err : GoError → Outcome A
  panic : Outcome A

pub record Sys (W : Type 0) : Type 0 where
  pub world : W
  pub cache : Cache

abbrev pub M : Type 0 → Type 0 → Type 0
M W A = Sys W → Outcome A × Sys W

abbrev pub outcome {ℓ} : {A : Type ℓ} → Reply A → Outcome A
outcome (reply a) = ok a
outcome (refuse e) = err (client e)

module _ {W : Type 0} where
  abbrev pub pure : {A : Type 0} → A → M W A
  pure a s = (ok a, s)

  abbrev pub throw : {A : Type 0} → GoError → M W A
  throw e s = (err e, s)

  abbrev pub fault : {A : Type 0} → M W A
  fault s = (panic, s)

  -- A call of a client library.
  abbrev pub call : {A : Type 0} → (W → Reply A × W) → M W A
  call f s = let (r, w) = f s.world in (outcome r, record s { world = w })

  -- A reading of the clock, which cannot fail.
  abbrev pub ask : {A : Type 0} → (W → A × W) → M W A
  ask f s = let (a, w) = f s.world in (ok a, record s { world = w })

  -- `*p`
  abbrev pub deref : {A : Type 0} → Option A → M W A
  deref none = fault
  deref (some a) = pure a

  abbrev pub continue : {A B : Type 0} → Outcome A → (GoError → M W B) → (A → M W B) → M W B
  continue (ok a) handler rest = rest a
  continue (err e) handler rest = handler e
  continue panic handler rest = fault

  -- `if a, err := m; err != nil { handler(err) } else { rest(a) }`
  abbrev pub check : {A B : Type 0} → M W A → (GoError → M W B) → (A → M W B) → M W B
  check m handler rest s = let (r, s') = m s in continue r handler rest s'

  infixl 5 ◌>>=◌ ◌>>◌
  -- `if err != nil { return err }`
  abbrev pub ◌>>=◌ : {A B : Type 0} → M W A → (A → M W B) → M W B
  m >>= rest = check m throw rest

  abbrev pub ◌>>◌ : {B : Type 0} → M W (Unit {0}) → M W B → M W B
  m >> rest = m >>= λ _. rest
