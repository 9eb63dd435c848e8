-- ===== src/Effect/Returns.antt =====
-- What an action of Effect that returned a value has gone through.
use influxdb_operator.Base.{
  ◌≡◌, refl, inl, inr, ◌⊎◌, Bool, true, false, Option, none, some, if◌then◌else◌,
}
use influxdb_operator.Errors.{GoError, ClientError, client}
use influxdb_operator.Effect.{
  M, Sys, Outcome, ok, err, panic, Reply, reply, refuse, throw, call, deref, check, outcome,
  continue, ◌>>=◌,
}

module _ {W : Type 0} where
  pub check_returns :
      {A B : Type 0} (m : M W A) (handler : GoError → M W B) (rest : A → M W B) (s : Sys W) (b : B)
      → (check m handler rest s).0 ≡ ok b
      → ((e : GoError) × ((m s).0 ≡ err e) × ((handler e (m s).1).0 ≡ ok b))
        ⊎ ((a : A) × ((m s).0 ≡ ok a) × ((rest a (m s).1).0 ≡ ok b))
  check_returns {A} {B} m handler rest s b h = go (m s).0 (m s).1 h
    where
      go :
          (o : Outcome A) (t : Sys W)
          → (continue o handler rest t).0 ≡ ok b
          → ((e : GoError) × (o ≡ err e) × ((handler e t).0 ≡ ok b))
            ⊎ ((a : A) × (o ≡ ok a) × ((rest a t).0 ≡ ok b))
      go (ok a) t h = inr (a, refl, h)
      go (err e) t h = inl (e, refl, h)
      go panic t h = cc

  pub bind_returns :
      {A B : Type 0} (m : M W A) (rest : A → M W B) (s : Sys W) (b : B)
      → ((m >>= rest) s).0 ≡ ok b
      → (a : A) × ((m s).0 ≡ ok a) × ((rest a (m s).1).0 ≡ ok b)
  bind_returns m rest s b h = elim (check_returns m throw rest s b h) [
    | inl (e, failed, thrown) ↦ cc
    | inr found ↦ found
  ]

  pub call_replies :
      {A : Type 0} (f : W → Reply A × W) (s : Sys W) (a : A)
      → (call f s).0 ≡ ok a
      → (f s.world).0 ≡ reply a
  call_replies {A} f s a h = go (f s.world).0 h
    where
      go : (r : Reply A) → outcome r ≡ ok a → r ≡ reply a
      go (reply b) h = cc
      go (refuse x) h = cc

  pub call_refuses :
      {A : Type 0} (f : W → Reply A × W) (s : Sys W) (e : GoError)
      → (call f s).0 ≡ err e
      → (x : ClientError) × ((f s.world).0 ≡ refuse x) × (e ≡ client x)
  call_refuses {A} f s e h = go (f s.world).0 h
    where
      go : (r : Reply A) → outcome r ≡ err e → (x : ClientError) × (r ≡ refuse x) × (e ≡ client x)
      go (reply b) h = cc
      go (refuse x) h = (x, refl, cc)

  pub if_throw_returns :
      {A : Type 0} (b : Bool) (m : M W A) (e : GoError) (s : Sys W) (a : A)
      → ((if b then m else throw e) s).0 ≡ ok a
      → b ≡ true
  if_throw_returns true m e s a h = refl
  if_throw_returns false m e s a h = cc

  pub deref_returns :
      {A : Type 0} (o : Option A) (s : Sys W) (a : A) → (deref o s).0 ≡ ok a → o ≡ some a
  deref_returns none s a h = cc
  deref_returns (some b) s a h = cc

  pub bind_ok :
      {A B : Type 0} (m : M W A) (rest : A → M W B) (s : Sys W) (a : A)
      → (m s).0 ≡ ok a
      → (m >>= rest) s ≡ rest a (m s).1
  bind_ok m rest s a h = rw h refl

  pub if_true_returns :
      {A : Type 0} (b : Bool) (m n : M W A) (s : Sys W) (a : A)
      → b ≡ true
      → ((if b then m else n) s).0 ≡ ok a
      → (m s).0 ≡ ok a
  if_true_returns true m n s a e h = h
  if_true_returns false m n s a e h = absurd cc

  pub if_false_returns :
      {A : Type 0} (b : Bool) (m n : M W A) (s : Sys W) (a : A)
      → b ≡ false
      → ((if b then m else n) s).0 ≡ ok a
      → (n s).0 ≡ ok a
  if_false_returns false m n s a e h = h
  if_false_returns true m n s a e h = absurd cc
