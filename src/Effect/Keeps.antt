-- ===== src/Effect/Keeps.antt =====
-- Invariants of the world that an action keeps, whatever the calls answer: rules for the actions of
-- Effect. One invariant holds while the action runs, and a weaker one where it ends with an error or a
-- panic.
use influxdb_operator.Base.{◌≡◌, refl, Bool, true, false, Option, none, some, if◌then◌else◌}
use influxdb_operator.Errors.{GoError, ClientError, client}
use influxdb_operator.Effect.{
  M, Sys, Outcome, ok, err, panic, Reply, reply, refuse, pure, throw, call, ask, deref, check,
  outcome, continue, ◌>>=◌,
}

-- What is known of a value that is replied.
abbrev pub Replies : {A : Type 0} → (A → Type 0) → Reply A → Type 0
Replies Q (reply a) = Q a
Replies Q (refuse e) = Unit

-- Nothing is known.
abbrev pub Any : {A : Type 0} → A → Type 0
Any a = Unit

pub Replies-Any : {A : Type 0} (r : Reply A) → Replies Any r
Replies-Any (reply a) = tt
Replies-Any (refuse e) = tt

pub Replies-known :
    {A : Type 0} (Q : A → Type 0) (r : Reply A) → ((a : A) → r ≡ reply a → Q a) → Replies Q r
Replies-known Q (reply a) h = h a refl
Replies-known Q (refuse e) h = tt

pub record Invariants (W : Type 0) : Type 1 where
  pub running : W → Type 0
  pub ended : W → Type 0
  pub ends : (w : W) → running w → ended w

module _ {W : Type 0} (V : Invariants W) where
  -- A call of the world keeps the invariant, and what it replies satisfies `Q`.
  abbrev pub Allows : {A : Type 0} → (A → Type 0) → (W → Reply A × W) → Type 0
  Allows Q f = (w : W) → V.running w → V.running (f w).1 × Replies Q (f w).0

  -- A call after which the action may end, and not go on.
  abbrev pub AllowsLast : {A : Type 0} → (W → Reply A × W) → Type 0
  AllowsLast f = (w : W) → V.running w → V.ended (f w).1

  abbrev pub Post : {A : Type 0} → (A → Type 0) → Outcome A → W → Type 0
  Post Q (ok a) w = V.running w × Q a
  Post Q (err e) w = V.ended w
  Post Q panic w = V.ended w

  -- The action keeps the invariants, and what it returns satisfies `Q`.
  abbrev pub Keeps : {A : Type 0} → (A → Type 0) → M W A → Type 0
  Keeps Q m = (s : Sys W) → V.running s.world → Post Q (m s).0 (m s).1.world

  pub Post-ended : {A : Type 0} (Q : A → Type 0) (o : Outcome A) (w : W) → Post Q o w → V.ended w
  Post-ended Q (ok a) w h = V.ends w h.0
  Post-ended Q (err e) w h = h
  Post-ended Q panic w h = h

  pub Keeps-pure : {A : Type 0} (Q : A → Type 0) (a : A) → Q a → Keeps Q (pure a)
  Keeps-pure Q a q s inv = (inv, q)

  pub Keeps-throw : {A : Type 0} (Q : A → Type 0) (e : GoError) → Keeps Q (throw e)
  Keeps-throw Q e s inv = V.ends s.world inv

  pub Keeps-deref :
      {A : Type 0} (Q : A → Type 0) (o : Option A)
      → ((a : A) → o ≡ some a → Q a)
      → Keeps Q (deref o)
  Keeps-deref Q none q s inv = V.ends s.world inv
  Keeps-deref Q (some a) q s inv = (inv, q a refl)

  pub Keeps-ask :
      {A : Type 0} (f : W → A × W) → ((w : W) → V.running w → V.running (f w).1) → Keeps Any (ask f)
  Keeps-ask f h s inv = (h s.world inv, tt)

  pub Keeps-ask_known :
      {A : Type 0} (Q : A → Type 0) (f : W → A × W)
      → ((w : W) → V.running w → V.running (f w).1 × Q (f w).0)
      → Keeps Q (ask f)
  Keeps-ask_known Q f h s inv = h s.world inv

  -- A call whose error is handled.
  pub Keeps-check :
      {A B : Type 0} (Q : A → Type 0) (P : B → Type 0) (f : W → Reply A × W)
      (handler : GoError → M W B) (rest : A → M W B)
      → Allows Q f
      → ((e : GoError) → Keeps P (handler e))
      → ((a : A) → Q a → Keeps P (rest a))
      → Keeps P (check (call f) handler rest)
  Keeps-check {A} {B} Q P f handler rest hf hh hr s inv =
      go (f s.world).0 (f s.world).1 (hf s.world inv).0 (hf s.world inv).1
    where
      go :
          (r : Reply A) (w : W)
          → V.running w
          → Replies Q r
          → Post P
              (continue (outcome r) handler rest (record s { world = w })).0
              (continue (outcome r) handler rest (record s { world = w })).1.world
      go (reply a) w i q = hr a q (record s { world = w }) i
      go (refuse e) w i q = hh _ (record s { world = w }) i

  -- The same, where the handler depends on how the call was refused.
  pub Keeps-check_known :
      {A B : Type 0} (Q : A → Type 0) (P : B → Type 0) (f : W → Reply A × W)
      (handler : GoError → M W B) (rest : A → M W B)
      → Allows Q f
      → ((w : W) (x : ClientError) → (f w).0 ≡ refuse x → Keeps P (handler (client x)))
      → ((a : A) → Q a → Keeps P (rest a))
      → Keeps P (check (call f) handler rest)
  Keeps-check_known {A} {B} Q P f handler rest hf hh hr s inv =
      go (f s.world).0 (f s.world).1 refl (hf s.world inv).0 (hf s.world inv).1
    where
      go :
          (r : Reply A) (w : W)
          → (f s.world).0 ≡ r
          → V.running w
          → Replies Q r
          → Post P
              (continue (outcome r) handler rest (record s { world = w })).0
              (continue (outcome r) handler rest (record s { world = w })).1.world
      go (reply a) w e i q = hr a q (record s { world = w }) i
      go (refuse x) w e i q = hh s.world x e (record s { world = w }) i

  pub Keeps-call :
      {A : Type 0} (Q : A → Type 0) (f : W → Reply A × W) → Allows Q f → Keeps Q (call f)
  Keeps-call {A} Q f h s inv = go (f s.world).0 (f s.world).1 (h s.world inv).0 (h s.world inv).1
    where
      go : (r : Reply A) (w : W) → V.running w → Replies Q r → Post Q (outcome r) w
      go (reply a) w i q = (i, q)
      go (refuse e) w i q = V.ends w i

  -- A last call: whatever it answers, an error is returned.
  pub Keeps-last :
      {A : Type 0} (Q : A → Type 0) (f : W → Reply (Unit {0}) × W) (e : GoError)
      → AllowsLast f
      → Keeps Q (call f >>= λ _. throw e)
  Keeps-last {A} Q f e h s inv = go (f s.world).0 (f s.world).1 (h s.world inv)
    where
      go :
          (r : Reply (Unit {0})) (w : W)
          → V.ended w
          → Post Q
              (continue {B = A} (outcome r) throw (λ _. throw e) (record s { world = w })).0
              (continue {B = A} (outcome r) throw (λ _. throw e) (record s { world = w })).1.world
      go (reply a) w i = i
      go (refuse x) w i = i

  pub Keeps-bind :
      {A B : Type 0} (Q : A → Type 0) (P : B → Type 0) (m : M W A) (rest : A → M W B)
      → Keeps Q m
      → ((a : A) → Q a → Keeps P (rest a))
      → Keeps P (m >>= rest)
  Keeps-bind {A} {B} Q P m rest hm hr s inv = go (m s).0 (m s).1 (hm s inv)
    where
      go :
          (o : Outcome A) (t : Sys W)
          → Post Q o t.world
          → Post P (continue o throw rest t).0 (continue o throw rest t).1.world
      go (ok a) t (i, q) = hr a q t i
      go (err e) t i = i
      go panic t i = i

  pub Keeps-weaken :
      {A : Type 0} (Q P : A → Type 0) (m : M W A) → ((a : A) → Q a → P a) → Keeps Q m → Keeps P m
  Keeps-weaken {A} Q P m h k s inv = go (m s).0 (m s).1.world (k s inv)
    where
      go : (o : Outcome A) (w : W) → Post Q o w → Post P o w
      go (ok a) w (i, q) = (i, h a q)
      go (err e) w i = i
      go panic w i = i

  pub Keeps-if :
      {A : Type 0} (Q : A → Type 0) (b : Bool) (m n : M W A)
      → (b ≡ true → Keeps Q m)
      → (b ≡ false → Keeps Q n)
      → Keeps Q (if b then m else n)
  Keeps-if Q true m n hm hn = hm refl
  Keeps-if Q false m n hm hn = hn refl
