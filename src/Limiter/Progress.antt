-- ===== src/Limiter/Progress.antt =====
-- No call of `rateLimit` blocks the others for ever: from every state the goroutine in the critical section
-- can leave it.
use influxdb_operator.Base.{
  ℕ, String, ◌≡◌, ◌≢◌, refl, sym, inl, inr, false, List, [], ◌++◌, arith, Bool-cases,
}
use mathlib.Core.Path.{subst}
use influxdb_operator.Base.Dict.{lookup}
use influxdb_operator.Limiter.{Cache, is_due}
use influxdb_operator.Limiter.Spacing.{Call}
use influxdb_operator.Limiter.Threads.{
  Pc, idle, holding, starting, leaving, Shared, Move, pass, skip, store, unlock, update, System,
  Reach,
}
use influxdb_operator.Limiter.Exclusion.{
  IsExclusive, Reach-IsExclusive, Move-IsExclusive, update_same,
}

-- What the goroutines can come to from a state, with the calls that they complete on the way.
pub data Run (every : ℕ) (s : System every) : System every → List Call → Type 0 where
  rest : Run every s s []
  next :
      {t : System every} {calls done : List Call} {m : Shared} {p : Pc} (i : ℕ)
      → Run every s t calls
      → Move every t.mem (t.pc i) done m p
      → Run every s (record { mem = m; pc = update every t.pc i p }) (calls ++ done)

module _ (every : ℕ) where
  -- The goroutines can go on from `s` to a state in which all are out and the mutex is free.
  abbrev pub Ends : System every → Type 0
  Ends s =
      (t : System every) × (done : List Call) × Run every s t done
      × (t.mem.locked ≡ false)
      × ((j : ℕ) → t.pc j ≡ idle)

  step :
      {s t : System every} {calls done : List Call} {m : Shared} {p q : Pc} (i : ℕ)
      → Run every s t calls
      → t.pc i ≡ p
      → Move every t.mem p done m q
      → Run every s (record { mem = m; pc = update every t.pc i q }) (calls ++ done)
  step {t = t} {done = done} {m = m} {q = q} i r at move =
      next i r (subst (λ x. Move every t.mem x done m q) (sym at) move)

  leave :
      {s t : System every} {calls : List Call} (i : ℕ)
      → Run every s t calls
      → t.pc i ≡ leaving
      → IsExclusive every t.mem t.pc
      → Ends s
  leave {s} {t} i r at inv = (
    _,
    _,
    step i r at unlock,
    refl,
    all_idle (Move-IsExclusive every {m = t.mem} t.pc i at unlock inv),
  )
    where
      all_idle :
          IsExclusive every (record t.mem { locked = false }) (update every t.pc i idle)
          → (j : ℕ) → update every t.pc i idle j ≡ idle
      all_idle (inl (free, out)) = out
      all_idle (inr (h, (locked, _, _, _))) = cc

  start :
      {s t : System every} {calls : List Call} (i : ℕ) (name : String) (now : ℕ)
      → Run every s t calls
      → t.pc i ≡ starting name now
      → IsExclusive every t.mem t.pc
      → Ends s
  start {s} {t} i name now r at inv =
      let move = store name now now (omega arith) in
      leave i (step i r at move) (update_same every t.pc i leaving)
        (Move-IsExclusive every {m = t.mem} t.pc i at move inv)

  test :
      {s t : System every} {calls : List Call} (i : ℕ) (name : String) (now : ℕ)
      → Run every s t calls
      → t.pc i ≡ holding name
      → IsExclusive every t.mem t.pc
      → Ends s
  test {s} {t} i name now r at inv =
      elim (Bool-cases (is_due (lookup name t.mem.cache) every now)) [
        | inl due ↦
            start i name now (step i r at (pass name now due))
              (update_same every t.pc i (starting name now))
              (Move-IsExclusive every {m = t.mem} t.pc i at (pass name now due) inv)
        | inr early ↦
            leave i (step i r at (skip name now early)) (update_same every t.pc i leaving)
              (Move-IsExclusive every {m = t.mem} t.pc i at (skip name now early) inv)
      ]

  -- From every state that can be reached, whichever goroutine holds the mutex, the goroutines can go on to
  -- a state in which all are out and the mutex is free.
  pub Reach-Ends :
      {cache : Cache} {s : System every} {calls : List Call} → Reach every cache s calls → Ends s
  Reach-Ends {cache} {s} {calls} r = elim (Reach-IsExclusive every r) [
    | inl (free, out) ↦ (s, [], rest, free, out)
    | inr (h, alone) ↦ ends h alone.3 (s.pc h) refl (inr (h, alone))
  ]
    where
      ends : (h : ℕ) → s.pc h ≢ idle → (p : Pc) → s.pc h ≡ p → IsExclusive every s.mem s.pc → Ends s
      ends h busy idle at inv = absurd (busy at)
      ends h busy (holding name) at inv = test h name 0 rest at inv
      ends h busy (starting name time) at inv = start h name time rest at inv
      ends h busy leaving at inv = leave h rest at inv
