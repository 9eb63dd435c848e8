-- ===== src/Limiter/Exclusion.antt =====
-- The mutex of limiter.go: one goroutine at a time is between `mu.Lock()` and `mu.Unlock()`, and what its
-- test found stays true until it stores the time.
use influxdb_operator.Base.{
  ℕ, ◌≡◌, ◌≢◌, refl, sym, ◌∙◌, ◌⊎◌, inl, inr, true, false, List, eq_ℕ, arith, Bool-cases,
}
use mathlib.Core.Path.{subst}
use influxdb_operator.Base.Dict.{lookup}
use influxdb_operator.Limiter.{Cache, is_due}
use influxdb_operator.Limiter.Spacing.{Call}
use influxdb_operator.Limiter.Threads.{
  Pc, idle, holding, starting, Shared, Move, lock, pass, skip, store, unlock, update, System, Reach,
  begin, later,
}

module _ (every : ℕ) where
  -- What the test of the goroutine found.
  abbrev pub IsDue : Pc → Cache → Type 0
  IsDue (starting name now) cache = is_due (lookup name cache) every now ≡ true
  IsDue _ cache = Unit

  -- Goroutine `h` is in the critical section, and no other.
  abbrev pub IsAlone : ℕ → Shared → (ℕ → Pc) → Type 0
  IsAlone h m pc =
      (m.locked ≡ true) × ((j : ℕ) → j ≢ h → pc j ≡ idle) × IsDue (pc h) m.cache × (pc h ≢ idle)

  abbrev pub IsExclusive : Shared → (ℕ → Pc) → Type 0
  IsExclusive m pc = ((m.locked ≡ false) × ((j : ℕ) → pc j ≡ idle)) ⊎ ((h : ℕ) × IsAlone h m pc)

  pub update_same : (pc : ℕ → Pc) (i : ℕ) (p : Pc) → update every pc i p i ≡ p
  update_same pc i p = ground arith

  update_other : (pc : ℕ → Pc) (i j : ℕ) (p : Pc) → j ≢ i → update every pc i p j ≡ pc j
  update_other pc i j p ne = ground arith

  same_number : (i h : ℕ) → eq_ℕ i h ≡ true → h ≡ i
  same_number i h e = ground arith

  -- A goroutine that is not idle is the one in the critical section.
  pub IsExclusive-IsAlone :
      (m : Shared) (pc : ℕ → Pc) (i : ℕ) → IsExclusive m pc → pc i ≢ idle → IsAlone i m pc
  IsExclusive-IsAlone m pc i (inl (free, all_idle)) busy = absurd (busy (all_idle i))
  IsExclusive-IsAlone m pc i (inr (h, alone)) busy = elim (Bool-cases (eq_ℕ i h)) [
    | inl same ↦ subst (λ x. IsAlone x m pc) (same_number i h same) alone
    | inr other ↦ absurd (busy (alone.1 i (λ e. ground arith)))
  ]

  -- The goroutine in the critical section goes on in it.
  stays :
      (m n : Shared) (pc : ℕ → Pc) (i : ℕ) (q : Pc)
      → IsAlone i m pc
      → n.locked ≡ m.locked
      → IsDue q n.cache
      → q ≢ idle
      → IsExclusive n (update every pc i q)
  stays m n pc i q (locked, others, _, _) same due busy = inr (
    i,
    (
      same ∙ locked,
      λ j ne. update_other pc i j q ne ∙ others j ne,
      subst (λ p. IsDue p n.cache) (sym (update_same pc i q)) due,
      λ e. busy (sym (update_same pc i q) ∙ e),
    ),
  )

  leaves :
      (m : Shared) (pc : ℕ → Pc) (i : ℕ)
      → IsAlone i m pc
      → (j : ℕ) → update every pc i idle j ≡ idle
  leaves m pc i (locked, others, _, _) j = elim (Bool-cases (eq_ℕ j i)) [
    | inl same ↦ rw same refl
    | inr other ↦ rw other (others j (λ e. ground arith))
  ]

  pub Move-IsExclusive :
      {m n : Shared} {p q : Pc} {done : List Call} (pc : ℕ → Pc) (i : ℕ)
      → pc i ≡ p
      → Move every m p done n q
      → IsExclusive m pc
      → IsExclusive n (update every pc i q)
  Move-IsExclusive {m} pc i at (lock name free) (inl (_, all_idle)) = inr (
    i,
    (
      refl,
      λ j ne. update_other pc i j (holding name) ne ∙ all_idle j,
      subst (λ p. IsDue p m.cache) (sym (update_same pc i (holding name))) tt,
      λ e. cc (update_same pc i (holding name), e),
    ),
  )
  Move-IsExclusive pc i at (lock name free) (inr (h, (locked, _, _, _))) = cc
  Move-IsExclusive {m} pc i at (pass name now due) inv =
      stays m m pc i _ (IsExclusive-IsAlone m pc i inv (λ e. cc)) refl due (λ e. cc)
  Move-IsExclusive {m} pc i at (skip name now early) inv =
      stays m m pc i _ (IsExclusive-IsAlone m pc i inv (λ e. cc)) refl tt (λ e. cc)
  Move-IsExclusive {m} {n} pc i at (store name now stored le) inv =
      stays m n pc i _ (IsExclusive-IsAlone m pc i inv (λ e. cc)) refl tt (λ e. cc)
  Move-IsExclusive {m} pc i at unlock inv =
      inl (refl, leaves m pc i (IsExclusive-IsAlone m pc i inv (λ e. cc)))

  -- In every state that can be reached, either the mutex is free and every goroutine is out of `rateLimit`,
  -- or it is taken and exactly one is in, and what the test of that one found is still true.
  pub Reach-IsExclusive :
      {cache : Cache} {s : System every} {calls : List Call}
      → Reach every cache s calls
      → IsExclusive s.mem s.pc
  Reach-IsExclusive begin = inl (refl, λ _. refl)
  Reach-IsExclusive (later {s} i r move) = Move-IsExclusive s.pc i refl move (Reach-IsExclusive r)
