-- ===== src/Limiter/Refines.antt =====
-- The goroutines of limiter.go refine `rate_limit`: what they do to the cache, in any order of their
-- steps, is what whole calls do, one after the other.
use influxdb_operator.Base.{
  ℕ, String, ◌≡◌, refl, sym, ◌∙◌, ap, true, false, List, [], ◌∷◌, ◌++◌, All, ◌==◌, if◌then◌else◌,
  arith,
}
use mathlib.Core.Path.{subst}
use mathlib.Core.List.{append-nil}
use influxdb_operator.Base.Dict.{lookup, insert}
use influxdb_operator.Limiter.{Cache, is_due, rate_limit}
use influxdb_operator.Limiter.Spacing.{Call, IsOrdered, starts, IsSpaced, starts-IsSpaced}
use influxdb_operator.Limiter.Threads.{
  Pc, idle, holding, starting, leaving, Shared, Move, lock, pass, skip, store, unlock, System,
  Reach, begin, later,
}
use influxdb_operator.Limiter.Exclusion.{IsDue, IsExclusive-IsAlone, Reach-IsExclusive}

-- The cache after whole calls.
unfoldable pub run : ℕ → List Call → Cache → Cache
run every [] cache = cache
run every (c ∷ calls) cache = run every calls (rate_limit c.name every c.now c.stored cache).1

-- The times of the starts of the function of the name `k`.
abbrev pub times : String → List (String × ℕ) → List ℕ
times k [] = []
times k (x ∷ started) = if x.0 == k then x.1 ∷ times k started else times k started

module _ (every : ℕ) where
  run-append :
      (calls more : List Call) (cache : Cache)
      → run every (calls ++ more) cache ≡ run every more (run every calls cache)
  unfolding run
  run-append [] more cache = refl
  run-append (c ∷ calls) more cache =
      run-append calls more (rate_limit c.name every c.now c.stored cache).1

  times-append :
      (k : String) (started more : List (String × ℕ))
      → times k (started ++ more) ≡ times k started ++ times k more
  times-append k [] more = refl
  times-append k (x ∷ started) more = ground (arith, times-append k started more)

  starts-append :
      (k : String) (calls more : List Call) (cache : Cache)
      → starts k every (calls ++ more) cache
        ≡ starts k every calls cache ++ starts k every more (run every calls cache)
  unfolding starts run
  starts-append k [] more cache = refl
  starts-append k (c ∷ calls) more cache =
      ground (arith, starts-append k calls more (rate_limit c.name every c.now c.stored cache).1)

  rate_limit_early :
      (name : String) (now stored : ℕ) (cache : Cache)
      → is_due (lookup name cache) every now ≡ false
      → rate_limit name every now stored cache ≡ (false, cache)
  unfolding rate_limit
  rate_limit_early name now stored cache early = rw early refl

  rate_limit_due :
      (name : String) (now stored : ℕ) (cache : Cache)
      → is_due (lookup name cache) every now ≡ true
      → rate_limit name every now stored cache ≡ (true, insert name stored cache)
  unfolding rate_limit
  rate_limit_due name now stored cache due = rw due refl

  -- One step completes a whole call on the cache, or none.
  abbrev Completes : Shared → List Call → Shared → Type 0
  Completes m done n =
      All IsOrdered done
      × (n.cache ≡ run every done m.cache)
      × ((k : String) → times k n.started ≡ times k m.started ++ starts k every done m.cache)

  Move-Completes :
      {m n : Shared} {p q : Pc} {done : List Call}
      → Move every m p done n q
      → IsDue every p m.cache
      → Completes m done n
  unfolding run starts
  Move-Completes {m} (lock name free) due = (tt, refl, λ k. sym (append-nil (times k m.started)))
  Move-Completes {m} (pass name now due) _ = (tt, refl, λ k. sym (append-nil (times k m.started)))
  Move-Completes {m} (skip name now early) _ =
      let e = rate_limit_early name now now m.cache early in
      ((omega arith, tt), sym (ap (λ x. x.1) e), λ k. rw e (sym (append-nil (times k m.started))))
  Move-Completes {m} (store name now stored le) due =
      let e = rate_limit_due name now stored m.cache due in
      ((le, tt), sym (ap (λ x. x.1) e), λ k. rw e (times-append k m.started ((name, stored) ∷ [])))
  Move-Completes {m} unlock _ = (tt, refl, λ k. sym (append-nil (times k m.started)))

  -- What the goroutine that makes a step found is still true.
  Reach-IsDue :
      {cache : Cache} {s : System every} {calls : List Call} (i : ℕ)
      → Reach every cache s calls
      → IsDue every (s.pc i) s.mem.cache
  Reach-IsDue {s = s} i r = due (s.pc i) refl
    where
      due : (p : Pc) → s.pc i ≡ p → IsDue every p s.mem.cache
      due idle at = tt
      due (holding name) at = tt
      due (starting name now) at =
          let (_, _, found, _) =
            IsExclusive-IsAlone every s.mem s.pc i (Reach-IsExclusive every r) (λ e. cc) in
          subst (λ p. IsDue every p s.mem.cache) at found
      due leaving at = tt

  All-append :
      (calls more : List Call)
      → All IsOrdered calls
      → All IsOrdered more
      → All IsOrdered (calls ++ more)
  All-append [] more h k = k
  All-append (c ∷ calls) more (o, h) k = (o, All-append calls more h k)

  -- However the goroutines take turns: the cache is what the completed calls of `rate_limit` make of the
  -- first cache, one after the other, each with ordered readings of the clock, and the function of each
  -- name was started at the times at which these calls start it.
  pub Reach-run :
      {cache : Cache} {s : System every} {calls : List Call}
      → Reach every cache s calls
      → All IsOrdered calls
        × (s.mem.cache ≡ run every calls cache)
        × ((k : String) → times k s.mem.started ≡ starts k every calls cache)
  unfolding run starts
  Reach-run begin = (tt, refl, λ k. refl)
  Reach-run {cache} (later {s} {calls} {done} i r move) =
      let (ordered, e, started) = Reach-run r in
      let (more, e', started') = Move-Completes move (Reach-IsDue i r) in
      (
        All-append calls done ordered more,
        e' ∙ (ap (run every done) e ∙ sym (run-append calls done cache)),
        λ k. started' k ∙ rw (started k, e) (sym (starts-append k calls done cache)),
      )

  -- However the goroutines take turns, two starts of the function of one name, and the time that the first
  -- cache holds for it and the first start, are at least the period apart.
  pub Reach-IsSpaced :
      {cache : Cache} {s : System every} {calls : List Call} (k : String)
      → Reach every cache s calls
      → IsSpaced every (lookup k cache) (times k s.mem.started)
  Reach-IsSpaced {cache} {calls = calls} k r =
      let (ordered, _, started) = Reach-run r in
      rw started (starts-IsSpaced k every calls cache ordered)
