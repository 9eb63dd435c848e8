-- ===== src/Limiter/Spacing.antt =====
-- How often `rateLimit` starts its function, over any sequence of calls.
use influxdb_operator.Base.{ℕ, ◌+◌, ◌≤◌, String, ◌≡◌, refl, Bool, true}
use influxdb_operator.Base.{
  Option, none, some, List, [], ◌∷◌, ◌==◌, eq_iff, arith, All, Bool-cases, inl, inr, ◌↔◌, ◌&&◌,
}
use influxdb_operator.Base.{if◌then◌else◌}
use influxdb_operator.Base.Dict.{lookup, insert, lookup-insert}
use influxdb_operator.Limiter.{Cache, is_due, rate_limit}

-- A call of `rateLimit` with its name and its two readings of the clock.
pub record Call : Type 0 where
  pub name : String
  pub now : ℕ
  pub stored : ℕ

-- The second reading is not before the first.
abbrev pub IsOrdered : Call → Type 0
IsOrdered c = c.now ≤ c.stored

abbrev pub note : String → Call → Bool → List ℕ → List ℕ
note k c started times =
    if started then (if c.name == k then c.stored ∷ times else times) else times

-- The times at which the calls start the function of the name `k`.
unfoldable pub starts : String → ℕ → List Call → Cache → List ℕ
starts k every [] cache = []
starts k every (c ∷ calls) cache =
    let (started, cache') = rate_limit c.name every c.now c.stored cache in
    note k c started (starts k every calls cache')

-- Each time is at least `every` after the one before it.
abbrev pub IsSpaced : ℕ → Option ℕ → List ℕ → Type 0
IsSpaced every last [] = Unit
IsSpaced every none (t ∷ ts) = IsSpaced every (some t) ts
IsSpaced every (some last) (t ∷ ts) = (last + every ≤ t) × IsSpaced every (some t) ts

module _ (k : String) (every : ℕ) where
  lookup-rate_limit :
      (c : Call) (cache : Cache)
      → lookup k (rate_limit c.name every c.now c.stored cache).1 ≡ (
          if c.name == k
          then (if is_due (lookup k cache) every c.now then some c.stored else lookup k cache)
          else lookup k cache)
  unfolding rate_limit
  lookup-rate_limit c cache = ground (arith, lookup-insert c.name k c.stored cache, eq_iff c.name k)

  extend-IsSpaced :
      (o : Option ℕ) (now stored : ℕ) (times : List ℕ)
      → now ≤ stored
      → is_due o every now ≡ true
      → IsSpaced every (some stored) times
      → IsSpaced every o (stored ∷ times)
  unfolding is_due
  extend-IsSpaced none now stored times le due h = h
  extend-IsSpaced (some last) now stored times le due h = (ground arith, h)

  starts-IsSpaced_from :
      (calls : List Call) (cache : Cache)
      → All IsOrdered calls
      → IsSpaced every (lookup k cache) (starts k every calls cache)
  unfolding starts rate_limit
  starts-IsSpaced_from [] cache h = tt
  starts-IsSpaced_from (c ∷ calls) cache (ordered, h) =
      elim (Bool-cases (is_due (lookup c.name cache) every c.now)) [
        | inr early ↦ rw early (starts-IsSpaced_from calls cache h)
        | inl due ↦
            let cache' = insert c.name c.stored cache in
            let ih = starts-IsSpaced_from calls cache' h in
            let at_k = lookup-insert c.name k c.stored cache in
            rw due (elim (Bool-cases (c.name == k)) [
              | inl same ↦
                  let e = (eq_iff c.name k).0 same in
                  let due_k : is_due (lookup k cache) every c.now ≡ true = rw e at due in
                  rw same (
                    extend-IsSpaced (lookup k cache) c.now c.stored _ ordered due_k
                      (rw (at_k, same) at ih))
              | inr other ↦ rw other (rw (at_k, other) at ih)
            ])
      ]

is_due_iff :
    (entry : Option ℕ) (every now : ℕ)
    → (is_due entry every now ≡ true) ↔ ((last : ℕ) → entry ≡ some last → last + every ≤ now)
unfolding is_due
is_due_iff none every now = (λ _ last e. cc, λ _. refl)
is_due_iff (some t) every now =
    (λ due last e. ground arith, λ h. let old = h t refl in ground arith)

rate_limit-is_due :
    (name : String) (every now stored : ℕ) (cache : Cache)
    → (rate_limit name every now stored cache).0 ≡ is_due (lookup name cache) every now
unfolding rate_limit
rate_limit-is_due name every now stored cache = ground arith

-- The function is started exactly if the name has no entry, or one that is at least `every` old.
-- The entry of the name is then the second reading of the clock; entries of other names, and all
-- entries if the function is not started, stay.
pub rate_limit_lem :
    (name k : String) (every now stored : ℕ) (cache : Cache)
    → (((rate_limit name every now stored cache).0 ≡ true)
        ↔ ((last : ℕ) → lookup name cache ≡ some last → last + every ≤ now))
      × (lookup k (rate_limit name every now stored cache).1 ≡ (
          if (rate_limit name every now stored cache).0 && (name == k)
          then some stored
          else lookup k cache))
rate_limit_lem name k every now stored cache = (
  rw rate_limit-is_due (is_due_iff (lookup name cache) every now),
  unfold rate_limit in ground (arith, lookup-insert name k stored cache),
)

-- Over any calls whose clock readings are ordered within each call, from any cache, two starts of
-- the function of one name, and the time that the cache holds for it and the first start, are at
-- least `every` apart.
pub starts-IsSpaced :
    (k : String) (every : ℕ) (calls : List Call) (cache : Cache)
    → All IsOrdered calls
    → IsSpaced every (lookup k cache) (starts k every calls cache)
starts-IsSpaced = starts-IsSpaced_from
