-- ===== src/Limiter/Threads.antt =====
-- controllers/limiter.go as its goroutines run it, one step of one goroutine at a time, in any order: the
-- controllers of the three kinds call `rateLimit` at the same time. The mutex is taken by one goroutine
-- at a time; a goroutine that waits for it makes no step.
use influxdb_operator.Base.{
  ℕ, ◌≤◌, String, ◌≡◌, Bool, true, false, List, [], ◌∷◌, ◌++◌, eq_ℕ, if◌then◌else◌,
}
use influxdb_operator.Base.Dict.{lookup, insert}
use influxdb_operator.Limiter.{Cache, is_due}
use influxdb_operator.Limiter.Spacing.{Call}

-- Where a goroutine stands: outside of `rateLimit`, after `mu.Lock()`, after the test of the `if` came out
-- true for the reading `now` of the clock, and before the deferred `mu.Unlock()`.
pub data Pc : Type 0 where
  idle : Pc
  holding : String → Pc
  starting : String → ℕ → Pc
  leaving : Pc

-- `mu`, `cache`, and the starts of `go f()` so far, each with its name and the time that is stored.
pub record Shared : Type 0 where
  pub locked : Bool
  pub cache : Cache
  pub started : List (String × ℕ)

module _ (every : ℕ) where
  -- A step of one goroutine, with the call that it completes on the cache, if it does so.
  pub data Move (m : Shared) : Pc → List Call → Shared → Pc → Type 0 where
    lock :
        (name : String)
        → m.locked ≡ false
        → Move m idle [] (record m { locked = true }) (holding name)
    pass :
        (name : String) (now : ℕ)
        → is_due (lookup name m.cache) every now ≡ true
        → Move m (holding name) [] m (starting name now)
    skip :
        (name : String) (now : ℕ)
        → is_due (lookup name m.cache) every now ≡ false
        → Move m (holding name) (record { name = name; now = now; stored = now } ∷ []) m leaving
    store :
        (name : String) (now stored : ℕ)
        → now ≤ stored
        → Move m
            (starting name now)
            (record { name = name; now = now; stored = stored } ∷ [])
            (record m {
              cache = insert name stored m.cache;
              started = m.started ++ (name, stored) ∷ [];
            })
            leaving
    unlock : Move m leaving [] (record m { locked = false }) idle

  abbrev pub update : (ℕ → Pc) → ℕ → Pc → ℕ → Pc
  update pc i p j = if eq_ℕ j i then p else pc j

  -- The goroutines by number, all of them idle at first.
  pub record System : Type 0 where
    pub mem : Shared
    pub pc : ℕ → Pc

  abbrev pub init : Cache → System
  init cache = record {
    mem = record { locked = false; cache = cache; started = [] };
    pc = λ _. idle;
  }

  -- What can be reached from a cache, with the calls in the order in which they were completed on it.
  pub data Reach (cache : Cache) : System → List Call → Type 0 where
    begin : Reach cache (init cache) []
    later :
        {s : System} {calls done : List Call} {m : Shared} {p : Pc} (i : ℕ)
        → Reach cache s calls
        → Move s.mem (s.pc i) done m p
        → Reach cache (record { mem = m; pc = update s.pc i p }) (calls ++ done)
