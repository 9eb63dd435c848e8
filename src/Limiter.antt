-- ===== src/Limiter.antt =====
-- controllers/limiter.go. The mutex makes a call of `rateLimit` one step on the cache; `go f()` only
-- logs, so a call gives back whether `f` was started. The clock is read once for `time.Since`, and
-- once more for the entry that is stored.
pub mod Spacing
pub mod Threads
pub mod Exclusion
pub mod Refines
pub mod Progress
use influxdb_operator.Base.{ℕ, ◌+◌, String, Bool, true, false, Option, none, some, leb}
use influxdb_operator.Base.{if◌then◌else◌}
use influxdb_operator.Base.Dict.{Dict, lookup, insert}

-- `var cache map[string]time.Time`, times in nanoseconds
abbrev pub Cache : Type 0
Cache = Dict ℕ

-- `!ok || time.Since(last) >= every`
unfoldable pub is_due : Option ℕ → ℕ → ℕ → Bool
is_due none every now = true
is_due (some last) every now = leb (last + every) now

unfoldable pub rate_limit : String → ℕ → ℕ → ℕ → Cache → Bool × Cache
unfolding is_due
rate_limit name every now stored cache =
    if is_due (lookup name cache) every now
    then (true, insert name stored cache)
    else (false, cache)
