-- ===== src/Example/LimiterTests.antt =====
-- The rate limiter at concrete calls.
use influxdb_operator.Base.{
  ℕ, ◌≡◌, refl, ◌+◌, ◌≤◌, true, ◌==◌, ◌&&◌, ◌↔◌, some, List, [], ◌∷◌, arith, if◌then◌else◌,
}
use influxdb_operator.Base.Dict.{lookup, insert}
use influxdb_operator.Limiter.{Cache, is_due, rate_limit}
use influxdb_operator.Limiter.Spacing.{Call, starts, IsSpaced, starts-IsSpaced, rate_limit_lem}

-- Four calls with a period of 10: the second is too early, and the third has another name.
abbrev calls : List Call
calls =
    record { name = "u1-bucket"; now = 100; stored = 101 }
    ∷ record { name = "u1-bucket"; now = 109; stored = 109 }
    ∷ record { name = "u2-bucket"; now = 109; stored = 110 }
    ∷ record { name = "u1-bucket"; now = 111; stored = 112 }
    ∷ []

two_starts : starts "u1-bucket" 10 calls [] ≡ 101 ∷ 112 ∷ []
unfolding starts rate_limit is_due lookup insert
two_starts = refl

starts-IsSpaced_example : IsSpaced 10 (lookup "u1-bucket" []) (starts "u1-bucket" 10 calls [])
starts-IsSpaced_example = starts-IsSpaced "u1-bucket" 10 calls [] (omega arith)

abbrev cache : Cache
cache = ("a", 5) ∷ []

rate_limit_lem_example :
    (((rate_limit "a" 10 20 21 cache).0 ≡ true)
      ↔ ((last : ℕ) → lookup "a" cache ≡ some last → last + 10 ≤ 20))
    × (lookup "b" (rate_limit "a" 10 20 21 cache).1
        ≡ (if (rate_limit "a" 10 20 21 cache).0 && ("a" == "b") then some 21 else lookup "b" cache))
rate_limit_lem_example = rate_limit_lem "a" "b" 10 20 21 cache
