-- ===== src/Example/LimiterThreads.antt =====
-- Two goroutines that call `rateLimit` at the same time.
use influxdb_operator.Base.{◌≤◌, ◌≡◌, refl, List, [], ◌∷◌, All, arith, String}
use influxdb_operator.Base.Dict.{lookup, insert}
use influxdb_operator.Limiter.{is_due}
use influxdb_operator.Limiter.Spacing.{Call, IsOrdered, IsSpaced, starts}
use influxdb_operator.Limiter.Threads.{lock, pass, skip, store, unlock, System, Reach, begin, later}
use influxdb_operator.Limiter.Exclusion.{IsExclusive, Reach-IsExclusive}
use influxdb_operator.Limiter.Progress.{Ends, Reach-Ends}
use influxdb_operator.Limiter.Refines.{run, times, Reach-run, Reach-IsSpaced}

first_ordered : 100 ≤ 101
first_ordered = omega arith

second_ordered : 111 ≤ 112
second_ordered = omega arith

-- Goroutine 2 comes first and starts the function; goroutine 0 is too early, and comes back.
abbrev taken : (s : System 10) × (calls : List Call) × Reach 10 [] s calls
unfolding is_due lookup insert
taken =
    let r₁ = later 2 begin (lock "a" refl) in
    let r₂ = later 2 r₁ (pass "a" 100 refl) in
    let r₃ = later 2 r₂ (store "a" 100 101 first_ordered) in
    let r₄ = later 2 r₃ unlock in
    let r₅ = later 0 r₄ (lock "a" refl) in
    let r₆ = later 0 r₅ (skip "a" 109 refl) in
    let r₇ = later 0 r₆ unlock in
    let r₈ = later 0 r₇ (lock "a" refl) in
    let r₉ = later 0 r₈ (pass "a" 111 refl) in (_, _, later 0 r₉ (store "a" 111 112 second_ordered))

abbrev calls : List Call
calls =
    record { name = "a"; now = 100; stored = 101 }
    ∷ record { name = "a"; now = 109; stored = 109 }
    ∷ record { name = "a"; now = 111; stored = 112 }
    ∷ []

taken_calls : taken.1 ≡ calls
unfolding taken
taken_calls = refl

taken_times : times "a" taken.0.mem.started ≡ 101 ∷ 112 ∷ []
unfolding taken
taken_times = refl

Reach-run_example :
    All IsOrdered taken.1
    × (taken.0.mem.cache ≡ run 10 taken.1 [])
    × ((k : String) → times k taken.0.mem.started ≡ starts k 10 taken.1 [])
Reach-run_example = Reach-run 10 taken.2

Reach-IsSpaced_example : IsSpaced 10 (lookup "a" []) (times "a" taken.0.mem.started)
Reach-IsSpaced_example = Reach-IsSpaced 10 "a" taken.2

Reach-Ends_example : Ends 10 taken.0
Reach-Ends_example = Reach-Ends 10 taken.2

Reach-IsExclusive_example : IsExclusive 10 taken.0.mem taken.0.pc
Reach-IsExclusive_example = Reach-IsExclusive 10 taken.2
