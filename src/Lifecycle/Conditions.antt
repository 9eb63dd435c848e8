-- ===== src/Lifecycle/Conditions.antt =====
-- The loops over `object.Status.Conditions` of the controllers, which stop at the first condition
-- with a given reason.
use influxdb_operator.Base.{ℕ, String, ◌≡◌, refl, Bool, true, false, List, [], ◌∷◌, ◌++◌, ◌==◌}
use influxdb_operator.Base.{arith, if◌then◌else◌}
use influxdb_operator.Api.{Condition}

-- Whether the loop finds the reason.
unfoldable pub has_reason : String → List Condition → Bool
has_reason reason [] = false
has_reason reason (c ∷ cs) = if c.reason == reason then true else has_reason reason cs

-- `object.Status.Conditions[i].LastTransitionTime = v12.Time{Time: time.Now()}` at that condition.
unfoldable pub touch : String → ℕ → List Condition → List Condition
touch reason time [] = []
touch reason time (c ∷ cs) =
    if c.reason == reason
    then record c { last_transition_time = time } ∷ cs
    else c ∷ touch reason time cs

pub has_reason-touch :
    (reason r : String) (time : ℕ) (cs : List Condition)
    → has_reason r (touch reason time cs) ≡ has_reason r cs
unfolding has_reason touch
has_reason-touch reason r time [] = refl
has_reason-touch reason r time (c ∷ cs) = ground (arith, has_reason-touch reason r time cs)

pub has_reason-append :
    (r : String) (cs : List Condition) (c : Condition)
    → has_reason r (cs ++ c ∷ []) ≡ (if c.reason == r then true else has_reason r cs)
unfolding has_reason
has_reason-append r [] c = refl
has_reason-append r (d ∷ cs) c = ground (arith, has_reason-append r cs c)
