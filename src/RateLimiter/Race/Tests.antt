-- ===== src/RateLimiter/Race/Tests.antt =====
-- Two calls of `check` of app/models/services/rate_limiter.py at once, under a limit of one.
use rate_guardian.Base.{◌≤◌, ◌≡◌, refl, List, [], ◌∷◌, arith}
use rate_guardian.Redis.Memory.{memory, empty}
use rate_guardian.RateLimiter.Race.{Action, turn, perform_all, perform, take_turn, advance}
use rate_guardian.RateLimiter.Race.Bound.{card, all_ready, overshoot_bounded}

-- Both count before either adds its time.
abbrev interleaved : List Action
interleaved =
    turn 0 100
    ∷ turn 1 101
    ∷ turn 0 102
    ∷ turn 1 103
    ∷ turn 0 104
    ∷ turn 1 105
    ∷ turn 0 106
    ∷ turn 1 107
    ∷ []

test_overshoot :
    card memory "10.0.0.7" (perform_all memory "10.0.0.7" 1 60 interleaved (all_ready 2, empty)).1
    ≡ 2
unfolding perform_all perform take_turn advance
test_overshoot = refl

overshoot_bounded_example :
    card memory "10.0.0.7" (perform_all memory "10.0.0.7" 1 60 interleaved (all_ready 2, empty)).1
    ≤ 2
overshoot_bounded_example =
    overshoot_bounded memory "10.0.0.7" 1 60 1 interleaved empty (omega arith)
