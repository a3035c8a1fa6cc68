-- ===== src/CircuitBreaker/Race/Tests.antt =====
-- Calls of app/models/services/circuit_breaker.py that interleave, for a half open breaker.
use rate_guardian.Base.{true, ◌≡◌, refl, some, none, List, [], ◌∷◌, String, All, arith}
use rate_guardian.Redis.{text, opens_at_key, state_key}
use rate_guardian.Redis.Memory.{Memory, memory, empty}
use rate_guardian.CircuitBreaker.{
  Config, opened, half_opened, or_closed, is_state, or_zero, get_value, can_request,
}
use rate_guardian.CircuitBreaker.Race.{
  Action, fails, succeeds, turn, perform_all, perform, take_turn, advance,
}
use rate_guardian.CircuitBreaker.Race.Recovers.{
  Typed, no_count, no_time, is_half, NotRaised, interleaved_recovers,
}

abbrev host : String
host = "api.example.com"

abbrev twice : Config
twice = record { threshold = 2; recovery = 30 }

abbrev probed : Memory
probed = memory.set empty (state_key host) (text half_opened)

-- A success is recorded while a failure is: the failure opens the breaker between the commands that
-- close it, and loses its deadline.
abbrev interleaved : List Action
interleaved =
    succeeds
    ∷ fails
    ∷ turn 0 100
    ∷ turn 1 100
    ∷ turn 0 101
    ∷ turn 0 102
    ∷ turn 1 103
    ∷ turn 1 104
    ∷ turn 0 105
    ∷ turn 1 106
    ∷ []

test_state :
    (memory.strings
      (perform_all memory twice host interleaved ([], probed)).1
      (state_key host)).value
    ≡ some (text opened)
unfolding perform_all perform take_turn advance or_closed is_state
test_state = refl

test_deadline :
    (memory.strings
      (perform_all memory twice host interleaved ([], probed)).1
      (opens_at_key host)).value
    ≡ none
unfolding perform_all perform take_turn advance or_closed is_state
test_deadline = refl

probed-Typed : Typed memory twice host probed
probed-Typed = record { mode = is_half; count = no_count; time = no_time }

no_deadline :
    or_zero (
      get_value memory
        (perform_all memory twice host interleaved ([], probed)).1
        (opens_at_key host))
    ≡ some 0
unfolding perform_all perform take_turn advance or_closed is_state or_zero
no_deadline = refl

interleaved_recovers_example :
    let (ws, s') = perform_all memory twice host interleaved ([], probed) in
    All NotRaised ws × (after : Memory) × (can_request memory s' host 107 ≡ some (true, after))
interleaved_recovers_example =
    interleaved_recovers memory twice host interleaved probed 0 107 probed-Typed no_deadline
      (omega arith)
