-- ===== src/CircuitBreaker/Tests.antt =====
-- The breaker of app/models/services/circuit_breaker.py on concrete calls.
use rate_guardian.Base.{
  ◌+◌, ◌*◌, ◌≡◌, refl, String, Bool, true, false, none, some, List, [], ◌∷◌, ◌++◌, inl, arith,
  if◌then◌else◌,
}
use rate_guardian.Models.{rate_per_second}
use rate_guardian.Redis.{text, int, float, vacant, state_key, failures_key, opens_at_key, key_eq}
use rate_guardian.Redis.Memory.{Memory, memory, empty}
use rate_guardian.CircuitBreaker.{Config, opened, half_opened, get_state}
use rate_guardian.CircuitBreaker.Machine.{Mode, Breaker, idle, ask, fail}
use rate_guardian.CircuitBreaker.Stored.{Holds}
use rate_guardian.CircuitBreaker.Runs.{
  Event, asks, fails, succeeds, passes, Fleet, run_fleet, run_calls, HoldsAll, Runs, run_calls-Runs,
}
use rate_guardian.CircuitBreaker.Consistent.{IsConsistent, run_calls-IsConsistent, shown}
use rate_guardian.CircuitBreaker.Closes.{recovers}
use rate_guardian.CircuitBreaker.Recovery.{opens_at_threshold}

abbrev host : String
host = "api.example.com"

abbrev twice : Config
twice = record { threshold = 2; recovery = 30 }

abbrev fleet : Fleet
fleet u = idle

empty-HoldsAll : HoldsAll memory empty fleet
empty-HoldsAll u = record {
  mode = inl refl;
  failures = refl;
  opens_at = refl;
  state_stays = refl;
  failures_stay = refl;
  opens_at_stays = refl;
}

-- A server on which every breaker is in one mode, with two failures and a deadline at 100.
abbrev stored : String → Memory
stored mode = record empty {
  strings = λ j.
      if key_eq (state_key host) j
      then record { value = some (text mode); ttl = none }
      else (if key_eq (failures_key host) j
          then record { value = some (int 2); ttl = none }
          else (if key_eq (opens_at_key host) j
              then record { value = some (float 100); ttl = none }
              else vacant));
}

abbrev in_mode : Mode → Breaker
in_mode m = record { mode = m; failures = 2; opens_at = some 100 }

opened-Holds : Holds memory (stored opened) host (in_mode Mode.open_until)
opened-Holds = record {
  mode = refl;
  failures = refl;
  opens_at = refl;
  state_stays = refl;
  failures_stay = refl;
  opens_at_stays = refl;
}

half_opened-Holds : Holds memory (stored half_opened) host (in_mode Mode.half_open)
half_opened-Holds = record {
  mode = refl;
  failures = refl;
  opens_at = refl;
  state_stays = refl;
  failures_stay = refl;
  opens_at_stays = refl;
}

-- A failure, a question, a second failure that opens the breaker, and questions before and after
-- the deadline.
abbrev calls : List Event
calls =
    fails host 10
    ∷ asks host 11
    ∷ fails host 12
    ∷ asks host 13
    ∷ passes 5
    ∷ asks host (12 + 30 * rate_per_second)
    ∷ succeeds host
    ∷ []

calls_answers : (run_fleet twice fleet calls).0 ≡ true ∷ false ∷ true ∷ []
unfolding run_fleet ask fail
calls_answers = refl

run_calls-Runs_example : Runs memory twice empty fleet calls
run_calls-Runs_example = run_calls-Runs memory twice empty fleet calls empty-HoldsAll

run_calls-IsConsistent_example :
    (after : Memory) × (b : Breaker) × (run_calls memory twice empty calls
      ≡ some ((run_fleet twice fleet calls).0, after))
    × (get_state memory after host ≡ some (shown host b))
    × IsConsistent twice b
run_calls-IsConsistent_example =
    run_calls-IsConsistent memory twice empty fleet calls host (omega arith) empty-HoldsAll
      (λ u. (omega arith, refl))

opens_at_threshold_example :
    (answers : List Bool) × (after : Memory) × (run_calls memory twice empty
        ((fails host 10 ∷ succeeds host ∷ []) ++ fails host 12 ∷ [])
      ≡ some (answers, after))
    × Holds memory after host (record {
      mode = Mode.open_until;
      failures = 2;
      opens_at = some (12 + 30 * rate_per_second);
    })
opens_at_threshold_example =
    opens_at_threshold memory twice empty fleet host (fails host 10 ∷ succeeds host ∷ []) 12
      empty-HoldsAll refl refl

recovers_example :
    (after : Memory) × (run_calls memory twice
        (stored opened)
        (asks host 20 ∷ asks host 99 ∷ asks host 100 ∷ passes 5 ∷ succeeds host ∷ [])
      ≡ some (false ∷ false ∷ true ∷ [], after))
    × Holds memory after host idle
recovers_example =
    recovers memory twice (stored opened) host (in_mode Mode.open_until) opened-Holds refl
      (20 ∷ 99 ∷ []) 100 5 (omega arith, (omega arith, tt)) (omega arith)
