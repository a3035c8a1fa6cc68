-- ===== src/CircuitBreaker.antt =====
-- app/models/services/circuit_breaker.py: `RedisCircuitBreaker` and the part of
-- app/models/services/interfaces.py that it answers with (`CircuitState`).
--
-- `now` is the reading of `time.time()`. `none` is a Python exception: `float` or `int` of a text
-- that is no number, or INCR on such a text. Nothing has been written when one is raised.
pub mod Machine
pub mod Stored
pub mod Refinement
pub mod Runs
pub mod Consistent
pub mod Recovery
pub mod Closes
pub mod Sets
pub mod Race
mod Tests
use rate_guardian.Base.{
  ℕ, ◌+◌, ◌*◌, String, Bool, true, false, ◌||◌, Option, none, some, leb, ◌==◌, if◌then◌else◌,
}
use rate_guardian.Models.{rate_per_second}
use rate_guardian.Redis.{
  Redis, Value, text, int, float, json, StringKey, state_key, failures_key, opens_at_key, count_of,
}

abbrev pub closed : String
closed = "CLOSED"

abbrev pub opened : String
opened = "OPEN"

abbrev pub half_opened : String
half_opened = "HALF_OPEN"

pub record Config : Type 0 where
  pub threshold : ℕ
  pub recovery : ℕ

pub record CircuitState : Type 0 where
  pub upstream : String
  pub state : Value
  pub failures : ℕ
  pub opens_at : Option ℕ

-- `self._r.get(key) or _CLOSED`: a missing or empty text counts as false.
unfoldable pub or_closed : Option Value → Value
or_closed none = text closed
or_closed (some (text t)) = if t == "" then text closed else text t
or_closed (some v) = v

-- `state == name`
unfoldable pub is_state : Value → String → Bool
is_state (text t) name = t == name
is_state _ name = false

-- `float(raw or 0)`
unfoldable pub or_zero : Option Value → Option ℕ
or_zero none = some 0
or_zero (some (float t)) = some t
or_zero (some (int n)) = some (n * rate_per_second)
or_zero (some (text t)) = if t == "" then some 0 else none
or_zero (some (json rows)) = none

-- `float(raw) if raw else None`; the outer `none` is the exception.
unfoldable pub float_or_none : Option Value → Option (Option ℕ)
float_or_none none = some none
float_or_none (some (float t)) = some (some t)
float_or_none (some (int n)) = some (some (n * rate_per_second))
float_or_none (some (text t)) = if t == "" then some none else none
float_or_none (some (json rows)) = none

-- `int(raw or 0)`
unfoldable pub int_or_zero : Option Value → Option ℕ
int_or_zero none = some 0
int_or_zero (some (int n)) = some n
int_or_zero (some (float t)) = none
int_or_zero (some (text t)) = if t == "" then some 0 else none
int_or_zero (some (json rows)) = none

module _ (r : Redis) where
  open r use {State, strings, set, incr, delete}

  abbrev pub get_value : State → StringKey → Option Value
  get_value s k = (strings s k).value

  pub transition : State → String → String → State
  transition s upstream new_state =
      let s' = set s (state_key upstream) (text new_state) in
      if new_state == closed
      then delete (delete s' (failures_key upstream)) (opens_at_key upstream)
      else s'

  pub can_request : State → String → ℕ → Option (Bool × State)
  can_request s upstream now =
      let state = or_closed (get_value s (state_key upstream)) in
      if is_state state closed
      then some (true, s)
      else if is_state state opened
      then elim (or_zero (get_value s (opens_at_key upstream))) [
        | none ↦ none
        | some opens_at ↦
            if leb opens_at now
            then some (true, transition s upstream half_opened)
            else some (false, s)
      ]
      else some (true, s)

  pub record_success : State → String → State
  record_success s upstream =
      let state = or_closed (get_value s (state_key upstream)) in
      if is_state state half_opened || is_state state opened
      then transition s upstream closed
      else s

  pub record_failure : Config → State → String → ℕ → Option State
  record_failure c s upstream now =
      let state = or_closed (get_value s (state_key upstream)) in
      elim (count_of (get_value s (failures_key upstream))) [
        | none ↦ none
        | some _ ↦
            let (failures, s') = incr s (failures_key upstream) in
            if is_state state half_opened || leb c.threshold failures
            then some (
                transition
                  (set s' (opens_at_key upstream) (float (now + c.recovery * rate_per_second)))
                  upstream opened)
            else some s'
      ]

  pub get_state : State → String → Option CircuitState
  get_state s upstream =
      let state = or_closed (get_value s (state_key upstream)) in
      elim (int_or_zero (get_value s (failures_key upstream))) [
        | none ↦ none
        | some failures ↦ elim (float_or_none (get_value s (opens_at_key upstream))) [
          | none ↦ none
          | some opens_at ↦ some (record {
            upstream = upstream;
            state = state;
            failures = failures;
            opens_at = opens_at;
          })
        ]
      ]
