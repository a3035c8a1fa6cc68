-- ===== src/CircuitBreaker/Race.antt =====
-- The calls of app/models/services/circuit_breaker.py for one upstream, run by several workers at
-- once: each sends its commands one after the other, and those of other calls come in between.
pub mod Recovers
mod Tests
use rate_guardian.Base.{
  ℕ, zero, suc, ◌+◌, ◌*◌, String, Bool, true, false, ◌||◌, Option, none, some, List, [], ◌∷◌, leb,
  if◌then◌else◌,
}
use rate_guardian.Models.{rate_per_second}
use rate_guardian.Redis.{Redis, text, float, state_key, failures_key, opens_at_key, count_of}
use rate_guardian.CircuitBreaker.{
  Config, closed, opened, half_opened, or_closed, is_state, or_zero, get_value,
}

-- How far a call has come: the first three have done nothing yet, the last three have ended.
pub data Worker : Type 0 where
  asking succeeding failing : Worker
  looking probing closing clearing clearing_deadline opening marking : Worker
  counting : Bool → Worker
  answered : Bool → Worker
  finished raised : Worker

-- A call begins, the worker at a position has its turn with the clock that it reads, or time passes.
pub data Action : Type 0 where
  asks succeeds fails : Action
  turn : ℕ → ℕ → Action
  wait : ℕ → Action

module _ (r : Redis) (c : Config) (upstream : String) where
  open r use {State, set, incr, delete, elapse}

  unfoldable pub advance : Worker → ℕ → State → Worker × State
  unfolding or_closed is_state or_zero
  advance asking clock s =
      let state = or_closed (get_value r s (state_key upstream)) in
      (
        if is_state state closed
            then answered true
            else if is_state state opened
            then looking
            else answered true,
        s,
      )
  advance looking clock s = elim (or_zero (get_value r s (opens_at_key upstream))) [
    | none ↦ (raised, s)
    | some opens_at ↦ ((if leb opens_at clock then probing else answered false), s)
  ]
  advance probing clock s = (answered true, set s (state_key upstream) (text half_opened))
  advance succeeding clock s =
      let state = or_closed (get_value r s (state_key upstream)) in
      ((if is_state state half_opened || is_state state opened then closing else finished), s)
  advance closing clock s = (clearing, set s (state_key upstream) (text closed))
  advance clearing clock s = (clearing_deadline, delete s (failures_key upstream))
  advance clearing_deadline clock s = (finished, delete s (opens_at_key upstream))
  advance failing clock s =
      (counting (is_state (or_closed (get_value r s (state_key upstream))) half_opened), s)
  advance (counting half) clock s = elim (count_of (get_value r s (failures_key upstream))) [
    | none ↦ (raised, s)
    | some _ ↦
        let (failures, s') = incr s (failures_key upstream) in
        ((if half || leb c.threshold failures then opening else finished), s')
  ]
  advance opening clock s =
      (marking, set s (opens_at_key upstream) (float (clock + c.recovery * rate_per_second)))
  advance marking clock s = (finished, set s (state_key upstream) (text opened))
  advance (answered answer) clock s = (answered answer, s)
  advance finished clock s = (finished, s)
  advance raised clock s = (raised, s)

  unfoldable pub take_turn : ℕ → ℕ → List Worker → State → List Worker × State
  take_turn i clock [] s = ([], s)
  take_turn zero clock (w ∷ ws) s = let (w', s') = advance w clock s in (w' ∷ ws, s')
  take_turn (suc i) clock (w ∷ ws) s = let (ws', s') = take_turn i clock ws s in (w ∷ ws', s')

  unfoldable pub perform : Action → List Worker × State → List Worker × State
  perform asks (ws, s) = (asking ∷ ws, s)
  perform succeeds (ws, s) = (succeeding ∷ ws, s)
  perform fails (ws, s) = (failing ∷ ws, s)
  perform (turn i clock) (ws, s) = take_turn i clock ws s
  perform (wait d) (ws, s) = (ws, elapse s d)

  unfoldable pub perform_all : List Action → List Worker × State → List Worker × State
  perform_all [] system = system
  perform_all (a ∷ actions) system = perform_all actions (perform a system)
