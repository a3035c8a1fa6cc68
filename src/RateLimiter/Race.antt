-- ===== src/RateLimiter/Race.antt =====
-- `SlidingWindowRateLimiter.check` of app/models/services/rate_limiter.py, run by several workers at
-- once: each call sends its commands one after the other, and those of other calls come in between.
--
-- The commands of `pipeline()` are one transaction of Redis, and so one turn of a worker.
pub mod Alone
pub mod Bound
mod Tests
use rate_guardian.Base.{
  ℕ, zero, suc, ◌+◌, ◌-◌, String, true, false, List, [], ◌∷◌, ltb, sub_ℕ, length, if◌then◌else◌,
}
use rate_guardian.Redis.{Redis}
use rate_guardian.RateLimiter.{RateLimitResult, seconds, reset_after}

-- How far a call has come: what it still has to do, with its local variables.
pub data Worker : Type 0 where
  ready : Worker
  timed trimmed rejecting : ℕ → Worker
  admitting added : ℕ → ℕ → Worker
  answered : RateLimitResult → Worker

-- A worker's turn with the clock that it reads, a finished worker's next request, and the time that
-- passes on the server.
pub data Action : Type 0 where
  turn : ℕ → ℕ → Action
  serve wait : ℕ → Action

-- The next request of the worker at a position, if it has answered the last one.
unfoldable pub next_request : ℕ → List Worker → List Worker
next_request i [] = []
next_request zero (answered result ∷ ws) = ready ∷ ws
next_request zero (w ∷ ws) = w ∷ ws
next_request (suc i) (w ∷ ws) = w ∷ next_request i ws

module _ (r : Redis) (key : String) (limit window_seconds : ℕ) where
  open r use {State, zsets, zremrangebyscore, zadd, expire, elapse}

  unfoldable pub advance : Worker → ℕ → State → Worker × State
  advance ready clock s = (timed clock, s)
  advance (timed now) clock s =
      (trimmed now, zremrangebyscore s key (sub_ℕ now (seconds window_seconds)))
  advance (trimmed now) clock s =
      let current_count = length (zsets s key).members in
      ((if ltb current_count limit then admitting now current_count else rejecting now), s)
  advance (admitting now current_count) clock s = (added now current_count, zadd s key now)
  advance (added now current_count) clock s = (
    answered (record {
      allowed = true;
      limit = limit;
      remaining = limit - current_count - 1;
      reset_in = window_seconds;
    }),
    expire s key (seconds (window_seconds + 1)),
  )
  advance (rejecting now) clock s = (
    answered (record {
      allowed = false;
      limit = limit;
      remaining = 0;
      reset_in = reset_after (zsets s key).members window_seconds now;
    }),
    s,
  )
  advance (answered result) clock s = (answered result, s)

  unfoldable pub take_turn : ℕ → ℕ → List Worker → State → List Worker × State
  take_turn i clock [] s = ([], s)
  take_turn zero clock (w ∷ ws) s = let (w', s') = advance w clock s in (w' ∷ ws, s')
  take_turn (suc i) clock (w ∷ ws) s = let (ws', s') = take_turn i clock ws s in (w ∷ ws', s')

  unfoldable pub perform : Action → List Worker × State → List Worker × State
  perform (turn i clock) (ws, s) = take_turn i clock ws s
  perform (serve i) (ws, s) = (next_request i ws, s)
  perform (wait d) (ws, s) = (ws, elapse s d)

  unfoldable pub perform_all : List Action → List Worker × State → List Worker × State
  perform_all [] system = system
  perform_all (a ∷ actions) system = perform_all actions (perform a system)
