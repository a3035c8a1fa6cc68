-- ===== src/CircuitBreaker/Machine.antt =====
-- What a circuit breaker promises for one upstream, free of keys and encodings: a state machine on
-- a mode, a count and a deadline. The docstring of `RedisCircuitBreaker` lists its transitions.
use rate_guardian.Base.{ℕ, ◌+◌, ◌*◌, Bool, true, false, Option, none, some, leb, if◌then◌else◌}
use rate_guardian.Models.{rate_per_second}
use rate_guardian.CircuitBreaker.{Config}

pub data Mode : Type 0 where
  closed open_until half_open : Mode

pub record Breaker : Type 0 where
  pub mode : Mode
  pub failures : ℕ
  pub opens_at : Option ℕ

-- A breaker that nothing was recorded for.
abbrev pub idle : Breaker
idle = record { mode = Mode.closed; failures = 0; opens_at = none }

abbrev pub due : Option ℕ → ℕ
due none = 0
due (some t) = t

-- `can_request`: the answer and the state after it.
unfoldable pub ask : Breaker → ℕ → Bool × Breaker
ask b now = elim b.mode [
  | closed ↦ (true, b)
  | open_until ↦
      if leb (due b.opens_at) now then (true, record b { mode = Mode.half_open }) else (false, b)
  | half_open ↦ (true, b)
]

-- `record_success`
unfoldable pub succeed : Breaker → Breaker
succeed b = elim b.mode [ closed ↦ b | open_until ↦ idle | half_open ↦ idle ]

-- `record_failure`
unfoldable pub fail : Config → Breaker → ℕ → Breaker
fail c b now =
    let counted = record b { failures = b.failures + 1 } in
    let tripped = record b {
      mode = Mode.open_until;
      failures = b.failures + 1;
      opens_at = some (now + c.recovery * rate_per_second);
    } in
    elim b.mode [
      | half_open ↦ tripped
      | _ ↦ if leb c.threshold (b.failures + 1) then tripped else counted
    ]
