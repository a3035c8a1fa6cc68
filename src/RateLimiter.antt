-- ===== src/RateLimiter.antt =====
-- app/models/services/rate_limiter.py: `SlidingWindowRateLimiter`, and `RateLimitResult` of
-- app/models/services/interfaces.py.
--
-- `now` is the reading of `time.time()`; a window is given in seconds.
pub mod Effect
pub mod Window
pub mod Stands
pub mod Sliding
pub mod Quota
pub mod Contract
pub mod Surprises
pub mod Race
mod Tests
use rate_guardian.Base.{
  ℕ, suc, ◌+◌, ◌-◌, ◌*◌, ◌/◌, String, Bool, true, false, List, [], ◌∷◌, ltb, ℤ, pos, negsuc, sub_ℕ,
  clamp, length, if◌then◌else◌,
}
use rate_guardian.Models.{rate_per_second}
use rate_guardian.Redis.{Redis}

pub record RateLimitResult : Type 0 where
  pub allowed : Bool
  pub limit : ℕ
  pub remaining : ℕ
  pub reset_in : ℕ

-- A whole number of seconds.
abbrev pub seconds : ℕ → ℕ
seconds n = n * rate_per_second

-- `int(x)` of a number of seconds: the fraction is cut off, towards zero.
abbrev pub int_seconds : ℤ → ℤ
int_seconds (pos n) = pos (n / rate_per_second)
int_seconds (negsuc n) = sub_ℕ 0 (suc n / rate_per_second)

-- `int(window_seconds - (now - oldest[0][1])) if oldest else window_seconds`, clamped at 0.
unfoldable pub reset_after : List ℕ → ℕ → ℕ → ℕ
reset_after [] window_seconds now = window_seconds
reset_after (oldest ∷ _) window_seconds now =
    clamp (int_seconds (sub_ℕ (seconds window_seconds + oldest) now))

module _ (r : Redis) where
  open r use {State, zsets, zremrangebyscore, zadd, expire}

  unfoldable pub check : State → String → ℕ → ℕ → ℕ → RateLimitResult × State
  check s key limit window_seconds now =
      let trimmed = zremrangebyscore s key (sub_ℕ now (seconds window_seconds)) in
      let current_count = length (zsets trimmed key).members in
      if ltb current_count limit
      then (
        record {
          allowed = true;
          limit = limit;
          remaining = limit - current_count - 1;
          reset_in = window_seconds;
        },
        expire (zadd trimmed key now) key (seconds (window_seconds + 1)),
      )
      else (
        record {
          allowed = false;
          limit = limit;
          remaining = 0;
          reset_in = reset_after (zsets trimmed key).members window_seconds now;
        },
        trimmed,
      )
