-- ===== src/RateLimiter/Tests.antt =====
-- The limiter of app/models/services/rate_limiter.py on concrete requests.
use rate_guardian.Base.{
  ℕ, ◌+◌, ◌-◌, ◌<◌, ◌≤◌, ◌≡◌, refl, String, true, false, none, some, List, [], ◌∷◌, arith, length,
  if◌then◌else◌,
}
use rate_guardian.Redis.Memory.{Memory, memory, empty}
use rate_guardian.RateLimiter.{seconds, check}
use rate_guardian.RateLimiter.Window.{load, run_window}
use rate_guardian.RateLimiter.Effect.{kept}
use rate_guardian.RateLimiter.Sliding.{
  run_checks, run_checks-window, accepted, window_limit, vacant-Stands,
}
use rate_guardian.RateLimiter.Quota.{rejected_consumes_nothing, result_bounds, retry_succeeds}
use rate_guardian.RateLimiter.Surprises.{retry_too_early, short_window_resets}

-- One client, let in at time 10, whose rule allows one request in a second.
abbrev client : String
client = "10.0.0.7"

abbrev busy : Memory
busy = record empty { zsets = λ key. record { members = 10 ∷ []; ttl = none } }

abbrev gaps : List ℕ
gaps = 10 ∷ 5 ∷ 5 ∷ []

busy_rejects : (check memory busy client 1 1 20).0.allowed ≡ false
unfolding check
busy_rejects = refl

third_rejected : (run_checks memory client 2 1 empty 0 gaps).0 ≡ true ∷ true ∷ false ∷ []
unfolding run_checks check
third_rejected = refl

window_limit_example :
    load 20 (seconds 1) (accepted 0 gaps (run_checks memory client 2 1 empty 0 gaps).0) ≤ 2
window_limit_example =
    window_limit memory client 2 1 empty 0 gaps 20 refl
      (omega arith, (omega arith, (omega arith, tt)))

run_checks-window_example :
    (run_checks memory client 2 1 empty 0 gaps).0 ≡ (run_window 2 (seconds 1) [] 0 gaps).0
run_checks-window_example =
    run_checks-window memory client 2 1 empty 0 [] gaps (vacant-Stands memory 1 0)
      (omega arith, (omega arith, (omega arith, tt)))

rejected_consumes_nothing_example :
    (check memory (check memory busy client 1 1 20).1 client 2 1 30).0
    ≡ (check memory busy client 2 1 30).0
rejected_consumes_nothing_example =
    rejected_consumes_nothing memory busy client 1 1 20 2 1 30 busy_rejects (omega arith)
      (omega arith)

result_bounds_example :
    let a = (check memory busy client 3 1 20).0 in
    (a.limit ≡ 3)
    × (a.reset_in ≤ 1)
    × (a.remaining + (if a.allowed then length (kept memory busy client 1 20) + 1 else 3) ≡ 3)
result_bounds_example = result_bounds memory busy client 3 1 20 (omega arith, tt)

retry_succeeds_example :
    let later = 20 + seconds ((check memory busy client 1 1 20).0.reset_in + 1) in
    (check memory (memory.elapse (check memory busy client 1 1 20).1 0) client 1 1 later).0.allowed
    ≡ true
retry_succeeds_example =
    retry_succeeds memory busy client 1 1 20 0 10 [] busy_rejects refl (omega arith)

-- The window is two seconds long, and the set has been there for ten units of time.
abbrev lively : Memory
lively = record empty { zsets = λ key. record { members = 10 ∷ []; ttl = some (seconds 3 - 10) } }

lively_rejects : (check memory lively client 1 2 20).0.allowed ≡ false
unfolding check
lively_rejects = refl

lively_lives : (left : ℕ) → some (seconds 3 - 10) ≡ some left → seconds 1 < left
lively_lives left e = ground arith

retry_too_early_example :
    let later = 20 + seconds (check memory lively client 1 2 20).0.reset_in in
    (check memory
      (memory.elapse (check memory lively client 1 2 20).1 (seconds 1))
      client
      1
      2
      later).0.allowed
    ≡ false
retry_too_early_example =
    retry_too_early memory lively client 1 2 20 10 [] (seconds 1) lively_rejects refl (omega arith)
      tt (omega arith) lively_lives

short_window_resets_example :
    (check memory (check memory empty client 1 60 20).1 client 5 1 21).0.allowed ≡ true
short_window_resets_example =
    short_window_resets memory empty client 1 60 20 5 1 21 tt (omega arith) (omega arith)
