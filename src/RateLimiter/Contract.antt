-- ===== src/RateLimiter/Contract.antt =====
-- `RateLimiterBase` of app/models/services/interfaces.py, the contract of a rate limiter: what a
-- caller may rely on whatever limiter it was given, and `SlidingWindowRateLimiter` as one.
use rate_guardian.Base.{ℕ, ◌≤◌, ◌≡◌, refl, ◌∙◌, String, false, List, [], ◌∷◌, All}
use rate_guardian.Redis.{Redis}
use rate_guardian.RateLimiter.{RateLimitResult, check}
use rate_guardian.RateLimiter.Quota.{rejected_consumes_nothing}

-- The reading of the clock is an argument of `check`, and the state is what it works on.
pub record RateLimiterBase : Type 1 where
  pub State : Type 0
  pub check : State → String → ℕ → ℕ → ℕ → RateLimitResult × State
  -- A rejected call does not consume quota: a later call, with a window that is no longer, gets
  -- what it would have got without it.
  pub rejection_is_free :
      (s : State) (key : String) (limit window_seconds now limit' window_seconds' later : ℕ)
      → (check s key limit window_seconds now).0.allowed ≡ false
      → now ≤ later
      → window_seconds' ≤ window_seconds
      → (check (check s key limit window_seconds now).1 key limit' window_seconds' later).0
        ≡ (check s key limit' window_seconds' later).0

pub sliding_window : Redis → RateLimiterBase
sliding_window r = record {
  State = r.State;
  check = check r;
  rejection_is_free = rejected_consumes_nothing r;
}

module _ (b : RateLimiterBase) where
  open b use {State}

  -- A client that tries at the given times.
  unfoldable pub attempts : State → String → ℕ → ℕ → List ℕ → List RateLimitResult × State
  attempts s key limit window_seconds [] = ([], s)
  attempts s key limit window_seconds (now ∷ times) =
      let (result, s') = b.check s key limit window_seconds now in
      let (results, end) = attempts s' key limit window_seconds times in (result ∷ results, end)

  -- However often a client tries and is rejected, a later call for the key, with a window that is no
  -- longer, gets the result that it would have got without the attempts.
  pub rejections_are_free :
      (s : State) (key : String) (limit window_seconds : ℕ) (times : List ℕ)
      (limit' window_seconds' later : ℕ)
      → All
          (λ (a : RateLimitResult). a.allowed ≡ false)
          (attempts s key limit window_seconds times).0
      → All (λ now. now ≤ later) times
      → window_seconds' ≤ window_seconds
      → (b.check (attempts s key limit window_seconds times).1 key limit' window_seconds' later).0
        ≡ (b.check s key limit' window_seconds' later).0
  unfolding attempts
  rejections_are_free s key limit w [] limit' w' later h p k = refl
  rejections_are_free s key limit w (now ∷ times) limit' w' later h p k =
      rejections_are_free (b.check s key limit w now).1 key limit w times limit' w' later h.1 p.1 k
      ∙ b.rejection_is_free s key limit w now limit' w' later h.0 p.0 k
