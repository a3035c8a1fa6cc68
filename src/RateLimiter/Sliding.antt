-- ===== src/RateLimiter/Sliding.antt =====
-- `SlidingWindowRateLimiter` (app/models/services/rate_limiter.py) against the sliding window of
-- `Window`. The server's clock and `time.time()` move at one pace, and two requests for a key never
-- read the same time.
use mathlib.Core.List.{append-nil, append_assoc}
use rate_guardian.Base.{
  ℕ, ◌+◌, ◌≤◌, ◌<◌, ◌≡◌, refl, sym, ap, ◌∙◌, String, Bool, List, [], ◌∷◌, ◌++◌, arith, All,
  Bool-cases, inl, inr, if◌then◌else◌,
}
use rate_guardian.Redis.{Redis, vacant_zset}
use rate_guardian.RateLimiter.{RateLimitResult, seconds, check}
use rate_guardian.RateLimiter.Window.{admits, admit, run_window, load, run_window-IsBounded}
use rate_guardian.RateLimiter.Effect.{zsets-check, result-check}
use rate_guardian.RateLimiter.Stands.{Stands, age-Stands, age-strict, check-Stands}

-- Requests for one key at given gaps, the first `gap` after `now`: the answers of `check`.
module _ (r : Redis) where
  open r use {State, zsets, elapse, zsets-elapse}

  unfoldable pub run_checks : String → ℕ → ℕ → State → ℕ → List ℕ → List Bool × State
  run_checks key limit w s now [] = ([], s)
  run_checks key limit w s now (gap ∷ gaps) =
      let t = now + gap in
      let (result, s') = check r (elapse s gap) key limit w t in
      let (answers, end) = run_checks key limit w s' t gaps in (result.allowed ∷ answers, end)

  -- One request.
  pub allowed-check :
      (s : State) (key : String) (limit w now : ℕ) (history : List ℕ)
      → Stands (seconds w) now (zsets s key) history
      → (check r s key limit w now).0.allowed ≡ admits limit (seconds w) history now
  allowed-check s key limit w now history h =
      ap (λ (a : RateLimitResult). a.allowed) (result-check r s key limit w now)
      ∙ rw h.agrees (ground arith)

  pub left-check :
      (s : State) (key : String) (limit w now : ℕ) (history : List ℕ)
      → Stands (seconds w) now (zsets s key) history
      → All (λ t. t < now) (zsets s key).members
      → Stands
          (seconds w)
          now
          (zsets (check r s key limit w now).1 key)
          (admit limit (seconds w) history now)
  left-check s key limit w now history h p =
      rw (zsets-check r s key limit w now) (check-Stands limit w now (zsets s key) history h p)

  -- Where a key's sorted set stands for a history of admitted times, requests for the key with
  -- time passing between any two get the answers of the sliding window over that history.
  pub run_checks-window :
      (key : String) (limit w : ℕ) (s : State) (now : ℕ) (history gaps : List ℕ)
      → Stands (seconds w) now (zsets s key) history
      → All (λ gap. 0 < gap) gaps
      → (run_checks key limit w s now gaps).0 ≡ (run_window limit (seconds w) history now gaps).0
  unfolding run_checks run_window
  run_checks-window key limit w s now history [] h p = refl
  run_checks-window key limit w s now history (gap ∷ gaps) h p =
      let t = now + gap in
      let aged = elapse s gap in
      let stands : Stands (seconds w) t (zsets aged key) history =
        rw zsets-elapse (age-Stands (seconds w) now gap (zsets s key) history h) in
      let strict : All (λ x. x < t) (zsets aged key).members =
        rw zsets-elapse (age-strict now gap (zsets s key) h.past p.0) in
      let next =
        run_checks-window key limit w (check r aged key limit w t).1 t
          (admit limit (seconds w) history t) gaps
          (left-check aged key limit w t history stands strict) p.1 in
      rw (allowed-check aged key limit w t history stands)
        (ap (λ bs. admits limit (seconds w) history t ∷ bs) next)

-- The times of the requests that were let in.
abbrev pub accepted : ℕ → List ℕ → List Bool → List ℕ
accepted now [] bs = []
accepted now (gap ∷ gaps) [] = []
accepted now (gap ∷ gaps) (b ∷ bs) =
    let rest = accepted (now + gap) gaps bs in if b then (now + gap) ∷ rest else rest

history-accepted :
    (limit w : ℕ) (history : List ℕ) (now : ℕ) (gaps : List ℕ)
    → (run_window limit w history now gaps).1
      ≡ history ++ accepted now gaps (run_window limit w history now gaps).0
unfolding run_window admit
history-accepted limit w history now [] = sym (append-nil history)
history-accepted limit w history now (gap ∷ gaps) =
    let t = now + gap in
    elim (Bool-cases (admits limit w history t)) [
      | inl y ↦
          rw y
            (history-accepted limit w (history ++ t ∷ []) t gaps ∙ append_assoc history (t ∷ []) _)
      | inr n ↦ rw n (history-accepted limit w history t gaps)
    ]

module _ (r : Redis) where
  open r use {State, zsets}

  pub vacant-Stands : (w now : ℕ) → Stands (seconds w) now vacant_zset []
  vacant-Stands w now = record { agrees = refl; past = tt; lasts = λ rest e. cc }

  -- For a key with an empty sorted set, whatever requests for the key follow one another with
  -- time passing between any two, at most `limit` of the accepted ones lie in any window of
  -- `window_seconds`.
  pub window_limit :
      (key : String) (limit w : ℕ) (s : State) (now : ℕ) (gaps : List ℕ) (t : ℕ)
      → zsets s key ≡ vacant_zset
      → All (λ gap. 0 < gap) gaps
      → load t (seconds w) (accepted now gaps (run_checks r key limit w s now gaps).0) ≤ limit
  window_limit key limit w s now gaps t e p =
      let same = run_checks-window r key limit w s now [] gaps (rw e (vacant-Stands w now)) p in
      rw (same, ← history-accepted limit (seconds w) [] now gaps)
        (run_window-IsBounded limit (seconds w) [] now gaps (λ u. omega arith) t)
