-- ===== src/CircuitBreaker/Closes.antt =====
-- How an open breaker of app/models/services/circuit_breaker.py comes to be closed again.
use rate_guardian.Base.{
  ℕ, ◌≤◌, ◌<◌, ◌≡◌, refl, String, Bool, true, false, some, List, [], ◌∷◌, ◌++◌, map, All, arith,
}
use rate_guardian.Redis.{Redis}
use rate_guardian.CircuitBreaker.{Config, record_success}
use rate_guardian.CircuitBreaker.Machine.{Mode, Breaker, idle, due, ask, succeed}
use rate_guardian.CircuitBreaker.Stored.{Holds, elapse-Holds}
use rate_guardian.CircuitBreaker.Runs.{asks, succeeds, passes, Event, run_calls}
use rate_guardian.CircuitBreaker.Refinement.{can_request-Holds, record_success-Holds}
use rate_guardian.CircuitBreaker.Recovery.{asks_open}

ask-due :
    (b : Breaker) (now : ℕ)
    → b.mode ≡ Mode.open_until
    → due b.opens_at ≤ now
    → ask b now ≡ (true, record b { mode = Mode.half_open })
unfolding ask
ask-due b now m h = ground arith

module _ (r : Redis) (c : Config) (s : r.State) (u : String) (b : Breaker) (h : Holds r s u b)
    (m : b.mode ≡ Mode.open_until) where
  open_then :
      (ts : List ℕ) (es : List Event) (bs : List Bool) (after : r.State)
      → All (λ t. t < due b.opens_at) ts
      → run_calls r c s es ≡ some (bs, after)
      → run_calls r c s (map (asks u) ts ++ es) ≡ some (map (λ t. false) ts ++ bs, after)
  unfolding run_calls
  open_then [] es bs after early e = e
  open_then (t ∷ ts) es bs after early e =
      rw (asks_open r s u b t h m early.0) (rw (open_then ts es bs after early.1 e) refl)

  -- From an open breaker, any questions before its deadline are answered no, the first one at
  -- or after the deadline is answered yes, and when the success of that request is recorded
  -- after any time the breaker is closed, with no failures and no deadline.
  pub recovers :
      (ts : List ℕ) (t d : ℕ)
      → All (λ t. t < due b.opens_at) ts
      → due b.opens_at ≤ t
      → (after : r.State) × (run_calls r c s
            (map (asks u) ts ++ asks u t ∷ passes d ∷ succeeds u ∷ [])
          ≡ some (map (λ t. false) ts ++ true ∷ [], after))
        × Holds r after u idle
  unfolding run_calls succeed
  recovers ts t d early h' =
      let a = can_request-Holds r s u b t h in
      let probed : Breaker = record b { mode = Mode.half_open } in
      let later = r.elapse a.after d in
      let after = record_success r later u in
      let half : Holds r a.after u probed = rw (ask-due b t m h') at a.holds in
      (
        after,
        open_then ts _ _ after early (rw a.answer (rw (ask-due b t m h') refl)),
        record_success-Holds r later u probed (elapse-Holds r a.after d u probed half),
      )
