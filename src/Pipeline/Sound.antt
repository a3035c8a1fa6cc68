-- ===== src/Pipeline/Sound.antt =====
-- The state that the components rely on between the steps of the gateway's pipeline
-- (app/controllers/pipeline.py), and what the calls of the components do to it.
use rate_guardian.Base.{ℕ, ◌≡◌, refl, String}
use rate_guardian.Models.{Rule}
use rate_guardian.Redis.{Redis, state_key, failures_key, opens_at_key, cache_key}
use rate_guardian.Table.{Table}
use rate_guardian.CircuitBreaker.{record_success}
use rate_guardian.CircuitBreaker.Machine.{succeed}
use rate_guardian.CircuitBreaker.Refinement.{record_success-Holds}
use rate_guardian.CircuitBreaker.Stored.{Frames, Frames-success}
use rate_guardian.CircuitBreaker.Runs.{Fleet, HoldsAll, update, HoldsAll-update}
use rate_guardian.RateLimiter.{check}
use rate_guardian.RateLimiter.Effect.{strings-check}
use rate_guardian.Rules.{rule_id, World}
use rate_guardian.Rules.Cache.{Coherent, match_lem}

module _ (r : Redis) (t : Table Rule rule_id) where
  pub record Sound (w : World r t) (f : Fleet) : Type 0 where
    pub coherent : Coherent r t w
    pub holds : HoldsAll r w.redis f

  -- What only the strings are read for.
  pub Holds-strings :
      (s s' : r.State) (f : Fleet)
      → ((u : String)
          → (r.strings s' (state_key u) ≡ r.strings s (state_key u))
            × (r.strings s' (failures_key u) ≡ r.strings s (failures_key u))
            × (r.strings s' (opens_at_key u) ≡ r.strings s (opens_at_key u)))
      → HoldsAll r s f
      → HoldsAll r s' f
  Holds-strings s s' f same h u =
      let (a, b, c) = same u in
      let k = h u in
      record {
        mode = rw a k.mode;
        failures = rw b k.failures;
        opens_at = rw c k.opens_at;
        state_stays = rw a k.state_stays;
        failures_stay = rw b k.failures_stay;
        opens_at_stays = rw c k.opens_at_stays;
      }

  pub match-Sound :
      (w : World r t) (path : String) (f : Fleet) (h : Sound w f)
      → Sound (match_lem r t w path h.coherent).after f
  match-Sound w path f h =
      let m = match_lem r t w path h.coherent in
      record {
        coherent = m.coherent;
        holds =
            Holds-strings w.redis m.after.redis f
              (λ u. (
                m.frame (state_key u) refl,
                m.frame (failures_key u) refl,
                m.frame (opens_at_key u) refl,
              ))
              h.holds;
      }

  pub check-Sound :
      (w : World r t) (f : Fleet) (key : String) (limit window now : ℕ)
      → Sound w f
      → Sound (record w { redis = (check r w.redis key limit window now).1 }) f
  check-Sound w f key limit window now h =
      let same = strings-check r w.redis key limit window now in
      record {
        coherent = rw same h.coherent;
        holds =
            Holds-strings w.redis _ f
              (λ u. (same (state_key u), same (failures_key u), same (opens_at_key u))) h.holds;
      }

  -- A call of the breaker writes to its upstream's keys.
  pub breaker-Sound :
      (w : World r t) (f f' : Fleet) (u : String) (s : r.State)
      → Sound w f
      → Frames r w.redis s u
      → HoldsAll r s f'
      → Sound (record w { redis = s }) f'
  breaker-Sound w f f' u s h fr k = record {
    coherent = rw (fr.same cache_key refl refl refl) h.coherent;
    holds = k;
  }

  -- A success is recorded.
  pub success-Sound :
      (u : String) (w : World r t) (f : Fleet)
      → Sound w f
      → Sound (record w { redis = record_success r w.redis u }) (update f u (succeed (f u)))
  success-Sound u w f h =
      let b = record_success-Holds r w.redis u (f u) (h.holds u) in
      let frame = Frames-success r w.redis u in
      breaker-Sound w f _ u (record_success r w.redis u) h frame
        (HoldsAll-update r w.redis _ f u _ h.holds b frame)
