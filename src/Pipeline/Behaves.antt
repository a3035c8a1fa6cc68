-- ===== src/Pipeline/Behaves.antt =====
-- What a run of the gateway's pipeline (app/controllers/pipeline.py) does, told by the answer of the
-- limiter and the abstract state machine of the upstream's breaker.
use rate_guardian.Base.{
  ℕ, ◌-◌, ◌≡◌, refl, sym, ap, subst, ◌∙◌, String, Bool, true, false, Option, none, some, List, [],
  ◌∷◌, ◌++◌, inl, inr, Option-cases, Bool-cases, first, ltb, length, if◌then◌else◌,
}
use rate_guardian.Models.{Rule, CachedRule}
use rate_guardian.Redis.{Redis, ZsetCell}
use rate_guardian.Table.{Table}
use rate_guardian.EventManager.{EventManager, emit}
use rate_guardian.CircuitBreaker.{Config}
use rate_guardian.CircuitBreaker.Machine.{Breaker, ask}
use rate_guardian.CircuitBreaker.Refinement.{can_request-Holds}
use rate_guardian.CircuitBreaker.Sets.{SameSets}
use rate_guardian.CircuitBreaker.Runs.{Fleet, update, HoldsAll-update}
use rate_guardian.RateLimiter.{RateLimitResult, seconds, reset_after, check}
use rate_guardian.RateLimiter.Window.{inside}
use rate_guardian.RateLimiter.Effect.{result-check}
use rate_guardian.Rules.{rule_id, payload, applies}
use rate_guardian.Rules.Cache.{match_lem}
use rate_guardian.Proxy.{Sent}
use rate_guardian.Pipeline.{
  Response, Ctx, Clock, Client, proceeds, Gate, Step, rl_key, too_many, unavailable, blocked_event,
  emit_and_respond, limit_by, circuit_breaker_step, proxy_step, run, gateway,
}
use rate_guardian.Pipeline.Sound.{Sound, match-Sound, check-Sound, breaker-Sound}
use rate_guardian.Pipeline.Steps.{Ends, Ends-first, Ends-map}
use rate_guardian.Pipeline.Received.{IsQuiet}
use rate_guardian.Pipeline.Meters.{limited, unlimited}
use rate_guardian.Pipeline.Shields.{Unavailable, Shut-Unavailable}
use rate_guardian.Pipeline.Tracks.{Forwarded, proxy-Forwarded}

-- What a check answers depends on the key's sorted set only.
result-SameSets :
    (r : Redis) (s s' : r.State) (key : String) (limit w now : ℕ)
    → SameSets r s s'
    → (check r s' key limit w now).0 ≡ (check r s key limit w now).0
result-SameSets r s s' key limit w now h =
    result-check r s' key limit w now
    ∙ ap
        (λ (c : ZsetCell).
          let kept = inside now (seconds w) c.members in
          let result : RateLimitResult =
            if ltb (length kept) limit
            then record {
              allowed = true;
              limit = limit;
              remaining = limit - length kept - 1;
              reset_in = w;
            }
            else record {
              allowed = false;
              limit = limit;
              remaining = 0;
              reset_in = reset_after kept w now;
            } in
          result)
        (h key)
    ∙ sym (result-check r s key limit w now)

module _ (r : Redis) (t : Table Rule rule_id) (S : Type 0) (m : EventManager S) (q : IsQuiet m)
    (c : Config) (clock : Clock) (client : Client) (f : Fleet) where
  -- The breaker has answered, and stands as given.
  abbrev pub Told : Bool × Breaker → Ctx → Gate r t S → Response → Gate r t S → Type 0
  Told (false, b) ctx g a g' = (g'.sent ≡ g.sent) × (a ≡ unavailable) × Sound r t g'.world f
  Told (true, b) ctx g a g' =
      Forwarded r t S m q c clock client (update f ctx.upstream_host b) ctx g a g'

  -- The limiter has answered.
  abbrev pub Limited : RateLimitResult → Bool → Ctx → Gate r t S → Response → Gate r t S → Type 0
  Limited result false ctx g a g' =
      (g'.sent ≡ g.sent) × (a ≡ too_many result) × Sound r t g'.world f
  Limited result true ctx g a g' = Told (ask (f ctx.upstream_host) clock.at_ask) ctx g a g'

  -- The rule that applies has been found, or none.
  abbrev pub Found : Option CachedRule → Ctx → Gate r t S → Response → Gate r t S → Type 0
  Found none ctx g a g' = Told (ask (f ctx.upstream_host) clock.at_ask) ctx g a g'
  Found (some rule) ctx g a g' =
      let result =
        (check r g.world.redis (rl_key ctx rule) rule.limit rule.window_seconds clock.at_check).0 in
      Limited result result.allowed ctx g a g'

  abbrev later_steps : String → List (Step r t S)
  later_steps detail =
      circuit_breaker_step r t S m clock ∷ proxy_step r t S c m clock client detail ∷ []

  abbrev Asked : Ctx → Gate r t S → Response → Gate r t S → Type 0
  Asked ctx = Told (ask (f ctx.upstream_host) clock.at_ask) ctx

  Told-no :
      (x : Bool × Breaker) (ctx : Ctx) (g : Gate r t S) (a : Response) (g' : Gate r t S)
      → x.0 ≡ false
      → Unavailable r t S m q clock f ctx g a g'
      → Told x ctx g a g'
  Told-no (true, b) ctx g a g' e k = cc
  Told-no (false, b) ctx g a g' e k = k

  Told-yes :
      (x : Bool × Breaker) (ctx : Ctx) (g : Gate r t S) (a : Response) (g' : Gate r t S)
      → x.0 ≡ true
      → Forwarded r t S m q c clock client (update f ctx.upstream_host x.1) ctx g a g'
      → Told x ctx g a g'
  Told-yes (true, b) ctx g a g' e k = k
  Told-yes (false, b) ctx g a g' e k = cc

  Told-from :
      (x : Bool × Breaker) (ctx : Ctx) (g g' : Gate r t S) (a : Response) (end : Gate r t S)
      → g'.sent ≡ g.sent
      → Told x ctx g' a end
      → Told x ctx g a end
  Told-from (false, b) ctx g g' a end e (k, h, sound) = (k ∙ e, h, sound)
  Told-from (true, b) ctx g g' a end e (asked, k, replays, passes, sound) =
      (asked, k ∙ ap (λ (s : List Sent). s ++ asked ∷ []) e, replays, passes, sound)

  later-Told :
      (detail : String) (ctx : Ctx) (g : Gate r t S)
      → Sound r t g.world f
      → Ends r t S Asked ctx g (run r t S (later_steps detail) ctx g)
  unfolding circuit_breaker_step
  later-Told detail ctx g h =
      let u = ctx.upstream_host in
      let told = ask (f u) clock.at_ask in
      let f' = update f u told.1 in
      let a = can_request-Holds r g.world.redis u (f u) clock.at_ask (h.holds u) in
      let g' = record g { world = record g.world { redis = a.after } } in
      let sound =
        breaker-Sound r t g.world f f' u a.after h a.frame
          (HoldsAll-update r g.world.redis a.after f u told.1 h.holds a.holds a.frame) in
      let later = proxy_step r t S c m clock client detail ∷ [] in
      elim (Bool-cases told.0) [
        | inl y ↦
            let x = run r t S later ctx g' in
            Ends-first r t S Asked _ later ctx g (proceeds, ctx, g')
              (rw (a.answer ∙ ap (λ (b : Bool). some (b, a.after)) y, circuit_breaker_step) refl)
              (Ends-map r t S (Forwarded r t S m q c clock client f') Asked ctx g g'
                (λ response end k. Told-yes told ctx g response end y k) x.0 x.1 x.2
                (proxy-Forwarded r t S m q c clock client f' detail ctx g' sound))
        | inr n ↦
            let x = run r t S (later_steps detail) ctx g in
            Ends-map r t S (Unavailable r t S m q clock f) Asked ctx g g
              (λ response end k. Told-no told ctx g response end n k) x.0 x.1 x.2
              (Shut-Unavailable r t S m q clock f later ctx g n h)
      ]

  -- No rule applies.
  gateway-Told :
      (detail : String) (ctx : Ctx) (g : Gate r t S)
      → Sound r t g.world f
      → first (applies ctx.path) (payload r t g.world.db) ≡ none
      → Ends r t S Asked ctx g (gateway r t S c m clock client detail ctx g)
  unfolding gateway
  gateway-Told detail ctx g h e =
      let g' = record g { world = (match_lem r t g.world ctx.path h.coherent).after } in
      let told = ask (f ctx.upstream_host) clock.at_ask in
      let steps = later_steps detail in
      let x = run r t S steps ctx g' in
      Ends-first r t S Asked _ steps ctx g _ (unlimited r t S m q clock ctx g h.coherent e) (
        Ends-map r t S Asked Asked ctx g g' (λ a end k. Told-from told ctx g g' a end refl k) x.0
          x.1 x.2 (later-Told detail ctx g' (match-Sound r t g.world ctx.path f h)))

  -- A rule applies.
  gateway-Limited :
      (detail : String) (rule : CachedRule) (ctx : Ctx) (g : Gate r t S)
      → Sound r t g.world f
      → first (applies ctx.path) (payload r t g.world.db) ≡ some rule
      → Ends r t S (Found (some rule)) ctx g (gateway r t S c m clock client detail ctx g)
  unfolding gateway limit_by emit_and_respond
  gateway-Limited detail rule ctx g h e =
      let matched = match_lem r t g.world ctx.path h.coherent in
      let s = matched.after.redis in
      let key = rl_key ctx rule in
      let z = check r s key rule.limit rule.window_seconds clock.at_check in
      let same =
        result-SameSets r g.world.redis s key rule.limit rule.window_seconds clock.at_check
          matched.sets in
      let sound =
        check-Sound r t matched.after f key rule.limit rule.window_seconds clock.at_check
          (match-Sound r t g.world ctx.path f h) in
      let g' = record g { world = record matched.after { redis = z.1 } } in
      let refused = record g' {
        sink = (emit m (blocked_event ctx clock 429 "rate_limit") g.sink).0;
      } in
      let told = ask (f ctx.upstream_host) clock.at_ask in
      let steps = later_steps detail in
      let x = run r t S steps ctx g' in
      let found =
        λ (a : Response) (end : Gate r t S) (b : Bool) (y : z.0.allowed ≡ b)
            (k : Limited z.0 b ctx g a end).
          subst (λ (result : RateLimitResult). Limited result result.allowed ctx g a end) same
            (subst (λ (b : Bool). Limited z.0 b ctx g a end) (sym y) k) in
      Ends-first r t S (Found (some rule)) _ steps ctx g _
        (limited r t S m q clock rule ctx g h.coherent e)
        (elim (Bool-cases z.0.allowed) [
          | inl y ↦ rw y (
              Ends-map r t S Asked (Found (some rule)) ctx g g'
                (λ a end k. found a end true y (Told-from told ctx g g' a end refl k)) x.0 x.1 x.2
                (later-Told detail ctx g' sound))
          | inr n ↦ rw (n, q) (found (too_many z.0) refused false n (refl, refl, sound))
        ])

  pub gateway-Found :
      (detail : String) (ctx : Ctx) (g : Gate r t S)
      → Sound r t g.world f
      → Ends r t S
          (Found (first (applies ctx.path) (payload r t g.world.db)))
          ctx
          g
          (gateway r t S c m clock client detail ctx g)
  gateway-Found detail ctx g h =
      let as_found = λ (o : Option CachedRule).
        Ends r t S (Found o) ctx g (gateway r t S c m clock client detail ctx g) in
      elim (Option-cases (first (applies ctx.path) (payload r t g.world.db))) [
        | inl e ↦ subst as_found (sym e) (gateway-Told detail ctx g h e)
        | inr (rule, e) ↦ subst as_found (sym e) (gateway-Limited detail rule ctx g h e)
      ]
