-- ===== src/Pipeline/Meters.antt =====
-- What a run of the gateway's pipeline (app/controllers/pipeline.py) does to the database and to the
-- sorted sets of the limiter, and that it sends nothing that the limiter did not allow.
use rate_guardian.Base.{
  ◌≡◌, refl, sym, ap, subst, ◌∙◌, String, true, false, Option, none, some, List, [], ◌∷◌, ◌++◌, inl,
  inr, Bool-cases, Option-cases, first,
}
use rate_guardian.Models.{Rule, CachedRule}
use rate_guardian.Redis.{Redis}
use rate_guardian.Table.{Table}
use rate_guardian.EventManager.{EventManager}
use rate_guardian.CircuitBreaker.{Config, can_request, record_failure}
use rate_guardian.CircuitBreaker.Sets.{
  SameSets, Asked, Recorded, can_request-Asked, failure-Recorded, success-SameSets,
}
use rate_guardian.RateLimiter.{check}
use rate_guardian.Rules.{rule_id, payload, applies}
use rate_guardian.Rules.Cache.{Coherent, match_lem}
use rate_guardian.Proxy.{sent_of, forward}
use rate_guardian.Pipeline.{
  Response, Ctx, Clock, Upstream, answered, unusable, failed, Client, proceeds, Gate, Step, rl_key,
  emit_and_respond, rate_limit_step, limit_by, circuit_breaker_step, on_error, receive, proxy_step,
  run, gateway,
}
use rate_guardian.Pipeline.Steps.{Ends, StepEnds, Ends-first, Ends-last, Ends-map, run-Ends}
use rate_guardian.Pipeline.Received.{IsQuiet, ending, receive-quiet, announced, receive-unusable}

module _ (r : Redis) (t : Table Rule rule_id) (S : Type 0) (m : EventManager S) (q : IsQuiet m)
    (clock : Clock) where
  abbrev pub SameStore : Gate r t S → Gate r t S → Type 0
  SameStore g g' = (g'.world.db ≡ g.world.db) × SameSets r g.world.redis g'.world.redis

  -- The database and the sorted sets are as they were.
  abbrev pub Still : Ctx → Gate r t S → Response → Gate r t S → Type 0
  Still ctx g a g' = SameStore g g'

  Still-carry :
      (ctx : Ctx) (g g' end : Gate r t S) (a : Response)
      → SameStore g g'
      → Still ctx g' a end
      → Still ctx g a end
  Still-carry ctx g g' end a (e, f) (e', f') = (e' ∙ e, λ z. f' z ∙ f z)

  circuit_breaker-Still :
      (ctx : Ctx) (g : Gate r t S)
      → StepEnds r t S Still SameStore ctx g (circuit_breaker_step r t S m clock ctx g)
  unfolding circuit_breaker_step emit_and_respond
  circuit_breaker-Still ctx g =
      let asked = can_request-Asked r g.world.redis ctx.upstream_host clock.at_ask in
      elim (Option-cases (can_request r g.world.redis ctx.upstream_host clock.at_ask)) [
        | inl e ↦ rw (e, circuit_breaker_step) tt
        | inr ((true, s), e) ↦
            let same = subst (Asked r g.world.redis) e asked in
            rw (e, circuit_breaker_step) ((refl, same), refl)
        | inr ((false, s), e) ↦
            let same = subst (Asked r g.world.redis) e asked in
            rw (e, circuit_breaker_step, q) (refl, same)
      ]

  on_error-Still :
      (c : Config) (exc : String) (ctx : Ctx) (g : Gate r t S)
      → Ends r t S Still ctx g (on_error r t S c m clock exc ctx g)
  unfolding on_error emit_and_respond
  on_error-Still c exc ctx g =
      let recorded = failure-Recorded r c g.world.redis ctx.upstream_host clock.at_failure in
      elim (Option-cases (record_failure r c g.world.redis ctx.upstream_host clock.at_failure)) [
        | inl e ↦ rw (e, on_error) tt
        | inr (s, e) ↦
            let same = subst (Recorded r g.world.redis) e recorded in
            rw (e, on_error, q) (refl, same)
      ]

  receive-Still :
      (c : Config) (upstream : Upstream) (detail : String) (ctx : Ctx) (g : Gate r t S)
      → Ends r t S Still ctx g (ending r t S (receive r t S c m clock upstream detail ctx g))
  unfolding run receive
  receive-Still c (failed exc) detail ctx g =
      let x = on_error r t S c m clock exc ctx g in
      Ends-last r t S Still ctx g x.0 x.1 x.2 (on_error-Still c exc ctx g)
  receive-Still c (answered a) detail ctx g =
      subst (λ x. Ends r t S Still ctx g (ending r t S x))
        (sym (receive-quiet r t S c m clock a detail ctx g q))
        (refl, success-SameSets r g.world.redis ctx.upstream_host)
  receive-Still c (unusable a exc) detail ctx g =
      let g' = announced r t S m clock a ctx g in
      let x = on_error r t S c m clock exc ctx g' in
      let same = success-SameSets r g.world.redis ctx.upstream_host in
      subst (λ x. Ends r t S Still ctx g (ending r t S x))
        (sym (receive-unusable r t S c m clock a exc detail ctx g q))
        (Ends-map r t S Still Still ctx g g' (λ a end k. (k.0, λ z. k.1 z ∙ same z)) _ _ _
          (Ends-last r t S Still ctx g' x.0 x.1 x.2 (on_error-Still c exc ctx g')))

  proxy-Still :
      (c : Config) (client : Client) (detail : String) (ctx : Ctx) (g : Gate r t S)
      → Ends r t S Still ctx g (run r t S (proxy_step r t S c m clock client detail ∷ []) ctx g)
  unfolding run proxy_step
  proxy-Still c client detail ctx g =
      let asked = forward sent_of ctx.request ctx.upstream_url in
      receive-Still c (client asked) detail ctx (record g { sent = g.sent ++ asked ∷ [] })

  -- The steps after the limiter's.
  abbrev later_steps : Config → Client → String → List (Step r t S)
  later_steps c client detail =
      circuit_breaker_step r t S m clock ∷ proxy_step r t S c m clock client detail ∷ []

  later-Still :
      (c : Config) (client : Client) (detail : String) (ctx : Ctx) (g : Gate r t S)
      → Ends r t S Still ctx g (run r t S (later_steps c client detail) ctx g)
  later-Still c client detail ctx g =
      run-Ends r t S Still SameStore Still-carry _ _ ctx g (circuit_breaker-Still ctx g)
        λ g'. proxy-Still c client detail ctx g'

  -- One check has been made for a rule, and nothing is sent if it did not allow the request.
  abbrev pub Checked : CachedRule → Ctx → Gate r t S → Response → Gate r t S → Type 0
  Checked rule ctx g a g' =
      (s : r.State) × SameSets r g.world.redis s
      × let x = check r s (rl_key ctx rule) rule.limit rule.window_seconds clock.at_check in
        SameSets r x.1 g'.world.redis
        × (x.0.allowed ≡ false → g'.sent ≡ g.sent)
        × (g'.world.db ≡ g.world.db)

  -- The limiter's step, for a rule that applies or none.
  pub limited :
      (rule : CachedRule) (ctx : Ctx) (g : Gate r t S) (h : Coherent r t g.world)
      → first (applies ctx.path) (payload r t g.world.db) ≡ some rule
      → rate_limit_step r t S m clock ctx g
        ≡ limit_by r t S m clock rule ctx
            (record g { world = (match_lem r t g.world ctx.path h).after })
  unfolding rate_limit_step
  limited rule ctx g h e =
      let matched = match_lem r t g.world ctx.path h in
      rw
        (
          matched.answer ∙ ap (λ (x : Option CachedRule). some (x, matched.after)) e,
          rate_limit_step,
        )
        refl

  pub unlimited :
      (ctx : Ctx) (g : Gate r t S) (h : Coherent r t g.world)
      → first (applies ctx.path) (payload r t g.world.db) ≡ none
      → rate_limit_step r t S m clock ctx g
        ≡ (proceeds, ctx, record g { world = (match_lem r t g.world ctx.path h).after })
  unfolding rate_limit_step
  unlimited ctx g h e =
      let matched = match_lem r t g.world ctx.path h in
      rw
        (
          matched.answer ∙ ap (λ (x : Option CachedRule). some (x, matched.after)) e,
          rate_limit_step,
        )
        refl

  pub gateway-Checked :
      (c : Config) (client : Client) (detail : String) (rule : CachedRule) (ctx : Ctx)
      (g : Gate r t S) (h : Coherent r t g.world)
      → first (applies ctx.path) (payload r t g.world.db) ≡ some rule
      → Ends r t S (Checked rule) ctx g (gateway r t S c m clock client detail ctx g)
  unfolding gateway limit_by emit_and_respond
  gateway-Checked c client detail rule ctx g h e =
      let matched = match_lem r t g.world ctx.path h in
      let s = matched.after.redis in
      let x = check r s (rl_key ctx rule) rule.limit rule.window_seconds clock.at_check in
      let g1 = record g { world = record matched.after { redis = x.1 } } in
      let steps = later_steps c client detail in
      let rest = run r t S steps ctx g1 in
      Ends-first r t S (Checked rule) _ steps ctx g _ (limited rule ctx g h e)
        (elim (Bool-cases x.0.allowed) [
          | inl y ↦ rw y (
              Ends-map r t S Still (Checked rule) ctx g g1
                (λ a end k. (s, matched.sets, (k.1, λ n. cc, k.0 ∙ matched.db))) rest.0 rest.1
                rest.2 (later-Still c client detail ctx g1))
          | inr n ↦ rw (n, q) (s, matched.sets, (λ z. refl, λ n. refl, matched.db))
        ])

  pub gateway-Unchecked :
      (c : Config) (client : Client) (detail : String) (ctx : Ctx) (g : Gate r t S)
      (h : Coherent r t g.world)
      → first (applies ctx.path) (payload r t g.world.db) ≡ none
      → Ends r t S Still ctx g (gateway r t S c m clock client detail ctx g)
  unfolding gateway
  gateway-Unchecked c client detail ctx g h e =
      let matched = match_lem r t g.world ctx.path h in
      let g1 = record g { world = matched.after } in
      let steps = later_steps c client detail in
      let rest = run r t S steps ctx g1 in
      Ends-first r t S Still _ steps ctx g _ (unlimited ctx g h e) (
        Ends-map r t S Still Still ctx g g1
          (λ a end k. (k.0 ∙ matched.db, λ z. k.1 z ∙ matched.sets z)) rest.0 rest.1 rest.2
          (later-Still c client detail ctx g1))
