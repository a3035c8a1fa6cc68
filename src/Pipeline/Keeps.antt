-- ===== src/Pipeline/Keeps.antt =====
-- Whether a run of the gateway's pipeline (app/controllers/pipeline.py) responds, and whether it keeps
-- the state `Sound`.
use rate_guardian.Base.{
  ◌++◌, sym, ap, ◌∙◌, String, Bool, Option, some, List, [], ◌∷◌, inl, inr, subst, Bool-cases,
  Option-cases, first,
}
use rate_guardian.Models.{Rule, CachedRule}
use rate_guardian.Redis.{Redis}
use rate_guardian.Table.{Table}
use rate_guardian.EventManager.{EventManager, Event}
use rate_guardian.CircuitBreaker.{Config}
use rate_guardian.CircuitBreaker.Machine.{ask, succeed}
use rate_guardian.CircuitBreaker.Refinement.{can_request-Holds, record_failure-Holds}
use rate_guardian.CircuitBreaker.Runs.{Fleet, update, HoldsAll-update}
use rate_guardian.RateLimiter.{check}
use rate_guardian.Rules.{rule_id, payload, applies}
use rate_guardian.Rules.Cache.{match_lem}
use rate_guardian.Pipeline.{
  error_event, Ctx, Clock, Upstream, answered, unusable, failed, Response, Outcome, proceeds,
  responds, raises, Gate, Step, emit_and_respond, rate_limit_step, limit_by, circuit_breaker_step,
  on_error, receive, proxy_step, run, Client, gateway, rl_key, blocked_event, with_redis, too_many,
  unavailable, gateway_error,
}
use rate_guardian.Proxy.{sent_of, forward}
use rate_guardian.Pipeline.Received.{IsQuiet, ending, receive-quiet, announced, receive-unusable}
use rate_guardian.Pipeline.Sound.{success-Sound, Sound, match-Sound, check-Sound, breaker-Sound}

module _ (r : Redis) (t : Table Rule rule_id) where
  module _ (S : Type 0) where
    -- A step that did not raise, and kept the state sound.
    abbrev StepKept : Outcome × Ctx × Gate r t S → Type 0
    StepKept (raises, ctx, g) = ⊥
    StepKept (_, ctx, g) = (f : Fleet) × Sound r t g.world f

    -- A run that responded, and kept the state sound.
    abbrev pub Answers : Outcome × Ctx × Gate r t S → Type 0
    Answers (responds response, ctx, g) = (f : Fleet) × Sound r t g.world f
    Answers (_, ctx, g) = ⊥

    emit-Answers :
        (m : EventManager S) (e : Event) (response : Response) (ctx : Ctx) (g : Gate r t S)
        (f : Fleet)
        → IsQuiet m
        → Sound r t g.world f
        → Answers (emit_and_respond r t S m e response ctx g)
    unfolding emit_and_respond
    emit-Answers m e response ctx g f q h = rw (q e g.sink) (f, h)

    Answers-StepKept :
        (o : Outcome) (ctx : Ctx) (g : Gate r t S) → Answers (o, ctx, g) → StepKept (o, ctx, g)
    Answers-StepKept proceeds ctx g h = absurd h
    Answers-StepKept (responds a) ctx g h = h
    Answers-StepKept raises ctx g h = h

    limit_by-StepKept :
        (m : EventManager S) (clock : Clock) (rule : CachedRule) (ctx : Ctx) (g : Gate r t S)
        (f : Fleet)
        → IsQuiet m
        → Sound r t g.world f
        → StepKept (limit_by r t S m clock rule ctx g)
    unfolding limit_by
    limit_by-StepKept m clock rule ctx g f q h =
        let a =
          check r g.world.redis (rl_key ctx rule) rule.limit rule.window_seconds clock.at_check in
        let k =
          check-Sound r t g.world f (rl_key ctx rule) rule.limit rule.window_seconds clock.at_check
            h in
        elim (Bool-cases a.0.allowed) [
          | inl y ↦ rw y (f, k)
          | inr n ↦ rw n (
              Answers-StepKept _ _ _ (
                emit-Answers m (blocked_event ctx clock 429 "rate_limit") (too_many a.0) ctx
                  (with_redis r t S g a.1) f q k))
        ]

    rate_limit-StepKept :
        (m : EventManager S) (clock : Clock) (ctx : Ctx) (g : Gate r t S) (f : Fleet)
        → IsQuiet m
        → Sound r t g.world f
        → StepKept (rate_limit_step r t S m clock ctx g)
    unfolding rate_limit_step
    rate_limit-StepKept m clock ctx g f q h =
        let matched = match_lem r t g.world ctx.path h.coherent in
        let k = match-Sound r t g.world ctx.path f h in
        elim (Option-cases (first (applies ctx.path) (payload r t g.world.db))) [
          | inl e ↦
              rw
                (
                  matched.answer ∙ ap (λ (x : Option CachedRule). some (x, matched.after)) e,
                  rate_limit_step,
                )
                (f, k)
          | inr (rule, e) ↦
              rw
                (
                  matched.answer ∙ ap (λ (x : Option CachedRule). some (x, matched.after)) e,
                  rate_limit_step,
                )
                (limit_by-StepKept m clock rule ctx (record g { world = matched.after }) f q k)
        ]

    circuit_breaker-StepKept :
        (m : EventManager S) (clock : Clock) (ctx : Ctx) (g : Gate r t S) (f : Fleet)
        → IsQuiet m
        → Sound r t g.world f
        → StepKept (circuit_breaker_step r t S m clock ctx g)
    unfolding circuit_breaker_step
    circuit_breaker-StepKept m clock ctx g f q h =
        let u = ctx.upstream_host in
        let a = can_request-Holds r g.world.redis u (f u) clock.at_ask (h.holds u) in
        let k =
          breaker-Sound r t g.world f _ u a.after h a.frame
            (HoldsAll-update r g.world.redis a.after f u _ h.holds a.holds a.frame) in
        elim (Bool-cases (ask (f u) clock.at_ask).0) [
          | inl y ↦
              rw (a.answer ∙ ap (λ (b : Bool). some (b, a.after)) y, circuit_breaker_step)
                (update f u (ask (f u) clock.at_ask).1, k)
          | inr n ↦
              rw (a.answer ∙ ap (λ (b : Bool). some (b, a.after)) n, circuit_breaker_step)
                (Answers-StepKept _ _ _ (
                  emit-Answers m (blocked_event ctx clock 503 "circuit_breaker") unavailable ctx
                    (with_redis r t S g a.after) _ q k))
        ]

    on_error-Answers :
        (c : Config) (m : EventManager S) (clock : Clock) (detail : String) (ctx : Ctx)
        (g : Gate r t S) (f : Fleet)
        → IsQuiet m
        → Sound r t g.world f
        → Answers (on_error r t S c m clock detail ctx g)
    unfolding on_error
    on_error-Answers c m clock detail ctx g f q h =
        let u = ctx.upstream_host in
        let a = record_failure-Holds r c g.world.redis u (f u) clock.at_failure (h.holds u) in
        rw (a.answer, on_error)
          (emit-Answers m (error_event ctx clock) (gateway_error detail) ctx
            (with_redis r t S g a.after) _ q
            (breaker-Sound r t g.world f _ u a.after h a.frame
              (HoldsAll-update r g.world.redis a.after f u _ h.holds a.holds a.frame)))

    Answers-ends :
        (o : Outcome) (ctx : Ctx) (g : Gate r t S)
        → Answers (o, ctx, g)
        → Answers (elim o [
          | proceeds ↦ run r t S [] ctx g
          | responds response ↦ (responds response, ctx, g)
          | raises ↦ (raises, ctx, g)
        ])
    Answers-ends proceeds ctx g h = absurd h
    Answers-ends (responds a) ctx g h = h
    Answers-ends raises ctx g h = h

    receive-Answers :
        (c : Config) (m : EventManager S) (clock : Clock) (upstream : Upstream) (detail : String)
        (ctx : Ctx) (g : Gate r t S) (f : Fleet)
        → IsQuiet m
        → Sound r t g.world f
        → Answers (ending r t S (receive r t S c m clock upstream detail ctx g))
    unfolding run receive
    receive-Answers c m clock (failed exc) detail ctx g f q h =
        let x = on_error r t S c m clock exc ctx g in
        Answers-ends x.0 x.1 x.2 (on_error-Answers c m clock exc ctx g f q h)
    receive-Answers c m clock (answered a) detail ctx g f q h =
        subst (λ x. Answers (ending r t S x)) (sym (receive-quiet r t S c m clock a detail ctx g q))
          (
            update f ctx.upstream_host (succeed (f ctx.upstream_host)),
            success-Sound r t ctx.upstream_host g.world f h,
          )
    receive-Answers c m clock (unusable a exc) detail ctx g f q h =
        let g' = announced r t S m clock a ctx g in
        let x = on_error r t S c m clock exc ctx g' in
        subst (λ x. Answers (ending r t S x))
          (sym (receive-unusable r t S c m clock a exc detail ctx g q))
          (Answers-ends x.0 x.1 x.2 (
            on_error-Answers c m clock exc ctx g' _ q
              (success-Sound r t ctx.upstream_host g.world f h)))

    proxy-Answers :
        (c : Config) (m : EventManager S) (clock : Clock) (client : Client) (detail : String)
        (ctx : Ctx) (g : Gate r t S) (f : Fleet)
        → IsQuiet m
        → Sound r t g.world f
        → Answers (run r t S (proxy_step r t S c m clock client detail ∷ []) ctx g)
    unfolding run proxy_step
    proxy-Answers c m clock client detail ctx g f q h =
        let asked = forward sent_of ctx.request ctx.upstream_url in
        receive-Answers c m clock (client asked) detail ctx
          (record g { sent = g.sent ++ asked ∷ [] }) f q h

    abbrev Steps : Type 0
    Steps = List (Step r t S)

    after_step-Answers :
        (steps : Steps) (o : Outcome) (ctx : Ctx) (g : Gate r t S)
        → StepKept (o, ctx, g)
        → ((ctx' : Ctx) (end : Gate r t S) (f : Fleet)
            → Sound r t end.world f
            → Answers (run r t S steps ctx' end))
        → Answers (elim o [
          | proceeds ↦ run r t S steps ctx g
          | responds response ↦ (responds response, ctx, g)
          | raises ↦ (raises, ctx, g)
        ])
    after_step-Answers steps proceeds ctx g (f, h) k = k ctx g f h
    after_step-Answers steps (responds a) ctx g h k = h
    after_step-Answers steps raises ctx g h k = absurd h

    run-Answers :
        (step : Step r t S) (steps : Steps) (ctx : Ctx) (g : Gate r t S)
        → StepKept (step ctx g)
        → ((ctx' : Ctx) (end : Gate r t S) (f : Fleet)
            → Sound r t end.world f
            → Answers (run r t S steps ctx' end))
        → Answers (run r t S (step ∷ steps) ctx g)
    unfolding run
    run-Answers step steps ctx g h k =
        let x = step ctx g in after_step-Answers steps x.0 x.1 x.2 h k

    -- In a world where the cache agrees with the table and the breakers' keys hold states,
    -- and with handlers that do not raise, a run of the gateway ends with a response,
    -- whatever the upstream does, and leaves such a world.
    pub gateway-Answers :
        (c : Config) (m : EventManager S) (clock : Clock) (client : Client) (detail : String)
        (ctx : Ctx) (g : Gate r t S) (f : Fleet)
        → IsQuiet m
        → Sound r t g.world f
        → Answers (gateway r t S c m clock client detail ctx g)
    unfolding gateway
    gateway-Answers c m clock client detail ctx g f q h =
        run-Answers _ _ ctx g (rate_limit-StepKept m clock ctx g f q h) λ ctx1 g1 f1 h1.
          run-Answers _ _ ctx1 g1 (circuit_breaker-StepKept m clock ctx1 g1 f1 q h1)
            λ ctx2 g2 f2 h2. proxy-Answers c m clock client detail ctx2 g2 f2 q h2
