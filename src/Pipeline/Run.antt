-- ===== src/Pipeline/Run.antt =====
-- What a run of the gateway's pipeline (app/controllers/pipeline.py) answers and emits.
use rate_guardian.Base.{
  ◌⊎◌, subst, sym, ℕ, ◌≡◌, refl, ap, ◌∙◌, String, true, false, none, some, List, [], ◌∷◌, ◌++◌, inl,
  inr, Bool-cases, Option-cases,
}
use rate_guardian.Models.{Rule}
use rate_guardian.Redis.{Redis}
use rate_guardian.Table.{Table}
use rate_guardian.EventManager.{EventManager, Event, emit, Handler}
use rate_guardian.CircuitBreaker.{Config, can_request, record_failure}
use rate_guardian.RateLimiter.{check}
use rate_guardian.Rules.{rule_id, match}
use rate_guardian.Proxy.{Sent, sent_of, forward}
use rate_guardian.Pipeline.Steps.{Ends, StepEnds, Ends-last, Ends-map, run-Ends}
use rate_guardian.Pipeline.Received.{IsQuiet, receive-quiet, ending, announced, receive-unusable}
use rate_guardian.Pipeline.{
  error_event, Response, Ctx, Clock, Upstream, answered, unusable, failed, Outcome, Gate,
  emit_and_respond, rate_limit_step, limit_by, circuit_breaker_step, on_error, receive, proxy_step,
  Client, run, gateway, relayed, rl_key, blocked_event, forwarded_event,
}

-- A sink that keeps the events, and an event manager with one handler that fills it.
abbrev pub record_event : Handler (List Event)
record_event e s = (s ++ e ∷ [], false)

abbrev pub recorder : EventManager (List Event)
recorder = record { handlers = λ kind. record_event ∷ [] }

-- An event that says what was asked, by whom and when, and the status that was answered.
pub data Tells (ctx : Ctx) (clock : Clock) (status : ℕ) : Event → Type 0 where
  of_blocked : (reason : String) → Tells ctx clock status (blocked_event ctx clock status reason)
  of_error : status ≡ 502 → Tells ctx clock status (error_event ctx clock)
  of_forwarded : Tells ctx clock status (forwarded_event ctx clock status)

module _ (r : Redis) (t : Table Rule rule_id) (S : Type 0) (m : EventManager S) (q : IsQuiet m)
    (clock : Clock) (client : Client) where
  -- One event has been emitted, which tells of the request and the response.
  abbrev Once : Ctx → Gate r t S → Response → Gate r t S → Type 0
  Once ctx g response g' =
      (e : Event) × (g'.sink ≡ (emit m e g.sink).0) × Tells ctx clock response.status_code e

  -- The upstream has answered what `Response` does not take: the event of the answer and the one of
  -- the error have been emitted.
  abbrev Twice : Upstream → Ctx → Gate r t S → Response → Gate r t S → Type 0
  Twice upstream ctx g response g' =
      (a : Response) × (exc : String) × (upstream ≡ unusable a exc)
      × (g'.sink
          ≡ (emit m (error_event ctx clock)
              (emit m (forwarded_event ctx clock a.status_code) g.sink).0).0)
      × (response.status_code ≡ 502)

  abbrev Heard : Upstream → Ctx → Gate r t S → Response → Gate r t S → Type 0
  Heard upstream ctx g response g' = Once ctx g response g' ⊎ Twice upstream ctx g response g'

  abbrev Told : Ctx → Gate r t S → Response → Gate r t S → Type 0
  Told ctx g response g' =
      Once ctx g response g' ⊎ ((asked : Sent) × Twice (client asked) ctx g response g')

  abbrev Silent : Gate r t S → Gate r t S → Type 0
  Silent g g' = g'.sink ≡ g.sink

  abbrev pub Reports : Ctx → Gate r t S → Outcome × Ctx × Gate r t S → Type 0
  Reports = Ends r t S Told

  abbrev StepReports : Ctx → Gate r t S → Outcome × Ctx × Gate r t S → Type 0
  StepReports = StepEnds r t S Told Silent

  rate_limit-StepReports :
      (ctx : Ctx) (g : Gate r t S) → StepReports ctx g (rate_limit_step r t S m clock ctx g)
  unfolding rate_limit_step limit_by emit_and_respond
  rate_limit-StepReports ctx g = elim (Option-cases (match r t g.world ctx.path)) [
    | inl e ↦ rw (e, rate_limit_step) tt
    | inr ((none, w), e) ↦ rw (e, rate_limit_step) (refl, refl)
    | inr ((some rule, w), e) ↦
        rw (e, rate_limit_step)
          (elim (Bool-cases
            (check r w.redis (rl_key ctx rule) rule.limit rule.window_seconds
              clock.at_check).0.allowed) [
                | inl y ↦ rw y (refl, refl)
                | inr n ↦
                    rw (n, q)
                      (inl
                        (blocked_event ctx clock 429 "rate_limit", refl, of_blocked "rate_limit"))
              ])
  ]

  circuit_breaker-StepReports :
      (ctx : Ctx) (g : Gate r t S) → StepReports ctx g (circuit_breaker_step r t S m clock ctx g)
  unfolding circuit_breaker_step emit_and_respond
  circuit_breaker-StepReports ctx g =
      elim (Option-cases (can_request r g.world.redis ctx.upstream_host clock.at_ask)) [
        | inl e ↦ rw (e, circuit_breaker_step) tt
        | inr ((true, s), e) ↦ rw (e, circuit_breaker_step) (refl, refl)
        | inr ((false, s), e) ↦
            rw (e, circuit_breaker_step, q)
              (inl
                (blocked_event ctx clock 503 "circuit_breaker", refl, of_blocked "circuit_breaker"))
      ]

  -- The event of an error, and no other.
  abbrev Errs : Ctx → Gate r t S → Response → Gate r t S → Type 0
  Errs ctx g response g' =
      (g'.sink ≡ (emit m (error_event ctx clock) g.sink).0) × (response.status_code ≡ 502)

  on_error-Errs :
      (c : Config) (detail : String) (ctx : Ctx) (g : Gate r t S)
      → Ends r t S Errs ctx g (on_error r t S c m clock detail ctx g)
  unfolding on_error emit_and_respond
  on_error-Errs c detail ctx g =
      elim (Option-cases (record_failure r c g.world.redis ctx.upstream_host clock.at_failure)) [
        | inl e ↦ rw (e, on_error) tt
        | inr (s, e) ↦ rw (e, on_error, q) (refl, refl)
      ]

  error_end-Errs :
      (c : Config) (detail : String) (ctx : Ctx) (g : Gate r t S)
      → Ends r t S Errs ctx g (ending r t S (on_error r t S c m clock detail ctx g))
  error_end-Errs c detail ctx g =
      let x = on_error r t S c m clock detail ctx g in
      Ends-last r t S Errs ctx g x.0 x.1 x.2 (on_error-Errs c detail ctx g)

  Errs-Once :
      (ctx : Ctx) (g : Gate r t S) (a : Response) (end : Gate r t S)
      → Errs ctx g a end
      → Once ctx g a end
  Errs-Once ctx g a end (k, status) = (error_event ctx clock, k, of_error status)

  Told-carry :
      (ctx : Ctx) (g g' end : Gate r t S) (a : Response)
      → Silent g g'
      → Told ctx g' a end
      → Told ctx g a end
  Told-carry ctx g g' end a e (inl (v, k, tells)) = inl (v, k ∙ ap (λ s. (emit m v s).0) e, tells)
  Told-carry ctx g g' end a e (inr (asked, (answer, exc, same, k, status))) =
      let first = forwarded_event ctx clock answer.status_code in
      let second = error_event ctx clock in
      inr (asked, (answer, exc, same, k ∙ ap (λ s. (emit m second (emit m first s).0).0) e, status))

  -- The last step and the end of the run.
  receive-Heard :
      (c : Config) (upstream : Upstream) (detail : String) (ctx : Ctx) (g : Gate r t S)
      → Ends r t S
          (Heard upstream)
          ctx
          g
          (ending r t S (receive r t S c m clock upstream detail ctx g))
  unfolding run receive relayed
  receive-Heard c (failed exc) detail ctx g =
      let x = ending r t S (on_error r t S c m clock exc ctx g) in
      Ends-map r t S Errs (Heard (failed exc)) ctx g g (λ a end k. inl (Errs-Once ctx g a end k))
        x.0 x.1 x.2 (error_end-Errs c exc ctx g)
  receive-Heard c (answered a) detail ctx g =
      subst (λ x. Ends r t S (Heard (answered a)) ctx g (ending r t S x))
        (sym (receive-quiet r t S c m clock a detail ctx g q))
        (inl (forwarded_event ctx clock a.status_code, refl, of_forwarded))
  receive-Heard c (unusable a exc) detail ctx g =
      let g' = announced r t S m clock a ctx g in
      let x = ending r t S (on_error r t S c m clock exc ctx g') in
      subst (λ x. Ends r t S (Heard (unusable a exc)) ctx g (ending r t S x))
        (sym (receive-unusable r t S c m clock a exc detail ctx g q))
        (Ends-map r t S Errs (Heard (unusable a exc)) ctx g g'
          (λ response end k. inr (a, exc, refl, k.0, k.1)) x.0 x.1 x.2
          (error_end-Errs c exc ctx g'))

  Heard-Told :
      (asked : Sent) (ctx : Ctx) (g : Gate r t S) (a : Response) (end : Gate r t S)
      → Heard (client asked) ctx g a end
      → Told ctx g a end
  Heard-Told asked ctx g a end (inl k) = inl k
  Heard-Told asked ctx g a end (inr k) = inr (asked, k)

  proxy-Reports :
      (c : Config) (detail : String) (ctx : Ctx) (g : Gate r t S)
      → Reports ctx g (run r t S (proxy_step r t S c m clock client detail ∷ []) ctx g)
  unfolding run proxy_step
  proxy-Reports c detail ctx g =
      let asked = forward sent_of ctx.request ctx.upstream_url in
      let g' = record g { sent = g.sent ++ asked ∷ [] } in
      let x = ending r t S (receive r t S c m clock (client asked) detail ctx g') in
      Ends-map r t S (Heard (client asked)) Told ctx g g'
        (λ a end k. Heard-Told asked ctx g a end k) x.0 x.1 x.2
        (receive-Heard c (client asked) detail ctx g')

  -- With handlers that do not raise, a run of the gateway either raises, or responds and has
  -- emitted one event, which tells of the request, the clock's readings and the response's status,
  -- or two, where `Response` does not take what the upstream answered.
  pub gateway-Reports :
      (c : Config) (detail : String) (ctx : Ctx) (g : Gate r t S)
      → Reports ctx g (gateway r t S c m clock client detail ctx g)
  unfolding gateway
  gateway-Reports c detail ctx g =
      run-Ends r t S Told Silent Told-carry _ _ ctx g (rate_limit-StepReports ctx g) λ g'.
        run-Ends r t S Told Silent Told-carry _ _ ctx g' (circuit_breaker-StepReports ctx g')
          λ g''. proxy-Reports c detail ctx g''
