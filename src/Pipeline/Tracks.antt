-- ===== src/Pipeline/Tracks.antt =====
-- What the third step of the gateway's pipeline (app/controllers/pipeline.py) makes of the upstream's
-- breaker.
use rate_guardian.Base.{
  Bool-cases, inl, inr, ◌==◌, eq_refl, ℕ, ◌≡◌, refl, sym, subst, String, [], ◌∷◌, ◌++◌,
}
use rate_guardian.Models.{Rule}
use rate_guardian.Redis.{Redis}
use rate_guardian.Table.{Table}
use rate_guardian.EventManager.{EventManager}
use rate_guardian.CircuitBreaker.{Config}
use rate_guardian.CircuitBreaker.Machine.{Breaker, succeed, fail}
use rate_guardian.CircuitBreaker.Stored.{Holds}
use rate_guardian.CircuitBreaker.Refinement.{record_failure-Holds}
use rate_guardian.CircuitBreaker.Runs.{Fleet, update, HoldsAll-update}
use rate_guardian.Rules.{rule_id, World}
use rate_guardian.Proxy.{Sent, sent_of, forward}
use rate_guardian.Pipeline.{
  gateway_error, Response, Ctx, Clock, Upstream, answered, unusable, failed, Client, Gate,
  emit_and_respond, on_error, receive, proxy_step, run,
}
use rate_guardian.Pipeline.Sound.{Sound, breaker-Sound}
use rate_guardian.Pipeline.Steps.{Ends, Ends-last, Ends-map}
use rate_guardian.Pipeline.Received.{IsQuiet, ending, receive-quiet, announced, receive-unusable}
use rate_guardian.Pipeline.Sound.{success-Sound}
use rate_guardian.Pipeline.Forwards.{Replays, Passes, forward-Replays, relayed-Relays}

-- The breaker after what the client answered.
abbrev pub breaker_after : Config → ℕ → Breaker → Upstream → Breaker
breaker_after c now b (answered a) = succeed b
breaker_after c now b (unusable a exc) = fail c (succeed b) now
breaker_after c now b (failed exc) = fail c b now

-- A breaker that changes twice.
update-update :
    (f : Fleet) (u : String) (b : Breaker) (after : Breaker → Breaker) (v : String)
    → update (update f u b) u (after (update f u b u)) v ≡ update f u (after b) v
update-update f u b after v = elim (Bool-cases (u == v)) [
  | inl y ↦ rw (y, eq_refl u) refl
  | inr n ↦ rw n refl
]

module _ (r : Redis) (t : Table Rule rule_id) where
  Sound-same :
      (w : World r t) (f f' : Fleet) → ((v : String) → f v ≡ f' v) → Sound r t w f → Sound r t w f'
  Sound-same w f f' e h = record {
    coherent = h.coherent;
    holds = λ v. subst (Holds r w.redis v) (e v) (h.holds v);
  }

  module _ (S : Type 0) (m : EventManager S) (q : IsQuiet m) (c : Config) (clock : Clock) where
    -- A 502 goes back, and the upstream's breaker hears of a failure.
    abbrev Failed : Fleet → String → Ctx → Gate r t S → Response → Gate r t S → Type 0
    Failed f exc ctx g response g' =
        (g'.sent ≡ g.sent)
        × (response ≡ gateway_error exc)
        × Sound r t g'.world
            (update f ctx.upstream_host (fail c (f ctx.upstream_host) clock.at_failure))

    on_error-Failed :
        (f : Fleet) (exc : String) (ctx : Ctx) (g : Gate r t S)
        → Sound r t g.world f
        → Ends r t S (Failed f exc) ctx g (on_error r t S c m clock exc ctx g)
    unfolding on_error emit_and_respond
    on_error-Failed f exc ctx g h =
        let u = ctx.upstream_host in
        let a = record_failure-Holds r c g.world.redis u (f u) clock.at_failure (h.holds u) in
        rw (a.answer, on_error, q)
          (
            refl,
            refl,
            breaker-Sound r t g.world f _ u a.after h a.frame
                (HoldsAll-update r g.world.redis a.after f u _ h.holds a.holds a.frame),
          )

    error_end-Failed :
        (f : Fleet) (exc : String) (ctx : Ctx) (g : Gate r t S)
        → Sound r t g.world f
        → Ends r t S (Failed f exc) ctx g (ending r t S (on_error r t S c m clock exc ctx g))
    error_end-Failed f exc ctx g h =
        let x = on_error r t S c m clock exc ctx g in
        Ends-last r t S (Failed f exc) ctx g x.0 x.1 x.2 (on_error-Failed f exc ctx g h)

module _ (r : Redis) (t : Table Rule rule_id) (S : Type 0) (m : EventManager S) (q : IsQuiet m)
    (c : Config) (clock : Clock) (client : Client) (f : Fleet) where
  -- The breakers after what the client answered for the upstream.
  abbrev pub fleet_after : String → Upstream → Fleet
  fleet_after u upstream = update f u (breaker_after c clock.at_failure (f u) upstream)

  abbrev Tracked : Upstream → Ctx → Gate r t S → Response → Gate r t S → Type 0
  Tracked upstream ctx g response g' =
      (g'.sent ≡ g.sent)
      × Passes upstream response
      × Sound r t g'.world (fleet_after ctx.upstream_host upstream)

  receive-Tracked :
      (upstream : Upstream) (detail : String) (ctx : Ctx) (g : Gate r t S)
      → Sound r t g.world f
      → Ends r t S
          (Tracked upstream)
          ctx
          g
          (ending r t S (receive r t S c m clock upstream detail ctx g))
  unfolding run receive
  receive-Tracked (failed exc) detail ctx g h = error_end-Failed r t S m q c clock f exc ctx g h
  receive-Tracked (answered a) detail ctx g h =
      subst (λ x. Ends r t S (Tracked (answered a)) ctx g (ending r t S x))
        (sym (receive-quiet r t S c m clock a detail ctx g q))
        (refl, relayed-Relays a, success-Sound r t ctx.upstream_host g.world f h)
  receive-Tracked (unusable a exc) detail ctx g h =
      let u = ctx.upstream_host in
      let g' = announced r t S m clock a ctx g in
      let f' = update f u (succeed (f u)) in
      let x = ending r t S (on_error r t S c m clock exc ctx g') in
      let after = λ (b : Breaker). fail c b clock.at_failure in
      subst (λ x. Ends r t S (Tracked (unusable a exc)) ctx g (ending r t S x))
        (sym (receive-unusable r t S c m clock a exc detail ctx g q))
        (Ends-map r t S (Failed r t S m q c clock f' exc) (Tracked (unusable a exc)) ctx g g'
          (λ response end k.
            (k.0, k.1, Sound-same r t end.world _ _ (update-update f u (succeed (f u)) after) k.2))
          x.0 x.1 x.2
          (error_end-Failed r t S m q c clock f' exc ctx g' (success-Sound r t u g.world f h)))

  -- One request is sent, its answer goes back, and the upstream's breaker hears of it.
  abbrev pub Forwarded : Ctx → Gate r t S → Response → Gate r t S → Type 0
  Forwarded ctx g response g' =
      (asked : Sent) × (g'.sent ≡ g.sent ++ asked ∷ [])
      × Replays ctx.request ctx.upstream_url asked
      × Passes (client asked) response
      × Sound r t g'.world (fleet_after ctx.upstream_host (client asked))

  pub proxy-Forwarded :
      (detail : String) (ctx : Ctx) (g : Gate r t S)
      → Sound r t g.world f
      → Ends r t S Forwarded ctx g (run r t S (proxy_step r t S c m clock client detail ∷ []) ctx g)
  unfolding run proxy_step
  proxy-Forwarded detail ctx g h =
      let asked = forward sent_of ctx.request ctx.upstream_url in
      let g' = record g { sent = g.sent ++ asked ∷ [] } in
      let x = ending r t S (receive r t S c m clock (client asked) detail ctx g') in
      Ends-map r t S (Tracked (client asked)) Forwarded ctx g g'
        (λ a end k. (asked, k.0, forward-Replays ctx.request ctx.upstream_url, k.1, k.2)) x.0 x.1
        x.2 (receive-Tracked (client asked) detail ctx g' h)
