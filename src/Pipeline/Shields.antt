-- ===== src/Pipeline/Shields.antt =====
-- A run of the gateway's pipeline (app/controllers/pipeline.py) for an upstream whose breaker refuses.
use rate_guardian.Base.{
  ℕ, ◌≡◌, refl, ap, subst, ◌∙◌, String, Bool, true, false, Option, some, List, ◌∷◌, inl, inr,
  Bool-cases, ◌==◌, eq_iff, leb,
}
use rate_guardian.Models.{Rule}
use rate_guardian.Redis.{Redis}
use rate_guardian.Table.{Table}
use rate_guardian.EventManager.{EventManager, emit}
use rate_guardian.CircuitBreaker.Machine.{Mode, Breaker, ask, due}
use rate_guardian.CircuitBreaker.Stored.{Holds}
use rate_guardian.CircuitBreaker.Refinement.{can_request-Holds}
use rate_guardian.CircuitBreaker.Runs.{Fleet, update, HoldsAll, HoldsAll-update}
use rate_guardian.Rules.{rule_id}
use rate_guardian.Pipeline.{
  Response, Ctx, Clock, responds, Gate, Step, unavailable, blocked_event, emit_and_respond,
  circuit_breaker_step, run,
}
use rate_guardian.Pipeline.Sound.{Sound, breaker-Sound}
use rate_guardian.Pipeline.Steps.{Ends, Ends-first}
use rate_guardian.Pipeline.Received.{IsQuiet}

-- A breaker that refuses stays as it is.
ask_no :
    (mode : Mode) (failures : ℕ) (opens_at : Option ℕ) (now : ℕ)
    → let b : Breaker = record { mode = mode; failures = failures; opens_at = opens_at } in
      (ask b now).0 ≡ false → (ask b now).1 ≡ b
unfolding ask
ask_no Mode.closed failures opens_at now h = refl
ask_no Mode.half_open failures opens_at now h = refl
ask_no Mode.open_until failures opens_at now h =
    let b : Breaker = record { mode = Mode.open_until; failures = failures; opens_at = opens_at } in
    elim (Bool-cases (leb (due opens_at) now)) [
      | inl y ↦ let admitted : (ask b now).0 ≡ true = rw y refl in cc
      | inr n ↦ rw n refl
    ]

ask-no : (b : Breaker) (now : ℕ) → (ask b now).0 ≡ false → (ask b now).1 ≡ b
ask-no b now h = ask_no b.mode b.failures b.opens_at now h

update-same : (f : Fleet) (u v : String) → update f u (f u) v ≡ f v
update-same f u v = elim (Bool-cases (u == v)) [
  | inl y ↦ rw y (ap f ((eq_iff u v).0 y))
  | inr n ↦ rw n refl
]

module _ (r : Redis) (t : Table Rule rule_id) (S : Type 0) (m : EventManager S) (q : IsQuiet m)
    (clock : Clock) (f : Fleet) where
  -- Nothing is sent, the answer is the one of an open circuit, and the breakers are as they were.
  abbrev pub Unavailable : Ctx → Gate r t S → Response → Gate r t S → Type 0
  Unavailable ctx g a g' = (g'.sent ≡ g.sent) × (a ≡ unavailable) × Sound r t g'.world f

  abbrev pub Shut : Ctx → Type 0
  Shut ctx = (ask (f ctx.upstream_host) clock.at_ask).0 ≡ false

  pub Shut-Unavailable :
      (steps : List (Step r t S)) (ctx : Ctx) (g : Gate r t S)
      → Shut ctx
      → Sound r t g.world f
      → Ends r t S Unavailable ctx g (run r t S (circuit_breaker_step r t S m clock ∷ steps) ctx g)
  unfolding circuit_breaker_step emit_and_respond
  Shut-Unavailable steps ctx g n h =
      let u = ctx.upstream_host in
      let a = can_request-Holds r g.world.redis u (f u) clock.at_ask (h.holds u) in
      let same = ask-no (f u) clock.at_ask n in
      let holds = HoldsAll-update r g.world.redis a.after f u _ h.holds a.holds a.frame in
      let kept : HoldsAll r a.after f = λ v.
        subst (Holds r a.after v) (ap (λ b. update f u b v) same ∙ update-same f u v) (holds v) in
      let event = blocked_event ctx clock 503 "circuit_breaker" in
      Ends-first r t S Unavailable (circuit_breaker_step r t S m clock) steps ctx g
        (
          responds unavailable,
          ctx,
          record g { world = record g.world { redis = a.after }; sink = (emit m event g.sink).0 },
        )
        (rw (a.answer ∙ ap (λ (b : Bool). some (b, a.after)) n, circuit_breaker_step, q) refl)
        (refl, refl, breaker-Sound r t g.world f f u a.after h a.frame kept)
