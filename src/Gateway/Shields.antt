-- ===== src/Gateway/Shields.antt =====
-- Requests to `GatewayController.handle` of app/controllers/gateway.py for an upstream whose breaker is
-- open.
use rate_guardian.Base.{
  ℕ, ◌+◌, ◌<◌, ◌≡◌, refl, sym, ap, subst, ◌∙◌, String, Bool, true, false, Option, none, some, List,
  [], ◌∷◌, arith, leb, All, first,
}
use rate_guardian.Models.{Rule, CachedRule}
use rate_guardian.Redis.{Redis}
use rate_guardian.Table.{Table}
use rate_guardian.EventManager.{EventManager}
use rate_guardian.CircuitBreaker.{Config}
use rate_guardian.CircuitBreaker.Machine.{Mode, Breaker, ask, due}
use rate_guardian.CircuitBreaker.Runs.{Fleet}
use rate_guardian.RateLimiter.{RateLimitResult}
use rate_guardian.Rules.{rule_id, payload, applies}
use rate_guardian.Pipeline.{Response, Ctx, Clock, Client, Outcome, proceeds, responds, raises, Gate}
use rate_guardian.Pipeline.Sound.{Sound}
use rate_guardian.Pipeline.Received.{IsQuiet}
use rate_guardian.Pipeline.Forwards.{Refusal, limited, shut}
use rate_guardian.Pipeline.Behaves.{Told, Limited, Found}
use rate_guardian.Gateway.{or_url, context}
use rate_guardian.Gateway.Handle.{Responded, Responded-map, has_client}
use rate_guardian.Gateway.Behaves.{handle-Found}
use rate_guardian.Gateway.Visits.{Visit, clock_at, visit, aged, run_visits}
use rate_guardian.Gateway.Metered.{aged-Sound}

abbrev pub IsRefusal : Outcome → Type 0
IsRefusal (responds a) = Refusal a
IsRefusal _ = ⊥

-- A request for an upstream, before a time: its peer has an address, and `urlparse` reads the URL.
abbrev pub IsFor : (String → Option String) → String → ℕ → Visit → Type 0
IsFor netloc u deadline v =
    (host place : String) × (v.request.client ≡ some host)
    × (netloc v.upstream_url ≡ some place)
    × (or_url place v.upstream_url ≡ u)
    × (v.at_ask < deadline)

-- An open breaker refuses before its deadline, and stays as it is.
pub ask_open :
    (mode : Mode) (failures : ℕ) (opens_at : Option ℕ) (d now : ℕ)
    → mode ≡ Mode.open_until
    → opens_at ≡ some d
    → now < d
    → let b : Breaker = record { mode = mode; failures = failures; opens_at = opens_at } in
      ask b now ≡ (false, b)
unfolding ask
ask_open Mode.open_until failures opens_at d now e o h =
    let late : leb (due opens_at) now ≡ false = rw o (ground arith) in rw late refl
ask_open Mode.closed failures opens_at d now e o h = cc
ask_open Mode.half_open failures opens_at d now e o h = cc

module _ (r : Redis) (t : Table Rule rule_id) (S : Type 0) (c : Config) (m : EventManager S)
    (netloc : String → Option String) (q : IsQuiet m) (f : Fleet) (u : String) (deadline : ℕ)
    (mode : (f u).mode ≡ Mode.open_until) (until : (f u).opens_at ≡ some deadline) where
  -- The request is refused, nothing is sent, and the breakers are as they were.
  abbrev Refused : Gate r t S → Response → Gate r t S → Type 0
  Refused g a g' = Refusal a × (g'.sent ≡ g.sent) × Sound r t g'.world f

  module _ (clock : Clock) (client : Client) (ctx : Ctx) (g : Gate r t S) (a : Response)
      (g' : Gate r t S) where
    Told-Refused :
        (x : Bool × Breaker)
        → x.0 ≡ false
        → Told r t S m q c clock client f x ctx g a g'
        → Refused g a g'
    Told-Refused (true, b) e k = cc
    Told-Refused (false, b) e (same, answer, sound) = (subst Refusal (sym answer) shut, same, sound)

    Limited-Refused :
        (result : RateLimitResult) (b : Bool)
        → result.allowed ≡ b
        → (ask (f ctx.upstream_host) clock.at_ask).0 ≡ false
        → Limited r t S m q c clock client f result b ctx g a g'
        → Refused g a g'
    Limited-Refused result false n e (same, answer, sound) =
        (subst Refusal (sym answer) (limited result n), same, sound)
    Limited-Refused result true y e k = Told-Refused _ e k

    Found-Refused :
        (rule : Option CachedRule)
        → (ask (f ctx.upstream_host) clock.at_ask).0 ≡ false
        → Found r t S m q c clock client f rule ctx g a g'
        → Refused g a g'
    Found-Refused none e k = Told-Refused _ e k
    Found-Refused (some rule) e k = Limited-Refused _ _ refl e k

  Responded-Refused :
      (g : Gate r t S) (o : Outcome) (g' : Gate r t S)
      → Responded r t S (Refused g) (o, g')
      → IsRefusal o × (g'.sent ≡ g.sent) × Sound r t g'.world f
  Responded-Refused g proceeds g' h = absurd h
  Responded-Refused g (responds a) g' h = h
  Responded-Refused g raises g' h = absurd h

  visit-Refused :
      (now : ℕ) (v : Visit) (g : Gate r t S)
      → IsFor netloc u deadline v
      → Sound r t g.world f
      → let (o, g') = visit r t S c m netloc now v g in
        IsRefusal o × (g'.sent ≡ g.sent) × Sound r t g'.world f
  visit-Refused now v g (host, place, e, l, same, early) h =
      let (ip, known) = has_client v.request host e in
      let clock = clock_at now v in
      let ctx =
        context r t S v.upstream_url (or_url place v.upstream_url) v.request v.start_time ip in
      let x = visit r t S c m netloc now v g in
      let no : (ask (f (or_url place v.upstream_url)) v.at_ask).0 ≡ false = rw same (
        ap (λ (x : Bool × Breaker). x.0)
          (ask_open (f u).mode (f u).failures (f u).opens_at deadline v.at_ask mode until early)) in
      let rule = first (applies v.request.path) (payload r t g.world.db) in
      Responded-Refused g x.0 x.1 (
        Responded-map r t S (Found r t S m q c clock v.client f rule ctx g) (Refused g)
          (λ a g' k. Found-Refused clock v.client ctx g a g' rule no k) x.0 x.1
          (handle-Found r t S m q c clock v.client v.detail netloc v.upstream_url v.request
            v.start_time g f ip place known l h))

  -- In a world where the cache agrees with the table and the breakers' keys hold states, of
  -- which that of one upstream is open until a deadline, and with handlers that do not raise,
  -- whatever requests for the upstream follow one another, whose peers have addresses and whose
  -- URLs `urlparse` reads, and which read the clock before the deadline for the breaker: each
  -- is answered with the 429 of a check that did not allow it or with the 503 of the breaker,
  -- nothing is sent, and such a world is left, with the same states of the breakers.
  pub open_circuit_shields :
      (vs : List Visit) (now : ℕ) (g : Gate r t S)
      → All (IsFor netloc u deadline) vs
      → Sound r t g.world f
      → let (outcomes, end) = run_visits r t S c m netloc now vs g in
        All IsRefusal outcomes × (end.sent ≡ g.sent) × Sound r t end.world f
  unfolding run_visits
  open_circuit_shields [] now g p h = (tt, refl, h)
  open_circuit_shields (v ∷ vs) now g p h =
      let later = now + v.gap in
      let before = aged r t S c m netloc g v.gap in
      let (refusal, same, sound) =
        visit-Refused later v before p.0 (aged-Sound r t S c m netloc g v.gap f h) in
      let (refusals, same', sound') =
        open_circuit_shields vs later (visit r t S c m netloc later v before).1 p.1 sound in
      ((refusal, refusals), same' ∙ same, sound')
