-- ===== src/Gateway/Forwards.antt =====
-- What `GatewayController.handle` of app/controllers/gateway.py sends to the upstream, and what it
-- answers.
use rate_guardian.Base.{
  ◌≡◌, ◌⊎◌, refl, sym, subst, String, Bool, true, false, Option, none, some, ℕ, List, [], ◌∷◌, ◌++◌,
  inl, inr, first,
}
use rate_guardian.Models.{Rule, CachedRule}
use rate_guardian.Redis.{Redis}
use rate_guardian.Table.{Table}
use rate_guardian.EventManager.{EventManager}
use rate_guardian.CircuitBreaker.{Config}
use rate_guardian.CircuitBreaker.Machine.{Breaker}
use rate_guardian.CircuitBreaker.Runs.{Fleet}
use rate_guardian.RateLimiter.{RateLimitResult}
use rate_guardian.Rules.{rule_id, payload, applies}
use rate_guardian.Proxy.{Request, Sent}
use rate_guardian.Pipeline.{Ctx, Clock, Client, Response, Outcome, Gate}
use rate_guardian.Pipeline.Sound.{Sound}
use rate_guardian.Pipeline.Received.{IsQuiet}
use rate_guardian.Pipeline.Forwards.{Replays, Passes, Refusal, limited, shut}
use rate_guardian.Pipeline.Behaves.{Told, Limited, Found}
use rate_guardian.Gateway.{or_url, context, handle}
use rate_guardian.Gateway.Handle.{Responded, Responded-map, has_client}
use rate_guardian.Gateway.Behaves.{handle-Found}

-- Either nothing more was sent, and the response is a refusal, or one request was sent, which replays
-- the one that came, and the response passes its answer on.
abbrev pub Relayed : Client → String → Request → List Sent → List Sent → Response → Type 0
Relayed client upstream_url request before after response =
    ((after ≡ before) × Refusal response)
    ⊎ ((asked : Sent) × (after ≡ before ++ asked ∷ [])
        × Replays request upstream_url asked
        × Passes (client asked) response)

module _ (r : Redis) (t : Table Rule rule_id) (S : Type 0) where
  abbrev pub Proxied : Client → String → Request → List Sent → Outcome × Gate r t S → Type 0
  Proxied client upstream_url request before =
      Responded r t S λ response g. Relayed client upstream_url request before g.sent response

  module _ (m : EventManager S) (q : IsQuiet m) (c : Config) (clock : Clock) (client : Client)
      (f : Fleet) (ctx : Ctx) (g : Gate r t S) (a : Response) (g' : Gate r t S) where
    abbrev Follows : Type 0
    Follows = Relayed client ctx.upstream_url ctx.request g.sent g'.sent a

    Told-Relayed : (x : Bool × Breaker) → Told r t S m q c clock client f x ctx g a g' → Follows
    Told-Relayed (false, b) (same, answer, sound) = inl (same, subst Refusal (sym answer) shut)
    Told-Relayed (true, b) (asked, sent, replays, passes, sound) =
        inr (asked, sent, replays, passes)

    Limited-Relayed :
        (result : RateLimitResult) (b : Bool)
        → result.allowed ≡ b
        → Limited r t S m q c clock client f result b ctx g a g'
        → Follows
    Limited-Relayed result false n (same, answer, sound) =
        inl (same, subst Refusal (sym answer) (limited result n))
    Limited-Relayed result true y k = Told-Relayed _ k

    Found-Relayed :
        (rule : Option CachedRule) → Found r t S m q c clock client f rule ctx g a g' → Follows
    Found-Relayed none k = Told-Relayed _ k
    Found-Relayed (some rule) k = Limited-Relayed _ _ refl k

  -- For a request whose peer has an address and whose URL `urlparse` reads, in a world where
  -- the cache agrees with the table and the breakers' keys hold states, and with handlers that
  -- do not raise, `handle` responds. Either nothing is sent to the upstream, and the response
  -- is the 429 of a check that did not allow the request or the 503 of the breaker. Or one
  -- request is sent, with the URL, the method and body of the request that came, and for each
  -- name that is not hop-by-hop the last value of its headers; and the response has the status,
  -- the body and the headers of the answer, but for the three that are not passed back, or is
  -- the 502 with the text of the exception that the client raised.
  pub handle-Proxied :
      (c : Config) (m : EventManager S) (clock : Clock) (client : Client) (detail : String)
      (netloc : String → Option String) (upstream_url : String) (request : Request) (start_time : ℕ)
      (g : Gate r t S) (f : Fleet) (host place : String)
      → request.client ≡ some host
      → netloc upstream_url ≡ some place
      → IsQuiet m
      → Sound r t g.world f
      → Proxied client upstream_url request g.sent
          (handle r t S c m clock client detail netloc upstream_url request start_time g)
  handle-Proxied c m clock client detail netloc upstream_url request start_time g f host place e l q
        h =
      let (ip, known) = has_client request host e in
      let ctx = context r t S upstream_url (or_url place upstream_url) request start_time ip in
      let rule = first (applies request.path) (payload r t g.world.db) in
      let x = handle r t S c m clock client detail netloc upstream_url request start_time g in
      Responded-map r t S (Found r t S m q c clock client f rule ctx g) _
        (λ a g' k. Found-Relayed m q c clock client f ctx g a g' rule k) x.0 x.1
        (handle-Found r t S m q c clock client detail netloc upstream_url request start_time g f ip
          place known l h)
