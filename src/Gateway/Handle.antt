-- ===== src/Gateway/Handle.antt =====
-- What `GatewayController.handle` of app/controllers/gateway.py answers to a request.
use rate_guardian.Base.{
  Option, ◌≡◌, refl, String, some, Bool-cases, Option-cases, inl, inr, ◌==◌, ℕ,
}
use rate_guardian.Models.{Rule}
use rate_guardian.Redis.{Redis}
use rate_guardian.Table.{Table}
use rate_guardian.EventManager.{EventManager}
use rate_guardian.CircuitBreaker.{Config}
use rate_guardian.CircuitBreaker.Runs.{Fleet}
use rate_guardian.Rules.{rule_id}
use rate_guardian.Pipeline.{
  Ctx, Clock, Client, Response, Outcome, proceeds, responds, raises, Gate, gateway,
}
use rate_guardian.Pipeline.Sound.{Sound}
use rate_guardian.Pipeline.Steps.{Ends}
use rate_guardian.Pipeline.Keeps.{Answers, gateway-Answers}
use rate_guardian.Pipeline.Received.{IsQuiet}
use rate_guardian.Proxy.{Request, get_header}
use rate_guardian.Gateway.{
  or_unknown, first_part, strip_left, strip_right, get_client_ip, get_upstream_host, or_url,
  context, handle,
}

pub has_client :
    (request : Request) (host : String)
    → request.client ≡ some host
    → (ip : String) × (get_client_ip request ≡ some ip)
unfolding get_client_ip
has_client request host e = elim (Option-cases (get_header "x-forwarded-for" request.headers)) [
  | inl n ↦ (or_unknown host, rw (n, get_client_ip) (rw e refl))
  | inr (header, h) ↦ elim (Bool-cases (header == "")) [
    | inl y ↦ (or_unknown host, rw (h, get_client_ip) (rw y (rw e refl)))
    | inr n ↦ (strip_right (strip_left (first_part header)), rw (h, get_client_ip) (rw n refl))
  ]
]

pub located :
    (netloc : String → Option String) (url place : String)
    → netloc url ≡ some place
    → get_upstream_host netloc url ≡ some (or_url place url)
unfolding get_upstream_host
located netloc url place e = rw (e, get_upstream_host) refl

module _ (r : Redis) (t : Table Rule rule_id) (S : Type 0) where
  -- A response of which a predicate holds, and of the state with it.
  abbrev pub Responded : (Response → Gate r t S → Type 0) → Outcome × Gate r t S → Type 0
  Responded P (responds response, g) = P response g
  Responded P (_, g) = ⊥

  pub Responded-map :
      (P Q : Response → Gate r t S → Type 0)
      → ((a : Response) (g : Gate r t S) → P a g → Q a g)
      → (o : Outcome) (g : Gate r t S) → Responded P (o, g)
      → Responded Q (o, g)
  Responded-map P Q f proceeds g h = h
  Responded-map P Q f (responds a) g h = f a g h
  Responded-map P Q f raises g h = h

  pub Responded-after :
      (P : Response → Gate r t S → Type 0) (Q : Gate r t S → Type 0)
      → ((a : Response) (g : Gate r t S) → P a g → Q g)
      → (o : Outcome) (g : Gate r t S) → Responded P (o, g)
      → Q g
  Responded-after P Q f proceeds g h = absurd h
  Responded-after P Q f (responds a) g h = f a g h
  Responded-after P Q f raises g h = absurd h

  -- A response, and a state that is sound.
  abbrev pub Handled : Outcome × Gate r t S → Type 0
  Handled = Responded λ response g. (f : Fleet) × Sound r t g.world f

  Answers-Handled :
      (o : Outcome) (ctx : Ctx) (g : Gate r t S) → Answers r t S (o, ctx, g) → Handled (o, g)
  Answers-Handled proceeds ctx g h = h
  Answers-Handled (responds a) ctx g h = h
  Answers-Handled raises ctx g h = h

  Ends-Responded :
      (P : Ctx → Gate r t S → Response → Gate r t S → Type 0) (ctx : Ctx) (g : Gate r t S)
      (o : Outcome) (ctx' : Ctx) (g' : Gate r t S)
      → Answers r t S (o, ctx', g')
      → Ends r t S P ctx g (o, ctx', g')
      → Responded (P ctx g) (o, g')
  Ends-Responded P ctx g proceeds ctx' g' a h = h
  Ends-Responded P ctx g (responds response) ctx' g' a h = h
  Ends-Responded P ctx g raises ctx' g' a h = a

  -- What holds of the run's response holds of what `handle` answers.
  pub handle-Responded :
      (P : Ctx → Gate r t S → Response → Gate r t S → Type 0) (c : Config) (m : EventManager S)
      (clock : Clock) (client : Client) (detail : String) (netloc : String → Option String)
      (upstream_url : String) (request : Request) (start_time : ℕ) (g : Gate r t S) (f : Fleet)
      (ip place : String)
      → get_client_ip request ≡ some ip
      → netloc upstream_url ≡ some place
      → IsQuiet m
      → Sound r t g.world f
      → let ctx = context r t S upstream_url (or_url place upstream_url) request start_time ip in
        Ends r t S P ctx g (gateway r t S c m clock client detail ctx g)
        → Responded
            (P ctx g)
            (handle r t S c m clock client detail netloc upstream_url request start_time g)
  unfolding handle
  handle-Responded P c m clock client detail netloc upstream_url request start_time g f ip place e l
        q h k =
      let ctx = context r t S upstream_url (or_url place upstream_url) request start_time ip in
      let x = gateway r t S c m clock client detail ctx g in
      rw (e, handle)
        (rw (located netloc upstream_url place l, handle)
          (Ends-Responded P ctx g x.0 x.1 x.2
            (gateway-Answers r t S c m clock client detail ctx g f q h) k))

  -- For a request whose peer has an address and whose URL `urlparse` reads, in a world where the
  -- cache agrees with the table and the breakers' keys hold states, and with handlers that do not
  -- raise, `handle` ends with a response, whatever the upstream does, and leaves such a world.
  pub handle-Handled :
      (c : Config) (m : EventManager S) (clock : Clock) (client : Client) (detail : String)
      (netloc : String → Option String) (upstream_url : String) (request : Request) (start_time : ℕ)
      (g : Gate r t S) (f : Fleet) (host place : String)
      → request.client ≡ some host
      → netloc upstream_url ≡ some place
      → IsQuiet m
      → Sound r t g.world f
      → Handled (handle r t S c m clock client detail netloc upstream_url request start_time g)
  unfolding handle
  handle-Handled c m clock client detail netloc upstream_url request start_time g f host place e l q
        h =
      let (ip, known) = has_client request host e in
      let ctx = context r t S upstream_url (or_url place upstream_url) request start_time ip in
      let x = gateway r t S c m clock client detail ctx g in
      rw (known, handle)
        (rw (located netloc upstream_url place l, handle)
          (Answers-Handled x.0 x.1 x.2 (gateway-Answers r t S c m clock client detail ctx g f q h)))
