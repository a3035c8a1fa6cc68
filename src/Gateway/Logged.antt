-- ===== src/Gateway/Logged.antt =====
-- What `GatewayController.handle` of app/controllers/gateway.py leaves for the log, with the event
-- manager that app/main.py wires: a `LogListener` and nothing else.
use mathlib.Core.List.{append_assoc}
use rate_guardian.Base.{
  Option, ◌≡◌, refl, ap, ◌∙◌, String, some, ℕ, List, [], ◌∷◌, ◌++◌, ◌⊎◌, inl, inr,
}
use rate_guardian.Models.{Rule}
use rate_guardian.Redis.{Redis}
use rate_guardian.Table.{Table}
use rate_guardian.EventManager.{Event, emit}
use rate_guardian.CircuitBreaker.{Config}
use rate_guardian.CircuitBreaker.Runs.{Fleet}
use rate_guardian.Rules.{rule_id}
use rate_guardian.Logs.{Entry, log_listener}
use rate_guardian.Logs.Facts.{no_handlers, entry_of, emit-listener}
use rate_guardian.Pipeline.{
  error_event, Response, unusable, Ctx, Clock, Client, Outcome, forwarded_event, proceeds, responds,
  raises, Gate, gateway, latency, late,
}
use rate_guardian.Pipeline.Sound.{Sound}
use rate_guardian.Pipeline.Keeps.{Answers, gateway-Answers}
use rate_guardian.Pipeline.Received.{IsQuiet}
use rate_guardian.Pipeline.Run.{of_error, Tells, of_blocked, of_forwarded, Reports, gateway-Reports}
use rate_guardian.Proxy.{Request, Sent}
use rate_guardian.Gateway.{or_url, get_client_ip, context, handle}
use rate_guardian.Gateway.Handle.{has_client, located}

pub listener-IsQuiet : IsQuiet (log_listener no_handlers)
listener-IsQuiet e s = ap (λ (x : List Entry × _). x.1) (emit-listener e s)

-- The entry of a request that was answered with a status.
abbrev pub IsEntryOf : Ctx → Clock → ℕ → Entry → Type 0
IsEntryOf ctx clock status e =
    (e.client_ip ≡ ctx.client_ip)
    × (e.method ≡ ctx.request.method)
    × (e.path ≡ ctx.path)
    × (e.upstream ≡ ctx.upstream_host)
    × (e.status_code ≡ status)
    × (e.latency_ms ≡ latency ctx clock)

-- The entry of an answer, or of an error, whose latency is read in the `except` branch.
abbrev pub IsEntry : Ctx → Clock → ℕ → Entry → Type 0
IsEntry ctx clock status e =
    IsEntryOf ctx clock status e ⊎ ((status ≡ 502) × IsEntryOf ctx (late clock) 502 e)

Tells-IsEntry :
    (ctx : Ctx) (clock : Clock) (status : ℕ) (e : Event)
    → Tells ctx clock status e
    → IsEntry ctx clock status (entry_of e)
Tells-IsEntry ctx clock status e (of_blocked reason) = inl (refl, refl, refl, refl, refl, refl)
Tells-IsEntry ctx clock status e (of_error same) = inr (same, (refl, refl, refl, refl, refl, refl))
Tells-IsEntry ctx clock status e of_forwarded = inl (refl, refl, refl, refl, refl, refl)

sinks_two :
    (first second : Event) (pending : List Entry)
    → let m = log_listener no_handlers in
      (emit m second (emit m first pending).0).0 ≡ pending ++ entry_of first ∷ entry_of second ∷ []
sinks_two first second pending =
    rw
      (
        emit-listener first pending,
        emit-listener second (pending ++ entry_of first ∷ []),
        append_assoc pending (entry_of first ∷ []) (entry_of second ∷ []),
      )
      refl

module _ (r : Redis) (t : Table Rule rule_id) where
  -- One more task, which writes an entry of the response.
  abbrev pub LoggedOnce : Ctx → Clock → List Entry → Response → Gate r t (List Entry) → Type 0
  LoggedOnce ctx clock pending response g =
      (e : Entry) × (g.sink ≡ pending ++ e ∷ []) × IsEntry ctx clock response.status_code e

  -- The client has answered what `Response` does not take, the response has status 502, and there
  -- are two more tasks: an entry of the client's answer, then one of the response.
  abbrev pub LoggedTwice :
      Ctx → Clock → Client → List Entry → Response → Gate r t (List Entry) → Type 0
  LoggedTwice ctx clock client pending response g =
      (asked : Sent) × (answer : Response) × (exc : String) × (first second : Entry) × (client asked
        ≡ unusable answer exc)
      × (response.status_code ≡ 502)
      × (g.sink ≡ pending ++ first ∷ second ∷ [])
      × IsEntryOf ctx clock answer.status_code first
      × IsEntryOf ctx (late clock) 502 second

  abbrev pub Logged : Ctx → Clock → Client → List Entry → Outcome × Gate r t (List Entry) → Type 0
  Logged ctx clock client pending (responds response, g) =
      LoggedOnce ctx clock pending response g ⊎ LoggedTwice ctx clock client pending response g
  Logged ctx clock client pending (_, g) = ⊥

  Reports-Logged :
      (ctx : Ctx) (clock : Clock) (client : Client) (g : Gate r t (List Entry)) (o : Outcome)
      (ctx' : Ctx) (g' : Gate r t (List Entry))
      → Answers r t (List Entry) (o, ctx', g')
      → Reports r t
          (List Entry)
          (log_listener no_handlers)
          listener-IsQuiet
          clock
          client
          ctx
          g
          (o, ctx', g')
      → Logged ctx clock client g.sink (o, g')
  Reports-Logged ctx clock client g proceeds ctx' g' a h = h
  Reports-Logged ctx clock client g (responds response) ctx' g' a (inl (e, k, tells)) = inl (
    entry_of e,
    k ∙ ap (λ (x : List Entry × _). x.0) (emit-listener e g.sink),
    Tells-IsEntry ctx clock response.status_code e tells,
  )
  Reports-Logged ctx clock client g (responds response) ctx' g' a
        (inr (asked, (answer, exc, same, k, status))) =
      let first = forwarded_event ctx clock answer.status_code in
      let second = error_event ctx clock in
      inr (
        asked,
        answer,
        exc,
        entry_of first,
        entry_of second,
        same,
        status,
        k ∙ sinks_two first second g.sink,
        (refl, refl, refl, refl, refl, refl),
        (refl, refl, refl, refl, refl, refl),
      )
  Reports-Logged ctx clock client g raises ctx' g' a h = a

  -- For a request whose peer has an address and whose URL `urlparse` reads, in a world where
  -- the cache agrees with the table and the breakers' keys hold states, with the event manager
  -- that a log listener is subscribed to, `handle` responds, whatever the upstream does, and
  -- adds one pending log entry, which has the address that `_get_client_ip` finds, the method
  -- and path of the request, the network location of its URL, or the whole URL where it is
  -- empty, the latency by the clock's reading before the event, or for an error that of the
  -- `except` branch, and the status of the response; or else the client gave an answer that
  -- `Response` raises on, the response is a 502, and it adds two such entries, one with the
  -- status of the client's answer and one of the error, with 502.
  pub handle-Logged :
      (c : Config) (clock : Clock) (client : Client) (detail : String)
      (netloc : String → Option String) (upstream_url : String) (request : Request) (start_time : ℕ)
      (g : Gate r t (List Entry)) (f : Fleet) (host place : String)
      → request.client ≡ some host
      → netloc upstream_url ≡ some place
      → Sound r t g.world f
      → (ip : String) × (get_client_ip request ≡ some ip)
        × Logged
            (context r t
              (List Entry)
              upstream_url
              (or_url place upstream_url)
              request
              start_time
              ip)
            clock
            client
            g.sink
            (handle r t
              (List Entry)
              c
              (log_listener no_handlers)
              clock
              client
              detail
              netloc
              upstream_url
              request
              start_time
              g)
  unfolding handle
  handle-Logged c clock client detail netloc upstream_url request start_time g f host place e l h =
      let (ip, known) = has_client request host e in
      let m = log_listener no_handlers in
      let ctx =
        context r t (List Entry) upstream_url (or_url place upstream_url) request start_time ip in
      let x = gateway r t (List Entry) c m clock client detail ctx g in
      (
        ip,
        known,
        rw (known, handle)
            (rw (located netloc upstream_url place l, handle)
              (Reports-Logged ctx clock client g x.0 x.1 x.2
                (gateway-Answers r t (List Entry) c m clock client detail ctx g f listener-IsQuiet
                  h)
                (gateway-Reports r t (List Entry) m listener-IsQuiet clock client c detail ctx g))),
      )
