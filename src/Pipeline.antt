-- ===== src/Pipeline.antt =====
-- app/controllers/pipeline.py: the context, the three steps and `GatewayPipeline`.
--
-- The request, the clocks and what the upstream does are arguments: `Ctx` holds the fields that
-- `PipelineContext` is made with, `Clock` the readings that one request makes of the clocks, and
-- `Upstream` what the HTTP client returns, its headers as `dict` gives them, or raises. Whether
-- FastAPI's `Response` takes these headers is part of it: it raises for a value outside Latin-1.
-- `time.monotonic()` counts like `time.time()`, in units of 2^-22 seconds, and a latency in units of
-- 2^-22 milliseconds.
pub mod Steps
pub mod Run
pub mod Forwards
pub mod Meters
pub mod Shields
pub mod Tracks
pub mod Behaves
pub mod Sound
pub mod Received
pub mod Keeps
use rate_guardian.Base.{
  ℕ, ◌-◌, ◌*◌, String, Bool, true, false, not, ◌||◌, Option, none, some, List, [], ◌∷◌, ◌++◌,
  select, ◌==◌, if◌then◌else◌,
}
use rate_guardian.Models.{Rule, CachedRule, RequestBlocked, RequestForwarded}
use rate_guardian.Redis.{Redis}
use rate_guardian.Table.{Table}
use rate_guardian.Proxy.{Request, Sent, sent_of, forward}
use rate_guardian.EventManager.{EventManager, Event, blocked, forwarded, emit}
use rate_guardian.RateLimiter.{RateLimitResult, check}
use rate_guardian.CircuitBreaker.{Config, can_request, record_success, record_failure}
use rate_guardian.Rules.{rule_id, World, match}

-- The text of a header: given, or `str` of a number.
pub data HeaderText : Type 0 where
  given : String → HeaderText
  shown : ℕ → HeaderText

-- The contents of the responses: the bytes of the upstream, or one of the JSON objects.
pub data Body : Type 0 where
  content : List ℕ → Body
  too_many_requests : ℕ → ℕ → Body
  circuit_breaker_open no_response : Body
  bad_gateway : String → Body

pub record Response : Type 0 where
  pub status_code : ℕ
  pub headers : List (String × HeaderText)
  pub body : Body

pub record Ctx : Type 0 where
  pub request : Request
  pub upstream_url : String
  pub client_ip : String
  pub path : String
  pub upstream_host : String
  pub start_time : ℕ
  pub response : Option Response

pub record Clock : Type 0 where
  pub at_check : ℕ
  pub at_ask : ℕ
  pub at_failure : ℕ
  pub finished : ℕ
  pub at_error : ℕ

-- What the HTTP client answers, what it answers and `Response` raises an exception for, with the text
-- of that exception, or the text of what the client raises.
pub data Upstream : Type 0 where
  answered : Response → Upstream
  unusable : Response → String → Upstream
  failed : String → Upstream

-- The HTTP client, which answers what it is asked to send, or raises.
abbrev pub Client : Type 0
Client = Sent → Upstream

-- `None`, a response, or an exception.
pub data Outcome : Type 0 where
  proceeds : Outcome
  responds : Response → Outcome
  raises : Outcome

abbrev pub latency : Ctx → Clock → ℕ
latency ctx clock = (clock.finished - ctx.start_time) * 1000

abbrev pub blocked_event : Ctx → Clock → ℕ → String → Event
blocked_event ctx clock status reason = blocked (record {
  client_ip = ctx.client_ip;
  method = ctx.request.method;
  path = ctx.path;
  upstream = ctx.upstream_host;
  status_code = status;
  latency_ms = latency ctx clock;
  reason = reason;
})

-- The clock of the `except` branch, which reads the time again.
abbrev pub late : Clock → Clock
late clock = record clock { finished = clock.at_error }

abbrev pub error_event : Ctx → Clock → Event
error_event ctx clock = blocked_event ctx (late clock) 502 "upstream_error"

abbrev pub forwarded_event : Ctx → Clock → ℕ → Event
forwarded_event ctx clock status = forwarded (record {
  client_ip = ctx.client_ip;
  method = ctx.request.method;
  path = ctx.path;
  upstream = ctx.upstream_host;
  status_code = status;
  latency_ms = latency ctx clock;
})

abbrev pub too_many : RateLimitResult → Response
too_many a = record {
  status_code = 429;
  headers =
      ("X-RateLimit-Limit", shown a.limit)
      ∷ ("X-RateLimit-Remaining", shown a.remaining)
      ∷ ("X-RateLimit-Reset", shown a.reset_in)
      ∷ ("Retry-After", shown a.reset_in)
      ∷ [];
  body = too_many_requests a.limit a.reset_in;
}

abbrev pub unavailable : Response
unavailable = record { status_code = 503; headers = []; body = circuit_breaker_open }

abbrev pub gateway_error : String → Response
gateway_error detail = record { status_code = 502; headers = []; body = bad_gateway detail }

abbrev pub nothing_produced : Response
nothing_produced = record { status_code = 500; headers = []; body = no_response }

-- The headers that are not passed back.
abbrev pub is_dropped : String × HeaderText → Bool
is_dropped (name, value) =
    name == "content-encoding" || (name == "transfer-encoding" || name == "connection")

unfoldable pub relayed : Response → Response
relayed a = record a { headers = select (λ h. not (is_dropped h)) a.headers }

-- What `rl_key` is for a rule.
abbrev pub rl_key : Ctx → CachedRule → String
rl_key ctx rule = if rule.key_type == "ip" then ctx.client_ip else "global"

module _ (r : Redis) (t : Table Rule rule_id) (S : Type 0) where
  -- The shared state: database and Redis, what the event handlers work on, and what the HTTP client
  -- was asked to send.
  pub record Gate : Type 0 where
    pub world : World r t
    pub sink : S
    pub sent : List Sent

  abbrev pub Step : Type 0
  Step = Ctx → Gate → Outcome × Ctx × Gate

  abbrev pub with_redis : Gate → r.State → Gate
  with_redis g s = record g { world = record g.world { redis = s } }

  -- `emit`, then the response unless a handler raised.
  pub emit_and_respond : EventManager S → Event → Response → Ctx → Gate → Outcome × Ctx × Gate
  emit_and_respond m e response ctx g =
      let (sink, raised) = emit m e g.sink in
      (if raised then raises else responds response, ctx, record g { sink = sink })

  -- The rest of the step, for a rule that applies.
  pub limit_by : EventManager S → Clock → CachedRule → Step
  limit_by m clock rule ctx g =
      let (result, s) =
        check r g.world.redis (rl_key ctx rule) rule.limit rule.window_seconds clock.at_check in
      if result.allowed
      then (proceeds, ctx, with_redis g s)
      else emit_and_respond m (blocked_event ctx clock 429 "rate_limit") (too_many result) ctx
          (with_redis g s)

  pub rate_limit_step : EventManager S → Clock → Step
  rate_limit_step m clock ctx g = elim (match r t g.world ctx.path) [
    | none ↦ (raises, ctx, g)
    | some (none, w) ↦ (proceeds, ctx, record g { world = w })
    | some (some rule, w) ↦ limit_by m clock rule ctx (record g { world = w })
  ]

  pub circuit_breaker_step : EventManager S → Clock → Step
  circuit_breaker_step m clock ctx g =
      elim (can_request r g.world.redis ctx.upstream_host clock.at_ask) [
        | none ↦ (raises, ctx, g)
        | some (admitted, s) ↦
            if admitted
            then (proceeds, ctx, with_redis g s)
            else emit_and_respond m (blocked_event ctx clock 503 "circuit_breaker") unavailable ctx
                (with_redis g s)
      ]

  -- The `except` branch.
  pub on_error : Config → EventManager S → Clock → String → Step
  on_error c m clock detail ctx g =
      elim (record_failure r c g.world.redis ctx.upstream_host clock.at_failure) [
        | none ↦ (raises, ctx, g)
        | some s ↦
            emit_and_respond m (error_event ctx clock) (gateway_error detail) ctx (with_redis g s)
      ]

  -- What follows the call of the client. `detail` is the text of the exception if a handler raises one
  -- inside the `try`.
  pub receive : Config → EventManager S → Clock → Upstream → String → Step
  receive c m clock (failed exc) detail ctx g = on_error c m clock exc ctx g
  receive c m clock (answered upstream_resp) detail ctx g =
      let g' = with_redis g (record_success r g.world.redis ctx.upstream_host) in
      let (sink, raised) = emit m (forwarded_event ctx clock upstream_resp.status_code) g'.sink in
      let g'' = record g' { sink = sink } in
      if raised
      then on_error c m clock detail ctx g''
      else (proceeds, record ctx { response = some (relayed upstream_resp) }, g'')
  receive c m clock (unusable upstream_resp exc) detail ctx g =
      let g' = with_redis g (record_success r g.world.redis ctx.upstream_host) in
      let (sink, raised) = emit m (forwarded_event ctx clock upstream_resp.status_code) g'.sink in
      on_error c m clock (if raised then detail else exc) ctx (record g' { sink = sink })

  pub proxy_step : Config → EventManager S → Clock → Client → String → Step
  proxy_step c m clock client detail ctx g =
      let asked = forward sent_of ctx.request ctx.upstream_url in
      receive c m clock (client asked) detail ctx (record g { sent = g.sent ++ asked ∷ [] })

  -- The first step that responds or raises ends the run.
  pub run : List Step → Step
  run [] ctx g = elim ctx.response [
    | none ↦ (responds nothing_produced, ctx, g)
    | some response ↦ (responds response, ctx, g)
  ]
  run (step ∷ steps) ctx g =
      let (outcome, ctx', g') = step ctx g in
      elim outcome [
        | proceeds ↦ run steps ctx' g'
        | responds response ↦ (responds response, ctx', g')
        | raises ↦ (raises, ctx', g')
      ]

  -- The pipeline of `GatewayController`.
  pub gateway : Config → EventManager S → Clock → Client → String → Step
  gateway c m clock client detail = run (
      rate_limit_step m clock
      ∷ circuit_breaker_step m clock
      ∷ proxy_step c m clock client detail
      ∷ [])
