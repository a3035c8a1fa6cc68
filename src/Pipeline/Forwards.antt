-- ===== src/Pipeline/Forwards.antt =====
-- What a run of the gateway's pipeline (app/controllers/pipeline.py) asks the HTTP client to send, and
-- what of its answer goes back.
use rate_guardian.Base.{
  ◌≡◌, refl, ◌∙◌, String, Bool, true, false, not, ◌||◌, Option, none, some, List, [], ◌∷◌, select,
  inl, inr, Bool-cases, ◌==◌, eq_iff, if◌then◌else◌,
}
use rate_guardian.RateLimiter.{RateLimitResult}
use rate_guardian.Proxy.{Request, Sent, sent_of, forward, is_hop_by_hop}
use rate_guardian.Proxy.Headers.{lookup, last_value, lookup-forward}
use rate_guardian.Pipeline.{
  HeaderText, Response, Upstream, answered, unusable, failed, too_many, unavailable, gateway_error,
  is_dropped, relayed,
}

-- The headers that do not go back.
abbrev pub is_hidden : String → Bool
is_hidden name = name == "content-encoding" || (name == "transfer-encoding" || name == "connection")

abbrev pub header : String → List (String × HeaderText) → Option HeaderText
header name [] = none
header name ((k, v) ∷ headers) = if k == name then some v else header name headers

-- The request as it came, without the headers that are for this connection only.
pub record Replays (request : Request) (target : String) (asked : Sent) : Type 0 where
  pub method : asked.method ≡ request.method
  pub url : asked.url ≡ target
  pub body : asked.body ≡ request.body
  pub headers :
      (name : String)
      → lookup name asked.headers
        ≡ (if is_hop_by_hop name then none else last_value name request.headers)

-- The answer as it came, without the headers that are hidden.
pub record Relays (a response : Response) : Type 0 where
  pub status : response.status_code ≡ a.status_code
  pub body : response.body ≡ a.body
  pub headers :
      (name : String)
      → header name response.headers ≡ (if is_hidden name then none else header name a.headers)

abbrev pub Passes : Upstream → Response → Type 0
Passes (answered a) response = Relays a response
Passes (unusable a exc) response = response ≡ gateway_error exc
Passes (failed exc) response = response ≡ gateway_error exc

-- The responses of the limiter and the breaker.
pub data Refusal : Response → Type 0 where
  limited : (a : RateLimitResult) → a.allowed ≡ false → Refusal (too_many a)
  shut : Refusal unavailable

pub forward-Replays :
    (request : Request) (url : String) → Replays request url (forward sent_of request url)
unfolding forward
forward-Replays request url = record {
  method = refl;
  url = refl;
  body = refl;
  headers = lookup-forward request url;
}

same-hidden : (k name : String) (b : Bool) → is_hidden k ≡ b → k == name ≡ true → is_hidden name ≡ b
same-hidden k name b h e = rw (← (eq_iff k name).0 e) h

header-kept :
    (name : String) (headers : List (String × HeaderText))
    → header name (select (λ h. not (is_dropped h)) headers)
      ≡ (if is_hidden name then none else header name headers)
header-kept name [] = elim (Bool-cases (is_hidden name)) [ inl y ↦ rw y refl | inr n ↦ rw n refl ]
header-kept name ((k, v) ∷ headers) =
    let ih = header-kept name headers in
    elim (Bool-cases (is_hidden k)) [
      | inl y ↦ rw y (
          ih ∙ elim (Bool-cases (k == name)) [
            | inl e ↦ rw (same-hidden k name true y e) refl
            | inr e ↦ rw e refl
          ])
      | inr n ↦
          rw (n, ih)
            (elim (Bool-cases (k == name)) [
              | inl e ↦ rw (e, same-hidden k name false n e) refl
              | inr e ↦ rw e refl
            ])
    ]

pub relayed-Relays : (a : Response) → Relays a (relayed a)
unfolding relayed
relayed-Relays a = record {
  status = refl;
  body = refl;
  headers = λ name. header-kept name a.headers;
}
