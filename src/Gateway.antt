-- ===== src/Gateway.antt =====
-- app/controllers/gateway.py: the context of a request, and `GatewayController.handle`.
--
-- `netloc` is what `urlparse` reads as the network location of a URL, or none where it raises.
pub mod Handle
pub mod Logged
pub mod Forwards
pub mod Visits
pub mod Metered
pub mod Visited
pub mod Limit
pub mod Shields
pub mod Behaves
pub mod Dead
mod Tests
use Prim.Native.Char.{code}
use rate_guardian.Base.{
  ℕ, String, Bool, true, false, not, ◌&&◌, ◌||◌, Option, none, some, leb, nat_eq, ◌==◌,
  if◌then◌else◌,
}
use rate_guardian.Models.{Rule}
use rate_guardian.Redis.{Redis}
use rate_guardian.Table.{Table}
use rate_guardian.Proxy.{Request, get_header}
use rate_guardian.EventManager.{EventManager}
use rate_guardian.CircuitBreaker.{Config}
use rate_guardian.Rules.{rule_id}
use rate_guardian.Pipeline.{Ctx, Clock, Client, Outcome, raises, Gate, gateway}

-- `split(",")[0]`
unfoldable pub first_part : String → String
first_part String.[] = String.[]
first_part (String.◌∷◌ c s) =
    let rest = first_part s in if nat_eq (code c) 44 then String.[] else String.◌∷◌ c rest

-- The characters that `strip` removes.
abbrev pub is_space : ℕ → Bool
is_space n =
    leb 9 n && leb n 13
    || leb 28 n && leb n 32
    || nat_eq n 133
    || nat_eq n 160
    || nat_eq n 5760
    || leb 8192 n && leb n 8202
    || leb 8232 n && leb n 8233
    || nat_eq n 8239
    || nat_eq n 8287
    || nat_eq n 12288

unfoldable pub strip_left : String → String
strip_left String.[] = String.[]
strip_left (String.◌∷◌ c s) =
    let rest = strip_left s in if is_space (code c) then rest else String.◌∷◌ c s

unfoldable pub strip_right : String → String
strip_right String.[] = String.[]
strip_right (String.◌∷◌ c s) =
    let rest = strip_right s in
    if rest == "" && is_space (code c) then String.[] else String.◌∷◌ c rest

abbrev pub or_unknown : String → String
or_unknown host = if host == "" then "unknown" else host

-- None is the attribute error of a request without a client.
unfoldable pub get_client_ip : Request → Option String
unfolding get_header
get_client_ip request = elim (get_header "x-forwarded-for" request.headers) [
  | none ↦ elim request.client [ none ↦ none | some host ↦ some (or_unknown host) ]
  | some header ↦
      if header == ""
      then elim request.client [ none ↦ none | some host ↦ some (or_unknown host) ]
      else some (strip_right (strip_left (first_part header)))
]

-- `netloc or url`
abbrev pub or_url : String → String → String
or_url place url = if place == "" then url else place

-- None is the value error of `urlparse`.
unfoldable pub get_upstream_host : (String → Option String) → String → Option String
get_upstream_host netloc url = elim (netloc url) [
  | none ↦ none
  | some place ↦ some (or_url place url)
]

module _ (r : Redis) (t : Table Rule rule_id) (S : Type 0) where
  -- `context` is the `PipelineContext` that the request is run with.
  abbrev pub context : String → String → Request → ℕ → String → Ctx
  context upstream_url upstream_host request start_time client_ip = record {
    request = request;
    upstream_url = upstream_url;
    client_ip = client_ip;
    path = request.path;
    upstream_host = upstream_host;
    start_time = start_time;
    response = none;
  }

  pub handle :
      Config
      → EventManager S
      → Clock
      → Client
      → String
      → (String → Option String)
      → String
      → Request
      → ℕ
      → Gate r t S
      → Outcome × Gate r t S
  handle c m clock client detail netloc upstream_url request start_time g =
      elim (get_client_ip request) [
        | none ↦ (raises, g)
        | some client_ip ↦ elim (get_upstream_host netloc upstream_url) [
          | none ↦ (raises, g)
          | some upstream_host ↦
              let (outcome, ctx, g') =
                gateway r t S c m clock client detail
                  (context upstream_url upstream_host request start_time client_ip) g in
              (outcome, g')
        ]
      ]
