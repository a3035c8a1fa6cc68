-- ===== src/Gateway/Behaves.antt =====
-- `GatewayController.handle` of app/controllers/gateway.py, told by the answer of the limiter and the
-- abstract state machine of the upstream's breaker.
use rate_guardian.Base.{Option, ◌≡◌, String, some, ℕ, first}
use rate_guardian.Models.{Rule}
use rate_guardian.Redis.{Redis}
use rate_guardian.Table.{Table}
use rate_guardian.EventManager.{EventManager}
use rate_guardian.CircuitBreaker.{Config}
use rate_guardian.CircuitBreaker.Runs.{Fleet}
use rate_guardian.Rules.{rule_id, payload, applies}
use rate_guardian.Proxy.{Request}
use rate_guardian.Pipeline.{Clock, Client, Gate}
use rate_guardian.Pipeline.Sound.{Sound}
use rate_guardian.Pipeline.Received.{IsQuiet}
use rate_guardian.Pipeline.Behaves.{Found, gateway-Found}
use rate_guardian.Gateway.{or_url, get_client_ip, context, handle}
use rate_guardian.Gateway.Handle.{Responded, handle-Responded}

module _ (r : Redis) (t : Table Rule rule_id) (S : Type 0) where
  -- For a request that `_get_client_ip` finds an address of and whose URL `urlparse` reads, in
  -- a world where the cache agrees with the table and the breakers' keys hold the states of a
  -- family of abstract machines, and with handlers that do not raise, `handle` responds. If a
  -- rule applies and a check for the first that does is rejected, it answers with the 429 of
  -- that check, sends nothing and leaves the machines' states. Otherwise, if the upstream's
  -- machine refuses, it answers with the 503, sends nothing and leaves them. Otherwise it sends
  -- one request, with the URL, the method and body of the request that came, and for each name
  -- that is not hop-by-hop the last value of its headers; it answers with the status, the body
  -- and the headers of the client's answer, but for the three that are not passed back, or with
  -- the 502 and the text of what the client, or `Response` on the client's answer, raised; and
  -- it leaves the states after the machine has admitted the request and recorded the success of
  -- an answer, the failure of an exception of the client, or the success and then the failure
  -- where `Response` raised.
  pub handle-Found :
      (m : EventManager S) (q : IsQuiet m) (c : Config) (clock : Clock) (client : Client)
      (detail : String) (netloc : String → Option String) (upstream_url : String)
      (request : Request) (start_time : ℕ) (g : Gate r t S) (f : Fleet) (ip place : String)
      → get_client_ip request ≡ some ip
      → netloc upstream_url ≡ some place
      → Sound r t g.world f
      → Responded r t S
          (Found r t S m q c clock client f
            (first (applies request.path) (payload r t g.world.db))
            (context r t S upstream_url (or_url place upstream_url) request start_time ip)
            g)
          (handle r t S c m clock client detail netloc upstream_url request start_time g)
  handle-Found m q c clock client detail netloc upstream_url request start_time g f ip place e l h =
      handle-Responded r t S
        (Found r t S m q c clock client f (first (applies request.path) (payload r t g.world.db))) c
        m clock client detail netloc upstream_url request start_time g f ip place e l q h
        (gateway-Found r t S m q c clock client f detail
          (context r t S upstream_url (or_url place upstream_url) request start_time ip) g h)
