-- ===== src/Gateway/Visits.antt =====
-- Requests to `GatewayController.handle` of app/controllers/gateway.py that follow one another, and
-- the times at which the upstream is sent something under one key of the limiter.
use rate_guardian.Base.{
  ℕ, zero, suc, ◌+◌, ◌-◌, String, Bool, false, Option, none, some, List, [], ◌∷◌, ◌++◌, first,
  length, ◌==◌, if◌then◌else◌,
}
use rate_guardian.Models.{Rule, CachedRule}
use rate_guardian.Redis.{Redis}
use rate_guardian.Table.{Table}
use rate_guardian.EventManager.{EventManager}
use rate_guardian.CircuitBreaker.{Config}
use rate_guardian.Rules.{rule_id, payload, applies}
use rate_guardian.Proxy.{Request}
use rate_guardian.Pipeline.{Clock, Client, Outcome, Gate}
use rate_guardian.Gateway.{get_client_ip, handle}

-- A request that checks the limit `gap` after the one before it, and what it meets.
pub record Visit : Type 0 where
  pub gap : ℕ
  pub at_ask : ℕ
  pub at_failure : ℕ
  pub finished : ℕ
  pub at_error : ℕ
  pub start_time : ℕ
  pub client : Client
  pub detail : String
  pub upstream_url : String
  pub request : Request

abbrev pub clock_at : ℕ → Visit → Clock
clock_at now v = record {
  at_check = now;
  at_ask = v.at_ask;
  at_failure = v.at_failure;
  finished = v.finished;
  at_error = v.at_error;
}

-- The key under which a rule counts the requests of an address.
abbrev pub counted_key : String → CachedRule → String
counted_key ip rule = if rule.key_type == "ip" then ip else "global"

-- Whether the rule that a request meets is one, and counts it under a key.
abbrev pub counts_for : String → String → Option CachedRule → Bool
counts_for key ip none = false
counts_for key ip (some rule) = counted_key ip rule == key

-- Whether the first of the rules that applies to a request counts it under a key.
abbrev pub counts : String → List CachedRule → Visit → Bool
counts key rules v = elim (get_client_ip v.request) [
  | none ↦ false
  | some ip ↦ counts_for key ip (first (applies v.request.path) rules)
]

-- A time, as often as something happened at it.
abbrev pub times : ℕ → ℕ → List ℕ
times zero t = []
times (suc n) t = t ∷ times n t

abbrev pub gaps : List Visit → List ℕ
gaps [] = []
gaps (v ∷ vs) = v.gap ∷ gaps vs

module _ (r : Redis) (t : Table Rule rule_id) (S : Type 0) (c : Config) (m : EventManager S)
    (netloc : String → Option String) where
  abbrev pub visit : ℕ → Visit → Gate r t S → Outcome × Gate r t S
  visit now v g =
      handle r t S c m (clock_at now v) v.client v.detail netloc v.upstream_url v.request
        v.start_time g

  -- The server's clock moves on.
  abbrev pub aged : Gate r t S → ℕ → Gate r t S
  aged g d = record g { world = record g.world { redis = r.elapse g.world.redis d } }

  -- The times of the requests that are sent to the upstream and counted under `key`.
  unfoldable pub sends : String → ℕ → List Visit → Gate r t S → List ℕ
  sends key now [] g = []
  sends key now (v ∷ vs) g =
      let later = now + v.gap in
      let before = aged g v.gap in
      let after = (visit later v before).1 in
      let rest = sends key later vs after in
      if counts key (payload r t before.world.db) v
      then times (length after.sent - length before.sent) later ++ rest
      else rest

  -- How the requests end, and the state after them.
  unfoldable pub run_visits : ℕ → List Visit → Gate r t S → List Outcome × Gate r t S
  run_visits now [] g = ([], g)
  run_visits now (v ∷ vs) g =
      let later = now + v.gap in
      let (outcome, after) = visit later v (aged g v.gap) in
      let (outcomes, end) = run_visits later vs after in (outcome ∷ outcomes, end)
