-- ===== src/Gateway/Tests.antt =====
-- `GatewayController.handle` of app/controllers/gateway.py on a concrete request.
use rate_guardian.Base.{
  ℕ, length, ℕ, true, none, first, Bool-cases, inr, arith, ◌≤◌, All, ◌==◌, if◌then◌else◌, ◌∷◌,
  Option, ◌≡◌, refl, String, some, List, [], inl,
}
use rate_guardian.Redis.Memory.{memory, empty}
use rate_guardian.Redis.{
  StringKey, StringCell, key_eq, state_key, failures_key, opens_at_key, text, int, float, vacant,
}
use rate_guardian.Models.{Rule, CachedRule}
use rate_guardian.Table.Memory.{in_memory}
use rate_guardian.CircuitBreaker.{Config}
use rate_guardian.CircuitBreaker.Machine.{idle, Mode}
use rate_guardian.CircuitBreaker.Runs.{Fleet}
use rate_guardian.Rules.{rule_id, to_payload, applies}
use rate_guardian.Pipeline.{Clock, Client, failed, Gate}
use rate_guardian.Pipeline.Sound.{Sound}
use rate_guardian.Proxy.{Request, get_header}
use rate_guardian.Gateway.{first_part, strip_left, strip_right, get_client_ip, context, handle}
use rate_guardian.Gateway.Logged.{Logged, handle-Logged, listener-IsQuiet}
use rate_guardian.Gateway.Visits.{Visit, sends, run_visits}
use rate_guardian.Gateway.Metered.{Limits}
use rate_guardian.Gateway.Limit.{sends_within_limit}
use rate_guardian.Gateway.Handle.{Responded}
use rate_guardian.Pipeline.Behaves.{Found}
use rate_guardian.Gateway.Behaves.{handle-Found}
use rate_guardian.Gateway.Dead.{dead_upstream_spared}
use rate_guardian.Gateway.Shields.{IsRefusal, open_circuit_shields}
use rate_guardian.RateLimiter.{seconds}
use rate_guardian.RateLimiter.Window.{load}
use rate_guardian.Logs.{Entry, log_listener}
use rate_guardian.Logs.Facts.{no_handlers}

abbrev request : Request
request = record {
  method = "GET";
  path = "/proxy/https://api.example.com/users";
  headers = ("x-forwarded-for", " 10.0.0.7 , 10.0.0.1") ∷ [];
  body = [];
  client = some "172.18.0.1";
}

test_client : get_client_ip request ≡ some "10.0.0.7"
unfolding get_client_ip get_header first_part strip_left strip_right
test_client = refl

abbrev gate : Gate memory (in_memory rule_id) (List Entry)
gate = record { world = record { db = []; redis = empty }; sink = []; sent = [] }

abbrev config : Config
config = record { threshold = 5; recovery = 30 }

abbrev clock : Clock
clock = record { at_check = 100; at_ask = 101; at_failure = 103; finished = 104; at_error = 105 }

abbrev timeout : Client
timeout asked = failed "timed out"

abbrev fleet : Fleet
fleet u = idle

abbrev netloc : String → Option String
netloc url = some "api.example.com"

gate-Sound : Sound memory (in_memory rule_id) gate.world fleet
gate-Sound = record {
  coherent = inl refl;
  holds = λ u. record {
    mode = inl refl;
    failures = refl;
    opens_at = refl;
    state_stays = refl;
    failures_stay = refl;
    opens_at_stays = refl;
  };
}

abbrev upstream_url : String
upstream_url = "https://api.example.com/users"

handle-Logged_example :
    (ip : String) × (get_client_ip request ≡ some ip)
    × Logged memory
        (in_memory rule_id)
        (context memory
          (in_memory rule_id)
          (List Entry)
          upstream_url
          "api.example.com"
          request
          99
          ip)
        clock
        timeout
        []
        (handle memory
          (in_memory rule_id)
          (List Entry)
          config
          (log_listener no_handlers)
          clock
          timeout
          ""
          netloc
          upstream_url
          request
          99
          gate)
handle-Logged_example =
    handle-Logged memory (in_memory rule_id) config clock timeout "" netloc upstream_url request 99
      gate fleet "172.18.0.1" "api.example.com" refl refl gate-Sound

-- One request a minute for each address.
abbrev rule : Rule
rule = record {
  id = 1;
  name = "all";
  path_pattern = "/proxy/*";
  limit = 1;
  window_seconds = 60;
  key_type = "ip";
  active = true;
  created_at = 5;
}

abbrev ruled : Gate memory (in_memory rule_id) (List Entry)
ruled = record gate { world = record { db = rule ∷ []; redis = empty } }

ruled-Sound : Sound memory (in_memory rule_id) ruled.world fleet
ruled-Sound = record { coherent = inl refl; holds = gate-Sound.holds }

abbrev visit_after : ℕ → ℕ → Visit
visit_after gap at_ask = record {
  gap = gap;
  at_ask = at_ask;
  at_failure = at_ask;
  finished = at_ask;
  at_error = at_ask;
  start_time = 0;
  client = timeout;
  detail = "";
  upstream_url = upstream_url;
  request = request;
}

abbrev visits : List Visit
visits = visit_after 100 100 ∷ visit_after 50 150 ∷ []

rule-Limits :
    (ip : String) (rules : List CachedRule)
    → rules ≡ to_payload rule ∷ []
    → Limits "10.0.0.7" 1 60 ip (first (applies request.path) rules)
rule-Limits ip rules e = rw e (elim (Bool-cases (applies request.path (to_payload rule))) [
  | inl y ↦ rw y λ k. (refl, refl)
  | inr n ↦ rw n tt
])

sends_within_limit_example :
    load 150 (seconds 60) (
      sends memory
        (in_memory rule_id)
        (List Entry)
        config
        (log_listener no_handlers)
        netloc
        "10.0.0.7"
        0
        visits
        ruled)
    ≤ 1
sends_within_limit_example =
    sends_within_limit memory (in_memory rule_id) (List Entry) config (log_listener no_handlers)
      netloc listener-IsQuiet "10.0.0.7" 1 60 visits 0 ruled fleet 150
      (
        ("172.18.0.1", "api.example.com", refl, refl),
        (("172.18.0.1", "api.example.com", refl, refl), tt),
      )
      (λ ip e. rule-Limits ip _ refl, (λ ip e. rule-Limits ip _ refl, tt))
      (omega arith, (omega arith, tt)) ruled-Sound refl

handle-Found_example :
    Responded memory
      (in_memory rule_id)
      (List Entry)
      (Found memory
        (in_memory rule_id)
        (List Entry)
        (log_listener no_handlers)
        listener-IsQuiet
        config
        clock
        timeout
        fleet
        (first (applies request.path) (to_payload rule ∷ []))
        (context memory
          (in_memory rule_id)
          (List Entry)
          upstream_url
          "api.example.com"
          request
          99
          "10.0.0.7")
        ruled)
      (handle memory
        (in_memory rule_id)
        (List Entry)
        config
        (log_listener no_handlers)
        clock
        timeout
        ""
        netloc
        upstream_url
        request
        99
        ruled)
handle-Found_example =
    handle-Found memory (in_memory rule_id) (List Entry) (log_listener no_handlers) listener-IsQuiet
      config clock timeout "" netloc upstream_url request 99 ruled fleet "10.0.0.7"
      "api.example.com" test_client refl ruled-Sound

dead_upstream_spared_example :
    length
      (run_visits memory
        (in_memory rule_id)
        (List Entry)
        config
        (log_listener no_handlers)
        netloc
        0
        visits
        gate).1.sent
    ≤ 5
dead_upstream_spared_example =
    dead_upstream_spared memory (in_memory rule_id) (List Entry) (log_listener no_handlers)
      listener-IsQuiet config 160 netloc "api.example.com" visits 0 gate fleet 5
      (
        (
          ("172.18.0.1", "api.example.com", refl, refl, refl, omega arith),
          λ asked. ("timed out", refl),
          omega arith,
        ),
        (
          (
            ("172.18.0.1", "api.example.com", refl, refl, refl, omega arith),
            λ asked. ("timed out", refl),
            omega arith,
          ),
          tt,
        ),
      )
      gate-Sound (inl (refl, refl, omega arith))

-- The breaker of the upstream is open until time 200.
abbrev tripped : Fleet
tripped u =
    if "api.example.com" == u
    then record { mode = Mode.open_until; failures = 5; opens_at = some 200 }
    else idle

abbrev stored : StringKey → StringCell
stored k =
    if key_eq (state_key "api.example.com") k
    then record { value = some (text "OPEN"); ttl = none }
    else if key_eq (failures_key "api.example.com") k
    then record { value = some (int 5); ttl = none }
    else if key_eq (opens_at_key "api.example.com") k
    then record { value = some (float 200); ttl = none }
    else vacant

abbrev broken : Gate memory (in_memory rule_id) (List Entry)
broken = record gate { world = record { db = []; redis = record empty { strings = stored } } }

broken-Sound : Sound memory (in_memory rule_id) broken.world tripped
broken-Sound = record {
  coherent = inl refl;
  holds = λ u. elim (Bool-cases ("api.example.com" == u)) [
    | inl y ↦ rw y (record {
      mode = rw y refl;
      failures = rw y refl;
      opens_at = rw y refl;
      state_stays = rw y refl;
      failures_stay = rw y refl;
      opens_at_stays = rw y refl;
    })
    | inr n ↦ rw n (record {
      mode = rw n (inl refl);
      failures = rw n refl;
      opens_at = rw n refl;
      state_stays = rw n refl;
      failures_stay = rw n refl;
      opens_at_stays = rw n refl;
    })
  ];
}

open_circuit_shields_example :
    let (outcomes, end) =
      run_visits memory
        (in_memory rule_id)
        (List Entry)
        config
        (log_listener no_handlers)
        netloc
        0
        visits
        broken in
    All IsRefusal outcomes × (end.sent ≡ []) × Sound memory (in_memory rule_id) end.world tripped
open_circuit_shields_example =
    open_circuit_shields memory (in_memory rule_id) (List Entry) config (log_listener no_handlers)
      netloc listener-IsQuiet tripped "api.example.com" 200 refl refl visits 0 broken
      (
        ("172.18.0.1", "api.example.com", refl, refl, refl, omega arith),
        (("172.18.0.1", "api.example.com", refl, refl, refl, omega arith), tt),
      )
      broken-Sound
