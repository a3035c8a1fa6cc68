-- ===== src/App/Tests.antt =====
-- app/main.py's application on concrete calls.
use rate_guardian.Base.{Option, refl, String, true, false, some, List, [], ◌∷◌, inl}
use rate_guardian.Redis.Memory.{memory, empty}
use rate_guardian.Table.Memory.{in_memory}
use rate_guardian.CircuitBreaker.{Config}
use rate_guardian.CircuitBreaker.Machine.{idle}
use rate_guardian.CircuitBreaker.Runs.{Fleet}
use rate_guardian.Rules.{RuleCreate, rule_id}
use rate_guardian.Rules.Cache.{creates, waits}
use rate_guardian.Logs.{log_id}
use rate_guardian.Pipeline.{Clock, Client, failed}
use rate_guardian.Pipeline.Sound.{Sound}
use rate_guardian.Proxy.{Request}
use rate_guardian.App.{Call, handles, edits, writes, purges, App, run_app}
use rate_guardian.App.Ledger.{IsUsable, Balanced, run_app-Balanced}

abbrev request : Request
request = record {
  method = "GET";
  path = "/proxy/https://api.example.com/users";
  headers = [];
  body = [];
  client = some "172.18.0.1";
}

abbrev body : RuleCreate
body = record {
  name = "all";
  path_pattern = "/proxy/*";
  limit = 1;
  window_seconds = 60;
  key_type = "ip";
}

abbrev clock : Clock
clock = record { at_check = 100; at_ask = 101; at_failure = 103; finished = 104; at_error = 105 }

abbrev config : Config
config = record { threshold = 5; recovery = 30 }

abbrev netloc : String → Option String
netloc url = some "api.example.com"

abbrev fleet : Fleet
fleet u = idle

abbrev app : App memory (in_memory rule_id) (in_memory log_id)
app = record { world = record { db = []; redis = empty }; logs = []; pending = []; sent = [] }

app-Sound : Sound memory (in_memory rule_id) app.world fleet
app-Sound = record {
  coherent = inl refl;
  holds = λ u. record {
    mode = inl refl;
    failures = refl;
    opens_at = refl;
    state_stays = refl;
    failures_stay = refl;
    opens_at_stays = refl;
  };
}

abbrev timeout : Client
timeout asked = failed "timed out"

timeout-IsUsable : IsUsable timeout
timeout-IsUsable asked a exc e = cc

-- A rule, two requests of which the second is over the limit, and a task of each kind.
abbrev calls : List Call
calls =
    edits (creates true 50 body)
    ∷ handles clock timeout "" "https://api.example.com/users" request 99
    ∷ handles clock timeout "" "https://api.example.com/users" request 99
    ∷ writes true 105
    ∷ writes false 106
    ∷ edits (waits 10)
    ∷ purges 107
    ∷ []

run_app-Balanced_example :
    Balanced memory
      (in_memory rule_id)
      (in_memory log_id)
      config
      netloc
      7
      2
      app
      (run_app memory (in_memory rule_id) (in_memory log_id) config netloc 7 calls app)
run_app-Balanced_example =
    run_app-Balanced memory (in_memory rule_id) (in_memory log_id) config netloc 7 calls app fleet
      (
        (refl, tt),
        (
          ("172.18.0.1", "api.example.com", refl, refl, timeout-IsUsable),
          (
            ("172.18.0.1", "api.example.com", refl, refl, timeout-IsUsable),
            (tt, (tt, (tt, (tt, tt)))),
          ),
        ),
      )
      app-Sound
