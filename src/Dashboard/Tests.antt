-- ===== src/Dashboard/Tests.antt =====
-- GET /dashboard of app/controllers/dashboard.py on a concrete log.
use rate_guardian.Base.{
  ℕ, ◌+◌, ◌*◌, ◌≡◌, refl, true, false, some, none, List, [], ◌∷◌, length, select, leb, nat_eq,
  arith,
}
use rate_guardian.Models.{RequestLog}
use rate_guardian.Table.Memory.{in_memory, in_memory_groups}
use rate_guardian.Rules.{done}
use rate_guardian.Logs.{Entry, log_id, new_log, minute, Average}
use rate_guardian.Dashboard.{DashboardResponse, dashboard_json}
use rate_guardian.Dashboard.Answers.{IsShare, dashboard_json-IsShare}

abbrev entry : Entry
entry = record {
  client_ip = "10.0.0.9";
  method = "GET";
  path = "/proxy/https://api.example.com/users";
  upstream = "api.example.com";
  status_code = 503;
  latency_ms = 1;
  blocked = true;
  blocked_by = some "circuit_breaker";
}

abbrev forwarded_entry : Entry
forwarded_entry = record entry { status_code = 200; blocked = false; blocked_by = none }

-- One blocked request of three, and one that is out of the window.
abbrev db : List RequestLog
db =
    new_log entry (9 * minute) 4
    ∷ new_log forwarded_entry (8 * minute) 3
    ∷ new_log forwarded_entry (7 * minute) 2
    ∷ new_log entry minute 1
    ∷ []

-- The latency of the first row in place of an average.
abbrev first_latency : Average ℕ
first_latency = record {
  avg = λ xs. elim xs [ [] ↦ none | x ∷ _ ↦ some x ];
  is_zero = λ n. nat_eq n 0;
  round_2 = λ n. n;
  zero_float = 0;
}

dashboard_json-IsShare_example :
    let rows = select (λ x. leb (10 * minute) (x.created_at + 5 * minute)) db in
    let blocked = length (select (λ x. x.blocked) rows) in
    (answer : DashboardResponse ℕ) × (dashboard_json
        (in_memory log_id)
        in_memory_groups
        ℕ
        first_latency
        5
        (10 * minute)
        (10 * minute)
        db
      ≡ done answer)
    × (answer.stats.stats.total_requests ≡ length rows)
    × (answer.stats.stats.blocked_requests ≡ blocked)
    × (answer.stats.stats.allowed_requests + blocked ≡ length rows)
    × IsShare blocked (length rows) answer.stats.saturation_pct
dashboard_json-IsShare_example =
    dashboard_json-IsShare (in_memory log_id) in_memory_groups ℕ first_latency 5 (10 * minute)
      (10 * minute) db refl (omega arith)
