-- ===== src/Logs/Tests.antt =====
-- The log of app/models/services/log_service.py and app/models/repositories/log_repository.py on
-- concrete events.
use mathlib.Core.List.{Mem, Perm, not-mem-nil}
use rate_guardian.Base.{
  ◌≤◌, arith, ◌↔◌, ◌<◌, String, ℕ, ◌+◌, ◌*◌, ◌≡◌, refl, true, some, List, [], ◌∷◌, ◌++◌, map,
  length, leb, select, ◌⊎◌, IsDescending,
}
use rate_guardian.Models.{RequestLog}
use rate_guardian.Table.Memory.{in_memory, in_memory_groups}
use rate_guardian.EventManager.{Event, blocked, forwarded}
use rate_guardian.Logs.{Entry, log_id, new_log, day, minute, top_ips, write_all, get_recent}
use rate_guardian.Table.Groups.{count_of_group}
use rate_guardian.Logs.TopIps.{requests_of, top_ips_lem}
use rate_guardian.Logs.Retention
use rate_guardian.Logs.Retention.{writes, purges, keep, NoOlder, keep-NoOlder}
use rate_guardian.Logs.Facts.{
  entry_of, content, emit_all, at_times, taken, emitted_is_logged, newest_first,
}

abbrev events : List Event
events =
    blocked (record {
      client_ip = "10.0.0.7";
      method = "GET";
      path = "/proxy/https://api.example.com/users";
      upstream = "api.example.com";
      status_code = 429;
      latency_ms = 3;
      reason = "rate_limit";
    })
    ∷ forwarded (record {
      client_ip = "10.0.0.8";
      method = "POST";
      path = "/proxy/https://api.example.com/users";
      upstream = "api.example.com";
      status_code = 201;
      latency_ms = 40;
    })
    ∷ []

abbrev entry : Entry
entry = record {
  client_ip = "10.0.0.9";
  method = "GET";
  path = "/proxy/https://api.example.com/users";
  upstream = "api.example.com";
  status_code = 503;
  latency_ms = 1;
  blocked = true;
  blocked_by = some "circuit_breaker";
}

-- A log of the time `8 * day`, and one eight days older.
abbrev db : List RequestLog
db = new_log entry (8 * day) 2 ∷ new_log entry 1 1 ∷ []

emitted_is_logged_example :
    (pending : List Entry) × (emit_all events [] ≡ some pending)
    × Perm
        (map content (write_all (in_memory log_id) (taken (at_times (5 ∷ 6 ∷ []) pending)) db))
        (map entry_of events ++ map content db)
emitted_is_logged_example = emitted_is_logged (in_memory log_id) events (5 ∷ 6 ∷ []) db refl

newest_first_example :
    let recent = get_recent (in_memory log_id) 1 true db in
    (rest : List RequestLog) × Perm (recent ++ rest) (select (λ x. x.blocked) db)
    × IsDescending (λ x. x.created_at) (recent ++ rest)
    × ((rest ≡ []) ⊎ (length recent ≡ 1))
    × (length recent ≤ 1)
newest_first_example = newest_first (in_memory log_id) 1 true db

-- Two entries with a purge between them, on a table that begins empty.
abbrev kept : List Retention.Event
kept = writes 5 true entry ∷ purges 100 ∷ writes day true entry ∷ []

keep-NoOlder_example :
    let (end, after) = keep (in_memory log_id) 7 0 kept [] in
    NoOlder (in_memory log_id) 7 end day after
keep-NoOlder_example =
    keep-NoOlder (in_memory log_id) 7 0 0 kept [] (omega arith)
      (omega arith, (omega arith, (omega arith, tt))) (λ x m. absurd (not-mem-nil m))

top_ips_lem_example :
    let top = top_ips (in_memory log_id) in_memory_groups 10 5 (8 * day) db in
    let window = select (λ x. leb (8 * day) (x.created_at + 5 * minute)) db in
    (rest : List (String × ℕ)) × (Mem ("10.0.0.9", 1) (top ++ rest)
      ↔ ((1 ≡ requests_of "10.0.0.9" window) × (0 < 1)))
    × IsDescending count_of_group (top ++ rest)
    × ((rest ≡ []) ⊎ (length top ≡ 10))
    × (length top ≤ 10)
top_ips_lem_example = top_ips_lem (in_memory log_id) in_memory_groups 10 5 (8 * day) db "10.0.0.9" 1
