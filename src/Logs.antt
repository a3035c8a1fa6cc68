-- ===== src/Logs.antt =====
-- app/models/services/log_listener.py (`LogListener`), app/models/services/log_service.py
-- (`LogService`) and app/models/repositories/log_repository.py (`LogRepository`).
--
-- A task that `record_async` schedules is an entry of a list, in order; the event loop runs a task
-- by `write`. Times are as in Models.antt, and `days` is a number for which `utcnow() -
-- timedelta(days)` is a time that `datetime` holds.
pub mod Facts
pub mod Sizes
pub mod Retention
pub mod TopIps
mod Tests
use rate_guardian.Base.{
  ℕ, ◌+◌, ◌*◌, String, Bool, true, false, not, Option, none, some, List, [], ◌∷◌, ◌++◌, map, ◌-◌,
  length, ltb, take, select, ℤ, pos, negsuc, sub_ℕ, if◌then◌else◌,
}
use rate_guardian.Models.{rate_per_second, RequestLog, RequestBlocked, RequestForwarded}
use rate_guardian.Table.{Table}
use rate_guardian.Table.Groups.{Grouping}
use rate_guardian.EventManager.{
  EventType, request_blocked, request_forwarded, Event, blocked, forwarded, Handler, EventManager,
  subscribe,
}

abbrev pub log_id : RequestLog → ℕ
log_id x = x.id

-- The arguments of `record_async` after `db_factory`.
pub record Entry : Type 0 where
  pub client_ip : String
  pub method : String
  pub path : String
  pub upstream : String
  pub status_code : ℕ
  pub latency_ms : ℕ
  pub blocked : Bool
  pub blocked_by : Option String

unfoldable pub record_async : Entry → List Entry → List Entry
record_async e pending = pending ++ e ∷ []

-- The two handlers. The event manager calls each for its own type of event only, on which the
-- other one fails with an attribute error or a wrong entry; it is never called so.
unfoldable pub on_blocked : RequestBlocked → List Entry → List Entry
unfolding record_async
on_blocked event = record_async (record {
  client_ip = event.client_ip;
  method = event.method;
  path = event.path;
  upstream = event.upstream;
  status_code = event.status_code;
  latency_ms = event.latency_ms;
  blocked = true;
  blocked_by = some event.reason;
})

unfoldable pub on_forwarded : RequestForwarded → List Entry → List Entry
unfolding record_async
on_forwarded event = record_async (record {
  client_ip = event.client_ip;
  method = event.method;
  path = event.path;
  upstream = event.upstream;
  status_code = event.status_code;
  latency_ms = event.latency_ms;
  blocked = false;
  blocked_by = none;
})

-- The handlers as `subscribe` takes them.
abbrev pub blocked_handler : Handler (List Entry)
blocked_handler (blocked b) pending = (on_blocked b pending, false)
blocked_handler (forwarded f) pending = (pending, true)

abbrev pub forwarded_handler : Handler (List Entry)
forwarded_handler (blocked b) pending = (on_forwarded (as_forwarded b) pending, false)
  where
    as_forwarded : RequestBlocked → RequestForwarded
    as_forwarded b = record {
      client_ip = b.client_ip;
      method = b.method;
      path = b.path;
      upstream = b.upstream;
      status_code = b.status_code;
      latency_ms = b.latency_ms;
    }
forwarded_handler (forwarded f) pending = (on_forwarded f pending, false)

-- `LogListener.__init__`
unfoldable pub log_listener : EventManager (List Entry) → EventManager (List Entry)
unfolding subscribe
log_listener events =
    subscribe (subscribe events request_blocked blocked_handler) request_forwarded forwarded_handler

-- The `RequestLog` that `_write` makes, with the id and the time that the database call fills in.
abbrev pub new_log : Entry → ℕ → ℕ → RequestLog
new_log e now id = record {
  id = id;
  client_ip = e.client_ip;
  method = e.method;
  path = e.path;
  upstream = e.upstream;
  status_code = e.status_code;
  latency_ms = e.latency_ms;
  blocked = e.blocked;
  blocked_by = e.blocked_by;
  created_at = now;
}

abbrev pub before : ℕ → ℤ → Bool
before x (pos n) = ltb x n
before x (negsuc n) = false

abbrev pub minute : ℕ
minute = 60 * rate_per_second

abbrev pub day : ℕ
day = 86_400 * rate_per_second

module _ (t : Table RequestLog log_id) where
  pub create : (ℕ → RequestLog) → t.State → t.State
  create log db = (t.insert db log).1

  -- `db_up` says whether the database takes the row; where it does not, the exception is logged.
  pub write : Bool → ℕ → Entry → t.State → t.State
  write db_up now e db = if db_up then create (new_log e now) db else db

  -- The tasks in order, each with whether the database takes it and the time at which it runs.
  pub write_all : List (Bool × ℕ × Entry) → t.State → t.State
  write_all [] db = db
  write_all ((db_up, now, e) ∷ tasks) db = write_all tasks (write db_up now e db)

  pub get_recent : ℕ → Bool → t.State → List RequestLog
  get_recent limit blocked_only db =
      let q = if blocked_only then select (λ x. x.blocked) (t.rows db) else t.rows db in
      take limit (t.descending (λ x. x.created_at) q)

  pub delete_older_than : ℕ → ℕ → t.State → ℕ × t.State
  delete_older_than days now db = t.delete db (λ x. before x.created_at (sub_ℕ now (days * day)))

  pub purge_old : ℕ → ℕ → t.State → ℕ × t.State
  purge_old retention_days now db = delete_older_than retention_days now db

-- The dictionary that `stats` returns.
pub record Stats (F : Type 0) : Type 0 where
  pub total_requests : ℕ
  pub blocked_requests : ℕ
  pub allowed_requests : ℕ
  pub avg_latency_ms : F
  pub window_minutes : ℕ

-- AVG of the database, with NULL for no rows, and what the code asks of the number that it returns:
-- whether it is zero, and its rounding to two digits.
pub record Average (F : Type 0) : Type 0 where
  pub avg : List ℕ → Option F
  pub is_zero : F → Bool
  pub round_2 : F → F
  pub zero_float : F

module _ (t : Table RequestLog log_id) (F : Type 0) (a : Average F) where
  -- `round(avg_lat, 2) if avg_lat else 0.0`
  abbrev pub shown_average : Option F → F
  shown_average none = a.zero_float
  shown_average (some avg_lat) = if a.is_zero avg_lat then a.zero_float else a.round_2 avg_lat

  pub stats : ℕ → ℕ → t.State → Stats F
  stats since_minutes now db =
      let q =
        select (λ x. not (before x.created_at (sub_ℕ now (since_minutes * minute)))) (t.rows db) in
      let total = length q in
      let blocked_count = length (select (λ x. x.blocked) q) in
      record {
        total_requests = total;
        blocked_requests = blocked_count;
        allowed_requests = total - blocked_count;
        avg_latency_ms = shown_average (a.avg (map (λ x. x.latency_ms) q));
        window_minutes = since_minutes;
      }

module _ (t : Table RequestLog log_id) (g : Grouping RequestLog) where
  -- The addresses with the most requests, with their numbers.
  pub top_ips : ℕ → ℕ → ℕ → t.State → List (String × ℕ)
  top_ips limit since_minutes now db =
      let since = sub_ℕ now (since_minutes * minute) in
      take limit
        (g.top (λ x. x.client_ip) (select (λ x. not (before x.created_at since)) (t.rows db)))
