-- ===== src/Dashboard.antt =====
-- app/controllers/dashboard.py, the page `/` of app/main.py, and the responses of
-- app/views/schemas/dashboard.py.
--
-- The times are the readings of the clock that the queries make, one each. A percentage is a number
-- of tenths.
pub mod Answers
mod Tests
use rate_guardian.Base.{
  ℕ, ◌*◌, String, Bool, true, false, Option, none, some, List, [], ltb, pos, if◌then◌else◌,
}
use rate_guardian.Models.{RequestLog}
use rate_guardian.Table.{Table}
use rate_guardian.Table.Groups.{Grouping}
use rate_guardian.Double.{percent}
use rate_guardian.Rules.{Reply, done, invalid, within}
use rate_guardian.Logs.{log_id, Average, Stats, stats, top_ips, get_recent}
use rate_guardian.Page.Text.{Text}
use rate_guardian.Page.Gauge.{Decimals}
use rate_guardian.Page.Render.{render_dashboard}

-- The fields of `StatsResponse`: the ones of `stats` and the saturation.
pub record StatsResponse (F : Type 0) : Type 0 where
  pub stats : Stats F
  pub saturation_pct : ℕ

pub record CircuitStateResponse : Type 0 where
  pub upstream : String
  pub state : String
  pub failures : ℕ

pub record DashboardResponse (F : Type 0) : Type 0 where
  pub stats : StatsResponse F
  pub top_ips : List (String × ℕ)
  pub circuit_breakers : List CircuitStateResponse

-- `round(blocked / total * 100, 1) if total > 0 else 0.0`
unfoldable pub saturation : {F : Type 0} → Stats F → ℕ
saturation s = if ltb 0 s.total_requests then percent s.blocked_requests s.total_requests else 0

module _ (t : Table RequestLog log_id) (g : Grouping RequestLog) (F : Type 0) (a : Average F) where
  -- GET /dashboard; a window outside 1 to 60 minutes is refused with status 422.
  pub dashboard_json : ℕ → ℕ → ℕ → t.State → Reply (DashboardResponse F)
  dashboard_json window now_stats now_top db =
      if within 1 60 window
      then (let s = stats t F a window now_stats db in
          done (record {
            stats = record { stats = s; saturation_pct = saturation s };
            top_ips = top_ips t g 10 (window * 12) now_top db;
            circuit_breakers = [];
          }))
      else invalid

  -- GET /
  pub root : Decimals → (F → Text) → ℕ → ℕ → t.State → Text
  root d show now_stats now_top db =
      let s = stats t F a 5 now_stats db in
      render_dashboard d show s (top_ips t g 5 60 now_top db) (get_recent t 10 false db)
        (pos (saturation s))

-- `blocked or False`
abbrev pub is_set : Option Bool → Bool
is_set none = false
is_set (some b) = b

module _ (t : Table RequestLog log_id) where
  -- GET /logs; a limit outside 1 to 500 is refused with status 422.
  pub get_logs : Option Bool → ℕ → t.State → Reply (List RequestLog)
  get_logs blocked limit db =
      if within 1 500 limit then done (get_recent t limit (is_set blocked) db) else invalid
