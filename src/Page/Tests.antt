-- ===== src/Page/Tests.antt =====
-- The page of app/views/templates/dashboard.py for a concrete log.
use rate_guardian.Base.{ℕ, ◌*◌, ◌≡◌, refl, String, true, some, List, [], ◌∷◌, pos}
use rate_guardian.Models.{rate_per_second, RequestLog}
use rate_guardian.Fnmatch.{codes}
use rate_guardian.Logs.{Stats}
use rate_guardian.Page.Text.{two_digits, decimal, is_plain, replace, escape}
use rate_guardian.Page.Gauge.{Decimals}
use rate_guardian.Page.Rows.{log_rows, top_ip_rows, clock_time}
use rate_guardian.Page.Render.{values, render_dashboard}
use rate_guardian.Page.Filled.{page}
use rate_guardian.Page.Plain.{PlainDecimals, render_dashboard-page}
use rate_guardian.Page.Markup.{markup, each_row, markup-log_rows}

abbrev decimals : Decimals
decimals = record { cos_at = λ c r a. codes "200.0"; sin_at = λ c r a. codes "110.0" }

decimals-Plain : PlainDecimals decimals
unfolding is_plain
decimals-Plain = record { cos_at = λ c r a. refl; sin_at = λ c r a. refl }

abbrev log : RequestLog
log = record {
  id = 7;
  client_ip = "10.0.0.7";
  method = "GET";
  path = "/proxy/https://api.example.com/<script>{{TOP_IP_ROWS}}";
  upstream = "api.example.com";
  status_code = 429;
  latency_ms = 3 * rate_per_second;
  blocked = true;
  blocked_by = some "rate_limit";
  created_at = 3661 * rate_per_second;
}

abbrev recent_logs : List RequestLog
recent_logs = log ∷ []

abbrev stats_of_log : Stats ℕ
stats_of_log = record {
  total_requests = 8;
  blocked_requests = 1;
  allowed_requests = 7;
  avg_latency_ms = 3;
  window_minutes = 5;
}

abbrev addresses : List (String × ℕ)
addresses = ("10.0.0.7", 8) ∷ []

test_escape : escape (codes "<a href='x'>") ≡ codes "&lt;a href=&#x27;x&#x27;&gt;"
unfolding escape
test_escape = refl

test_clock : clock_time (3661 * rate_per_second) ≡ codes "01:01:01"
unfolding clock_time two_digits
test_clock = refl

three-Plain : is_plain (decimal 3) ≡ true
unfolding is_plain decimal
three-Plain = refl

render_dashboard-page_example :
    render_dashboard decimals decimal stats_of_log addresses recent_logs (pos 125)
    ≡ page
        (values decimals decimal stats_of_log addresses recent_logs (pos 125))
        (replace (codes "{{TOP_IP_ROWS}}") (top_ip_rows addresses) (log_rows recent_logs))
render_dashboard-page_example =
    render_dashboard-page decimals decimal stats_of_log addresses recent_logs (pos 125)
      decimals-Plain three-Plain

markup-log_rows_example : markup (log_rows (log ∷ [])) ≡ each_row (log ∷ [])
markup-log_rows_example = markup-log_rows log [] (refl, tt)
