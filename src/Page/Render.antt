-- ===== src/Page/Render.antt =====
-- `render_dashboard` of app/views/templates/dashboard.py.
use rate_guardian.Base.{ℕ, ◌+◌, String, List, ◌∷◌, ◌++◌, ℤ, pos, negsuc}
use rate_guardian.Models.{RequestLog}
use rate_guardian.Fnmatch.{codes}
use rate_guardian.Logs.{Stats}
use rate_guardian.Page.Text.{Text, decimal, tenths, replace}
use rate_guardian.Page.Gauge.{Decimals, gauge_svg}
use rate_guardian.Page.Rows.{log_rows, top_ip_rows}
use rate_guardian.Page.Template.{
  head_html, before_total_html, before_allowed_html, before_blocked_html, before_latency_html,
  before_saturation_html, before_logs_html, before_top_ips_html, tail_html,
}

-- The values of the placeholders.
pub record Values : Type 0 where
  pub gauge : Text
  pub total : Text
  pub allowed : Text
  pub blocked : Text
  pub latency : Text
  pub saturation : Text
  pub logs : Text
  pub top_ips : Text

-- The source's string: its pieces with the placeholders between them.
unfoldable pub dashboard_html : Text
dashboard_html =
    head_html
    ++ (codes "{{GAUGE_SVG}}"
        ++ (before_total_html
            ++ (codes "{{TOTAL}}"
                ++ (before_allowed_html
                    ++ (codes "{{ALLOWED}}"
                        ++ (before_blocked_html
                            ++ (codes "{{BLOCKED}}"
                                ++ (before_latency_html
                                    ++ (codes "{{AVG_LAT}}"
                                        ++ (before_saturation_html
                                            ++ (codes "{{SAT_PCT}}"
                                                ++ (before_logs_html
                                                    ++ (codes "{{LOG_ROWS}}"
                                                        ++ (before_top_ips_html
                                                            ++ (codes "{{TOP_IP_ROWS}}"
                                                            ++ tail_html)))))))))))))))

-- The replacements, one after the other.
unfoldable pub fill : Values → Text → Text
fill v s = replace (codes "{{TOP_IP_ROWS}}") v.top_ips (
    replace (codes "{{LOG_ROWS}}") v.logs (
      replace (codes "{{SAT_PCT}}") v.saturation (
        replace (codes "{{AVG_LAT}}") v.latency (
          replace (codes "{{BLOCKED}}") v.blocked (
            replace (codes "{{ALLOWED}}") v.allowed
              (replace (codes "{{TOTAL}}") v.total (replace (codes "{{GAUGE_SVG}}") v.gauge s)))))))

-- `str` of a number of tenths.
unfoldable pub signed_tenths : ℤ → Text
unfolding tenths
signed_tenths (pos n) = tenths n
signed_tenths (negsuc n) = b'-' ∷ tenths (n + 1)

module _ {F : Type 0} (d : Decimals) (show : F → Text) where
  unfoldable pub values : Stats F → List (String × ℕ) → List RequestLog → ℤ → Values
  unfolding gauge_svg decimal signed_tenths log_rows top_ip_rows
  values stats top_ips recent saturation_pct = record {
    gauge = gauge_svg d saturation_pct;
    total = decimal stats.total_requests;
    allowed = decimal stats.allowed_requests;
    blocked = decimal stats.blocked_requests;
    latency = show stats.avg_latency_ms;
    saturation = signed_tenths saturation_pct;
    logs = log_rows recent;
    top_ips = top_ip_rows top_ips;
  }

  -- `danger_cls` is computed there and not used.
  unfoldable pub render_dashboard : Stats F → List (String × ℕ) → List RequestLog → ℤ → Text
  unfolding values fill dashboard_html
  render_dashboard stats top_ips recent saturation_pct =
      fill (values stats top_ips recent saturation_pct) dashboard_html
