-- ===== src/Page/Rows.antt =====
-- `_log_rows` and `_top_ip_rows` of app/views/templates/dashboard.py.
use rate_guardian.Base.{
  ℕ, ◌/◌, ◌%◌, String, Option, none, some, List, [], ◌∷◌, ◌++◌, map, take, ◌==◌, if◌then◌else◌,
}
use rate_guardian.Models.{rate_per_second, RequestLog}
use rate_guardian.Fnmatch.{codes}
use rate_guardian.Double.{nearest}
use rate_guardian.Page.Text.{Text, concat, decimal, two_digits, upper_code, escape}

-- `strftime("%H:%M:%S")`
abbrev pub clock_pieces : ℕ → List Text
clock_pieces s =
    (two_digits (s / 3600 % 24)
      ∷ codes ":"
      ∷ two_digits (s / 60 % 60)
      ∷ codes ":"
      ∷ two_digits (s % 60)
      ∷ [])

unfoldable pub clock_time : ℕ → Text
unfolding concat
clock_time created_at = concat (clock_pieces (created_at / rate_per_second))

unfoldable pub blocked_label : Option String → Text
blocked_label none = codes "[OK]"
blocked_label (some reason) =
    if reason == "" then codes "[OK]" else b'[' ∷ (map upper_code (codes reason) ++ (b']' ∷ []))

abbrev pub row_pieces : RequestLog → List Text
row_pieces r =
    let blocked_style = if r.blocked then "color:var(--red)" else "color:var(--green)" in
    (codes "<tr>"
      ∷ codes "<td style=\"color:var(--dim)\">"
      ∷ clock_time r.created_at
      ∷ codes "</td>"
      ∷ codes "<td style=\"color:var(--bright)\">"
      ∷ escape (codes r.method)
      ∷ codes "</td>"
      ∷ codes "<td class=\"mono-overflow\">"
      ∷ escape (take 60 (codes r.path))
      ∷ codes "</td>"
      ∷ codes "<td>"
      ∷ decimal r.status_code
      ∷ codes "</td>"
      ∷ codes "<td style=\"color:var(--dim)\">"
      ∷ decimal (nearest r.latency_ms rate_per_second)
      ∷ codes "ms</td>"
      ∷ codes "<td style=\""
      ∷ codes blocked_style
      ∷ codes "\">"
      ∷ blocked_label r.blocked_by
      ∷ codes "</td>"
      ∷ codes "</tr>"
      ∷ [])

unfoldable pub log_row : RequestLog → Text
unfolding concat
log_row r = concat (row_pieces r)

unfoldable pub log_rows : List RequestLog → Text
unfolding concat log_row
log_rows [] = codes "<tr><td colspan=\"6\" style=\"color:var(--dim)\">NO REQUESTS YET</td></tr>"
log_rows (r ∷ recent) = concat (map log_row (r ∷ recent))

unfoldable pub top_ip_row : String × ℕ → Text
unfolding concat escape decimal
top_ip_row (ip, count) = concat (
    codes "<tr>"
    ∷ codes "<td style=\"color:var(--bright)\">"
    ∷ escape (codes ip)
    ∷ codes "</td>"
    ∷ codes "<td style=\"color:var(--green)\">"
    ∷ decimal count
    ∷ codes " req</td>"
    ∷ codes "</tr>"
    ∷ [])

unfoldable pub top_ip_rows : List (String × ℕ) → Text
unfolding concat top_ip_row
top_ip_rows [] = codes "<tr><td colspan=\"2\" style=\"color:var(--dim)\">NO DATA</td></tr>"
top_ip_rows (entry ∷ top_ips) = concat (map top_ip_row (entry ∷ top_ips))
