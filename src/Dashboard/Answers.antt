-- ===== src/Dashboard/Answers.antt =====
-- What GET /dashboard of app/controllers/dashboard.py answers.
use rate_guardian.Base.{
  ℕ, ◌+◌, ◌*◌, ◌^◌, ◌≤◌, ◌<◌, ◌≡◌, refl, true, [], leb, ltb, length, select, arith, Bool-cases, inl,
  inr, ◌⊎◌, length-select-le,
}
use rate_guardian.Models.{RequestLog}
use rate_guardian.Table.{Table}
use rate_guardian.Table.Groups.{Grouping}
use rate_guardian.Double.{percent}
use rate_guardian.Double.Nearest.{Near}
use rate_guardian.Double.Share.{times-le, percent-Near}
use rate_guardian.Rules.{done, within}
use rate_guardian.Logs.{log_id, minute, Average, Stats, stats, top_ips}
use rate_guardian.Logs.Facts.{stats_lem}
use rate_guardian.Dashboard.{DashboardResponse, saturation, dashboard_json}

-- The percentage is right to the tenth, and between 0 and 100; it is 0 of nothing.
abbrev pub IsShare : ℕ → ℕ → ℕ → Type 0
IsShare blocked total p =
    ((0 < total) × Near (1000 * blocked) total p × (p ≤ 1000)) ⊎ ((total ≡ 0) × (p ≡ 0))

saturation-IsShare :
    {F : Type 0} (s : Stats F)
    → s.blocked_requests ≤ s.total_requests
    → s.total_requests < 2 ^ 40
    → IsShare s.blocked_requests s.total_requests (saturation s)
unfolding saturation
saturation-IsShare s part small = elim (Bool-cases (ltb 0 s.total_requests)) [
  | inl y ↦ rw y (inl (positive (ground (arith, y))))
  | inr y ↦ rw y (inr (ground (arith, y), refl))
]
  where
    positive :
        0 < s.total_requests
        → (0 < s.total_requests)
          × Near
              (1000 * s.blocked_requests)
              s.total_requests
              (percent s.blocked_requests s.total_requests)
          × (percent s.blocked_requests s.total_requests ≤ 1000)
    positive some_request =
        let p = percent s.blocked_requests s.total_requests in
        let near = percent-Near s.blocked_requests s.total_requests part some_request small in
        (
          some_request,
          near,
          elim (Bool-cases (leb p 1000)) [
            | inl y ↦ ground (arith, y)
            | inr y ↦
                let more : 1001 ≤ p = ground (arith, y) in
                absurd
                  (omega (arith, times-le 1001 p s.total_requests more, near.0, part, some_request))
          ],
        )

module _ (t : Table RequestLog log_id) (g : Grouping RequestLog) (F : Type 0) (a : Average F) where
  -- For a window of 1 to 60 minutes and fewer than 2^40 logs, GET /dashboard answers with the
  -- numbers of the logs in the window, of the blocked ones and of the others, and with a
  -- saturation that is the blocked share to the nearest tenth of a percent and at most 100, or
  -- 0 where there are no logs.
  pub dashboard_json-IsShare :
      (window now_stats now_top : ℕ) (db : t.State)
      → within 1 60 window ≡ true
      → length (t.rows db) < 2 ^ 40
      → let rows = select (λ x. leb now_stats (x.created_at + window * minute)) (t.rows db) in
        let blocked = length (select (λ x. x.blocked) rows) in
        (answer : DashboardResponse F) × (dashboard_json t g F a window now_stats now_top db
          ≡ done answer)
        × (answer.stats.stats.total_requests ≡ length rows)
        × (answer.stats.stats.blocked_requests ≡ blocked)
        × (answer.stats.stats.allowed_requests + blocked ≡ length rows)
        × IsShare blocked (length rows) answer.stats.saturation_pct
  unfolding dashboard_json
  dashboard_json-IsShare window now_stats now_top db h small =
      let rows = select (λ x. leb now_stats (x.created_at + window * minute)) (t.rows db) in
      let s = stats t F a window now_stats db in
      let facts = stats_lem t F a window now_stats db in
      let whole =
        length-select-le (λ (x : RequestLog). leb now_stats (x.created_at + window * minute))
          (t.rows db) in
      let part = length-select-le (λ (x : RequestLog). x.blocked) rows in
      let share : IsShare (length (select (λ x. x.blocked) rows)) (length rows) (saturation s) =
        rw (← facts.0, ← facts.1)
          (saturation-IsShare s (omega (arith, facts.0, facts.1, part))
            (omega (arith, facts.0, whole, small))) in
      let answer : DashboardResponse F = record {
        stats = record { stats = s; saturation_pct = saturation s };
        top_ips = top_ips t g 10 (window * 12) now_top db;
        circuit_breakers = [];
      } in
      (answer, rw h refl, facts.0, facts.1, omega (arith, facts.0, facts.1, facts.3), share)
