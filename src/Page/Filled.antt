-- ===== src/Page/Filled.antt =====
-- What `render_dashboard` of app/views/templates/dashboard.py makes of the placeholders.
use rate_guardian.Base.{zero, ◌≡◌, refl, ap, ◌∙◌, true, List, [], ◌∷◌, ◌++◌, All, arith, map}
use rate_guardian.Fnmatch.{codes}
use rate_guardian.Page.Text.{Text, replace, is_plain}
use rate_guardian.Page.Replace.{replace_from-append}
use rate_guardian.Page.Template.{
  head_html, before_total_html, before_allowed_html, before_blocked_html, before_latency_html,
  before_saturation_html, before_logs_html, before_top_ips_html, tail_html, is_plain-head_html,
  is_plain-before_total_html, is_plain-before_allowed_html, is_plain-before_blocked_html,
  is_plain-before_latency_html, is_plain-before_saturation_html, is_plain-before_logs_html,
  is_plain-before_top_ips_html, before_top_ips_html-begins,
}
use rate_guardian.Page.Render.{Values, dashboard_html, fill}
use rate_guardian.Page.Pieces.{
  Slot, gauge, total, allowed, blocked, latency, saturation, logs, top_ips, mark, Piece, plain,
  slot, IsPlain, flat, put, replace-flat, replace-tail, settle, settled, settle-flat,
}

abbrev pieces : List Piece
pieces =
    plain head_html
    ∷ slot gauge
    ∷ plain before_total_html
    ∷ slot total
    ∷ plain before_allowed_html
    ∷ slot allowed
    ∷ plain before_blocked_html
    ∷ slot blocked
    ∷ plain before_latency_html
    ∷ slot latency
    ∷ plain before_saturation_html
    ∷ slot saturation
    ∷ plain before_logs_html
    ∷ slot logs
    ∷ plain before_top_ips_html
    ∷ slot top_ips
    ∷ []

pieces-IsPlain : All IsPlain pieces
pieces-IsPlain = (
  is_plain-head_html,
  (
    tt,
    (
      is_plain-before_total_html,
      (
        tt,
        (
          is_plain-before_allowed_html,
          (
            tt,
            (
              is_plain-before_blocked_html,
              (
                tt,
                (
                  is_plain-before_latency_html,
                  (
                    tt,
                    (
                      is_plain-before_saturation_html,
                      (
                        tt,
                        (is_plain-before_logs_html, (tt, (is_plain-before_top_ips_html, (tt, tt)))),
                      ),
                    ),
                  ),
                ),
              ),
            ),
          ),
        ),
      ),
    ),
  ),
)

dashboard_html-flat : dashboard_html ≡ flat pieces tail_html
unfolding dashboard_html
dashboard_html-flat = refl

-- The page with every placeholder replaced at once, and `rows` as the rows of the log.
abbrev pub page : Values → Text → Text
page v rows =
    head_html
    ++ (v.gauge
        ++ (before_total_html
            ++ (v.total
                ++ (before_allowed_html
                    ++ (v.allowed
                        ++ (before_blocked_html
                            ++ (v.blocked
                                ++ (before_latency_html
                                    ++ (v.latency
                                        ++ (before_saturation_html
                                            ++ (v.saturation
                                                ++ (before_logs_html
                                                    ++ (rows
                                                        ++ (before_top_ips_html
                                                            ++ (v.top_ips
                                                            ++ tail_html)))))))))))))))

-- What the six values before the rows of the log must be free of.
pub record Quiet (v : Values) : Type 0 where
  pub gauge : is_plain v.gauge ≡ true
  pub total : is_plain v.total ≡ true
  pub allowed : is_plain v.allowed ≡ true
  pub blocked : is_plain v.blocked ≡ true
  pub latency : is_plain v.latency ≡ true
  pub saturation : is_plain v.saturation ≡ true

-- Rows before the text that follows them.
replace-rows :
    (new rows rest : Text)
    → replace (mark top_ips) new (rows ++ (before_top_ips_html ++ rest))
      ≡ replace (mark top_ips) new rows ++ replace (mark top_ips) new (before_top_ips_html ++ rest)
replace-rows new rows rest =
    let (s, e) = before_top_ips_html-begins in
    rw e (
      replace_from-append zero (mark top_ips) new rows (s ++ rest) b'<' (ground arith)
        (omega arith))

module _ (v : Values) (q : Quiet v) where
  abbrev first_six : List (Slot × Text)
  first_six =
      (gauge, v.gauge)
      ∷ (total, v.total)
      ∷ (allowed, v.allowed)
      ∷ (blocked, v.blocked)
      ∷ (latency, v.latency)
      ∷ (saturation, v.saturation)
      ∷ []

  abbrev before_rows : List Piece
  before_rows =
      plain head_html
      ∷ plain v.gauge
      ∷ plain before_total_html
      ∷ plain v.total
      ∷ plain before_allowed_html
      ∷ plain v.allowed
      ∷ plain before_blocked_html
      ∷ plain v.blocked
      ∷ plain before_latency_html
      ∷ plain v.latency
      ∷ plain before_saturation_html
      ∷ plain v.saturation
      ∷ plain before_logs_html
      ∷ []

  before_rows-IsPlain : All IsPlain before_rows
  before_rows-IsPlain = (
    is_plain-head_html,
    (
      q.gauge,
      (
        is_plain-before_total_html,
        (
          q.total,
          (
            is_plain-before_allowed_html,
            (
              q.allowed,
              (
                is_plain-before_blocked_html,
                (
                  q.blocked,
                  (
                    is_plain-before_latency_html,
                    (
                      q.latency,
                      (
                        is_plain-before_saturation_html,
                        (q.saturation, (is_plain-before_logs_html, tt)),
                      ),
                    ),
                  ),
                ),
              ),
            ),
          ),
        ),
      ),
    ),
  )

  pub fill-page :
      fill v dashboard_html ≡ page v (replace (codes "{{TOP_IP_ROWS}}") v.top_ips v.logs)
  unfolding fill
  fill-page =
      let six =
        settle-flat first_six pieces
          (q.gauge, (q.total, (q.allowed, (q.blocked, (q.latency, (q.saturation, tt))))))
          pieces-IsPlain in
      let seven =
        replace-flat logs v.logs (settled first_six pieces) tail_html six.1
        ∙ ap (flat (map (put logs v.logs) (settled first_six pieces))) (replace-tail logs v.logs) in
      let last = plain before_top_ips_html ∷ slot top_ips ∷ [] in
      let eight =
        replace-flat top_ips v.top_ips before_rows (v.logs ++ flat last tail_html)
          before_rows-IsPlain
        ∙ ap (flat before_rows) (
            replace-rows v.top_ips v.logs (mark top_ips ++ tail_html)
            ∙ ap (λ t. replace (mark top_ips) v.top_ips v.logs ++ t)
                (replace-flat top_ips v.top_ips last tail_html
                    (is_plain-before_top_ips_html, (tt, tt))
                  ∙ ap (λ t. before_top_ips_html ++ (v.top_ips ++ t))
                      (replace-tail top_ips v.top_ips))) in
      ap (λ s. replace (mark top_ips) v.top_ips (replace (mark logs) v.logs (settle first_six s)))
        dashboard_html-flat
      ∙ ap (λ s. replace (mark top_ips) v.top_ips (replace (mark logs) v.logs s)) six.0
      ∙ ap (replace (mark top_ips) v.top_ips) seven
      ∙ eight
