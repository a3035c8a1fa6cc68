-- ===== src/Page/Plain.antt =====
-- The values that app/views/templates/dashboard.py puts into the page before the rows of the log
-- hold no placeholder.
use rate_guardian.Base.{
  ℕ, zero, suc, ◌+◌, ◌%◌, ◌/◌, ◌<◌, ◌≡◌, refl, String, true, List, [], ◌∷◌, ◌++◌, ℤ, pos, negsuc,
  ltb, All, arith, Bool-cases, inl, inr,
}
use rate_guardian.Models.{RequestLog}
use rate_guardian.Fnmatch.{codes}
use rate_guardian.Logs.{Stats}
use rate_guardian.Page.Text.{Text, join_lines, concat, digits, decimal, tenths, is_plain, replace}
use rate_guardian.Page.Gauge.{
  Angle, Decimals, needle_color, clamp_pct, arc_pieces, gauge_pieces, arc_path, gauge_svg,
}
use rate_guardian.Page.Rows.{log_rows, top_ip_rows}
use rate_guardian.Page.Render.{values, signed_tenths, render_dashboard}
use rate_guardian.Page.Filled.{page, fill-page}

abbrev Plain : Text → Type 0
Plain t = is_plain t ≡ true

append-Plain : (x y : Text) → Plain x → Plain y → Plain (x ++ y)
unfolding is_plain
append-Plain [] y h k = k
append-Plain (c ∷ []) y h k = ground (arith, k)
append-Plain (c ∷ d ∷ x) y h k = ground (arith, append-Plain (d ∷ x) y)

concat-Plain : (ts : List Text) → All Plain ts → Plain (concat ts)
unfolding concat is_plain
concat-Plain [] h = refl
concat-Plain (t ∷ ts) h = append-Plain t (concat ts) h.0 (concat-Plain ts h.1)

digit-Plain : (d : ℕ) → d < 10 → Plain ((48 + d) ∷ [])
unfolding is_plain
digit-Plain d h = ground arith

digits-Plain : (fuel n : ℕ) → Plain (digits fuel n)
unfolding digits is_plain
digits-Plain zero n = refl
digits-Plain (suc fuel) n = elim (Bool-cases (ltb n 10)) [
  | inl e ↦ rw (e, digits) (digit-Plain n (ground arith))
  | inr e ↦
      rw (e, digits)
        (append-Plain (digits fuel (n / 10)) _ (digits-Plain fuel (n / 10))
          (digit-Plain (n % 10) (omega arith)))
]

decimal-Plain : (n : ℕ) → Plain (decimal n)
unfolding decimal
decimal-Plain n = digits-Plain (suc n) n

tenths-Plain : (n : ℕ) → Plain (tenths n)
unfolding tenths is_plain
tenths-Plain n = append-Plain (decimal (n / 10)) _ (decimal-Plain (n / 10)) (ground arith)

signed_tenths-Plain : (z : ℤ) → Plain (signed_tenths z)
unfolding signed_tenths is_plain
signed_tenths-Plain (pos n) = tenths-Plain n
signed_tenths-Plain (negsuc n) =
    append-Plain (b'-' ∷ []) (tenths (n + 1)) refl (tenths-Plain (n + 1))

needle_color-Plain : (pct : ℕ) → Plain (codes (needle_color pct))
unfolding is_plain
needle_color-Plain pct = elim (Bool-cases (ltb pct 500)) [
  | inl e ↦ rw e refl
  | inr e ↦ elim (Bool-cases (ltb pct 800)) [ inl f ↦ rw e (rw f refl) | inr f ↦ rw e (rw f refl) ]
]

-- The floating-point library prints no placeholders.
pub record PlainDecimals (d : Decimals) : Type 0 where
  pub cos_at : (c r : ℕ) (a : Angle) → Plain (d.cos_at c r a)
  pub sin_at : (c r : ℕ) (a : Angle) → Plain (d.sin_at c r a)

module _ (d : Decimals) (q : PlainDecimals d) where
  arc_path-Plain :
      (start_pct end_pct : ℕ) (color : String)
      → Plain (codes color)
      → Plain (arc_path d start_pct end_pct color)
  unfolding arc_path is_plain
  arc_path-Plain start_pct end_pct color h = concat-Plain (arc_pieces d start_pct end_pct color) (
    refl,
    (
      q.cos_at _ _ _,
      (
        refl,
        (
          q.sin_at _ _ _,
          (
            refl,
            (
              decimal-Plain _,
              (
                refl,
                (
                  decimal-Plain _,
                  (
                    refl,
                    (
                      decimal-Plain _,
                      (refl, (q.cos_at _ _ _, (refl, (q.sin_at _ _ _, (refl, (h, (refl, tt))))))),
                    ),
                  ),
                ),
              ),
            ),
          ),
        ),
      ),
    ),
  )

  gauge_svg-Plain : (z : ℤ) → Plain (gauge_svg d z)
  unfolding gauge_svg is_plain join_lines
  gauge_svg-Plain z = concat-Plain (gauge_pieces d (clamp_pct z)) (
    refl,
    (
      arc_path-Plain 0 50 "#0a8f00" refl,
      (
        refl,
        (
          arc_path-Plain 50 80 "#806600" refl,
          (
            refl,
            (
              arc_path-Plain 80 100 "#802222" refl,
              (
                refl,
                (
                  decimal-Plain _,
                  (
                    refl,
                    (
                      decimal-Plain _,
                      (
                        refl,
                        (
                          q.cos_at _ _ _,
                          (
                            refl,
                            (
                              q.sin_at _ _ _,
                              (
                                refl,
                                (
                                  needle_color-Plain (clamp_pct z),
                                  (
                                    refl,
                                    (
                                      needle_color-Plain (clamp_pct z),
                                      (
                                        refl,
                                        (
                                          decimal-Plain _,
                                          (
                                            refl,
                                            (
                                              decimal-Plain _,
                                              (
                                                refl,
                                                (
                                                  needle_color-Plain (clamp_pct z),
                                                  (
                                                    refl,
                                                    (
                                                      needle_color-Plain (clamp_pct z),
                                                      (
                                                        refl,
                                                        (
                                                          needle_color-Plain (clamp_pct z),
                                                          (
                                                            refl,
                                                            (
                                                            needle_color-Plain (clamp_pct z),
                                                            (refl, (tenths-Plain _, (refl, tt))),
                                                            ),
                                                          ),
                                                        ),
                                                      ),
                                                    ),
                                                  ),
                                                ),
                                              ),
                                            ),
                                          ),
                                        ),
                                      ),
                                    ),
                                  ),
                                ),
                              ),
                            ),
                          ),
                        ),
                      ),
                    ),
                  ),
                ),
              ),
            ),
          ),
        ),
      ),
    ),
  )

-- Where the texts of the gauge's coordinates and of the average latency have no two opening
-- braces in a row, and none at the end, the chain of replacements gives the template with each
-- placeholder replaced by its value and nothing else changed, except that the placeholder text of
-- the table of addresses is replaced within the rows of the log too.
pub render_dashboard-page :
    {F : Type 0} (d : Decimals) (show : F → Text) (stats : Stats F) (top_ips : List (String × ℕ))
    (recent : List RequestLog) (saturation_pct : ℤ)
    → PlainDecimals d
    → is_plain (show stats.avg_latency_ms) ≡ true
    → render_dashboard d show stats top_ips recent saturation_pct
      ≡ page
          (values d show stats top_ips recent saturation_pct)
          (replace (codes "{{TOP_IP_ROWS}}") (top_ip_rows top_ips) (log_rows recent))
unfolding render_dashboard values
render_dashboard-page d show stats top_ips recent saturation_pct q h =
    fill-page (values d show stats top_ips recent saturation_pct) (record {
      gauge = gauge_svg-Plain d q saturation_pct;
      total = decimal-Plain stats.total_requests;
      allowed = decimal-Plain stats.allowed_requests;
      blocked = decimal-Plain stats.blocked_requests;
      latency = h;
      saturation = signed_tenths-Plain saturation_pct;
    })
