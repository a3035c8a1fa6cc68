-- ===== src/Page/Gauge.antt =====
-- `_gauge_svg` of app/views/templates/dashboard.py.
--
-- `Decimals` is what the floating-point library prints with one digit after the point: of `c + r *
-- cos(a)` and of `c + r * sin(a)`.
use rate_guardian.Base.{ℕ, ◌-◌, String, List, [], ◌∷◌, ltb, leb, ℤ, clamp, if◌then◌else◌}
use rate_guardian.Fnmatch.{codes}
use rate_guardian.Page.Text.{Text, join_lines, decimal, tenths, concat}

-- An angle of the half circle: of the needle, for a number of tenths of a percent, or of the end of
-- an arc, for a number of percent.
pub data Angle : Type 0 where
  needle_at arc_at : ℕ → Angle

pub record Decimals : Type 0 where
  pub cos_at : ℕ → ℕ → Angle → Text
  pub sin_at : ℕ → ℕ → Angle → Text

abbrev pub cx : ℕ
cx = 120

abbrev pub cy : ℕ
cy = 110

abbrev pub r_needle : ℕ
r_needle = 80

-- `max(0.0, min(100.0, saturation_pct))`, in tenths.
abbrev pub clamp_pct : ℤ → ℕ
clamp_pct z = if leb 1000 (clamp z) then 1000 else clamp z

abbrev pub needle_color : ℕ → String
needle_color pct = if ltb pct 500 then "#15ff00" else if ltb pct 800 then "#ffcc00" else "#ff4444"

module _ (d : Decimals) where
  -- The pieces of the two f-strings.
  abbrev pub arc_pieces : ℕ → ℕ → String → List Text
  arc_pieces start_pct end_pct color =
      let r : ℕ = 80 in
      let large : ℕ = if ltb 50 (end_pct - start_pct) then 1 else 0 in
      (codes "<path d=\"M "
        ∷ d.cos_at cx r (arc_at start_pct)
        ∷ codes " "
        ∷ d.sin_at cy r (arc_at start_pct)
        ∷ codes " A "
        ∷ decimal r
        ∷ codes " "
        ∷ decimal r
        ∷ codes " 0 "
        ∷ decimal large
        ∷ codes " 1 "
        ∷ d.cos_at cx r (arc_at end_pct)
        ∷ codes " "
        ∷ d.sin_at cy r (arc_at end_pct)
        ∷ codes "\" stroke=\""
        ∷ codes color
        ∷ codes "\" stroke-width=\"10\" fill=\"none\" stroke-linecap=\"round\"/>"
        ∷ [])

  unfoldable pub arc_path : ℕ → ℕ → String → Text
  unfolding concat
  arc_path start_pct end_pct color = concat (arc_pieces start_pct end_pct color)

  abbrev pub gauge_pieces : ℕ → List Text
  gauge_pieces pct =
      let angle = needle_at pct in
      (join_lines (
          ""
          ∷ "<svg width=\"240\" height=\"130\" viewBox=\"0 0 240 130\" xmlns=\"http://www.w3.org/2000/svg\""
          ∷ "     style=\"display:block;margin:0 auto;\">" ∷ "  <!-- Track background -->"
          ∷ "  <path d=\"M 40 110 A 80 80 0 0 1 200 110\""
          ∷ "        stroke=\"#0a2200\" stroke-width=\"12\" fill=\"none\" stroke-linecap=\"round\"/>"
          ∷ "  <!-- Colored zones -->" ∷ "  " ∷ [])
        ∷ arc_path 0 50 "#0a8f00"
        ∷ join_lines ("" ∷ "  " ∷ [])
        ∷ arc_path 50 80 "#806600"
        ∷ join_lines ("" ∷ "  " ∷ [])
        ∷ arc_path 80 100 "#802222"
        ∷ join_lines ("" ∷ "  <!-- Needle -->" ∷ "  <line x1=\"" ∷ [])
        ∷ decimal cx
        ∷ codes "\" y1=\""
        ∷ decimal cy
        ∷ join_lines ("\"" ∷ "        x2=\"" ∷ [])
        ∷ d.cos_at cx r_needle angle
        ∷ codes "\" y2=\""
        ∷ d.sin_at cy r_needle angle
        ∷ join_lines ("\"" ∷ "        stroke=\"" ∷ [])
        ∷ codes (needle_color pct)
        ∷ join_lines (
            "\" stroke-width=\"2.5\" stroke-linecap=\"round\""
            ∷ "        style=\"filter:drop-shadow(0 0 4px " ∷ [])
        ∷ codes (needle_color pct)
        ∷ join_lines (")\"/>" ∷ "  <!-- Pivot -->" ∷ "  <circle cx=\"" ∷ [])
        ∷ decimal cx
        ∷ codes "\" cy=\""
        ∷ decimal cy
        ∷ codes "\" r=\"5\" fill=\""
        ∷ codes (needle_color pct)
        ∷ join_lines ("\"" ∷ "          style=\"filter:drop-shadow(0 0 6px " ∷ [])
        ∷ codes (needle_color pct)
        ∷ join_lines (
            ")\"/>" ∷ "  <!-- Labels -->"
            ∷ "  <text x=\"32\"  y=\"126\" fill=\"#0a8f00\" font-family=\"monospace\" font-size=\"9\">0%</text>"
            ∷ "  <text x=\"108\" y=\"24\"  fill=\"#0a8f00\" font-family=\"monospace\" font-size=\"9\">50%</text>"
            ∷ "  <text x=\"196\" y=\"126\" fill=\"#802222\" font-family=\"monospace\" font-size=\"9\">100%</text>"
            ∷ "  <!-- Value -->" ∷ "  <text x=\"120\" y=\"108\" fill=\"" ∷ [])
        ∷ codes (needle_color pct)
        ∷ join_lines (
            "\" font-family=\"monospace\" font-size=\"13\""
            ∷ "        text-anchor=\"middle\" style=\"filter:drop-shadow(0 0 4px " ∷ [])
        ∷ codes (needle_color pct)
        ∷ join_lines (")\">" ∷ "    " ∷ [])
        ∷ tenths pct
        ∷ join_lines ("%" ∷ "  </text>" ∷ "</svg>" ∷ [])
        ∷ [])

  unfoldable pub gauge_svg : ℤ → Text
  unfolding concat
  gauge_svg saturation_pct = concat (gauge_pieces (clamp_pct saturation_pct))
