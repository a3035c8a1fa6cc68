-- ===== src/Page/Markup.antt =====
-- The characters < > " ' in the rows that app/views/templates/dashboard.py makes of logs.
use rate_guardian.Base.{
  ℕ, zero, suc, ◌+◌, ◌%◌, ◌/◌, ◌<◌, ◌≡◌, refl, ◌∙◌, String, Bool, true, false, ◌||◌, Option, none,
  some, List, [], ◌∷◌, ◌++◌, map, select, nat_eq, ltb, All, arith, Bool-cases, inl, inr, ◌==◌,
  if◌then◌else◌,
}
use rate_guardian.Models.{rate_per_second, RequestLog}
use rate_guardian.Fnmatch.{codes}
use rate_guardian.Page.Text.{
  Text, concat, digits, decimal, two_digits, upper_code, escape_code, escape,
}
use rate_guardian.Page.Rows.{clock_pieces, clock_time, row_pieces, blocked_label, log_row, log_rows}

abbrev pub is_markup : ℕ → Bool
is_markup c = nat_eq c b'<' || nat_eq c b'>' || nat_eq c 34 || nat_eq c 39

-- The markup characters of a text, in order.
abbrev pub markup : Text → Text
markup = select is_markup

markup-append : (x y : Text) → markup (x ++ y) ≡ markup x ++ markup y
markup-append [] y = refl
markup-append (c ∷ x) y = ground (arith, markup-append x y)

-- What each text of a list has for markup.
abbrev Marks : List Text → List Text → Type 0
Marks [] [] = Unit
Marks (t ∷ ts) (m ∷ ms) = (markup t ≡ m) × Marks ts ms
Marks _ _ = ⊥

markup-concat : (ts ms : List Text) → Marks ts ms → markup (concat ts) ≡ concat ms
unfolding concat
markup-concat [] [] h = refl
markup-concat [] (m ∷ ms) h = absurd h
markup-concat (t ∷ ts) [] h = absurd h
markup-concat (t ∷ ts) (m ∷ ms) h =
    markup-append t (concat ts) ∙ rw (h.0, markup-concat ts ms h.1) refl

markup-escape : (s : Text) → markup (escape s) ≡ []
unfolding escape escape_code
markup-escape [] = refl
markup-escape (c ∷ s) = markup-append (escape_code c) (escape s) ∙ ground (arith, markup-escape s)

markup-digit : (d : ℕ) → d < 10 → markup ((48 + d) ∷ []) ≡ []
markup-digit d h = ground arith

markup-digits : (fuel n : ℕ) → markup (digits fuel n) ≡ []
unfolding digits
markup-digits zero n = refl
markup-digits (suc fuel) n = elim (Bool-cases (ltb n 10)) [
  | inl e ↦ rw (e, digits) (markup-digit n (ground arith))
  | inr e ↦
      rw (e, digits)
        (markup-append (digits fuel (n / 10)) _
          ∙ ground (arith, markup-digits fuel (n / 10), markup-digit (n % 10)))
]

markup-decimal : (n : ℕ) → markup (decimal n) ≡ []
unfolding decimal
markup-decimal n = markup-digits (suc n) n

markup-two_digits : (n : ℕ) → markup (two_digits n) ≡ []
unfolding two_digits
markup-two_digits n = ground (arith, markup-digit (n / 10 % 10), markup-digit (n % 10))

markup-clock_time : (t : ℕ) → markup (clock_time t) ≡ []
unfolding clock_time concat
markup-clock_time t =
    markup-concat (clock_pieces (t / rate_per_second)) ([] ∷ [] ∷ [] ∷ [] ∷ [] ∷ [])
      (markup-two_digits _, (refl, (markup-two_digits _, (refl, (markup-two_digits _, tt)))))

markup-upper : (s : Text) → markup s ≡ [] → markup (map upper_code s) ≡ []
markup-upper [] h = refl
markup-upper (c ∷ s) h = ground (arith, markup-upper s)

-- A reason without markup, or none.
abbrev pub IsReason : Option String → Type 0
IsReason none = Unit
IsReason (some reason) = markup (codes reason) ≡ []

markup-blocked_label : (o : Option String) → IsReason o → markup (blocked_label o) ≡ []
unfolding blocked_label
markup-blocked_label none h = refl
markup-blocked_label (some reason) h = elim (Bool-cases (reason == "")) [
  | inl e ↦ rw (e, blocked_label) refl
  | inr e ↦
      rw (e, blocked_label)
        (markup-append (map upper_code (codes reason)) (b']' ∷ [])
          ∙ rw (markup-upper (codes reason) h) refl)
]

-- The markup of one row.
abbrev pub row_markup : Text
row_markup = codes "<><\"\"><><\"\"><><\"\"><><><><\"\"><><\"\"><><>"

markup-style :
    (b : Bool) → markup (codes (if b then "color:var(--red)" else "color:var(--green)")) ≡ []
markup-style true = refl
markup-style false = refl

markup-log_row : (r : RequestLog) → IsReason r.blocked_by → markup (log_row r) ≡ row_markup
unfolding log_row concat
markup-log_row r h =
    markup-concat (row_pieces r)
      (codes "<>"
        ∷ codes "<\"\">"
        ∷ []
        ∷ codes "<>"
        ∷ codes "<\"\">"
        ∷ []
        ∷ codes "<>"
        ∷ codes "<\"\">"
        ∷ []
        ∷ codes "<>"
        ∷ codes "<>"
        ∷ []
        ∷ codes "<>"
        ∷ codes "<\"\">"
        ∷ []
        ∷ codes "<>"
        ∷ codes "<\""
        ∷ []
        ∷ codes "\">"
        ∷ []
        ∷ codes "<>"
        ∷ codes "<>"
        ∷ [])
      (
        refl,
        (
          refl,
          (
            markup-clock_time _,
            (
              refl,
              (
                refl,
                (
                  markup-escape _,
                  (
                    refl,
                    (
                      refl,
                      (
                        markup-escape _,
                        (
                          refl,
                          (
                            refl,
                            (
                              markup-decimal _,
                              (
                                refl,
                                (
                                  refl,
                                  (
                                    markup-decimal _,
                                    (
                                      refl,
                                      (
                                        refl,
                                        (
                                          markup-style r.blocked,
                                          (refl, (markup-blocked_label _ h, (refl, (refl, tt)))),
                                        ),
                                      ),
                                    ),
                                  ),
                                ),
                              ),
                            ),
                          ),
                        ),
                      ),
                    ),
                  ),
                ),
              ),
            ),
          ),
        ),
      )

abbrev pub each_row : List RequestLog → Text
each_row [] = []
each_row (r ∷ rs) = row_markup ++ each_row rs

markup-rows :
    (rs : List RequestLog)
    → All (λ r. IsReason r.blocked_by) rs
    → markup (concat (map log_row rs)) ≡ each_row rs
unfolding concat
markup-rows [] h = refl
markup-rows (r ∷ rs) h =
    markup-append (log_row r) (concat (map log_row rs))
    ∙ rw (markup-log_row r h.0, markup-rows rs h.1) refl

-- The characters < > " and ' of the rows that are made of one log or more are the ones of the
-- rows' own tags, whatever the logs say, if the reasons for blocking have none of these
-- characters.
pub markup-log_rows :
    (r : RequestLog) (recent : List RequestLog)
    → All (λ x. IsReason x.blocked_by) (r ∷ recent)
    → markup (log_rows (r ∷ recent)) ≡ each_row (r ∷ recent)
unfolding log_rows
markup-log_rows r recent h = markup-rows (r ∷ recent) h
