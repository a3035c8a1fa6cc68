-- ===== src/Page/Pieces.antt =====
-- The page of app/views/templates/dashboard.py as pieces of text and placeholders, and what the
-- replacements of `render_dashboard` do to them.
use mathlib.Core.List.{append-nil}
use rate_guardian.Base.{
  ◌≡◌, refl, sym, ap, ◌∙◌, Bool, true, false, List, [], ◌∷◌, ◌++◌, All, arith, map, Bool-cases, inl,
  inr, if◌then◌else◌,
}
use rate_guardian.Fnmatch.{codes}
use rate_guardian.Page.Text.{Text, replace_from, replace, is_plain}
use rate_guardian.Page.Replace.{is_absent, replace-absent, plain-absent, replace-old}
use rate_guardian.Page.Template.{tail_html, is_plain-tail_html}

-- The eight placeholders.
pub data Slot : Type 0 where
  gauge : Slot
  total : Slot
  allowed : Slot
  blocked : Slot
  latency : Slot
  saturation : Slot
  logs : Slot
  top_ips : Slot

abbrev pub same_slot : Slot → Slot → Bool
same_slot gauge gauge = true
same_slot total total = true
same_slot allowed allowed = true
same_slot blocked blocked = true
same_slot latency latency = true
same_slot saturation saturation = true
same_slot logs logs = true
same_slot top_ips top_ips = true
same_slot _ _ = false

-- A placeholder after its two braces.
abbrev pub name : Slot → Text
name gauge = codes "GAUGE_SVG}}"
name total = codes "TOTAL}}"
name allowed = codes "ALLOWED}}"
name blocked = codes "BLOCKED}}"
name latency = codes "AVG_LAT}}"
name saturation = codes "SAT_PCT}}"
name logs = codes "LOG_ROWS}}"
name top_ips = codes "TOP_IP_ROWS}}"

abbrev pub mark : Slot → Text
mark k = b'{' ∷ b'{' ∷ name k

-- A piece of a page.
pub data Piece : Type 0 where
  plain : Text → Piece
  slot : Slot → Piece

abbrev pub IsPlain : Piece → Type 0
IsPlain (plain t) = is_plain t ≡ true
IsPlain (slot k) = Unit

abbrev pub text_of : Piece → Text
text_of (plain t) = t
text_of (slot k) = mark k

-- The pieces, and then a text.
abbrev pub flat : List Piece → Text → Text
flat [] rest = rest
flat (p ∷ ps) rest = text_of p ++ flat ps rest

abbrev pub put : Slot → Text → Piece → Piece
put k new (plain t) = plain t
put k new (slot j) = if same_slot k j then plain new else slot j

pub absent-slot : (k j : Slot) → same_slot k j ≡ false → is_absent (mark k) (mark j) ≡ true
absent-slot k j h = ground arith

pub slot-same : (k j : Slot) → same_slot k j ≡ true → j ≡ k
slot-same k j h = ground arith

pub replace-piece :
    (k : Slot) (new : Text) (p : Piece) (rest : Text)
    → IsPlain p
    → replace (mark k) new (text_of p ++ rest) ≡ text_of (put k new p) ++ replace (mark k) new rest
replace-piece k new (plain t) rest h =
    replace-absent (mark k) new t rest (plain-absent (name k) t h)
replace-piece k new (slot j) rest h = elim (Bool-cases (same_slot k j)) [
  | inl e ↦ rw (e, slot-same k j e) (replace-old b'{' (b'{' ∷ name k) new rest)
  | inr e ↦ rw e (replace-absent (mark k) new (mark j) rest (absent-slot k j e))
]

pub replace-flat :
    (k : Slot) (new : Text) (ps : List Piece) (rest : Text)
    → All IsPlain ps
    → replace (mark k) new (flat ps rest) ≡ flat (map (put k new) ps) (replace (mark k) new rest)
replace-flat k new [] rest h = refl
replace-flat k new (p ∷ ps) rest h =
    replace-piece k new p (flat ps rest) h.0
    ∙ ap (λ t. text_of (put k new p) ++ t) (replace-flat k new ps rest h.1)

pub All-put :
    (k : Slot) (new : Text) (ps : List Piece)
    → is_plain new ≡ true
    → All IsPlain ps
    → All IsPlain (map (put k new) ps)
All-put k new [] e h = tt
All-put k new (p ∷ ps) e h = (one p h.0, All-put k new ps e h.1)
  where
    one : (q : Piece) → IsPlain q → IsPlain (put k new q)
    one (plain t) i = i
    one (slot j) i = elim (Bool-cases (same_slot k j)) [ inl y ↦ rw y e | inr n ↦ rw n tt ]

pub replace-tail : (k : Slot) (new : Text) → replace (mark k) new tail_html ≡ tail_html
unfolding replace_from
replace-tail k new =
    ap (replace (mark k) new) (sym (append-nil tail_html))
    ∙ replace-absent (mark k) new tail_html [] (plain-absent (name k) tail_html is_plain-tail_html)
    ∙ append-nil tail_html

abbrev pub settle : List (Slot × Text) → Text → Text
settle [] s = s
settle ((k, new) ∷ kvs) s = settle kvs (replace (mark k) new s)

abbrev pub settled : List (Slot × Text) → List Piece → List Piece
settled [] ps = ps
settled ((k, new) ∷ kvs) ps = settled kvs (map (put k new) ps)

pub settle-flat :
    (kvs : List (Slot × Text)) (ps : List Piece)
    → All (λ kv. is_plain kv.1 ≡ true) kvs
    → All IsPlain ps
    → (settle kvs (flat ps tail_html) ≡ flat (settled kvs ps) tail_html)
      × All IsPlain (settled kvs ps)
settle-flat [] ps e h = (refl, h)
settle-flat ((k, new) ∷ kvs) ps e h =
    let ih = settle-flat kvs (map (put k new) ps) e.1 (All-put k new ps e.0 h) in
    (
      ap (settle kvs) (
            replace-flat k new ps tail_html h ∙ ap (flat (map (put k new) ps)) (replace-tail k new))
          ∙ ih.0,
      ih.1,
    )
