-- ===== src/Page/Text.antt =====
-- Texts as Python's string operations treat them, for app/views/templates/dashboard.py.
use rate_guardian.Base.{
  ℕ, zero, suc, ◌+◌, ◌-◌, ◌/◌, ◌%◌, String, Bool, true, false, ◌&&◌, List, [], ◌∷◌, ◌++◌, nat_eq,
  leb, ltb, length, if◌then◌else◌,
}
use rate_guardian.Fnmatch.{codes}

abbrev pub Text : Type 0
Text = List ℕ

-- `"\n".join(ls)`
unfoldable pub join_lines : List String → Text
join_lines [] = []
join_lines (l ∷ []) = codes l
join_lines (l ∷ m ∷ ls) = codes l ++ (10 ∷ join_lines (m ∷ ls))

-- The pieces of an f-string.
unfoldable pub concat : List Text → Text
concat [] = []
concat (t ∷ ts) = t ++ concat ts

-- `str` of a number, by fuel: a number has at most as many digits as it says, or one.
unfoldable pub digits : ℕ → ℕ → Text
digits zero n = []
digits (suc fuel) n = elim (ltb n 10) [
  | true ↦ (48 + n) ∷ []
  | false ↦ digits fuel (n / 10) ++ ((48 + n % 10) ∷ [])
]

unfoldable pub decimal : ℕ → Text
unfolding digits
decimal n = digits (suc n) n

-- A number with two digits at least, as `strftime` prints hours, minutes and seconds.
unfoldable pub two_digits : ℕ → Text
two_digits n = (48 + n / 10 % 10) ∷ (48 + n % 10) ∷ []

-- A number of tenths with one digit after the point.
unfoldable pub tenths : ℕ → Text
unfolding decimal
tenths n = decimal (n / 10) ++ (b'.' ∷ (48 + n % 10) ∷ [])

-- `upper` of a text in ASCII.
abbrev pub upper_code : ℕ → ℕ
upper_code c = if leb b'a' c && leb c b'z' then c - 32 else c

-- `html.escape`
unfoldable pub escape_code : ℕ → Text
escape_code c =
    if nat_eq c b'&'
    then codes "&amp;"
    else if nat_eq c b'<'
    then codes "&lt;"
    else if nat_eq c b'>'
    then codes "&gt;"
    else if nat_eq c 34
    then codes "&quot;"
    else if nat_eq c 39
    then codes "&#x27;"
    else c ∷ []

unfoldable pub escape : Text → Text
unfolding escape_code
escape [] = []
escape (c ∷ s) = escape_code c ++ escape s

abbrev pub is_prefix : Text → Text → Bool
is_prefix [] s = true
is_prefix (o ∷ os) [] = false
is_prefix (o ∷ os) (c ∷ s) = nat_eq o c && is_prefix os s

-- `s.replace(old, new)` for an `old` that is not empty, after `skip` characters of an occurrence.
unfoldable pub replace_from : ℕ → Text → Text → Text → Text
replace_from skip old new [] = []
replace_from (suc skip) old new (c ∷ s) = replace_from skip old new s
replace_from zero old new (c ∷ s) = elim (is_prefix old (c ∷ s)) [
  | true ↦ new ++ replace_from (length old - 1) old new s
  | false ↦ c ∷ replace_from zero old new s
]

abbrev pub replace : Text → Text → Text → Text
replace old new s = replace_from zero old new s

-- No two opening braces in a row, and none at the end.
abbrev pub opens : Text → Bool
opens [] = true
opens (c ∷ s) = nat_eq c b'{'

unfoldable pub is_plain : Text → Bool
is_plain [] = true
is_plain (c ∷ s) = let rest = is_plain s in if nat_eq c b'{' && opens s then false else rest
