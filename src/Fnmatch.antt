-- ===== src/Fnmatch.antt =====
-- `fnmatch.fnmatch` of Python's standard library (3.11, on a system whose paths keep their case):
-- what app/models/repositories/rule_repository.py matches a path against `path_pattern` with.
-- `fnmatch.translate` turns the pattern into a regular expression; here it is read into `Part`s.
-- Texts are lists of code points.
pub mod Fits
pub mod Fuel
pub mod Prefix
use Prim.Native.Char.{code}
use rate_guardian.Base.{
  ℕ, zero, suc, ◌≡◌, refl, String, Bool, true, false, not, ◌&&◌, ◌||◌, Option, none, some, List, [],
  ◌∷◌, leb, nat_eq, select, length, if◌then◌else◌,
}

abbrev pub codes : String → List ℕ
codes String.[] = []
codes (String.◌∷◌ c s) = code c ∷ codes s

-- A character, or a range with both its ends, of a set `[...]`.
pub data Item : Type 0 where
  single : ℕ → Item
  range : ℕ → ℕ → Item

-- `set negated items` is `[...]` or `[!...]`.
pub data Part : Type 0 where
  literal : ℕ → Part
  any star : Part
  set : Bool → List Item → Part

-- The characters of a set up to its `]`, which does not end it in first place; none if it has no
-- end, and the `[` is a character.
unfoldable pub until_close : List ℕ → Option (List ℕ × List ℕ)
until_close [] = none
until_close (c ∷ cs) =
    let rest = until_close cs in
    if nat_eq c b']'
    then some ([], cs)
    else elim rest [ none ↦ none | some (body, after) ↦ some (c ∷ body, after) ]

abbrev pub prepend : ℕ → Option (List ℕ × List ℕ) → Option (List ℕ × List ℕ)
prepend c none = none
prepend c (some (body, after)) = some (c ∷ body, after)

abbrev pub past_bracket : List ℕ → Option (List ℕ × List ℕ)
unfolding until_close
past_bracket [] = none
past_bracket (c ∷ cs) = if nat_eq c b']' then prepend c (until_close cs) else until_close (c ∷ cs)

-- What stands between `[` and its `]`, and what follows.
unfoldable pub set_text : List ℕ → Option (List ℕ × List ℕ)
unfolding until_close past_bracket
set_text [] = none
set_text (c ∷ cs) = if nat_eq c b'!' then prepend c (past_bracket cs) else past_bracket (c ∷ cs)

-- `a-z` is a range wherever a character stands on both sides of the hyphen.
unfoldable pub items : List ℕ → List Item
items [] = []
items (a ∷ []) = single a ∷ []
items (a ∷ b ∷ []) = single a ∷ single b ∷ []
items (a ∷ b ∷ c ∷ cs) =
    let ranged = range a c ∷ items cs in
    let plain = single a ∷ items (b ∷ c ∷ cs) in if nat_eq b b'-' then ranged else plain

-- A range that ends before it begins is dropped.
abbrev keeps : Item → Bool
keeps (single c) = true
keeps (range a b) = leb a b

-- An exclamation mark that comes to stand first once ranges are dropped negates too.
abbrev negate_late : List Item → Part
negate_late [] = set false []
negate_late (single c ∷ rest) = if nat_eq c b'!' then set true rest else set false (single c ∷ rest)
negate_late (range a b ∷ rest) =
    if nat_eq a b'!' then set true (single b'-' ∷ single b ∷ rest) else set false (range a b ∷ rest)

unfoldable pub set_part : List ℕ → Part
unfolding items
set_part [] = set false []
set_part (c ∷ cs) =
    if nat_eq c b'!'
    then set true (select keeps (items cs))
    else negate_late (select keeps (items (c ∷ cs)))

abbrev pub starts_star : List Part → Bool
starts_star (star ∷ _) = true
starts_star _ = false

-- Stars in a row are one. The fuel is the number of characters that are left, or more.
unfoldable pub translate : ℕ → List ℕ → List Part
unfolding set_text set_part
translate zero cs = []
translate (suc n) [] = []
translate (suc n) (c ∷ cs) = elim (nat_eq c b'*') [
  | true ↦ let rest = translate n cs in if starts_star rest then rest else star ∷ rest
  | false ↦ elim (nat_eq c b'?') [
    | true ↦ any ∷ translate n cs
    | false ↦ elim (nat_eq c b'[') [
      | true ↦ elim (set_text cs) [
        | none ↦ literal b'[' ∷ translate n cs
        | some (body, after) ↦ set_part body ∷ translate n after
      ]
      | false ↦ literal c ∷ translate n cs
    ]
  ]
]

abbrev pub in_item : ℕ → Item → Bool
in_item c (single d) = nat_eq c d
in_item c (range a b) = leb a c && leb c b

abbrev pub in_set : ℕ → List Item → Bool
in_set c [] = false
in_set c (i ∷ is) = in_item c i || in_set c is

-- One character against a part that takes one character.
abbrev pub takes : Part → ℕ → Bool
takes (literal d) c = nat_eq d c
takes any c = true
takes star c = false
takes (set negated is) c = if negated then not (in_set c is) else in_set c is

unfoldable pub match_parts : List Part → List ℕ → Bool
match_parts [] [] = true
match_parts [] (c ∷ cs) = false
match_parts (star ∷ ps) [] = match_parts ps []
match_parts (star ∷ ps) (c ∷ cs) =
    let skipped = match_parts ps (c ∷ cs) in
    let eaten = match_parts (star ∷ ps) cs in skipped || eaten
match_parts (p ∷ ps) [] = false
match_parts (p ∷ ps) (c ∷ cs) = let rest = match_parts ps cs in takes p c && rest

unfoldable pub fnmatch : String → String → Bool
unfolding translate match_parts
fnmatch name pattern = let cs = codes pattern in match_parts (translate (length cs) cs) (codes name)

test_star : fnmatch "/proxy/https://api.example.com/users/7" "/proxy/*/users*" ≡ true
unfolding fnmatch
test_star = refl

test_set : fnmatch "/v1/b" "/v[0-9]/[!a]" ≡ true
unfolding fnmatch
test_set = refl

test_miss : fnmatch "/v1/a" "/v[0-9]/[!a]" ≡ false
unfolding fnmatch
test_miss = refl

test_open : fnmatch "/a[b" "/a[?" ≡ true
unfolding fnmatch
test_open = refl
