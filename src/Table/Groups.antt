-- ===== src/Table/Groups.antt =====
-- SELECT key, COUNT(id) ... GROUP BY key ORDER BY COUNT(id) DESC: which groups there are, and that
-- the database may give the ones with equal counts in any order.
use mathlib.Core.List.{Perm}
use rate_guardian.Base.{ℕ, suc, String, List, [], ◌∷◌, IsDescending, ◌==◌, if◌then◌else◌}

-- One more row for a key.
abbrev pub count_in : String → List (String × ℕ) → List (String × ℕ)
count_in k [] = (k, 1) ∷ []
count_in k ((j, n) ∷ d) =
    let rest = count_in k d in if j == k then (j, suc n) ∷ d else (j, n) ∷ rest

module _ {Row : Type 0} (key : Row → String) where
  abbrev pub groups : List Row → List (String × ℕ)
  groups [] = []
  groups (x ∷ xs) = count_in (key x) (groups xs)

abbrev pub count_of_group : String × ℕ → ℕ
count_of_group g = g.1

pub record Grouping (Row : Type 0) : Type 0 where
  pub top : (Row → String) → List Row → List (String × ℕ)
  pub perm-top : (key : Row → String) (xs : List Row) → Perm (top key xs) (groups key xs)
  pub top-IsDescending :
      (key : Row → String) (xs : List Row) → IsDescending count_of_group (top key xs)
