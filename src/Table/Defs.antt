-- ===== src/Table/Defs.antt =====
-- The interface that Table.antt describes.
use mathlib.Core.List.{Mem, Perm}
use rate_guardian.Base.{
  ℕ, ◌≡◌, ◌≢◌, Bool, not, List, ◌∷◌, map, length, select, IsAscending, IsDescending, if◌then◌else◌,
}

pub record Table (Row : Type 0) (id : Row → ℕ) : Type 1 where
  pub State : Type 0
  pub rows : State → List Row
  -- INSERT of the row made with the id that the database gives
  pub insert : State → (ℕ → Row) → ℕ × State
  -- UPDATE ... WHERE, DELETE ... WHERE with the number of rows deleted
  pub update : State → (Row → Bool) → (Row → Row) → State
  pub delete : State → (Row → Bool) → ℕ × State
  -- SELECT ... ORDER BY a number, ORDER BY it DESC
  pub ascending : (Row → ℕ) → List Row → List Row
  pub descending : (Row → ℕ) → List Row → List Row
  pub rows-insert :
      (s : State) (make : ℕ → Row) → Perm (rows (insert s make).1) (make (insert s make).0 ∷ rows s)
  pub fresh-insert :
      (s : State) (make : ℕ → Row) (x : Row) → Mem x (rows s) → id x ≢ (insert s make).0
  pub rows-update :
      (s : State) (p : Row → Bool) (f : Row → Row)
      → Perm (rows (update s p f)) (map (λ x. if p x then f x else x) (rows s))
  pub rows-delete :
      (s : State) (p : Row → Bool) → Perm (rows (delete s p).1) (select (λ x. not (p x)) (rows s))
  pub count-delete : (s : State) (p : Row → Bool) → (delete s p).0 ≡ length (select p (rows s))
  pub perm-ascending : (key : Row → ℕ) (xs : List Row) → Perm (ascending key xs) xs
  pub ascending-IsAscending : (key : Row → ℕ) (xs : List Row) → IsAscending key (ascending key xs)
  pub perm-descending : (key : Row → ℕ) (xs : List Row) → Perm (descending key xs) xs
  pub descending-IsDescending :
      (key : Row → ℕ) (xs : List Row) → IsDescending key (descending key xs)
