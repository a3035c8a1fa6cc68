-- ===== src/Table/Memory.antt =====
-- A table in memory, its rows newest first: the laws of `Table` can be met, and tests run on it.
use mathlib.Core.List.{Mem, Perm}
use mathlib.Core.List.Perm
use rate_guardian.Base.{
  ℕ, ◌+◌, ◌≤◌, ◌<◌, ◌≡◌, refl, sym, subst, ◌≢◌, not, List, [], ◌∷◌, map, length, select, All,
  IsAscending, IsDescending, if◌then◌else◌, leb, leb→le, arith, Bool-cases, inl, inr, All-mem,
}
use native.Mathlib.Bridge.{le_prop}
use rate_guardian.Table.Defs.{Table}
use rate_guardian.Table.Groups.{groups, count_of_group, Grouping}

module _ {Row : Type 0} (id : Row → ℕ) where
  -- An id above all that are in use.
  abbrev pub next_id : List Row → ℕ
  next_id [] = 1
  next_id (x ∷ xs) = let n = next_id xs in if leb n (id x) then id x + 1 else n

  below : (xs : List Row) → All (λ x. id x < next_id xs) xs
  below [] = tt
  below (x ∷ xs) = elim (Bool-cases (leb (next_id xs) (id x))) [
    | inl h ↦
        let e : next_id (x ∷ xs) ≡ id x + 1 = rw h refl in
        subst (λ (n : ℕ). (id x < n) × All (λ y. id y < n) xs) (sym e)
          (omega arith, All-weaken xs (leb→le _ _ h) (below xs))
    | inr h ↦
        let e : next_id (x ∷ xs) ≡ next_id xs = rw h refl in
        subst (λ (n : ℕ). (id x < n) × All (λ y. id y < n) xs) (sym e) (ground arith, below xs)
  ]
    where
      All-weaken :
          (ys : List Row)
          → next_id xs ≤ id x
          → All (λ y. id y < next_id xs) ys
          → All (λ y. id y < id x + 1) ys
      All-weaken [] h a = tt
      All-weaken (y ∷ ys) h a = (omega arith, All-weaken ys h a.1)

  pub fresh : (xs : List Row) (x : Row) → Mem x xs → id x ≢ next_id xs
  fresh xs x m e =
      let h : id x < next_id xs =
        All-mem (λ y. id y < next_id xs) (λ y. le_prop) xs x (below xs) m in
      omega arith

-- Insertion sort by a number, ascending and descending.
module _ {Row : Type 0} (key : Row → ℕ) where
  abbrev pub place_up : Row → List Row → List Row
  place_up x [] = x ∷ []
  place_up x (y ∷ ys) = if leb (key x) (key y) then x ∷ y ∷ ys else y ∷ place_up x ys

  abbrev pub sort_up : List Row → List Row
  sort_up [] = []
  sort_up (x ∷ xs) = place_up x (sort_up xs)

  abbrev pub place_down : Row → List Row → List Row
  place_down x [] = x ∷ []
  place_down x (y ∷ ys) = if leb (key y) (key x) then x ∷ y ∷ ys else y ∷ place_down x ys

  abbrev pub sort_down : List Row → List Row
  sort_down [] = []
  sort_down (x ∷ xs) = place_down x (sort_down xs)

  place_up-perm : (x : Row) (xs : List Row) → Perm (place_up x xs) (x ∷ xs)
  place_up-perm x [] = Perm.refl _
  place_up-perm x (y ∷ ys) = elim (Bool-cases (leb (key x) (key y))) [
    | inl h ↦ rw h (Perm.refl _)
    | inr h ↦ rw h (Perm.trans (Perm.cons y (place_up-perm x ys)) (Perm.swap x y ys))
  ]

  pub sort_up-perm : (xs : List Row) → Perm (sort_up xs) xs
  sort_up-perm [] = Perm.refl _
  sort_up-perm (x ∷ xs) = Perm.trans (place_up-perm x (sort_up xs)) (Perm.cons x (sort_up-perm xs))

  place_down-perm : (x : Row) (xs : List Row) → Perm (place_down x xs) (x ∷ xs)
  place_down-perm x [] = Perm.refl _
  place_down-perm x (y ∷ ys) = elim (Bool-cases (leb (key y) (key x))) [
    | inl h ↦ rw h (Perm.refl _)
    | inr h ↦ rw h (Perm.trans (Perm.cons y (place_down-perm x ys)) (Perm.swap x y ys))
  ]

  pub sort_down-perm : (xs : List Row) → Perm (sort_down xs) xs
  sort_down-perm [] = Perm.refl _
  sort_down-perm (x ∷ xs) =
      Perm.trans (place_down-perm x (sort_down xs)) (Perm.cons x (sort_down-perm xs))

  All-place_up :
      (n : ℕ) (x : Row) (xs : List Row)
      → n ≤ key x
      → All (λ y. n ≤ key y) xs
      → All (λ y. n ≤ key y) (place_up x xs)
  All-place_up n x [] h a = (h, tt)
  All-place_up n x (y ∷ ys) h a = ground (arith, All-place_up n x ys h a.1)

  All-up : (n m : ℕ) (xs : List Row) → n ≤ m → All (λ y. m ≤ key y) xs → All (λ y. n ≤ key y) xs
  All-up n m [] h a = tt
  All-up n m (y ∷ ys) h a = (omega arith, All-up n m ys h a.1)

  place_up-IsAscending :
      (x : Row) (xs : List Row) → IsAscending key xs → IsAscending key (place_up x xs)
  place_up-IsAscending x [] s = (tt, tt)
  place_up-IsAscending x (y ∷ ys) s = elim (Bool-cases (leb (key x) (key y))) [
    | inl h ↦ let le = leb→le _ _ h in rw h ((le, All-up (key x) (key y) ys le s.0), s)
    | inr h ↦ rw h (All-place_up (key y) x ys (ground arith) s.0, place_up-IsAscending x ys s.1)
  ]

  pub sort_up-IsAscending : (xs : List Row) → IsAscending key (sort_up xs)
  sort_up-IsAscending [] = tt
  sort_up-IsAscending (x ∷ xs) = place_up-IsAscending x (sort_up xs) (sort_up-IsAscending xs)

  All-place_down :
      (n : ℕ) (x : Row) (xs : List Row)
      → key x ≤ n
      → All (λ y. key y ≤ n) xs
      → All (λ y. key y ≤ n) (place_down x xs)
  All-place_down n x [] h a = (h, tt)
  All-place_down n x (y ∷ ys) h a = ground (arith, All-place_down n x ys h a.1)

  All-down : (n m : ℕ) (xs : List Row) → m ≤ n → All (λ y. key y ≤ m) xs → All (λ y. key y ≤ n) xs
  All-down n m [] h a = tt
  All-down n m (y ∷ ys) h a = (omega arith, All-down n m ys h a.1)

  place_down-IsDescending :
      (x : Row) (xs : List Row) → IsDescending key xs → IsDescending key (place_down x xs)
  place_down-IsDescending x [] s = (tt, tt)
  place_down-IsDescending x (y ∷ ys) s = elim (Bool-cases (leb (key y) (key x))) [
    | inl h ↦ let le = leb→le _ _ h in rw h ((le, All-down (key x) (key y) ys le s.0), s)
    | inr h ↦
        rw h (All-place_down (key y) x ys (ground arith) s.0, place_down-IsDescending x ys s.1)
  ]

  pub sort_down-IsDescending : (xs : List Row) → IsDescending key (sort_down xs)
  sort_down-IsDescending [] = tt
  sort_down-IsDescending (x ∷ xs) =
      place_down-IsDescending x (sort_down xs) (sort_down-IsDescending xs)

abbrev pub in_memory : {Row : Type 0} (id : Row → ℕ) → Table Row id
in_memory {Row} id = record {
  State = List Row;
  rows = λ s. s;
  insert = λ s make. (next_id id s, make (next_id id s) ∷ s);
  update = λ s p f. map (λ x. if p x then f x else x) s;
  delete = λ s p. (length (select p s), select (λ x. not (p x)) s);
  ascending = λ key xs. sort_up key xs;
  descending = λ key xs. sort_down key xs;
  rows-insert = λ s make. Perm.refl _;
  fresh-insert = λ s make x m. fresh id s x m;
  rows-update = λ s p f. Perm.refl _;
  rows-delete = λ s p. Perm.refl _;
  count-delete = λ s p. refl;
  perm-ascending = λ key xs. sort_up-perm key xs;
  ascending-IsAscending = λ key xs. sort_up-IsAscending key xs;
  perm-descending = λ key xs. sort_down-perm key xs;
  descending-IsDescending = λ key xs. sort_down-IsDescending key xs;
}

abbrev pub in_memory_groups : {Row : Type 0} → Grouping Row
in_memory_groups {Row} = record {
  top = λ key xs. sort_down count_of_group (groups key xs);
  perm-top = λ key xs. sort_down-perm count_of_group (groups key xs);
  top-IsDescending = λ key xs. sort_down-IsDescending count_of_group (groups key xs);
}
