-- ===== src/Fnmatch/Fuel.antt =====
-- The number of characters is fuel enough to read a pattern.
use rate_guardian.Base.{
  ℕ, zero, suc, ◌≤◌, ◌<◌, ◌≡◌, refl, ap, Bool, true, false, Option, none, some, List, [], ◌∷◌,
  arith, nat_eq, length, Bool-cases, inl, inr, if◌then◌else◌,
}
use rate_guardian.Fnmatch.{
  Part, literal, until_close, prepend, past_bracket, set_text, set_part, translate,
}

-- What is left after a set is shorter.
abbrev Shorter : ℕ → Option (List ℕ × List ℕ) → Type 0
Shorter n none = Unit
Shorter n (some (body, after)) = length after < n

prepend-Shorter :
    (c n : ℕ) (found : Option (List ℕ × List ℕ))
    → Shorter n found
    → Shorter (suc n) (prepend c found)
prepend-Shorter c n none h = tt
prepend-Shorter c n (some (body, after)) h = omega (arith, h)

until_close-Shorter : (cs : List ℕ) → Shorter (length cs) (until_close cs)
unfolding until_close
until_close-Shorter [] = tt
until_close-Shorter (c ∷ cs) = elim (Bool-cases (nat_eq c b']')) [
  | inl y ↦ rw y (omega arith)
  | inr n ↦ rw n (rest (until_close cs) (until_close-Shorter cs))
]
  where
    rest :
        (found : Option (List ℕ × List ℕ))
        → Shorter (length cs) found
        → Shorter
            (length (c ∷ cs))
            (elim found [ none ↦ none | some (body, after) ↦ some (c ∷ body, after) ])
    rest none h = tt
    rest (some (body, after)) h = omega (arith, h)

either-Shorter :
    (n : ℕ) (b : Bool) (x y : Option (List ℕ × List ℕ))
    → Shorter n x
    → Shorter n y
    → Shorter n (if b then x else y)
either-Shorter n true x y h k = h
either-Shorter n false x y h k = k

past_bracket-Shorter : (cs : List ℕ) → Shorter (length cs) (past_bracket cs)
unfolding past_bracket
past_bracket-Shorter [] = tt
past_bracket-Shorter (c ∷ cs) =
    either-Shorter (length (c ∷ cs)) (nat_eq c b']') _ _
      (prepend-Shorter c (length cs) (until_close cs) (until_close-Shorter cs))
      (until_close-Shorter (c ∷ cs))

set_text-Shorter : (cs : List ℕ) → Shorter (length cs) (set_text cs)
unfolding set_text
set_text-Shorter [] = tt
set_text-Shorter (c ∷ cs) =
    either-Shorter (length (c ∷ cs)) (nat_eq c b'!') _ _
      (prepend-Shorter c (length cs) (past_bracket cs) (past_bracket-Shorter cs))
      (past_bracket-Shorter (c ∷ cs))

-- Any two amounts of fuel that are enough read the same parts.
pub translate_enough :
    (n m : ℕ) (cs : List ℕ) → length cs ≤ n → length cs ≤ m → translate n cs ≡ translate m cs
unfolding translate
translate_enough zero zero cs h k = refl
translate_enough zero (suc m) [] h k = refl
translate_enough zero (suc m) (c ∷ cs) h k = absurd (omega (arith, h))
translate_enough (suc n) zero [] h k = refl
translate_enough (suc n) zero (c ∷ cs) h k = absurd (omega (arith, k))
translate_enough (suc n) (suc m) [] h k = refl
translate_enough (suc n) (suc m) (c ∷ cs) h k =
    let same_of : (xs : List ℕ) → length xs ≤ length cs → translate n xs ≡ translate m xs =
      λ xs short. translate_enough n m xs (omega (arith, h, short)) (omega (arith, k, short)) in
    let same = same_of cs (omega arith) in
    elim (Bool-cases (nat_eq c b'*')) [
      | inl y ↦ rw (y, translate) (rw same refl)
      | inr y ↦ elim (Bool-cases (nat_eq c b'?')) [
        | inl z ↦ rw (y, z, translate) (rw same refl)
        | inr z ↦ elim (Bool-cases (nat_eq c b'[')) [
          | inl x ↦
              rw (y, z, x, translate) (after_bracket same_of (set_text cs) (set_text-Shorter cs))
          | inr x ↦ rw (y, z, x, translate) (rw same refl)
        ]
      ]
    ]
  where
    bracket : ℕ → Option (List ℕ × List ℕ) → List Part
    bracket fuel none = literal b'[' ∷ translate fuel cs
    bracket fuel (some (body, after)) = set_part body ∷ translate fuel after

    after_bracket :
        ((xs : List ℕ) → length xs ≤ length cs → translate n xs ≡ translate m xs)
        → (found : Option (List ℕ × List ℕ)) → Shorter (length cs) found
        → bracket n found ≡ bracket m found
    after_bracket same none s = ap (λ ps. literal b'[' ∷ ps) (same cs (omega arith))
    after_bracket same (some (body, after)) s =
        ap (λ ps. set_part body ∷ ps) (same after (omega (arith, s)))
