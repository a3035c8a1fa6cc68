-- ===== src/Fnmatch/Fits.antt =====
-- What it means that a text fits a pattern, for the matches of
-- app/models/repositories/rule_repository.py.
use rate_guardian.Base.{
  ℕ, ◌≡◌, refl, ap, ◌↔◌, true, List, [], ◌∷◌, ◌++◌, arith, Bool-cases, inl, inr, and_true,
}
use rate_guardian.Fnmatch.{Part, literal, any, star, set, takes, match_parts}

-- A star takes any part of the text, every other part one character.
unfoldable pub Fits : List Part → List ℕ → Type 0
Fits [] cs = cs ≡ []
Fits (star ∷ ps) cs = (taken left : List ℕ) × (cs ≡ taken ++ left) × Fits ps left
Fits (p ∷ ps) cs = (c : ℕ) × (left : List ℕ) × (cs ≡ c ∷ left) × (takes p c ≡ true) × Fits ps left

match_parts-Fits : (ps : List Part) (cs : List ℕ) → match_parts ps cs ≡ true → Fits ps cs
unfolding match_parts Fits
match_parts-Fits [] [] h = refl
match_parts-Fits [] (c ∷ cs) h = ground arith
match_parts-Fits (star ∷ ps) [] h = ([], [], refl, match_parts-Fits ps [] h)
match_parts-Fits (star ∷ ps) (c ∷ cs) h = elim (Bool-cases (match_parts ps (c ∷ cs))) [
  | inl y ↦ ([], c ∷ cs, refl, match_parts-Fits ps (c ∷ cs) y)
  | inr n ↦
      let (taken, left, e, fits) = match_parts-Fits (star ∷ ps) cs (ground (arith, n, h)) in
      (c ∷ taken, left, ap (λ xs. c ∷ xs) e, fits)
]
match_parts-Fits (literal d ∷ ps) [] h = ground arith
match_parts-Fits (literal d ∷ ps) (c ∷ cs) h =
    let (a, b) = and_true _ _ h in (c, cs, refl, a, match_parts-Fits ps cs b)
match_parts-Fits (any ∷ ps) [] h = ground arith
match_parts-Fits (any ∷ ps) (c ∷ cs) h = (c, cs, refl, refl, match_parts-Fits ps cs h)
match_parts-Fits (set negated is ∷ ps) [] h = ground arith
match_parts-Fits (set negated is ∷ ps) (c ∷ cs) h =
    let (a, b) = and_true _ _ h in (c, cs, refl, a, match_parts-Fits ps cs b)

-- What a star leaves over may be any end of the text.
star_takes :
    (ps : List Part) (taken left : List ℕ)
    → match_parts ps left ≡ true
    → match_parts (star ∷ ps) (taken ++ left) ≡ true
unfolding match_parts
star_takes ps [] [] h = h
star_takes ps [] (c ∷ cs) h = rw h refl
star_takes ps (c ∷ taken) left h = ground (arith, star_takes ps taken left h)

Fits-match_parts : (ps : List Part) (cs : List ℕ) → Fits ps cs → match_parts ps cs ≡ true
unfolding match_parts Fits
Fits-match_parts [] cs h = rw h refl
Fits-match_parts (star ∷ ps) cs (taken, left, e, h) =
    rw e (star_takes ps taken left (Fits-match_parts ps left h))
Fits-match_parts (literal d ∷ ps) cs (c, left, e, t, h) = rw e (rw t (Fits-match_parts ps left h))
Fits-match_parts (any ∷ ps) cs (c, left, e, t, h) = rw e (Fits-match_parts ps left h)
Fits-match_parts (set negated is ∷ ps) cs (c, left, e, t, h) =
    rw e (rw t (Fits-match_parts ps left h))

pub match_parts_iff : (ps : List Part) (cs : List ℕ) → (match_parts ps cs ≡ true) ↔ Fits ps cs
match_parts_iff ps cs = (match_parts-Fits ps cs, Fits-match_parts ps cs)
