-- ===== src/Fnmatch/Prefix.antt =====
-- Patterns that are a plain text and a star, as the `/proxy/*` of README.md.
use mathlib.Core.List.{append-nil}
use rate_guardian.Base.{
  ℕ, ◌≡◌, refl, ap, sym, ◌∙◌, ◌↔◌, false, List, [], ◌∷◌, ◌++◌, map, All, arith, nat_eq, length,
}
use rate_guardian.Fnmatch.{literal, star, translate}
use rate_guardian.Fnmatch.Fits.{Fits}

-- A character with no meaning of its own in a pattern.
abbrev pub IsPlain : ℕ → Type 0
IsPlain c = (nat_eq c b'*' ≡ false) × (nat_eq c b'?' ≡ false) × (nat_eq c b'[' ≡ false)

pub translate-plain :
    (prefix : List ℕ)
    → All IsPlain prefix
    → translate (length (prefix ++ b'*' ∷ [])) (prefix ++ b'*' ∷ [])
      ≡ map literal prefix ++ star ∷ []
unfolding translate
translate-plain [] h = refl
translate-plain (c ∷ cs) h =
    let (one, two, three) = h.0 in
    rw (one, two, three, translate) (ap (λ ps. literal c ∷ ps) (translate-plain cs h.1))

starts_with :
    (prefix cs : List ℕ)
    → Fits (map literal prefix ++ star ∷ []) cs
    → (rest : List ℕ) × (cs ≡ prefix ++ rest)
unfolding Fits
starts_with [] cs (taken, left, e, h) = (cs, refl)
starts_with (d ∷ prefix) cs (c, left, e, t, h) =
    let (rest, e') = starts_with prefix left h in
    let same : d ≡ c = ground (arith, t) in (rest, e ∙ cc (same, e'))

has_prefix : (prefix rest : List ℕ) → Fits (map literal prefix ++ star ∷ []) (prefix ++ rest)
unfolding Fits
has_prefix [] rest = (rest, [], sym (append-nil rest), refl)
has_prefix (d ∷ prefix) rest = (d, prefix ++ rest, refl, ground arith, has_prefix prefix rest)

pub Fits-prefix :
    (prefix cs : List ℕ)
    → Fits (map literal prefix ++ star ∷ []) cs ↔ ((rest : List ℕ) × (cs ≡ prefix ++ rest))
Fits-prefix prefix cs = (starts_with prefix cs, λ (rest, e). rw e (has_prefix prefix rest))
