-- ===== src/Rules/Patterns.antt =====
-- Which rules a path falls under, in the loop of `RuleRepository.match` of
-- app/models/repositories/rule_repository.py: what `path_pattern` says, apart from how it is matched.
use rate_guardian.Base.{
  ℕ, ◌≤◌, ◌≡◌, refl, ◌↔◌, String, true, List, [], ◌∷◌, ◌++◌, map, All, length, and_true, arith,
}
use rate_guardian.Models.{CachedRule}
use rate_guardian.Fnmatch.{codes, literal, star, translate, fnmatch}
use rate_guardian.Fnmatch.Fits.{Fits, match_parts_iff}
use rate_guardian.Fnmatch.Fuel.{translate_enough}
use rate_guardian.Fnmatch.Prefix.{IsPlain, translate-plain, Fits-prefix}
use rate_guardian.Rules.{applies}

-- A rule applies to a path exactly if it is active and the path fits the parts that its pattern
-- is read into, a star standing for any text and every other part for one character; any amount
-- of fuel that is at least the pattern's length reads the same parts.
pub applies_iff :
    (path : String) (rule : CachedRule) (fuel : ℕ)
    → length (codes rule.path_pattern) ≤ fuel
    → (applies path rule ≡ true)
      ↔ ((rule.active ≡ true) × Fits (translate fuel (codes rule.path_pattern)) (codes path))
unfolding fnmatch
applies_iff path rule fuel enough =
    let cs = codes rule.path_pattern in
    let ps = translate (length cs) cs in
    let iff = match_parts_iff ps (codes path) in
    rw (← translate_enough (length cs) fuel cs (omega arith) enough)
      ((λ h. let (a, b) = and_true _ _ h in (a, iff.0 b)), (λ (a, b). rw (a, iff.1 b) refl))

-- A rule whose pattern is a text without *, ? and [, followed by one star, applies to a path
-- exactly if it is active and the path begins with the text.
pub applies_prefix :
    (path : String) (rule : CachedRule) (prefix : List ℕ)
    → All IsPlain prefix
    → codes rule.path_pattern ≡ prefix ++ b'*' ∷ []
    → (applies path rule ≡ true)
      ↔ ((rule.active ≡ true) × (rest : List ℕ) × (codes path ≡ prefix ++ rest))
applies_prefix path rule prefix plain e =
    let cs = codes rule.path_pattern in
    let parts : translate (length cs) cs ≡ map literal prefix ++ star ∷ [] =
      rw e (translate-plain prefix plain) in
    let fits = Fits-prefix prefix (codes path) in
    let iff = applies_iff path rule (length cs) (omega arith) in
    (
      (λ h. let (a, b) = iff.0 h in let (rest, e') = fits.0 (rw parts at b) in (a, rest, e')),
      (λ (a, rest, e'). iff.1 (a, rw parts (fits.1 (rest, e')))),
    )
