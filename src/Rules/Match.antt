-- ===== src/Rules/Match.antt =====
-- What `RuleRepository.match` of app/models/repositories/rule_repository.py returns, in terms of the
-- rows of the table.
use mathlib.Core.List.{Mem}
use mathlib.Core.List.Perm
use rate_guardian.Base.{
  and_true, ◌≤◌, ◌≡◌, refl, sym, ap, ◌∙◌, String, Bool, true, false, Option, some, List, [], ◌∷◌,
  map, select, first, arith, inl, inr, Bool-cases, Option-cases, first-some, first-none,
  first-least, mem-select, mem-select_of,
}
use rate_guardian.Models.{Rule, CachedRule}
use rate_guardian.Fnmatch.{fnmatch}
use rate_guardian.Redis.{Redis}
use rate_guardian.Table.{Table}
use rate_guardian.Rules.{rule_id, applies, to_payload, World, payload, match}
use rate_guardian.Rules.Cache.{Coherent, match_lem}

first-map {ℓ κ} :
    {A : Type ℓ} {B : Type κ} (f : A → B) (p : B → Bool) (xs : List A) (b : B)
    → first p (map f xs) ≡ some b
    → (a : A) × (first (λ x. p (f x)) xs ≡ some a) × (f a ≡ b)
first-map f p [] b e = cc
first-map f p (x ∷ xs) b e = elim (Bool-cases (p (f x))) [
  | inl h ↦ (x, rw h refl, found h e)
  | inr h ↦ let (a, e', k) = first-map f p xs b (missed h e) in (a, rw h e', k)
]
  where
    found : p (f x) ≡ true → first p (map f (x ∷ xs)) ≡ some b → f x ≡ b
    found h q = ground arith

    missed : p (f x) ≡ false → first p (map f (x ∷ xs)) ≡ some b → first p (map f xs) ≡ some b
    missed h q = ground arith

first-map-some {ℓ κ} :
    {A : Type ℓ} {B : Type κ} (f : A → B) (p : B → Bool) (xs : List A) (a : A)
    → first (λ x. p (f x)) xs ≡ some a
    → first p (map f xs) ≡ some (f a)
first-map-some f p [] a e = cc
first-map-some f p (x ∷ xs) a e = ground (arith, first-map-some f p xs a)

-- A row that a request for a path falls under.
pub record Applies (path : String) (x : Rule) : Type 0 where
  pub is_active : x.active ≡ true
  pub fits : fnmatch path x.path_pattern ≡ true

module _ (r : Redis) (t : Table Rule rule_id) where
  -- The rows in the order of the loop.
  abbrev ordered : World r t → List Rule
  ordered w = t.ascending (λ x. x.created_at) (select (λ x. x.active) (t.rows w.db))

  ordered-mem : (w : World r t) (x : Rule) → Mem x (ordered w) → Mem x (t.rows w.db)
  ordered-mem w x m = mem-select _ _ x ((Perm.mem_iff (t.perm-ascending _ _)).0 m)

  ordered-mem_of :
      (w : World r t) (x : Rule) → Mem x (t.rows w.db) → x.active ≡ true → Mem x (ordered w)
  ordered-mem_of w x m h = (Perm.mem_iff (t.perm-ascending _ _)).1 (mem-select_of _ _ x m h)

  answer :
      (w w' : World r t) (path : String) (c : Option CachedRule)
      → Coherent r t w
      → match r t w path ≡ some (c, w')
      → first (applies path) (payload r t w.db) ≡ c
  answer w w' path c h e = let m = match_lem r t w path h in cc (sym m.answer ∙ e)

  -- Where the cache is empty or agrees with the table, a rule that `match` returns is the
  -- payload of a row of the table that is active and whose pattern the path fits.
  pub match_sound :
      (w w' : World r t) (path : String) (c : CachedRule)
      → Coherent r t w
      → match r t w path ≡ some (some c, w')
      → (x : Rule) × Mem x (t.rows w.db) × (to_payload x ≡ c) × Applies path x
  match_sound w w' path c h e =
      let (x, found, same) =
        first-map to_payload (applies path) (ordered w) c (answer w w' path (some c) h e) in
      let (m, ok) = first-some _ (ordered w) x found in
      let (a, f) = and_true _ _ ok in
      (x, ordered-mem w x m, same, record { is_active = a; fits = f })

  -- Where the cache is empty or agrees with the table, and an active row has a pattern that the
  -- path fits, `match` returns such a row of the table, and one that was created no later.
  pub match_first :
      (w : World r t) (path : String) (y : Rule)
      → Coherent r t w
      → Mem y (t.rows w.db)
      → Applies path y
      → (x : Rule) × (w' : World r t) × (match r t w path ≡ some (some (to_payload x), w'))
        × Applies path x
        × Mem x (t.rows w.db)
        × (x.created_at ≤ y.created_at)
  match_first w path y h m a =
      let matched = match_lem r t w path h in
      let w' = matched.after in
      let p = λ (x : Rule). applies path (to_payload x) in
      let passes : p y ≡ true = rw (a.is_active, a.fits) refl in
      let listed = ordered-mem_of w y m a.is_active in
      elim (Option-cases (first p (ordered w))) [
        | inl missing ↦ cc (sym passes ∙ first-none p (ordered w) y missing listed)
        | inr (x, found) ↦
            let (n, ok) = first-some p (ordered w) x found in
            let (act, fits) = and_true _ _ ok in
            (
              x,
              w',
              matched.answer
                  ∙ ap (λ c. some (c, w'))
                      (first-map-some to_payload (applies path) (ordered w) x found),
              record { is_active = act; fits = fits },
              ordered-mem w x n,
              first-least (λ z. z.created_at) p (ordered w) x y (t.ascending-IsAscending _ _) found
                  listed passes,
            )
      ]
