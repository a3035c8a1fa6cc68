-- ===== src/Page/Replace.antt =====
-- What `replace` leaves alone, and what it replaces.
use mathlib.Core.List.{append_assoc}
use rate_guardian.Base.{
  ℕ, zero, suc, ◌-◌, ◌≤◌, ◌≡◌, refl, sym, ap, ◌∙◌, Bool, true, false, not, ◌&&◌, ◌||◌, [], ◌∷◌,
  ◌++◌, length, nat_eq, arith, All, and_true, Bool-cases, inl, inr,
}
use rate_guardian.Page.Text.{Text, is_prefix, replace_from, replace, is_plain}

-- The two texts differ before either ends.
abbrev clash : Text → Text → Bool
clash [] s = false
clash (o ∷ os) [] = false
clash (o ∷ os) (c ∷ s) = not (nat_eq o c) || clash os s

-- No occurrence of the first text begins in the second, whatever follows.
abbrev pub is_absent : Text → Text → Bool
is_absent old [] = true
is_absent old (c ∷ s) = clash old (c ∷ s) && is_absent old s

clash-prefix : (old s rest : Text) → clash old s ≡ true → is_prefix old (s ++ rest) ≡ false
clash-prefix [] s rest h = cc
clash-prefix (o ∷ os) [] rest h = cc
clash-prefix (o ∷ os) (c ∷ s) rest h = ground (arith, clash-prefix os s rest)

pub replace-absent :
    (old new s rest : Text)
    → is_absent old s ≡ true
    → replace old new (s ++ rest) ≡ s ++ replace old new rest
unfolding replace_from
replace-absent old new [] rest h = refl
replace-absent old new (c ∷ s) rest h =
    let (here, later) = and_true _ _ h in
    rw (clash-prefix old (c ∷ s) rest here, replace_from)
      (ap (λ t. c ∷ t) (replace-absent old new s rest later))

pub plain-absent : (os s : Text) → is_plain s ≡ true → is_absent (b'{' ∷ b'{' ∷ os) s ≡ true
unfolding is_plain
plain-absent os [] h = refl
plain-absent os (c ∷ []) h = ground arith
plain-absent os (c ∷ d ∷ s) h = ground (arith, plain-absent os (d ∷ s))

skipped :
    (old new x rest : Text) → replace_from (length x) old new (x ++ rest) ≡ replace old new rest
unfolding replace_from
skipped old new [] rest = refl
skipped old new (c ∷ x) rest = skipped old new x rest

-- An occurrence.
pub replace-old :
    (o : ℕ) (os new rest : Text)
    → replace (o ∷ os) new ((o ∷ os) ++ rest) ≡ new ++ replace (o ∷ os) new rest
unfolding replace_from
replace-old o os new rest =
    rw (prefix-append (o ∷ os) rest, replace_from)
      (ap (λ (k : ℕ). new ++ replace_from k (o ∷ os) new (os ++ rest)) (omega arith)
        ∙ ap (λ t. new ++ t) (skipped (o ∷ os) new os rest))
  where
    prefix-append : (x y : Text) → is_prefix x (x ++ y) ≡ true
    prefix-append [] y = refl
    prefix-append (c ∷ x) y = ground (arith, prefix-append x y)

-- A text that begins with a character that `old` does not have ends the occurrences before it.
prefix-stop :
    (old x y : Text) (d : ℕ)
    → All (λ o. nat_eq o d ≡ false) old
    → is_prefix old (x ++ d ∷ y) ≡ is_prefix old x
prefix-stop [] x y d h = refl
prefix-stop (o ∷ os) [] y d h = ground arith
prefix-stop (o ∷ os) (c ∷ x) y d h = ground (arith, prefix-stop os x y d)

prefix-length : (old x : Text) → is_prefix old x ≡ true → length old ≤ length x
prefix-length [] x h = omega arith
prefix-length (o ∷ os) [] h = cc
prefix-length (o ∷ os) (c ∷ x) h = ground (arith, prefix-length os x)

pub replace_from-append :
    (skip : ℕ) (old new x y : Text) (d : ℕ)
    → All (λ o. nat_eq o d ≡ false) old
    → skip ≤ length x
    → replace_from skip old new (x ++ d ∷ y)
      ≡ replace_from skip old new x ++ replace old new (d ∷ y)
unfolding replace_from
replace_from-append zero old new [] y d h k = refl
replace_from-append (suc skip) old new [] y d h k = absurd (omega arith)
replace_from-append (suc skip) old new (c ∷ x) y d h k =
    replace_from-append skip old new x y d h (omega arith)
replace_from-append zero old new (c ∷ x) y d h k = elim (Bool-cases (is_prefix old (c ∷ x))) [
  | inl e ↦
      let k' : length old - 1 ≤ length x = omega (arith, prefix-length old (c ∷ x) e) in
      rw (prefix-stop old (c ∷ x) y d h ∙ e, replace_from)
        (rw (e, replace_from)
          (ap (λ t. new ++ t) (replace_from-append (length old - 1) old new x y d h k')
            ∙ sym (append_assoc new (replace_from (length old - 1) old new x) _)))
  | inr e ↦
      rw (prefix-stop old (c ∷ x) y d h ∙ e, replace_from)
        (rw (e, replace_from)
          (ap (λ t. c ∷ t) (replace_from-append zero old new x y d h (omega arith))))
]
