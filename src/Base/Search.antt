-- ===== src/Base/Search.antt =====
-- What `first` finds and `select` keeps, in the words of the library's `Mem` and `Perm`.
use Prim.Native.Nat.{ℕ, ◌≤◌}
use native.Mathlib.Bridge.{le_prop}
use mathlib.Core.List.{Mem, Mem-prop, Perm, mem-cons, mem-cons_self, mem-cons_of_mem, not-mem-nil}
use mathlib.Core.List.Perm
use mathlib.Core.Logic.Or
use mathlib.Core.Path.{◌≡◌, refl, sym, subst, ap, ◌∙◌}
use mathlib.Core.Logic.{◌⊎◌, inl, inr}
use mathlib.Core.Bool.{Bool, true, false}
use mathlib.Core.List.{List, [], ◌∷◌}
use mathlib.Core.Option.{none, some}
use native.Mathlib.Omega.{arith}
use rate_guardian.Base.Tests.{if◌then◌else◌, Bool-cases, Option-cases}
use rate_guardian.Base.Lists.{first, select, All}

pub Bool-set : IsSet Bool
Bool-set = hlevel

module _ {ℓ} {A : Type ℓ} (p : A → Bool) where
  pub first-some : (xs : List A) (x : A) → first p xs ≡ some x → Mem x xs × (p x ≡ true)
  first-some [] x e = cc
  first-some (y ∷ xs) x e = elim (Bool-cases (p y)) [
    | inl h ↦
        let same : y ≡ x = found h e in
        (subst (λ z. Mem z (y ∷ xs)) same mem-cons_self, subst (λ z. p z ≡ true) same h)
    | inr h ↦ let rest = first-some xs x (missed h e) in (mem-cons_of_mem y rest.0, rest.1)
  ]
    where
      found : p y ≡ true → (if p y then some y else first p xs) ≡ some x → y ≡ x
      found h e = ground arith

      missed : p y ≡ false → (if p y then some y else first p xs) ≡ some x → first p xs ≡ some x
      missed h e = ground arith

  pub first-none : (xs : List A) (x : A) → first p xs ≡ none → Mem x xs → p x ≡ false
  first-none [] x e m = absurd (not-mem-nil m)
  first-none (y ∷ xs) x e m =
      Or.elim (Bool-set _ _) (mem-cons.0 m) (λ same. rw same (head e))
        (λ n. first-none xs x (tail e) n)
    where
      head : (if p y then some y else first p xs) ≡ none → p y ≡ false
      head e = ground arith

      tail : (if p y then some y else first p xs) ≡ none → first p xs ≡ none
      tail e = ground arith

  pub mem-select : (xs : List A) (x : A) → Mem x (select p xs) → Mem x xs
  mem-select [] x m = m
  mem-select (y ∷ xs) x m = elim (Bool-cases (p y)) [
    | inl h ↦
        Or.elim Mem-prop (mem-cons.0 (subst (Mem x) (kept h) m)) (λ e. rw e mem-cons_self)
          (λ n. mem-cons_of_mem y (mem-select xs x n))
    | inr h ↦ mem-cons_of_mem y (mem-select xs x (subst (Mem x) (dropped h) m))
  ]
    where
      kept : p y ≡ true → select p (y ∷ xs) ≡ y ∷ select p xs
      kept h = rw h refl

      dropped : p y ≡ false → select p (y ∷ xs) ≡ select p xs
      dropped h = rw h refl

  pub select-holds : (xs : List A) (x : A) → Mem x (select p xs) → p x ≡ true
  select-holds [] x m = absurd (not-mem-nil m)
  select-holds (y ∷ xs) x m = elim (Bool-cases (p y)) [
    | inl h ↦
        Or.elim (Bool-set _ _) (mem-cons.0 (subst (Mem x) (kept h) m)) (λ e. rw e h)
          (λ n. select-holds xs x n)
    | inr h ↦ select-holds xs x (subst (Mem x) (dropped h) m)
  ]
    where
      kept : p y ≡ true → select p (y ∷ xs) ≡ y ∷ select p xs
      kept h = rw h refl

      dropped : p y ≡ false → select p (y ∷ xs) ≡ select p xs
      dropped h = rw h refl

  pub mem-select_of : (xs : List A) (x : A) → Mem x xs → p x ≡ true → Mem x (select p xs)
  mem-select_of [] x m h = m
  mem-select_of (y ∷ xs) x m h =
      Or.elim Mem-prop (mem-cons.0 m) (λ e. rw (← e) (rw h mem-cons_self))
        (λ n. later (Bool-cases (p y)) (mem-select_of xs x n h))
    where
      later : (p y ≡ true) ⊎ (p y ≡ false) → Mem x (select p xs) → Mem x (select p (y ∷ xs))
      later (inl e) n = rw e (mem-cons_of_mem y n)
      later (inr e) n = rw e n

  -- Where at most one element passes, the order does not matter.
  pub first-perm :
      (xs ys : List A)
      → Perm xs ys
      → ((a b : A) → Mem a xs → Mem b xs → p a ≡ true → p b ≡ true → a ≡ b)
      → first p xs ≡ first p ys
  first-perm xs ys π unique = elim (Option-cases (first p xs)) [
    | inl e ↦ elim (Option-cases (first p ys)) [
      | inl e' ↦ e ∙ sym e'
      | inr (y, e') ↦
          let (m, h) = first-some ys y e' in cc (sym h ∙ first-none xs y e ((Perm.mem_iff π).1 m))
    ]
    | inr (x, e) ↦ elim (Option-cases (first p ys)) [
      | inl e' ↦
          let (m, h) = first-some xs x e in cc (sym h ∙ first-none ys x e' ((Perm.mem_iff π).0 m))
      | inr (y, e') ↦
          let (m, h) = first-some xs x e in
          let (n, k) = first-some ys y e' in
          e ∙ ap some (unique x y m ((Perm.mem_iff π).1 n) h k) ∙ sym e'
    ]
  ]

module _ {ℓ κ} {A : Type ℓ} (P : A → Type κ) (prop : (x : A) → IsProp (P x)) where
  pub All-mem : (xs : List A) (x : A) → All P xs → Mem x xs → P x
  All-mem [] x h m = absurd (not-mem-nil m)
  All-mem (y ∷ xs) x h m = Or.elim (prop x) (mem-cons.0 m) (λ e. rw e h.0) (λ n. All-mem xs x h.1 n)

-- Rows in order of a number that each carries.
abbrev pub IsAscending {ℓ} : {A : Type ℓ} → (A → ℕ) → List A → Type ℓ
IsAscending key [] = Unit
IsAscending key (x ∷ xs) = All (λ y. key x ≤ key y) xs × IsAscending key xs

abbrev pub IsDescending {ℓ} : {A : Type ℓ} → (A → ℕ) → List A → Type ℓ
IsDescending key [] = Unit
IsDescending key (x ∷ xs) = All (λ y. key y ≤ key x) xs × IsDescending key xs

module _ {ℓ} {A : Type ℓ} (key : A → ℕ) (p : A → Bool) where
  -- The first that passes is the least that passes.
  pub first-least :
      (xs : List A) (x y : A)
      → IsAscending key xs
      → first p xs ≡ some x
      → Mem y xs
      → p y ≡ true
      → key x ≤ key y
  first-least [] x y s e m h = absurd (not-mem-nil m)
  first-least (z ∷ xs) x y s e m h = elim (Bool-cases (p z)) [
    | inl k ↦
        let same : z ≡ x = found k e in
        Or.elim le_prop (mem-cons.0 m) (λ q. rw (q, same) (omega arith))
          (λ n. rw (← same) (All-mem (λ w. key z ≤ key w) (λ w. le_prop) xs y s.0 n))
    | inr k ↦
        Or.elim le_prop (mem-cons.0 m) (λ q. cc (sym h ∙ ap p q ∙ k))
          (λ n. first-least xs x y s.1 (missed k e) n h)
  ]
    where
      found : p z ≡ true → (if p z then some z else first p xs) ≡ some x → z ≡ x
      found k q = ground arith

      missed : p z ≡ false → (if p z then some z else first p xs) ≡ some x → first p xs ≡ some x
      missed k q = ground arith
