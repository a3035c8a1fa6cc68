-- ===== src/Double/Nearest.antt =====
-- What `nearest` promises.
use native.Mathlib.Nat.{div-add-mod', mod-lt}
use rate_guardian.Base.{
  ℕ, ◌+◌, ◌*◌, ◌/◌, ◌%◌, ◌≤◌, ◌<◌, ◌≡◌, ltb, arith, Bool-cases, inl, inr, sym, subst,
}
use rate_guardian.Double.{nearest}

-- At most half a unit away.
abbrev pub Near : ℕ → ℕ → ℕ → Type 0
Near n d q = (2 * (q * d) ≤ 2 * n + d) × (2 * n ≤ 2 * (q * d) + d)

below-Near : (n d q r : ℕ) → q * d + r ≡ n → 2 * r ≤ d → Near n d q
below-Near n d q r e h = (omega arith, omega arith)

above-Near : (n d q r : ℕ) → q * d + r ≡ n → r < d → d ≤ 2 * r → Near n d (q + 1)
above-Near n d q r e l h = (omega arith, omega arith)

even-Near : (n d q r : ℕ) → q * d + r ≡ n → r < d → 2 * r ≡ d → Near n d (q + q % 2)
even-Near n d q r e l h = elim (Bool-cases (ltb (q % 2) 1)) [
  | inl y ↦
      let zero_bit : q + q % 2 ≡ q = ground arith in
      subst (Near n d) (sym zero_bit) (below-Near n d q r e (omega arith))
  | inr y ↦
      let one_bit : q + q % 2 ≡ q + 1 = ground arith in
      subst (Near n d) (sym one_bit) (above-Near n d q r e l (omega arith))
]

pub nearest-Near : (n d : ℕ) → 0 < d → Near n d (nearest n d)
unfolding nearest
nearest-Near n d h =
    let e : n / d * d + n % d ≡ n = div-add-mod' n d in
    let l : n % d < d = mod-lt n h in
    elim (Bool-cases (ltb (2 * (n % d)) d)) [
      | inl y ↦ rw (y, nearest) (below-Near n d (n / d) (n % d) e (ground arith))
      | inr y ↦ elim (Bool-cases (ltb d (2 * (n % d)))) [
        | inl z ↦ rw (y, nearest) (rw z (above-Near n d (n / d) (n % d) e l (ground arith)))
        | inr z ↦ rw (y, nearest) (rw z (even-Near n d (n / d) (n % d) e l (ground arith)))
      ]
    ]
