-- ===== src/Double/Share.antt =====
-- How near `percent` is to the share of a part, and that `scale` has fuel enough.
use rate_guardian.Base.{
  ℕ, zero, suc, ◌+◌, ◌*◌, ◌^◌, ◌≤◌, ◌<◌, ◌≡◌, refl, ltb, leb, nat_eq, arith, Bool-cases, inl, inr,
  if◌then◌else◌,
}
use rate_guardian.Double.{nearest, scale, quotient, percent}
use rate_guardian.Double.Nearest.{Near, nearest-Near}

-- Multiplication keeps the order.
pub times-le : (a b t : ℕ) → a ≤ b → a * t ≤ b * t
times-le a b zero h = omega arith
times-le a b (suc t) h = omega (arith, times-le a b t h)

-- A multiple that is at most another and less than one more.
cancel : (a b u c : ℕ) → a * u ≤ b * u + c → c < u → a ≤ b
cancel a b u c h l = elim (Bool-cases (leb a b)) [
  | inl y ↦ ground arith
  | inr y ↦ let more : suc b ≤ a = ground arith in absurd (omega (arith, times-le (suc b) a u more))
]

-- `n` and `u` keep their quotient.
scale-ratio :
    (fuel bound n u b : ℕ) → n ≡ b * u → (scale fuel bound n u).0 ≡ b * (scale fuel bound n u).1
unfolding scale
scale-ratio zero bound n u b e = e
scale-ratio (suc fuel) bound n u b e = elim (Bool-cases (leb bound n)) [
  | inl y ↦ rw (y, scale) e
  | inr y ↦ rw (y, scale) (scale-ratio fuel bound (2 * n) (2 * u) b (omega (arith, e)))
]

scale-grows : (fuel bound n u : ℕ) → u ≤ (scale fuel bound n u).1
unfolding scale
scale-grows zero bound n u = omega arith
scale-grows (suc fuel) bound n u = elim (Bool-cases (leb bound n)) [
  | inl y ↦ rw (y, scale) (omega arith)
  | inr y ↦ rw (y, scale) (omega (arith, scale-grows fuel bound (2 * n) (2 * u)))
]

-- The bound is reached, and not passed by more than a factor of two.
pub scale-reaches :
    (fuel bound n u : ℕ)
    → bound ≤ n * (fuel + 1)
    → n < 2 * bound
    → (bound ≤ (scale fuel bound n u).0) × ((scale fuel bound n u).0 < 2 * bound)
unfolding scale
scale-reaches zero bound n u h k = (omega arith, k)
scale-reaches (suc fuel) bound n u h k = elim (Bool-cases (leb bound n)) [
  | inl y ↦ rw (y, scale) (ground arith, k)
  | inr y ↦ rw (y, scale) (scale-reaches fuel bound (2 * n) (2 * u) (omega arith) (ground arith))
]

-- Three roundings, of which the last is the one that counts.
three_roundings :
    (b t u n m k y z : ℕ)
    → n ≡ b * u
    → Near n t m
    → Near (100 * m) k y
    → Near (10 * (y * k)) u z
    → k ≤ 128
    → t < 2 ^ 40
    → 2 ^ 52 ≤ u
    → Near (1000 * b) t z
three_roundings b t u n m k y z e q1 q2 q3 hk ht hu =
    let kt = times-le k 128 t hk in
    let above2 = times-le (2 * (y * k)) (200 * m + k) t (omega (arith, q2.0)) in
    let below2 = times-le (200 * m) (2 * (y * k) + k) t (omega (arith, q2.1)) in
    let above3 = times-le (2 * (z * u)) (20 * (y * k) + u) t (omega (arith, q3.0)) in
    let below3 = times-le (20 * (y * k)) (2 * (z * u) + u) t (omega (arith, q3.1)) in
    (
      cancel (2 * (z * t)) (2 * (1000 * b) + t) u (2280 * t)
          (omega (arith, kt, above2, above3, q1.0, e)) (omega arith),
      cancel (2 * (1000 * b)) (2 * (z * t) + t) u (2280 * t)
          (omega (arith, kt, below2, below3, q1.1, e)) (omega arith),
    )

-- The shown percentage is the nearest tenth, for totals below 2^40.
pub percent-Near : (b t : ℕ) → b ≤ t → 0 < t → t < 2 ^ 40 → Near (1000 * b) t (percent b t)
unfolding percent quotient
percent-Near b t h p small = elim (Bool-cases (nat_eq b 0)) [
  | inl y ↦ rw y (ground arith)
  | inr y ↦ rw y (nonzero (ground arith))
]
  where
    run : ℕ × ℕ
    run = scale t (t * 2 ^ 52) (b * 2 ^ 52) (2 ^ 52)

    nonzero :
        0 < b
        → Near (1000 * b) t (
            let m = nearest run.0 t in
            let k = if ltb (100 * m) (2 ^ 59) then 2 ^ 6 else 2 ^ 7 in
            nearest (10 * (nearest (100 * m) k * k)) run.1)
    nonzero q =
        let m = nearest run.0 t in
        let k : ℕ = if ltb (100 * m) (2 ^ 59) then 2 ^ 6 else 2 ^ 7 in
        let hu : 2 ^ 52 ≤ run.1 = scale-grows t (t * 2 ^ 52) (b * 2 ^ 52) (2 ^ 52) in
        three_roundings b t run.1 run.0 m k (nearest (100 * m) k) _
          (scale-ratio t (t * 2 ^ 52) (b * 2 ^ 52) (2 ^ 52) b refl) (nearest-Near run.0 t p)
          (nearest-Near (100 * m) k (ground arith))
          (nearest-Near (10 * (nearest (100 * m) k * k)) run.1 (omega arith)) (ground arith) small
          hu
