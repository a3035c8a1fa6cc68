-- ===== src/Double.antt =====
-- The floating-point arithmetic of the program, on numbers that are not negative: an IEEE 754 double
-- is written as a quotient `m / u` of natural numbers, `u` a power of two.
pub mod Nearest
pub mod Share
use rate_guardian.Base.{
  ℕ, zero, suc, ◌+◌, ◌*◌, ◌/◌, ◌%◌, ◌^◌, Bool, true, false, ltb, leb, nat_eq, if◌then◌else◌,
}

-- The whole number nearest to `n / d`, of two that are equally near the even one.
unfoldable pub nearest : ℕ → ℕ → ℕ
nearest n d =
    let q = n / d in
    let r = n % d in if ltb (2 * r) d then q else if ltb d (2 * r) then q + 1 else q + q % 2

-- Doubles `n` and `u` until `n` reaches a bound, so that the quotient has 53 bits.
pub scale : ℕ → ℕ → ℕ → ℕ → ℕ × ℕ
scale zero bound n u = (n, u)
scale (suc fuel) bound n u = elim (leb bound n) [
  | true ↦ (n, u)
  | false ↦ scale fuel bound (2 * n) (2 * u)
]

-- `b / t` for `0 < b <= t`: the nearest double, which is `m / u` with a 53-bit `m`.
pub quotient : ℕ → ℕ → ℕ × ℕ
quotient b t = let (n, u) = scale t (t * 2 ^ 52) (b * 2 ^ 52) (2 ^ 52) in (nearest n t, u)

-- `round(b / t * 100, 1)` for `b <= t` and `0 < t`, as a number of tenths. The product has 59 or 60
-- bits, of which the last six or seven are rounded off.
pub percent : ℕ → ℕ → ℕ
percent b t =
    if nat_eq b 0
    then 0
    else (let (m, u) = quotient b t in
        let k = if ltb (100 * m) (2 ^ 59) then 2 ^ 6 else 2 ^ 7 in
        nearest (10 * (nearest (100 * m) k * k)) u)
