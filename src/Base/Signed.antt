-- ===== src/Base/Signed.antt =====
-- Signed differences of native numbers, for subtractions that Python lets go below zero.
use Prim.Native.Nat.{ℕ, ◌-◌}
use mathlib.Core.Bool.{Bool, false}
use rate_guardian.Base.Tests.{leb, if◌then◌else◌}

-- `negsuc n` is -(n + 1).
pub data ℤ : Type 0 where
  pos : ℕ → ℤ
  negsuc : ℕ → ℤ

-- a - b
abbrev pub sub_ℕ : ℕ → ℕ → ℤ
sub_ℕ a b = if leb b a then pos (a - b) else negsuc (b - a - 1)

-- x <= z
abbrev pub leb_ℤ : ℕ → ℤ → Bool
leb_ℤ x (pos n) = leb x n
leb_ℤ x (negsuc n) = false

-- max(z, 0)
abbrev pub clamp : ℤ → ℕ
clamp (pos n) = n
clamp (negsuc n) = 0
