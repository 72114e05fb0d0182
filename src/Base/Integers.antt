-- ===== src/Base/Integers.antt =====
-- The integers over the native numbers: what a signed column holds, added and compared.
use Prim.Native.Nat.{ℕ, suc, ◌+◌, ◌-◌}
use mathlib.Core.Path.{◌≡◌, refl}
use mathlib.Core.Bool.{Bool, true, false}
use native.Mathlib.Omega.{arith}
use ios_backend.Base.Tests.{ltb, if◌then◌else◌}

-- `negsuc n` is -(n + 1).
pub data ℤ : Type 0 where
  pos : ℕ → ℤ
  negsuc : ℕ → ℤ

-- `m - (n + 1)`.
abbrev pub pos_minus_suc : ℕ → ℕ → ℤ
pos_minus_suc m n = if ltb n m then pos (m - suc n) else negsuc (n - m)

infixl 6 ◌+ℤ◌
abbrev pub ◌+ℤ◌ : ℤ → ℤ → ℤ
pos m +ℤ pos n = pos (m + n)
pos m +ℤ negsuc n = pos_minus_suc m n
negsuc m +ℤ pos n = pos_minus_suc n m
negsuc m +ℤ negsuc n = negsuc (suc (m + n))

abbrev pub is_negative : ℤ → Bool
is_negative (pos n) = false
is_negative (negsuc n) = true

abbrev pub magnitude : ℤ → ℕ
magnitude (pos n) = n
magnitude (negsuc n) = suc n

pub magnitude_lem : (z : ℤ) → is_negative z ≡ false → z ≡ pos (magnitude z)
magnitude_lem (pos n) h = refl
magnitude_lem (negsuc n) h = absurd (ground (arith, h))
