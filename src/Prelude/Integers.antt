-- ===== src/Prelude/Integers.antt =====
-- Numbers that may be negative, and `parseInt(s, 10) || d`.
use Prim.Native.Nat.{ℕ, zero, suc, ◌-◌, ◌+◌}
use Prim.Native.String.{String}
use mathlib.Core.Bool.{Bool, true, false}
use mathlib.Core.Path.{◌≡◌, refl}
use native.Mathlib.Omega.{arith}
use secure_vault.Prelude.Decimal.{ParsedInt, nan, nonneg, negative, to_string}
use secure_vault.Prelude.Tests.{ltb, leb, if◌then◌else◌}
use secure_vault.Prelude.Text.{◌&◌}

pub data ℤ : Type 0 where
  pos : ℕ → ℤ
  negsuc : ℕ → ℤ

-- `m < n`
abbrev pub ltz : ℤ → ℤ → Bool
ltz (pos m) (pos n) = ltb m n
ltz (pos m) (negsuc n) = false
ltz (negsuc m) (pos n) = true
ltz (negsuc m) (negsuc n) = ltb n m

-- `m - n` of two natural numbers
abbrev pub difference : ℕ → ℕ → ℤ
difference m n = if leb n m then pos (m - n) else negsuc (n - m - 1)

-- `m - n`
infixl 60 ◌-ℤ◌
abbrev pub ◌-ℤ◌ : ℤ → ℤ → ℤ
pos m -ℤ pos n = difference m n
pos m -ℤ negsuc n = pos (m + suc n)
negsuc m -ℤ pos n = negsuc (m + n)
negsuc m -ℤ negsuc n = difference n m

-- `n.toString()`
unfoldable pub print : ℤ → String
print (pos n) = to_string n
print (negsuc n) = "-" & to_string (suc n)

-- A number read by `parseInt`, or `d` for NaN and for 0.
abbrev pub truthy_or : ℤ → ParsedInt → ℤ
truthy_or d nan = d
truthy_or d (nonneg zero) = d
truthy_or d (nonneg (suc n)) = pos (suc n)
truthy_or d (negative zero) = d
truthy_or d (negative (suc n)) = negsuc n

-- `n || d`
abbrev pub nonzero_or : ℤ → ℤ → ℤ
nonzero_or d (pos zero) = d
nonzero_or d n = n

-- The order is transitive past a number that is not below another.
pub not_below_trans : (a b c : ℤ) → ltz b a ≡ false → ltz c b ≡ false → ltz c a ≡ false
not_below_trans (pos a) (pos b) (pos c) h k = ground arith
not_below_trans (pos a) (pos b) (negsuc c) h k = cc
not_below_trans (pos a) (negsuc b) c h k = cc
not_below_trans (negsuc a) (pos b) (pos c) h k = refl
not_below_trans (negsuc a) (pos b) (negsuc c) h k = cc
not_below_trans (negsuc a) (negsuc b) (pos c) h k = refl
not_below_trans (negsuc a) (negsuc b) (negsuc c) h k = ground arith
