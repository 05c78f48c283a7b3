-- ===== src/Common/Int.antt =====
-- `math/big`'s integers over the native numbers, under the library's names, with the operations
-- that the program calls: Sign, BitLen, Cmp, Sub, Mul, Div (Euclidean) and SetUint64.
use Prim.Native.Nat.{ℕ, suc, ◌+◌, ◌-◌, ◌*◌, ◌/◌, ◌^◌}
use mathlib.Core.Bool.{Bool, true, false}
use mathlib.Core.Option.{Option, none, some}
use aegis_labs.Common.Tests.{ltb, leb, ◌==◌, if◌then◌else◌}

-- `negsuc n` is -(n + 1).
pub data ℤ : Type 0 where
  pos : ℕ → ℤ
  negsuc : ℕ → ℤ

-- a - b, as an integer.
abbrev pub sub_ℕ : ℕ → ℕ → ℤ
sub_ℕ a b = if leb b a then pos (a - b) else negsuc (b - a - 1)

-- `x.Sign() < 0`, `x.Sign() <= 0`
abbrev pub is_neg : ℤ → Bool
is_neg (pos n) = false
is_neg (negsuc n) = true

abbrev pub is_nonpos : ℤ → Bool
is_nonpos (pos n) = n == 0
is_nonpos (negsuc n) = true

-- |x|
abbrev pub abs : ℤ → ℕ
abs (pos n) = n
abs (negsuc n) = suc n

abbrev pub uint256_mod : ℕ
uint256_mod = 2 ^ 256

-- `x.BitLen() > 256`: BitLen is the length of |x| in bits.
abbrev pub exceeds_256_bits : ℤ → Bool
exceeds_256_bits x = leb uint256_mod (abs x)

-- `x.Cmp(y) < 0`
unfoldable pub lt_ℤ : ℤ → ℤ → Bool
lt_ℤ (pos a) (pos b) = ltb a b
lt_ℤ (pos a) (negsuc b) = false
lt_ℤ (negsuc a) (pos b) = true
lt_ℤ (negsuc a) (negsuc b) = ltb b a

infixl 65 ◌-ℤ◌
infixl 70 ◌*ℤ◌
unfoldable pub ◌-ℤ◌ : ℤ → ℤ → ℤ
pos a -ℤ pos b = sub_ℕ a b
pos a -ℤ negsuc b = pos (a + suc b)
negsuc a -ℤ pos b = negsuc (a + b)
negsuc a -ℤ negsuc b = sub_ℕ (suc b) (suc a)

unfoldable pub ◌*ℤ◌ : ℤ → ℤ → ℤ
pos a *ℤ pos b = pos (a * b)
pos a *ℤ negsuc b = sub_ℕ 0 (a * suc b)
negsuc a *ℤ pos b = sub_ℕ 0 (suc a * b)
negsuc a *ℤ negsuc b = pos (suc a * suc b)

-- `z.Div(x, y)`: Euclidean division. `none` is the panic of a zero divisor.
unfoldable pub div_ℤ : ℤ → ℤ → Option ℤ
div_ℤ (pos a) (pos b) = if b == 0 then none else some (pos (a / b))
div_ℤ (negsuc a) (pos b) = if b == 0 then none else some (negsuc (a / b))
div_ℤ (pos a) (negsuc b) = some (sub_ℕ 0 (a / suc b))
div_ℤ (negsuc a) (negsuc b) = some (pos (a / suc b + 1))

-- `x.Cmp(y) == 0`
abbrev pub eq_ℤ : ℤ → ℤ → Bool
eq_ℤ (pos a) (pos b) = a == b
eq_ℤ (negsuc a) (negsuc b) = a == b
eq_ℤ _ _ = false
