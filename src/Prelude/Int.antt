-- ===== src/Prelude/Int.antt =====
-- Signed integers of C++ over the native numbers, exact: a value outside its type's range is
-- undefined behaviour there. `negsuc n` is -(n + 1).
use Prim.Native.Nat.{ℕ, suc, ◌+◌, ◌-◌, ◌*◌, ◌/◌, ◌%◌, ◌^◌, ◌≤◌}
use mathlib.Core.Path.{◌≡◌}
use mathlib.Core.Bool.{Bool}
use native.Mathlib.Omega.{arith}
use pico_wenvironment_logger.Prelude.Tests.{ltb, ◌==◌, if◌then◌else◌}

pub data ℤ : Type 0 where
  pos : ℕ → ℤ
  negsuc : ℕ → ℤ

-- What an integer has above 0, and what below.
abbrev pub above : ℤ → ℕ
above (pos n) = n
above (negsuc n) = 0

abbrev pub below : ℤ → ℕ
below (pos n) = 0
below (negsuc n) = suc n

-- The integer with `p` above 0 and `n` below.
abbrev pub diff : ℕ → ℕ → ℤ
diff p n = if ltb p n then negsuc (n - p - 1) else pos (p - n)

infixl 65 ◌+ℤ◌ ◌-ℤ◌
infixl 70 ◌*ℤ◌
infix 50 ◌≤ℤ◌
unfoldable pub ◌+ℤ◌ : ℤ → ℤ → ℤ
x +ℤ y = diff (above x + above y) (below x + below y)

unfoldable pub ◌-ℤ◌ : ℤ → ℤ → ℤ
x -ℤ y = diff (above x + below y) (above y + below x)

unfoldable pub ◌*ℤ◌ : ℤ → ℤ → ℤ
x *ℤ y = diff (below x * below y + above x * above y) (below x * above y + above x * below y)

abbrev pub ◌≤ℤ◌ : ℤ → ℤ → Type 0
x ≤ℤ y = above x + below y ≤ above y + below x

abbrev pub ltb_ℤ : ℤ → ℤ → Bool
ltb_ℤ x y = ltb (above x + below y) (above y + below x)

abbrev pub eq_ℤ : ℤ → ℤ → Bool
eq_ℤ x y = above x + below y == above y + below x

-- `x >> k`, which rounds down, and `x << k`.
unfoldable pub shr : ℤ → ℕ → ℤ
shr (pos n) k = pos (n / 2 ^ k)
shr (negsuc n) k = negsuc (n / 2 ^ k)

unfoldable pub shl : ℤ → ℕ → ℤ
shl x k = diff (above x * 2 ^ k) (below x * 2 ^ k)

-- `x / y`, which rounds towards 0; at most one summand on each side is not 0.
unfoldable pub div_ℤ : ℤ → ℤ → ℤ
div_ℤ x y = diff (above x / above y + below x / below y) (above x / below y + below x / above y)

-- The cast of an integer to an unsigned type of `w` bits, and of such a pattern to the signed type.
unfoldable pub to_unsigned : ℕ → ℤ → ℕ
to_unsigned w (pos n) = n % 2 ^ w
to_unsigned w (negsuc n) = 2 ^ w - 1 - n % 2 ^ w

unfoldable pub to_signed : ℕ → ℕ → ℤ
to_signed w n = if ltb n (2 ^ (w - 1)) then pos n else negsuc (2 ^ w - 1 - n)

pub add_sides :
    (x y : ℤ) → above (x +ℤ y) + (below x + below y) ≡ below (x +ℤ y) + (above x + above y)
unfolding ◌+ℤ◌
add_sides x y = ground arith

pub sub_sides :
    (x y : ℤ) → above (x -ℤ y) + (below x + above y) ≡ below (x -ℤ y) + (above x + below y)
unfolding ◌-ℤ◌
sub_sides x y = ground arith

pub eq_of_sides : (x y : ℤ) → above x + below y ≡ above y + below x → x ≡ y
eq_of_sides x y e = ground arith

pub ruleset int_sides = (arith, add_sides, sub_sides, eq_of_sides)
