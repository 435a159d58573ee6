-- ===== src/Prelude/Bytes.antt =====
-- The casts to the fixed widths of C++, and little-endian encoding of words in byte lists.
use Prim.Native.Nat.{ℕ, zero, suc, ◌+◌, ◌*◌, ◌/◌, ◌%◌, ◌^◌, ◌<◌}
use mathlib.Core.Path.{◌≡◌}
use mathlib.Core.List.{List, [], ◌∷◌}
use native.Mathlib.Omega.{arith}

abbrev pub u8 : ℕ → ℕ
u8 n = n % 2 ^ 8

abbrev pub u16 : ℕ → ℕ
u16 n = n % 2 ^ 16

abbrev pub u32 : ℕ → ℕ
u32 n = n % 2 ^ 32

-- The bytes of a little-endian word of `k` bytes, as `memcpy` of the word lays them out.
unfoldable pub to_le : ℕ → ℕ → List ℕ
to_le zero w = []
to_le (suc k) w = (w % 256) ∷ to_le k (w / 256)

unfoldable pub from_le : List ℕ → ℕ
from_le [] = 0
from_le (b ∷ bs) = b + 256 * from_le bs

pub from_le-to_le_2 : (w : ℕ) → w < 2 ^ 16 → from_le (to_le 2 w) ≡ w
unfolding from_le to_le
from_le-to_le_2 w h = omega arith

pub from_le-to_le_4 : (w : ℕ) → w < 2 ^ 32 → from_le (to_le 4 w) ≡ w
unfolding from_le to_le
from_le-to_le_4 w h = omega arith
