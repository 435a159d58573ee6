-- ===== src/MovingAverage.antt =====
-- include/utility.h, MovingAverage<uint16_t, N>, and src/utility.cpp, compare_buffers.
pub mod Buffer
pub mod Window
use pico_wenvironment_logger.Prelude.{
  ℕ, ◌+◌, ◌%◌, ◌^◌, Bool, true, false, ltb, leb, ◌==◌, if◌then◌else◌, List, [], ◌∷◌, set, get_or,
  replicate, u16, Option, none, some,
}
use pico_wenvironment_logger.Prelude.Int.{ℤ, pos, ◌+ℤ◌, ◌-ℤ◌, div_ℤ, to_unsigned}

-- `n` is the template's N, `sum` has the type int64_t.
pub record MovingAverage : Type 0 where
  pub n : ℕ
  pub buffer : List ℕ
  pub index : ℕ
  pub count : ℕ
  pub sum : ℤ

-- The constructor, which is `reset`.
unfoldable pub reset : ℕ → MovingAverage
reset n = record { n = n; buffer = replicate n 0; index = 0; count = 0; sum = pos 0 }

unfoldable pub add : ℕ → MovingAverage → MovingAverage
add value m =
    let filled =
      (if ltb m.count m.n
        then record m {
          buffer = set m.buffer m.index value;
          sum = m.sum +ℤ pos value;
          count = m.count + 1;
        }
        else record m {
          sum = m.sum -ℤ pos (get_or m.buffer m.index 0) +ℤ pos value;
          buffer = set m.buffer m.index value;
        }) in
    record filled { index = if leb m.n (m.index + 1) then 0 else m.index + 1 }

-- `static_cast<T>(sum_ / count_)`.
unfoldable pub average : MovingAverage → ℕ
average m = if m.count == 0 then 0 else to_unsigned 16 (div_ℤ m.sum (pos m.count))

unfoldable pub is_full : MovingAverage → Bool
is_full m = leb m.n m.count

unfoldable pub is_empty : MovingAverage → Bool
is_empty m = m.count == 0

-- `compare_buffers`, on the `len` bytes of each; `none` is the null pointer.
same_bytes : List ℕ → List ℕ → Bool
same_bytes [] b = true
same_bytes (x ∷ a) [] = true
same_bytes (x ∷ a) (y ∷ b) = let rest = same_bytes a b in if x == y then rest else false

unfoldable pub compare_buffers : Option (List ℕ) → Option (List ℕ) → Bool
unfolding same_bytes
compare_buffers none b = false
compare_buffers (some a) none = false
compare_buffers (some a) (some b) = same_bytes a b
