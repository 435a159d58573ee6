-- ===== src/Bme280/Calibration.antt =====
-- The calibration data: `u16_le`, `s16_le`, `signExtend12` and `readCalibration`.
use pico_wenvironment_logger.Prelude.{ℕ, ◌+◌, ◌*◌, ◌/◌, ◌%◌, ◌^◌, List, leb, if◌then◌else◌, get_or}
use pico_wenvironment_logger.Prelude.Int.{ℤ, pos, to_signed}

-- `struct Calibration`.
pub record Coefficients : Type 0 where
  pub dig_t1 : ℕ
  pub dig_t2 : ℤ
  pub dig_t3 : ℤ
  pub dig_p1 : ℕ
  pub dig_p2 : ℤ
  pub dig_p3 : ℤ
  pub dig_p4 : ℤ
  pub dig_p5 : ℤ
  pub dig_p6 : ℤ
  pub dig_p7 : ℤ
  pub dig_p8 : ℤ
  pub dig_p9 : ℤ
  pub dig_h1 : ℕ
  pub dig_h2 : ℤ
  pub dig_h3 : ℕ
  pub dig_h4 : ℤ
  pub dig_h5 : ℤ
  pub dig_h6 : ℤ
  pub t_fine : ℤ

-- The two bytes at `i`; those that `|` puts together have no bit in common.
unfoldable pub u16_le : List ℕ → ℕ → ℕ
u16_le p i = get_or p i 0 + get_or p (i + 1) 0 * 2 ^ 8

unfoldable pub s16_le : List ℕ → ℕ → ℤ
unfolding u16_le to_signed
s16_le p i = to_signed 16 (u16_le p i)

-- `value & 0x0800` is the digit of 2048, and `|= 0xF000` adds to the twelve bits.
unfoldable pub sign_extend12 : ℕ → ℤ
unfolding to_signed
sign_extend12 value =
    let low = value % 2 ^ 12 in to_signed 16 (if leb 0x0800 low then low + 0xF000 else low)

-- The twelve-bit numbers that share the byte at 4.
unfoldable pub h4_of : List ℕ → ℕ
h4_of b = get_or b 3 0 * 2 ^ 4 + get_or b 4 0 % 2 ^ 4

unfoldable pub h5_of : List ℕ → ℕ
h5_of b = get_or b 5 0 * 2 ^ 4 + get_or b 4 0 / 2 ^ 4

unfoldable pub coefficients_of : List ℕ → List ℕ → Coefficients
unfolding u16_le s16_le sign_extend12 h4_of h5_of
coefficients_of b1 b2 = record {
  dig_t1 = u16_le b1 0;
  dig_t2 = s16_le b1 2;
  dig_t3 = s16_le b1 4;
  dig_p1 = u16_le b1 6;
  dig_p2 = s16_le b1 8;
  dig_p3 = s16_le b1 10;
  dig_p4 = s16_le b1 12;
  dig_p5 = s16_le b1 14;
  dig_p6 = s16_le b1 16;
  dig_p7 = s16_le b1 18;
  dig_p8 = s16_le b1 20;
  dig_p9 = s16_le b1 22;
  dig_h1 = get_or b1 25 0;
  dig_h2 = s16_le b2 0;
  dig_h3 = get_or b2 2 0;
  dig_h4 = sign_extend12 (h4_of b2);
  dig_h5 = sign_extend12 (h5_of b2);
  dig_h6 = to_signed 8 (get_or b2 6 0);
  t_fine = pos 0;
}
