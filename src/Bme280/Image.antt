-- ===== src/Bme280/Image.antt =====
-- The calibration registers as the data sheet lays them out, and that the driver reads them back.
use pico_wenvironment_logger.Prelude.{
  ℕ, ◌+◌, ◌-◌, ◌*◌, ◌/◌, ◌%◌, ◌^◌, ◌≤◌, ◌<◌, List, [], ◌∷◌, ◌++◌, to_le, ◌≡◌, ap, ◌∙◌, arith,
}
use pico_wenvironment_logger.Prelude.Int.{ℤ, pos, negsuc, above, below, to_signed, to_unsigned}
use pico_wenvironment_logger.Bme280.Calibration.{
  Coefficients, sign_extend12, h4_of, h5_of, coefficients_of,
}

-- 0x88 to 0xA1: words of two bytes, the low one first, and behind a byte that is not used `dig_H1`.
unfoldable pub low_image : Coefficients → List ℕ
low_image c =
    to_le 2 c.dig_t1
    ++ (to_le 2 (to_unsigned 16 c.dig_t2)
        ++ (to_le 2 (to_unsigned 16 c.dig_t3)
            ++ (to_le 2 c.dig_p1
                ++ (to_le 2 (to_unsigned 16 c.dig_p2)
                    ++ (to_le 2 (to_unsigned 16 c.dig_p3)
                        ++ (to_le 2 (to_unsigned 16 c.dig_p4)
                            ++ (to_le 2 (to_unsigned 16 c.dig_p5)
                                ++ (to_le 2 (to_unsigned 16 c.dig_p6)
                                    ++ (to_le 2 (to_unsigned 16 c.dig_p7)
                                        ++ (to_le 2 (to_unsigned 16 c.dig_p8)
                                            ++ (to_le 2 (to_unsigned 16 c.dig_p9)
                                                ++ (0 ∷ (c.dig_h1 ∷ [])))))))))))))

-- 0xE1 to 0xE7: the high eight bits of `dig_H4` and `dig_H5` have a byte each, and their low four
-- bits share one.
unfoldable pub high_image : Coefficients → List ℕ
high_image c =
    to_le 2 (to_unsigned 16 c.dig_h2)
    ++ (c.dig_h3
        ∷ ((to_unsigned 12 c.dig_h4 / 16)
            ∷ ((to_unsigned 12 c.dig_h5 % 16 * 16 + to_unsigned 12 c.dig_h4 % 16)
                ∷ ((to_unsigned 12 c.dig_h5 / 16) ∷ (to_unsigned 8 c.dig_h6 ∷ [])))))

-- `x` is a two's complement number of `w` bits.
abbrev pub Fits : ℕ → ℤ → Type 0
Fits w x = (above x < 2 ^ (w - 1)) × (below x ≤ 2 ^ (w - 1))

pub record IsCalibration (c : Coefficients) : Type 0 where
  pub t1 : c.dig_t1 < 2 ^ 16
  pub t2 : Fits 16 c.dig_t2
  pub t3 : Fits 16 c.dig_t3
  pub p1 : c.dig_p1 < 2 ^ 16
  pub p2 : Fits 16 c.dig_p2
  pub p3 : Fits 16 c.dig_p3
  pub p4 : Fits 16 c.dig_p4
  pub p5 : Fits 16 c.dig_p5
  pub p6 : Fits 16 c.dig_p6
  pub p7 : Fits 16 c.dig_p7
  pub p8 : Fits 16 c.dig_p8
  pub p9 : Fits 16 c.dig_p9
  pub h2 : Fits 16 c.dig_h2
  pub h4 : Fits 12 c.dig_h4
  pub h5 : Fits 12 c.dig_h5
  pub h6 : Fits 8 c.dig_h6

word : (n : ℕ) → n < 2 ^ 16 → n % 256 + n / 256 % 256 * 2 ^ 8 ≡ n
word n h = omega arith

unsigned16-lt : (x : ℤ) → to_unsigned 16 x < 2 ^ 16
unfolding to_unsigned
unsigned16-lt (pos n) = omega arith
unsigned16-lt (negsuc n) = omega arith

unsigned12-lt : (x : ℤ) → to_unsigned 12 x < 2 ^ 12
unfolding to_unsigned
unsigned12-lt (pos n) = omega arith
unsigned12-lt (negsuc n) = omega arith

signed16 : (x : ℤ) → Fits 16 x → to_signed 16 (to_unsigned 16 x) ≡ x
unfolding to_unsigned to_signed
signed16 (pos n) f = ground arith
signed16 (negsuc n) f = ground arith

signed8 : (x : ℤ) → Fits 8 x → to_signed 8 (to_unsigned 8 x) ≡ x
unfolding to_unsigned to_signed
signed8 (pos n) f = ground arith
signed8 (negsuc n) f = ground arith

signed12 : (x : ℤ) → Fits 12 x → sign_extend12 (to_unsigned 12 x) ≡ x
unfolding to_unsigned sign_extend12
signed12 (pos n) f = ground arith
signed12 (negsuc n) f = ground arith

signed_word :
    (x : ℤ)
    → Fits 16 x
    → to_signed 16 (to_unsigned 16 x % 256 + to_unsigned 16 x / 256 % 256 * 2 ^ 8) ≡ x
signed_word x f = ap (to_signed 16) (word (to_unsigned 16 x) (unsigned16-lt x)) ∙ signed16 x f

packed_h4 : (c : Coefficients) → h4_of (high_image c) ≡ to_unsigned 12 c.dig_h4
unfolding h4_of high_image to_le
packed_h4 c = omega (arith, unsigned12-lt c.dig_h4)

packed_h5 : (c : Coefficients) → h5_of (high_image c) ≡ to_unsigned 12 c.dig_h5
unfolding h5_of high_image to_le
packed_h5 c = omega (arith, unsigned12-lt c.dig_h5)

-- From the images of any coefficients in the ranges of their types the driver recovers every one of
-- them, and `t_fine` is 0.
pub coefficients_of-image :
    (c : Coefficients)
    → IsCalibration c
    → coefficients_of (low_image c) (high_image c) ≡ record c { t_fine = pos 0 }
unfolding coefficients_of low_image high_image to_le
coefficients_of-image c v i = record {
  dig_t1 = word c.dig_t1 v.t1 i;
  dig_t2 = signed_word c.dig_t2 v.t2 i;
  dig_t3 = signed_word c.dig_t3 v.t3 i;
  dig_p1 = word c.dig_p1 v.p1 i;
  dig_p2 = signed_word c.dig_p2 v.p2 i;
  dig_p3 = signed_word c.dig_p3 v.p3 i;
  dig_p4 = signed_word c.dig_p4 v.p4 i;
  dig_p5 = signed_word c.dig_p5 v.p5 i;
  dig_p6 = signed_word c.dig_p6 v.p6 i;
  dig_p7 = signed_word c.dig_p7 v.p7 i;
  dig_p8 = signed_word c.dig_p8 v.p8 i;
  dig_p9 = signed_word c.dig_p9 v.p9 i;
  dig_h1 = c.dig_h1;
  dig_h2 = signed_word c.dig_h2 v.h2 i;
  dig_h3 = c.dig_h3;
  dig_h4 = (ap sign_extend12 (packed_h4 c) ∙ signed12 c.dig_h4 v.h4) i;
  dig_h5 = (ap sign_extend12 (packed_h5 c) ∙ signed12 c.dig_h5 v.h5) i;
  dig_h6 = signed8 c.dig_h6 v.h6 i;
  t_fine = pos 0;
}
