-- ===== src/Crc/Detect.antt =====
-- What the CRC detects: the register is a bijection of its previous value and of the next byte.
use pico_wenvironment_logger.Prelude.{
  ℕ, zero, suc, ◌<◌, ◌^◌, ◌/◌, bit_xor, List, [], ◌∷◌, ◌++◌, All, All-append, ◌≡◌, ◌≢◌, ap, sym,
  ◌∙◌, arith,
}
use pico_wenvironment_logger.Crc.{
  crc_bit, crc_bits, crc_byte, crc_bytes, complement, initial, calculate, polynomial,
}
use pico_wenvironment_logger.Crc.Bits.{bit_xor_cancel, bit_xor_comm, le-bit_xor}
use pico_wenvironment_logger.Crc.Bounds.{
  IsByte, crc_bit-lt, crc_byte-lt, crc_bytes-lt, crc_bytes-append,
}
use pico_wenvironment_logger.Crc.Bits.{bit_xor-lt}

bit_xor_cancel_right :
    (a b c : ℕ) → a < 2 ^ 32 → b < 2 ^ 32 → c < 2 ^ 32 → bit_xor a c ≡ bit_xor b c → a ≡ b
bit_xor_cancel_right a b c ha hb hc e =
    sym (bit_xor_cancel 32 a c ha hc) ∙ ap (λ t. bit_xor t c) e ∙ bit_xor_cancel 32 b c hb hc

bit_xor_cancel_left :
    (a b c : ℕ) → a < 2 ^ 32 → b < 2 ^ 32 → c < 2 ^ 32 → bit_xor c a ≡ bit_xor c b → a ≡ b
bit_xor_cancel_left a b c ha hb hc e =
    bit_xor_cancel_right a b c ha hb hc (bit_xor_comm 32 a c ha hc ∙ e ∙ bit_xor_comm 32 c b hc hb)

-- An odd register leaves the top bit set, an even one leaves it clear.
crc_bit_injective : (a b : ℕ) → a < 2 ^ 32 → b < 2 ^ 32 → crc_bit a ≡ crc_bit b → a ≡ b
unfolding crc_bit
crc_bit_injective a b ha hb e = ground (
  arith,
  bit_xor_cancel_right (a / 2) (b / 2) polynomial,
  le-bit_xor 31 (a / 2) polynomial,
  le-bit_xor 31 (b / 2) polynomial,
)

crc_bits_injective : (n a b : ℕ) → a < 2 ^ 32 → b < 2 ^ 32 → crc_bits n a ≡ crc_bits n b → a ≡ b
unfolding crc_bits
crc_bits_injective zero a b ha hb e = e
crc_bits_injective (suc n) a b ha hb e =
    crc_bit_injective a b ha hb
      (crc_bits_injective n (crc_bit a) (crc_bit b) (crc_bit-lt a ha) (crc_bit-lt b hb) e)

crc_byte_injective :
    (a b c : ℕ) → a < 2 ^ 32 → b < 2 ^ 32 → c < 2 ^ 32 → crc_byte a c ≡ crc_byte b c → a ≡ b
unfolding crc_byte
crc_byte_injective a b c ha hb hc e = bit_xor_cancel_right a b c ha hb hc (
    crc_bits_injective 8 (bit_xor a c) (bit_xor b c) (bit_xor-lt 32 a c ha hc)
      (bit_xor-lt 32 b c hb hc) e)

crc_byte_injective_byte :
    (a b c : ℕ) → a < 2 ^ 32 → b < 2 ^ 32 → c < 2 ^ 32 → crc_byte c a ≡ crc_byte c b → a ≡ b
unfolding crc_byte
crc_byte_injective_byte a b c ha hb hc e = bit_xor_cancel_left a b c ha hb hc (
    crc_bits_injective 8 (bit_xor c a) (bit_xor c b) (bit_xor-lt 32 c a hc ha)
      (bit_xor-lt 32 c b hc hb) e)

crc_bytes_injective :
    (a b : ℕ) (bs : List ℕ)
    → a < 2 ^ 32
    → b < 2 ^ 32
    → All IsByte bs
    → crc_bytes a bs ≡ crc_bytes b bs
    → a ≡ b
unfolding crc_bytes
crc_bytes_injective a b [] ha hb k e = e
crc_bytes_injective a b (c ∷ bs) ha hb k e = crc_byte_injective a b c ha hb (omega (arith, k.0)) (
    crc_bytes_injective (crc_byte a c) (crc_byte b c) bs (crc_byte-lt a c ha (omega (arith, k.0)))
      (crc_byte-lt b c hb (omega (arith, k.0))) k.1 e)

complement_injective : (a b : ℕ) → a < 2 ^ 32 → b < 2 ^ 32 → complement a ≡ complement b → a ≡ b
complement_injective a b ha hb e = omega arith

-- Two buffers that differ in exactly one byte have different CRCs, wherever the byte stands and
-- whatever bytes surround it.
pub calculate_detects_byte :
    (xs ys : List ℕ) (a b : ℕ)
    → All IsByte xs
    → All IsByte ys
    → a < 256
    → b < 256
    → a ≢ b
    → calculate (xs ++ a ∷ ys) ≢ calculate (xs ++ b ∷ ys)
unfolding calculate crc_bytes
calculate_detects_byte xs ys a b hx hy ha hb ne e = ne (
    crc_byte_injective_byte a b (crc_bytes initial xs) (omega arith) (omega arith) reg (
      crc_bytes_injective (crc_byte (crc_bytes initial xs) a) (crc_byte (crc_bytes initial xs) b) ys
        (crc_byte-lt _ a reg (omega arith)) (crc_byte-lt _ b reg (omega arith)) hy
        (sym (crc_bytes-append initial xs (a ∷ ys)) ∙ same ∙ crc_bytes-append initial xs (b ∷ ys))))
  where
    reg : crc_bytes initial xs < 2 ^ 32
    reg = crc_bytes-lt initial xs (omega arith) hx

    same : crc_bytes initial (xs ++ a ∷ ys) ≡ crc_bytes initial (xs ++ b ∷ ys)
    same =
        complement_injective (crc_bytes initial (xs ++ a ∷ ys)) (crc_bytes initial (xs ++ b ∷ ys))
          (crc_bytes-lt initial (xs ++ a ∷ ys) (omega arith)
            (All-append IsByte xs (a ∷ ys) hx (ha, hy)))
          (crc_bytes-lt initial (xs ++ b ∷ ys) (omega arith)
            (All-append IsByte xs (b ∷ ys) hx (hb, hy)))
          e
