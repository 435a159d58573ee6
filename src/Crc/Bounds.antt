-- ===== src/Crc/Bounds.antt =====
-- The CRC register stays a `uint32_t`, and two buffers in turn are their concatenation.
use pico_wenvironment_logger.Prelude.{
  ℕ, zero, suc, ◌<◌, ◌^◌, ◌/◌, bit_xor, List, [], ◌∷◌, ◌++◌, All, ◌≡◌, refl, sym, ap, arith,
}
use pico_wenvironment_logger.Crc.{
  crc_bit, crc_bits, crc_byte, crc_bytes, complement, initial, calculate, calculate2, polynomial,
}
use pico_wenvironment_logger.Crc.Bits.{bit_xor-lt}

abbrev pub IsByte : ℕ → Type 0
IsByte b = b < 256

pub crc_bit-lt : (crc : ℕ) → crc < 2 ^ 32 → crc_bit crc < 2 ^ 32
unfolding crc_bit
crc_bit-lt crc h = ground (arith, bit_xor-lt 32 (crc / 2) polynomial)

pub crc_bits-lt : (n crc : ℕ) → crc < 2 ^ 32 → crc_bits n crc < 2 ^ 32
unfolding crc_bits
crc_bits-lt zero crc h = h
crc_bits-lt (suc n) crc h = crc_bits-lt n (crc_bit crc) (crc_bit-lt crc h)

pub crc_byte-lt : (crc b : ℕ) → crc < 2 ^ 32 → b < 2 ^ 32 → crc_byte crc b < 2 ^ 32
unfolding crc_byte
crc_byte-lt crc b h k = crc_bits-lt 8 (bit_xor crc b) (bit_xor-lt 32 crc b h k)

pub crc_bytes-lt :
    (crc : ℕ) (bs : List ℕ) → crc < 2 ^ 32 → All IsByte bs → crc_bytes crc bs < 2 ^ 32
unfolding crc_bytes
crc_bytes-lt crc [] h k = h
crc_bytes-lt crc (b ∷ bs) h k =
    crc_bytes-lt (crc_byte crc b) bs (crc_byte-lt crc b h (omega (arith, k.0))) k.1

-- The result is a `uint32_t` for every buffer.
pub calculate-lt : (bs : List ℕ) → calculate bs < 2 ^ 32
unfolding calculate
calculate-lt bs = omega arith

pub crc_bytes-append :
    (crc : ℕ) (xs ys : List ℕ) → crc_bytes crc (xs ++ ys) ≡ crc_bytes (crc_bytes crc xs) ys
unfolding crc_bytes
crc_bytes-append crc [] ys = refl
crc_bytes-append crc (x ∷ xs) ys = crc_bytes-append (crc_byte crc x) xs ys

-- Of two buffers `calculate2` gives what `calculate` gives of their concatenation.
pub calculate2-eq-calculate : (xs ys : List ℕ) → calculate2 xs ys ≡ calculate (xs ++ ys)
unfolding calculate calculate2
calculate2-eq-calculate xs ys = sym (ap complement (crc_bytes-append initial xs ys))
