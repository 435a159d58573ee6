-- ===== src/Crc.antt =====
-- src/Crc32.cpp: the CRC-32 of a byte buffer, bit by bit with the reflected polynomial. A buffer
-- with its length is the list of its bytes, each below 256.
mod Bits
pub mod Bounds
pub mod Detect
use pico_wenvironment_logger.Prelude.{
  ℕ, zero, suc, ◌+◌, ◌-◌, ◌/◌, ◌%◌, ◌^◌, bit_xor, ◌==◌, if◌then◌else◌, List, [], ◌∷◌, ◌++◌, ◌≡◌,
  refl,
}

abbrev pub polynomial : ℕ
polynomial = 0xEDB88320

-- One round of the inner loop.
pub crc_bit : ℕ → ℕ
crc_bit crc = if crc % 2 == 1 then bit_xor (crc / 2) polynomial else crc / 2

-- `n` rounds of the inner loop.
pub crc_bits : ℕ → ℕ → ℕ
crc_bits zero crc = crc
crc_bits (suc n) crc = crc_bits n (crc_bit crc)

-- One round of the outer loop.
pub crc_byte : ℕ → ℕ → ℕ
crc_byte crc b = crc_bits 8 (bit_xor crc b)

-- The outer loop from the register `crc` on.
pub crc_bytes : ℕ → List ℕ → ℕ
crc_bytes crc [] = crc
crc_bytes crc (b ∷ bs) = crc_bytes (crc_byte crc b) bs

abbrev pub initial : ℕ
initial = 0xFFFFFFFF

-- `~crc` of a `uint32_t`.
abbrev pub complement : ℕ → ℕ
complement crc = 0xFFFFFFFF - crc

unfoldable pub calculate : List ℕ → ℕ
unfolding crc_bytes crc_byte crc_bits crc_bit
calculate bytes = complement (crc_bytes initial bytes)

unfoldable pub calculate2 : List ℕ → List ℕ → ℕ
unfolding crc_bytes crc_byte crc_bits crc_bit
calculate2 first second = complement (crc_bytes (crc_bytes initial first) second)
