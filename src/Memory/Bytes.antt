-- ===== src/Memory/Bytes.antt =====
-- A memory of bytes stays one under programming and erasing.
use Prim.Native.Nat.{digits, bit_and-bitwise}
use pico_wenvironment_logger.Prelude.{
  ℕ, zero, suc, ◌/◌, ◌≤◌, ◌<◌, min, bit_and, List, length, arith, if-both, get_or, ◌-◌,
}
use pico_wenvironment_logger.Memory.{Memory, program, erase, within}

and_digits-le : (n a b : ℕ) → a ≤ n → digits (λ b. zero) min n a b ≤ a
and_digits-le zero a b h = omega arith
and_digits-le (suc n) zero b h = omega arith
and_digits-le (suc n) (suc a) b h = omega (arith, and_digits-le n (suc a / 2) (b / 2) (omega arith))

pub bit_and-le : (a b : ℕ) → bit_and a b ≤ a
bit_and-le a b = omega (arith, bit_and-bitwise a b, and_digits-le a a b (omega arith))

pub program-lt :
    (m : Memory) (addr : ℕ) (bytes : List ℕ) (a : ℕ) → m a < 256 → program m addr bytes a < 256
unfolding program
program-lt m addr bytes a h =
    if-both (λ v. v < 256) (within addr (length bytes) a) _ _
      (omega (arith, bit_and-le (m a) (get_or bytes (a - addr) 0), h)) h

pub erase-lt : (m : Memory) (addr n a : ℕ) → m a < 256 → erase m addr n a < 256
unfolding erase
erase-lt m addr n a h = if-both (λ v. v < 256) (within addr n a) _ _ (omega arith) h
