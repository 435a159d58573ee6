-- ===== src/Driver/Range.antt =====
-- Which ranges the driver accepts, and the address it puts on the bus.
use pico_wenvironment_logger.Prelude.{
  ℕ, ◌+◌, ◌-◌, ◌*◌, ◌/◌, ◌%◌, ◌≤◌, ◌<◌, List, [], ◌∷◌, true, ◌≡◌, ◌↔◌, arith,
}
use pico_wenvironment_logger.Driver.{
  flash_size, page_size, sector_size, sector_base, is_address_valid, is_page_program_valid, command,
}

-- A range is accepted exactly when it is not empty and lies inside the chip; the 32-bit sum of the
-- test cannot wrap.
pub is_address_valid_iff :
    (addr len : ℕ) → (is_address_valid addr len ≡ true) ↔ ((0 < len) × (addr + len ≤ flash_size))
unfolding is_address_valid
is_address_valid_iff addr len = (λ h. (ground arith, ground arith), λ h. ground arith)

-- A program request is accepted exactly when it is not empty, lies inside the chip and inside one
-- page: its first and its last byte have the same page number.
pub is_page_program_valid_iff :
    (addr len : ℕ)
    → (is_page_program_valid addr len ≡ true)
      ↔ ((0 < len) × (addr + len ≤ flash_size) × (addr / page_size ≡ (addr + len - 1) / page_size))
unfolding is_page_program_valid is_address_valid
is_page_program_valid_iff addr len =
    (λ h. (ground arith, ground arith, ground arith), λ h. ground arith)

-- The address that the three bytes behind the opcode stand for.
abbrev pub address_of : List ℕ → ℕ
address_of (op ∷ a ∷ b ∷ c ∷ []) = a * 65536 + b * 256 + c
address_of _ = 0

-- Every address of the chip goes over the bus without loss.
pub address_of-command : (op addr : ℕ) → addr < flash_size → address_of (command op addr) ≡ addr
unfolding command
address_of-command op addr h = omega arith

pub sector_base_lem :
    (addr : ℕ)
    → (sector_base addr % sector_size ≡ 0)
      × (sector_base addr ≤ addr)
      × (addr < sector_base addr + sector_size)
sector_base_lem addr = omega arith
