-- ===== src/Storage/Address.antt =====
-- The configuration, and the helpers of FlashLogStorage on 32-bit addresses and sequence numbers.
use pico_wenvironment_logger.Prelude.{
  ℕ, ◌+◌, ◌-◌, ◌%◌, ◌^◌, Bool, true, false, ltb, leb, ◌==◌, if◌then◌else◌,
}
use pico_wenvironment_logger.Driver.{sector_size, flash_size}

pub record Config : Type 0 where
  pub start_addr : ℕ
  pub end_addr : ℕ

-- LOG_START_ADDR and LOG_END_ADDR
abbrev pub default_config : Config
default_config = record { start_addr = 0x00001000; end_addr = 0x00101000 }

-- `uint32_t` sum and difference.
abbrev pub add32 : ℕ → ℕ → ℕ
add32 a b = (a + b) % 2 ^ 32

abbrev pub sub32 : ℕ → ℕ → ℕ
sub32 a b = (a + 2 ^ 32 - b) % 2 ^ 32

unfoldable pub is_config_valid : Config → Bool
is_config_valid c =
    if leb c.end_addr c.start_addr
    then false
    else if c.start_addr % sector_size == 0
    then (if ltb flash_size c.end_addr
        then false
        else (if c.end_addr % sector_size == 0 then true else false))
    else false

unfoldable pub is_sector_start : ℕ → Bool
is_sector_start addr = addr % sector_size == 0

unfoldable pub next_sector_address : ℕ → ℕ
next_sector_address addr =
    let sector_offset = addr % sector_size in
    if sector_offset == 0 then add32 addr sector_size else add32 addr (sector_size - sector_offset)

-- `addr & ~(SECTOR_SIZE - 1)` is the address less its offset in the sector.
unfoldable pub current_sector_end : ℕ → ℕ
current_sector_end addr = add32 (addr - addr % sector_size) sector_size

unfoldable pub wrap_address : Config → ℕ → ℕ
wrap_address c addr = if leb c.end_addr addr then c.start_addr else addr

-- `static_cast<int32_t>(a - b) > 0`
unfoldable pub is_seq_newer : ℕ → ℕ → Bool
is_seq_newer a b = if ltb 0 (sub32 a b) then ltb (sub32 a b) (2 ^ 31) else false
