-- ===== src/Driver.antt =====
-- src/FlashDriver.cpp and include/FlashDriver.h: the W25Q32 flash over SPI. The board (pins, bus
-- and clock of the Pico SDK) is a parameter.
pub mod Pins
pub mod Range
pub mod Chip
pub mod Poll
pub mod Ops
use Pins.{Board, first, big_endian}
use pico_wenvironment_logger.Prelude.{
  ℕ, zero, suc, ◌+◌, ◌-◌, ◌*◌, ◌/◌, ◌%◌, ◌^◌, List, [], ◌∷◌, ◌++◌, length, Option, none, some, ltb,
  leb, ◌==◌, if◌then◌else◌, Bool, true, false, u8, bit_or, bit_and,
}

abbrev pub page_size : ℕ
page_size = 256

abbrev pub sector_size : ℕ
sector_size = 4096

abbrev pub flash_size : ℕ
flash_size = 4 * 1024 * 1024

abbrev pub wait_busy_ms : ℕ
wait_busy_ms = 500

abbrev pub write_enable_ms : ℕ
write_enable_ms = 1

-- The tests of status register 1 that the two waits make.
abbrev pub is_enabled : ℕ → Bool
is_enabled sr1 = bit_and sr1 0x02 == 0x02

abbrev pub is_idle : ℕ → Bool
is_idle sr1 = bit_and sr1 0x01 == 0

-- `addr & (PAGE_SIZE - 1)` and `addr & ~(SECTOR_SIZE - 1)`.
abbrev pub page_offset : ℕ → ℕ
page_offset addr = addr % page_size

abbrev pub sector_base : ℕ → ℕ
sector_base addr = addr - addr % sector_size

-- `addr + len` is a 32-bit sum: `size_t` has 32 bits on the RP2040.
unfoldable pub is_address_valid : ℕ → ℕ → Bool
is_address_valid addr len =
    if len == 0
    then false
    else if leb flash_size addr
    then false
    else if ltb flash_size len
    then false
    else if ltb flash_size ((addr + len) % 2 ^ 32)
    then false
    else true

unfoldable pub is_page_program_valid : ℕ → ℕ → Bool
unfolding is_address_valid
is_page_program_valid addr len =
    if is_address_valid addr len
    then (if ltb page_size len then false else leb (page_offset addr + len) page_size)
    else false

-- The opcode and the three address bytes, the highest first.
unfoldable pub command : ℕ → ℕ → List ℕ
command op addr = op ∷ u8 (addr / 2 ^ 16) ∷ u8 (addr / 2 ^ 8) ∷ u8 addr ∷ []

module _ (b : Board) where
  open b use {State, cs_put, spi_write, spi_read, now_us, sleep_us}

  unfoldable pub cs_select : State → State
  cs_select = cs_put false

  unfoldable pub cs_deselect : State → State
  cs_deselect = cs_put true

  pub read_status1 : State → ℕ × State
  unfolding cs_select cs_deselect
  read_status1 s =
      let (sr1, s') = spi_read 1 (spi_write (0x05 ∷ []) (cs_select s)) in
      (first sr1, cs_deselect s')

  -- The polling loops: until the deadline, or until the status bit is as wanted. The fuel bounds
  -- the rounds, each of which sleeps.
  pub poll : (ℕ → Bool) → ℕ → ℕ → ℕ → State → Bool × State
  unfolding read_status1
  poll done pause deadline zero s = (false, s)
  poll done pause deadline (suc fuel) s =
      let (sr1, s') = read_status1 s in
      let rest = poll done pause deadline fuel (sleep_us pause s') in
      if ltb (now_us s) deadline then (if done sr1 then (true, s') else rest) else (false, s)

  -- Each round of the wait for the enable latch sleeps 10 us, of the wait while busy 1 ms.
  unfoldable pub write_enable : ℕ → State → Bool × State
  unfolding poll cs_select cs_deselect
  write_enable timeout_ms s =
      let s' = cs_deselect (spi_write (0x06 ∷ []) (cs_select s)) in
      poll is_enabled 10 (now_us s' + timeout_ms * 1000) (timeout_ms * 100 + 1) s'

  unfoldable pub wait_while_busy : ℕ → State → Bool × State
  unfolding poll
  wait_while_busy timeout_ms s = poll is_idle 1000 (now_us s + timeout_ms * 1000) (timeout_ms + 1) s

  pub read : ℕ → ℕ → State → Option (List ℕ) × State
  unfolding is_address_valid command cs_select cs_deselect
  read addr len s =
      if is_address_valid addr len
      then (let (buf, s') = spi_read len (spi_write (command 0x03 addr) (cs_select s)) in
          (some buf, cs_deselect s'))
      else (none, s)

  pub page_program : ℕ → List ℕ → State → Bool × State
  unfolding is_page_program_valid command cs_select cs_deselect write_enable wait_while_busy
  page_program addr bytes s =
      if is_page_program_valid addr (length bytes)
      then (let (enabled, s') = write_enable write_enable_ms s in
          if enabled
          then wait_while_busy wait_busy_ms
              (cs_deselect (spi_write bytes (spi_write (command 0x02 addr) (cs_select s'))))
          else (false, s'))
      else (false, s)

  pub sector_erase : ℕ → State → Bool × State
  unfolding is_address_valid command cs_select cs_deselect write_enable wait_while_busy
  sector_erase addr s =
      let sector_addr = sector_base addr in
      if is_address_valid sector_addr 1
      then (let (enabled, s') = write_enable write_enable_ms s in
          if enabled
          then wait_while_busy wait_busy_ms
              (cs_deselect (spi_write (command 0x20 sector_addr) (cs_select s')))
          else (false, s'))
      else (false, s)

  pub chip_erase : State → Bool × State
  unfolding cs_select cs_deselect write_enable wait_while_busy
  chip_erase s =
      let (enabled, s') = write_enable write_enable_ms s in
      if enabled
      then wait_while_busy wait_busy_ms (cs_deselect (spi_write (0xC7 ∷ []) (cs_select s')))
      else (false, s')

  -- The three bytes of the id, the highest first.
  pub read_jedec_id : State → ℕ × State
  unfolding cs_select cs_deselect
  read_jedec_id s =
      let (id, s') = spi_read 3 (spi_write (0x9F ∷ []) (cs_select s)) in
      (big_endian id, cs_deselect s')

  -- After the set-up of bus and pins.
  pub init : State → Bool × State
  unfolding cs_deselect read_jedec_id
  init s =
      let (jedec, s') = read_jedec_id (cs_deselect (b.setup s)) in
      (if jedec == 0 then false else (if jedec == 0xFFFFFFFF then false else true), s')
