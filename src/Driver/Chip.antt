-- ===== src/Driver/Chip.antt =====
-- The W25Q32 as its data sheet describes it: a contents, a write enable latch and a busy flag
-- behind the command frames, each from the fall of chip select to its rise.
use pico_wenvironment_logger.Prelude.{ℕ, ◌<◌, List, [], ◌∷◌, length, Bool, true, false, ◌≡◌}
use pico_wenvironment_logger.Memory.{Memory, slice, program, erase}
use pico_wenvironment_logger.Driver.{
  command, flash_size, sector_size, is_address_valid, is_page_program_valid, sector_base,
  is_enabled, is_idle,
}
use pico_wenvironment_logger.Driver.Pins.{Board, first}

module _ (b : Board) where
  open b use {State, cs_put, spi_write, spi_read, now_us, sleep_us}

  -- A frame that only writes, of one and of two transfers, and one that reads behind a command.
  abbrev pub sent : List ℕ → State → State
  sent out s = cs_put true (spi_write out (cs_put false s))

  abbrev pub sent2 : List ℕ → List ℕ → State → State
  sent2 out more s = cs_put true (spi_write more (spi_write out (cs_put false s)))

  abbrev pub answer : List ℕ → ℕ → State → List ℕ
  answer out n s = (spi_read n (spi_write out (cs_put false s))).0

  abbrev pub asked : List ℕ → ℕ → State → State
  asked out n s = cs_put true (spi_read n (spi_write out (cs_put false s))).1

  abbrev pub status : State → ℕ
  status s = first (answer (0x05 ∷ []) 1 s)

  pub record IsW25q32 : Type 1 where
    pub mem : State → Memory
    pub busy : State → Bool
    pub latch : State → Bool
    pub mem_byte : (s : State) (a : ℕ) → mem s a < 256
    -- Time passes: an operation in the chip may end, and nothing else changes.
    pub mem_sleep : (d : ℕ) (s : State) → mem (sleep_us d s) ≡ mem s
    pub latch_sleep : (d : ℕ) (s : State) → latch (sleep_us d s) ≡ latch s
    pub busy_sleep : (d : ℕ) (s : State) → busy s ≡ false → busy (sleep_us d s) ≡ false
    -- Read Status Register-1: bit 1 is the latch, bit 0 the busy flag.
    pub mem_status : (s : State) → mem (asked (0x05 ∷ []) 1 s) ≡ mem s
    pub latch_status : (s : State) → latch (asked (0x05 ∷ []) 1 s) ≡ latch s
    pub busy_status : (s : State) → busy s ≡ false → busy (asked (0x05 ∷ []) 1 s) ≡ false
    pub latch_bit : (s : State) → is_enabled (status s) ≡ latch s
    pub busy_bit : (s : State) → is_idle (status s) ≡ true → busy (asked (0x05 ∷ []) 1 s) ≡ false
    -- Write Enable.
    pub mem_enable : (s : State) → mem (sent (0x06 ∷ []) s) ≡ mem s
    pub busy_enable : (s : State) → busy s ≡ false → busy (sent (0x06 ∷ []) s) ≡ false
    -- Read Data.
    pub read_data :
        (s : State) (addr n : ℕ)
        → busy s ≡ false
        → is_address_valid addr n ≡ true
        → answer (command 0x03 addr) n s ≡ slice (mem s) addr n
    pub mem_read : (s : State) (addr n : ℕ) → mem (asked (command 0x03 addr) n s) ≡ mem s
    pub busy_read :
        (s : State) (addr n : ℕ) → busy s ≡ false → busy (asked (command 0x03 addr) n s) ≡ false
    -- Page Program: with the latch set the bytes are programmed, without it nothing is.
    pub page_program_on :
        (s : State) (addr : ℕ) (bytes : List ℕ)
        → is_page_program_valid addr (length bytes) ≡ true
        → busy s ≡ false
        → latch s ≡ true
        → mem (sent2 (command 0x02 addr) bytes s) ≡ program (mem s) addr bytes
    pub page_program_off :
        (s : State) (addr : ℕ) (bytes : List ℕ)
        → busy s ≡ true
        → mem (sent2 (command 0x02 addr) bytes s) ≡ mem s
    -- Sector Erase.
    pub sector_erase_on :
        (s : State) (addr : ℕ)
        → is_address_valid addr 1 ≡ true
        → busy s ≡ false
        → latch s ≡ true
        → mem (sent (command 0x20 addr) s) ≡ erase (mem s) (sector_base addr) sector_size
    pub sector_erase_off :
        (s : State) (addr : ℕ) → busy s ≡ true → mem (sent (command 0x20 addr) s) ≡ mem s
    -- Chip Erase.
    pub chip_erase_on :
        (s : State)
        → busy s ≡ false
        → latch s ≡ true
        → mem (sent (0xC7 ∷ []) s) ≡ erase (mem s) 0 flash_size
