-- ===== src/Client/Sim.antt =====
-- A W25Q32 that executes each command when chip select rises, with a clock and free mutexes: a
-- concrete board on which the driver and the log run.
use pico_wenvironment_logger.Prelude.{
  ℕ, ◌+◌, ◌*◌, ◌/◌, ◌%◌, ◌^◌, ◌<◌, Bool, true, false, ◌==◌, if◌then◌else◌, List, [], ◌∷◌, ◌++◌,
  length, replicate, get_or, drop, ◌≡◌, refl, ap, ◌∙◌, fun_ext, arith, u8,
}
use pico_wenvironment_logger.Memory.{Memory, slice, program, erase}
use pico_wenvironment_logger.Memory.Bytes.{program-lt, erase-lt}
use pico_wenvironment_logger.Driver.{command, flash_size, sector_size, sector_base, is_enabled}
use pico_wenvironment_logger.Driver.Pins.{Board}
use pico_wenvironment_logger.Driver.Range.{is_address_valid_iff, is_page_program_valid_iff}
use pico_wenvironment_logger.Driver.Chip.{IsW25q32}
use pico_wenvironment_logger.Client.{Semaphores, IsAside}

pub record Sim : Type 0 where
  pub cells : Memory
  pub latch : Bool
  pub frame : List ℕ  -- since chip select fell
  pub clock : ℕ

abbrev pub contents : Sim → Memory
contents s a = s.cells a % 256

abbrev pub address : List ℕ → ℕ
address args = get_or args 0 0 * 65536 + get_or args 1 0 * 256 + get_or args 2 0

-- A latch that is set lets one program or erase command through.
abbrev pub change : (Memory → Memory) → Sim → Sim
change f s = if s.latch then record s { cells = f (contents s); latch = false } else s

abbrev pub execute : List ℕ → Sim → Sim
execute [] s = s
execute (op ∷ args) s =
    if op == 0x06
    then record s { latch = true }
    else if op == 0x02
    then change (λ m. program m (address args) (drop 3 args)) s
    else if op == 0x20
    then change (λ m. erase m (sector_base (address args)) sector_size) s
    else if op == 0xC7
    then change (λ m. erase m 0 flash_size) s
    else s

abbrev pub reply : List ℕ → ℕ → Sim → List ℕ
reply [] n s = replicate n 0
reply (op ∷ args) n s =
    if op == 0x03
    then slice (contents s) (address args) n
    else if op == 0x05
    then replicate n (if s.latch then 2 else 0)
    else if op == 0x9F
    then 0xEF ∷ 0x40 ∷ 0x16 ∷ []
    else replicate n 0

abbrev pub board : Board
board = record {
  State = Sim;
  setup = λ s. s;
  cs_put = λ level s. if level then execute s.frame s else record s { frame = [] };
  spi_write = λ bytes s. record s { frame = s.frame ++ bytes };
  spi_read = λ n s. (reply s.frame n s, s);
  now_us = λ s. s.clock;
  sleep_us = λ d s. record s { clock = s.clock + d };
}

abbrev pub semaphores : Semaphores Sim
semaphores = record {
  take_io = λ s. (true, s);
  give_io = λ s. s;
  create_mutex = λ s. (true, s);
  take_mutex = λ s. (true, s);
  give_mutex = λ s. s;
}

abbrev pub erased_chip : Sim
erased_chip = record { cells = λ a. 255; latch = false; frame = []; clock = 0 }

pub changed :
    (f : Memory → Memory) (s : Sim)
    → ((m : Memory) (a : ℕ) → m a < 256 → f m a < 256)
    → s.latch ≡ true
    → contents (change f s) ≡ f (contents s)
changed f s small l = rw l (fun_ext λ a. omega (arith, small (contents s) a (omega arith)))

pub args_address :
    (addr : ℕ) (bytes : List ℕ)
    → addr < flash_size
    → address (u8 (addr / 2 ^ 16) ∷ u8 (addr / 2 ^ 8) ∷ u8 addr ∷ bytes) ≡ addr
args_address addr bytes h = omega arith

pub latch_bit_lem : (b : Bool) → is_enabled (if b then 2 else 0) ≡ b
latch_bit_lem true = refl
latch_bit_lem false = refl

pub never : {A : Type 0} → false ≡ true → A
never h = absurd (ground arith)

unfoldable pub w25q32 : IsW25q32 board
unfolding command
w25q32 = record {
  mem = contents;
  busy = λ s. false;
  latch = λ s. s.latch;
  mem_byte = λ s a. omega arith;
  mem_sleep = λ d s. refl;
  latch_sleep = λ d s. refl;
  busy_sleep = λ d s h. refl;
  mem_status = λ s. refl;
  latch_status = λ s. refl;
  busy_status = λ s h. refl;
  latch_bit = λ s. latch_bit_lem s.latch;
  busy_bit = λ s h. refl;
  mem_enable = λ s. refl;
  busy_enable = λ s h. refl;
  read_data = λ s addr n h v.
      ap (λ k. slice (contents s) k n)
        (args_address addr [] (omega (arith, (is_address_valid_iff addr n).0 v)));
  mem_read = λ s addr n. refl;
  busy_read = λ s addr n h. refl;
  page_program_on = λ s addr bytes v h l.
      changed
        (λ m. program m (address (u8 (addr / 2 ^ 16) ∷ u8 (addr / 2 ^ 8) ∷ u8 addr ∷ bytes)) bytes)
        (record s { frame = command 0x02 addr ++ bytes })
        (λ m a.
          program-lt m (address (u8 (addr / 2 ^ 16) ∷ u8 (addr / 2 ^ 8) ∷ u8 addr ∷ bytes)) bytes a)
        l
      ∙ ap (λ k. program (contents s) k bytes)
          (args_address addr bytes
            (omega (arith, (is_page_program_valid_iff addr (length bytes)).0 v)));
  page_program_off = λ s addr bytes h. never h;
  sector_erase_on = λ s addr v h l.
      changed
        (λ m.
          erase m (sector_base (address (u8 (addr / 2 ^ 16) ∷ u8 (addr / 2 ^ 8) ∷ u8 addr ∷ [])))
            sector_size)
        (record s { frame = command 0x20 addr })
        (λ m a.
          erase-lt m (sector_base (address (u8 (addr / 2 ^ 16) ∷ u8 (addr / 2 ^ 8) ∷ u8 addr ∷ [])))
            sector_size a)
        l
      ∙ ap (λ k. erase (contents s) (sector_base k) sector_size)
          (args_address addr [] (omega (arith, (is_address_valid_iff addr 1).0 v)));
  sector_erase_off = λ s addr h. never h;
  chip_erase_on = λ s h l.
      changed (λ m. erase m 0 flash_size) (record s { frame = 0xC7 ∷ [] })
        (λ m a. erase-lt m 0 flash_size a) l;
}

pub aside : IsAside board w25q32 semaphores
unfolding w25q32
aside = record {
  take_io_lem = λ s. (refl, λ h. h);
  give_io_lem = λ s. (refl, λ h. h);
  create_mutex_lem = λ s. (refl, λ h. h);
  take_mutex_lem = λ s. (refl, λ h. h);
  give_mutex_lem = λ s. (refl, λ h. h);
}
