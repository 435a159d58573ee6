-- ===== src/Client.antt =====
-- The driver of src/FlashDriver.cpp as the flash that src/FlashLogStorage.cpp works on.
pub mod Sim
pub mod Reliable
use pico_wenvironment_logger.Prelude.{
  ℕ, List, length, Bool, true, false, Option, ◌≡◌, refl, if◌then◌else◌,
}
use pico_wenvironment_logger.Memory.{Memory}
use pico_wenvironment_logger.Driver.Pins.{Board}
use pico_wenvironment_logger.Driver.Chip.{IsW25q32}
use pico_wenvironment_logger.Driver.Ops.{
  read_lem, page_program_lem, page_program_outside, sector_erase_lem, sector_erase_outside,
}
use pico_wenvironment_logger.FlashApi.{Flash, IsFlash}

-- The semaphores of FreeRTOS that the log uses, on the same state as the board.
pub record Semaphores (State : Type 0) : Type 0 where
  pub take_io : State → Bool × State
  pub give_io : State → State
  pub create_mutex : State → Bool × State
  pub take_mutex : State → Bool × State
  pub give_mutex : State → State

-- They reach neither the contents of the chip nor its busy flag.
abbrev pub Untouched : (b : Board) → IsW25q32 b → b.State → b.State → Type 0
Untouched b chip s t = (chip.mem t ≡ chip.mem s) × (chip.busy s ≡ false → chip.busy t ≡ false)

pub record IsAside (b : Board) (chip : IsW25q32 b) (sem : Semaphores b.State) : Type 0 where
  pub take_io_lem : (s : b.State) → Untouched b chip s (sem.take_io s).1
  pub give_io_lem : (s : b.State) → Untouched b chip s (sem.give_io s)
  pub create_mutex_lem : (s : b.State) → Untouched b chip s (sem.create_mutex s).1
  pub take_mutex_lem : (s : b.State) → Untouched b chip s (sem.take_mutex s).1
  pub give_mutex_lem : (s : b.State) → Untouched b chip s (sem.give_mutex s)

-- A read leaves contents and busy flag as they are (`Driver.Ops.read_lem`), so the interface keeps
-- only the bytes it gives.
abbrev pub driver : (b : Board) → Semaphores b.State → Flash
driver b sem = record {
  Dev = b.State;
  read = λ s addr n. (pico_wenvironment_logger.Driver.read b addr n s).0;
  page_program = λ s addr bytes. pico_wenvironment_logger.Driver.page_program b addr bytes s;
  sector_erase = λ s addr. pico_wenvironment_logger.Driver.sector_erase b addr s;
  take_io = sem.take_io;
  give_io = sem.give_io;
  create_mutex = sem.create_mutex;
  take_mutex = sem.take_mutex;
  give_mutex = sem.give_mutex;
}

-- The driver on a W25Q32 keeps what the log relies on; the chip is ready when it is not busy.
abbrev pub driver-IsFlash :
    (b : Board) (chip : IsW25q32 b) (sem : Semaphores b.State)
    → IsAside b chip sem
    → IsFlash (driver b sem)
driver-IsFlash b chip sem aside = record {
  contents = chip.mem;
  Ready = λ s. chip.busy s ≡ false;
  contents_byte = chip.mem_byte;
  read_lem = λ s addr n idle. (read_lem b chip addr n s idle).0;
  program_lem = λ s addr bytes idle ok.
      let (accepted, done, ready) = page_program_lem b chip addr bytes s idle ok in (done, ready);
  program_outside = λ s addr bytes a out. page_program_outside b chip addr bytes a s out;
  erase_lem = λ s addr idle ok. sector_erase_lem b chip addr s idle ok;
  erase_outside = λ s addr a out. sector_erase_outside b chip addr a s out;
  take_io_lem = aside.take_io_lem;
  give_io_lem = aside.give_io_lem;
  create_mutex_lem = aside.create_mutex_lem;
  take_mutex_lem = aside.take_mutex_lem;
  give_mutex_lem = aside.give_mutex_lem;
}
