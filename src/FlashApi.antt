-- ===== src/FlashApi.antt =====
-- What FlashLogStorage uses of the flash driver, of the mutex that flash and I2C share, and of its
-- own recursive mutex. `Client` fills it with the driver of src/FlashDriver.cpp.
use pico_wenvironment_logger.Prelude.{
  ℕ, ◌<◌, List, length, Bool, true, false, Option, none, some, ◌≡◌, if◌then◌else◌,
}
use pico_wenvironment_logger.Memory.{Memory, slice, program, erase, within}
use pico_wenvironment_logger.Driver.{is_address_valid, sector_base, sector_size}

pub record Flash : Type 1 where
  pub Dev : Type 0
  pub read : Dev → ℕ → ℕ → Option (List ℕ)  -- FlashDriver::read
  pub page_program : Dev → ℕ → List ℕ → Bool × Dev  -- FlashDriver::pageProgram
  pub sector_erase : Dev → ℕ → Bool × Dev  -- FlashDriver::sectorErase
  pub take_io : Dev → Bool × Dev  -- xSemaphoreTake(shared_io_mutex_, ...) == pdTRUE
  pub give_io : Dev → Dev  -- xSemaphoreGive(shared_io_mutex_)
  pub create_mutex : Dev → Bool × Dev  -- xSemaphoreCreateRecursiveMutex() != nullptr
  pub take_mutex : Dev → Bool × Dev  -- xSemaphoreTakeRecursive(mutex_, ...) == pdTRUE
  pub give_mutex : Dev → Dev  -- xSemaphoreGiveRecursive(mutex_)

-- The contents of the chip behind the interface, and when it may be read. A request that fails may
-- leave the chip busy; then nothing is known of what a read returns.
pub record IsFlash (F : Flash) : Type 1 where
  pub contents : F.Dev → Memory
  pub Ready : F.Dev → Type 0
  pub contents_byte : (d : F.Dev) (a : ℕ) → contents d a < 256
  pub read_lem :
      (d : F.Dev) (addr n : ℕ)
      → Ready d
      → F.read d addr n
        ≡ (if is_address_valid addr n then some (slice (contents d) addr n) else none)
  pub program_lem :
      (d : F.Dev) (addr : ℕ) (bytes : List ℕ)
      → Ready d
      → (F.page_program d addr bytes).0 ≡ true
      → (contents (F.page_program d addr bytes).1 ≡ program (contents d) addr bytes)
        × Ready (F.page_program d addr bytes).1
  pub program_outside :
      (d : F.Dev) (addr : ℕ) (bytes : List ℕ) (a : ℕ)
      → within addr (length bytes) a ≡ false
      → contents (F.page_program d addr bytes).1 a ≡ contents d a
  pub erase_lem :
      (d : F.Dev) (addr : ℕ)
      → Ready d
      → (F.sector_erase d addr).0 ≡ true
      → (contents (F.sector_erase d addr).1 ≡ erase (contents d) (sector_base addr) sector_size)
        × Ready (F.sector_erase d addr).1
  pub erase_outside :
      (d : F.Dev) (addr a : ℕ)
      → within (sector_base addr) sector_size a ≡ false
      → contents (F.sector_erase d addr).1 a ≡ contents d a
  -- The mutexes do not touch the chip.
  pub take_io_lem :
      (d : F.Dev) → (contents (F.take_io d).1 ≡ contents d) × (Ready d → Ready (F.take_io d).1)
  pub give_io_lem :
      (d : F.Dev) → (contents (F.give_io d) ≡ contents d) × (Ready d → Ready (F.give_io d))
  pub create_mutex_lem :
      (d : F.Dev)
      → (contents (F.create_mutex d).1 ≡ contents d) × (Ready d → Ready (F.create_mutex d).1)
  pub take_mutex_lem :
      (d : F.Dev)
      → (contents (F.take_mutex d).1 ≡ contents d) × (Ready d → Ready (F.take_mutex d).1)
  pub give_mutex_lem :
      (d : F.Dev) → (contents (F.give_mutex d) ≡ contents d) × (Ready d → Ready (F.give_mutex d))
