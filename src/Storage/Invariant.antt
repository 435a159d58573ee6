-- ===== src/Storage/Invariant.antt =====
-- The invariant of an initialised log: its configuration is valid, it has its mutex, and every
-- address of the index lies in the area. It holds whatever the device does.
pub mod Scanned
pub mod Index
pub mod Kept
pub mod Reachable
use pico_wenvironment_logger.Prelude.{ℕ, ◌^◌, ◌<◌, Bool, true, ◌≡◌}
use pico_wenvironment_logger.FlashApi.{Flash}
use pico_wenvironment_logger.Storage.State.{Storage}
use pico_wenvironment_logger.Storage.Frames.{IsConfig}
use pico_wenvironment_logger.Storage.Layout.{InArea}

module _ {F : Flash} where
  pub record IsRunning (s : Storage F) : Type 0 where
    pub config : IsConfig s.config
    pub write : InArea s.config s.write_addr
    pub oldest : InArea s.config s.oldest_addr
    pub newest : InArea s.config s.newest_addr
    pub count : s.valid_frame_count < 2 ^ 32
    pub mutex : s.has_mutex ≡ true

  -- Before `init` succeeds nothing is promised.
  abbrev pub IsValid : Storage F → Type 0
  IsValid s = s.initialized ≡ true → IsRunning s
