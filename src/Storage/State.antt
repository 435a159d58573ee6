-- ===== src/Storage/State.antt =====
-- The object, its two mutexes, and the accessors that only read a field.
use pico_wenvironment_logger.Prelude.{
  ℕ, ◌-◌, Bool, true, false, ltb, leb, ◌==◌, if◌then◌else◌, Option, none, some,
}
use pico_wenvironment_logger.FlashApi.{Flash}
use pico_wenvironment_logger.Storage.{Config, add32}

-- `dev` stands for the flash, the mutexes and what else they live in. `maintenance_busy` is the
-- global `g_flash_maintenance_busy` of src/FlashBusy.cpp.
pub record Storage (F : Flash) : Type 0 where
  pub dev : F.Dev
  pub config : Config
  pub write_addr : ℕ
  pub oldest_addr : ℕ
  pub newest_addr : ℕ
  pub newest_seq : ℕ
  pub valid_frame_count : ℕ
  pub has_shared_io : Bool  -- shared_io_mutex_ != nullptr
  pub initialized : Bool
  pub has_mutex : Bool  -- mutex_ != nullptr
  pub maintenance_busy : Bool

module _ (F : Flash) where
  -- The constructor.
  unfoldable pub create : F.Dev → ℕ → ℕ → Bool → Storage F
  create d start end shared = record {
    dev = d;
    config = record { start_addr = start; end_addr = end };
    write_addr = 0;
    oldest_addr = 0;
    newest_addr = 0;
    newest_seq = 0;
    valid_frame_count = 0;
    has_shared_io = shared;
    initialized = false;
    has_mutex = false;
    maintenance_busy = false;
  }

  -- `lock_shared_io` and `unlock_shared_io`: with no mutex there is nothing to take.
  unfoldable pub lock_shared_io : Bool → F.Dev → Bool × F.Dev
  lock_shared_io has d = if has then F.take_io d else (true, d)

  unfoldable pub unlock_shared_io : Bool → F.Dev → F.Dev
  unlock_shared_io has d = if has then F.give_io d else d

  unfoldable pub lock : Storage F → Bool × Storage F
  lock s =
      if s.has_mutex
      then (let (ok, d) = F.take_mutex s.dev in (ok, record s { dev = d }))
      else (false, s)

  unfoldable pub unlock : Storage F → Storage F
  unlock s = if s.has_mutex then record s { dev = F.give_mutex s.dev } else s

  -- `MutexGuard guard(*this); if(!guard.locked()) return fail;` and the rest of the scope, at
  -- whose end the guard unlocks.
  unfoldable pub guarded :
      {A : Type 0} → A → (Storage F → A × Storage F) → Storage F → A × Storage F
  unfolding lock unlock
  guarded fail body s =
      let (locked, s') = lock s in
      if locked then (let (a, t) = body s' in (a, unlock t)) else (fail, s')

  unfoldable pub is_range_valid : Storage F → ℕ → ℕ → Bool
  is_range_valid s addr len =
      if s.initialized
      then (if len == 0
          then false
          else if ltb addr s.config.start_addr
          then false
          else if leb s.config.end_addr addr
          then false
          else if ltb s.config.end_addr (add32 addr len)
          then false
          else true)
      else false

  unfoldable pub find_oldest_frame : Storage F → Option ℕ
  find_oldest_frame s = if s.valid_frame_count == 0 then none else some s.oldest_addr

  unfoldable pub find_newest_frame : Storage F → Option (ℕ × ℕ)
  find_newest_frame s =
      if s.valid_frame_count == 0 then none else some (s.newest_addr, s.newest_seq)

  unfoldable pub get_remaining_size : Storage F → ℕ
  get_remaining_size s =
      if s.initialized
      then (if leb s.config.end_addr s.write_addr then 0 else s.config.end_addr - s.write_addr)
      else 0
