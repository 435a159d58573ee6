-- ===== src/Storage/Init.antt =====
-- `init`, `eraseLogArea` and `restoreWriteAddress`.
use pico_wenvironment_logger.Prelude.{ℕ, zero, suc, ◌-◌, ◌/◌, Bool, true, false, ltb, if◌then◌else◌}
use pico_wenvironment_logger.Driver.{sector_size}
use pico_wenvironment_logger.FlashApi.{Flash}
use pico_wenvironment_logger.Storage.{Config, add32, is_config_valid}
use pico_wenvironment_logger.Storage.State.{Storage, guarded, lock_shared_io, unlock_shared_io}
use pico_wenvironment_logger.Storage.Scan.{rebuild_index_from_flash}

module _ (F : Flash) where
  -- The five assignments that empty the index.
  unfoldable pub reset_index : Storage F → Storage F
  reset_index s = record s {
    write_addr = s.config.start_addr;
    oldest_addr = s.config.start_addr;
    newest_addr = s.config.start_addr;
    newest_seq = 0;
    valid_frame_count = 0;
  }

  -- The second half of `init`, once there is a mutex.
  unfoldable pub start_index : Storage F → Bool × Storage F
  unfolding reset_index
  start_index s =
      let (done, t) = rebuild_index_from_flash F (record (reset_index s) { initialized = true }) in
      (true, t)

  unfoldable pub init : Storage F → Bool × Storage F
  unfolding start_index
  init s =
      if is_config_valid s.config
      then (if s.has_mutex
          then start_index s
          else let (made, d) = F.create_mutex s.dev in
            if made
            then start_index (record s { dev = d; has_mutex = true })
            else (false, record s { dev = d }))
      else (false, s)

  -- One sector, under the shared mutex.
  unfoldable pub erase_locked : Bool → F.Dev → ℕ → Bool × F.Dev
  erase_locked shared d addr =
      let (locked, d1) = lock_shared_io F shared d in
      if locked
      then (let (ok, d2) = F.sector_erase d1 addr in (ok, unlock_shared_io F shared d2))
      else (false, d1)

  -- `for(addr = start; addr < end; addr += SECTOR_SIZE)`, with a return at the first failure.
  unfoldable pub erase_sectors : Bool → Config → ℕ → ℕ → F.Dev → Bool × F.Dev
  erase_sectors shared c zero addr d = (true, d)
  erase_sectors shared c (suc fuel) addr d = elim (ltb addr c.end_addr) [
    | false ↦ (true, d)
    | true ↦
        let (ok, d') = erase_locked shared d addr in
        elim ok [
          | true ↦ erase_sectors shared c fuel (add32 addr sector_size) d'
          | false ↦ (false, d')
        ]
  ]

  -- What `eraseLogArea` does under its guard. A failure returns with the busy flag still set.
  unfoldable pub erase_area : Storage F → Bool × Storage F
  unfolding reset_index
  erase_area s =
      let c = s.config in
      let (ok, d) =
        erase_sectors s.has_shared_io c ((c.end_addr - c.start_addr) / sector_size) c.start_addr
          s.dev in
      if ok
      then (true, reset_index (record s { dev = d; maintenance_busy = false }))
      else (false, record s { dev = d; maintenance_busy = true })

  unfoldable pub erase_log_area : Storage F → Bool × Storage F
  unfolding erase_area
  erase_log_area s = if s.initialized then guarded F false erase_area s else (false, s)

  unfoldable pub restore_write_address : Storage F → Bool × Storage F
  restore_write_address s =
      if s.initialized then guarded F false (rebuild_index_from_flash F) s else (false, s)
