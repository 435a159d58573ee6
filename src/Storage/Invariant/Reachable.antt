-- ===== src/Storage/Invariant/Reachable.antt =====
-- The calls that the tasks make of the log, in any order, and the invariant after them.
use pico_wenvironment_logger.Prelude.{
  ℕ, ◌-◌, ◌/◌, Bool, true, false, ◌==◌, List, [], ◌∷◌, length, ◌≡◌, refl, arith, if-both, if-cases,
}
use pico_wenvironment_logger.FlashApi.{Flash}
use pico_wenvironment_logger.Driver.{sector_size}
use pico_wenvironment_logger.Storage.{is_config_valid}
use pico_wenvironment_logger.Storage.State.{Storage, create}
use pico_wenvironment_logger.Storage.Guard.{taken, given}
use pico_wenvironment_logger.Storage.Scan.{rebuild_index_from_flash}
use pico_wenvironment_logger.Storage.Init.{
  reset_index, start_index, init, erase_sectors, erase_area, erase_log_area, restore_write_address,
}
use pico_wenvironment_logger.Storage.Append.{append_guarded, append}
use pico_wenvironment_logger.Storage.Read.{
  read, read_frame, send_frames_oldest_first, send_latest_frames,
}
use pico_wenvironment_logger.Storage.Read.Post.{
  read-kept, read_frame-kept, send_frames-kept, send_latest-kept,
}
use pico_wenvironment_logger.Storage.Frames.{IsConfig}
use pico_wenvironment_logger.Storage.Layout.{is_config_valid_iff}
use pico_wenvironment_logger.Storage.Invariant.{IsRunning, IsValid}
use pico_wenvironment_logger.Storage.Invariant.Scanned.{
  rebuild_index_from_flash-IsRunning, start-InArea,
}
use pico_wenvironment_logger.Storage.Invariant.Index.{set_dev, IsRunning-dev}
use pico_wenvironment_logger.Storage.Invariant.Kept.{append_guarded-IsRunning, guarded-IsRunning}

-- A call, with its arguments.
pub data Call : Type 0 where
  call_init call_erase_log_area call_restore_write_address : Call
  call_append : List ℕ → Call
  call_read call_read_frame : ℕ → ℕ → Call
  call_send_frames_oldest_first : Call
  call_send_latest_frames : ℕ → Call

module _ (F : Flash) where
  abbrev Result : Type 0
  Result = Bool × Storage F

  abbrev Valid : {A : Type 0} → A × Storage F → Type 0
  Valid r = IsValid r.1

  start_index-IsRunning :
      (s : Storage F) → IsConfig s.config → s.has_mutex ≡ true → IsRunning (start_index F s).1
  unfolding start_index
  start_index-IsRunning s v m =
      rebuild_index_from_flash-IsRunning F (record (reset_index F s) { initialized = true }) v m

  init-IsValid : (s : Storage F) → IsValid s → IsValid (init F s).1
  unfolding init
  init-IsValid s p =
      if-cases Valid (is_config_valid s.config) _ _
        (λ e.
          let v : IsConfig s.config = (is_config_valid_iff s.config).0 e in
          if-cases Valid s.has_mutex _ _ (λ m _. start_index-IsRunning s v m)
            (λ m.
              if-both Valid (F.create_mutex s.dev).0 _ _
                (λ _.
                  start_index-IsRunning
                    (record s { dev = (F.create_mutex s.dev).1; has_mutex = true }) v refl)
                (λ i. IsRunning-dev F s (F.create_mutex s.dev).1 (p i))))
        (λ e. p)

  append-IsValid : (bytes : List ℕ) (s : Storage F) → IsValid s → IsValid (append F bytes s).1
  unfolding append
  append-IsValid bytes s p =
      if-cases Valid s.initialized _ _
        (λ i.
          if-cases Valid (length bytes == 0) _ _ (λ _. p)
            (λ pos _.
              guarded-IsRunning F false (append_guarded F bytes) s
                (λ t. append_guarded-IsRunning F bytes t (ground arith)) (p i)))
        (λ _. p)

  erase_area-IsRunning : (s : Storage F) → IsRunning s → IsRunning (erase_area F s).1
  unfolding erase_area reset_index
  erase_area-IsRunning s p =
      let start = start-InArea s.config p.config in
      if-both (λ (r : Result). IsRunning r.1)
        (erase_sectors F s.has_shared_io s.config
          ((s.config.end_addr - s.config.start_addr) / sector_size) s.config.start_addr s.dev).0
        _ _
        record {
          config = p.config;
          write = start;
          oldest = start;
          newest = start;
          count = omega arith;
          mutex = p.mutex;
        }
        record {
          config = p.config;
          write = p.write;
          oldest = p.oldest;
          newest = p.newest;
          count = p.count;
          mutex = p.mutex;
        }

  erase_log_area-IsValid : (s : Storage F) → IsValid s → IsValid (erase_log_area F s).1
  unfolding erase_log_area
  erase_log_area-IsValid s p =
      if-cases Valid s.initialized _ _
        (λ i _. guarded-IsRunning F false (erase_area F) s erase_area-IsRunning (p i)) (λ _. p)

  restore-IsValid : (s : Storage F) → IsValid s → IsValid (restore_write_address F s).1
  unfolding restore_write_address
  restore-IsValid s p =
      if-cases Valid s.initialized _ _
        (λ i _.
          guarded-IsRunning F false (rebuild_index_from_flash F) s
            (λ t q. rebuild_index_from_flash-IsRunning F t q.config q.mutex) (p i))
        (λ _. p)

  IsValid-dev : (s : Storage F) (d : F.Dev) → IsValid s → IsValid (set_dev F s d)
  IsValid-dev s d p i = IsRunning-dev F s d (p i)

  take-IsValid : (s : Storage F) → IsValid s → IsValid (taken F s)
  take-IsValid s p = IsValid-dev s (F.take_mutex s.dev).1 p

  give-IsValid : (s : Storage F) → IsValid s → IsValid (given F s)
  give-IsValid s p = IsValid-dev s (F.give_mutex s.dev) p

  -- The object after a call; what it sends goes to the list `sent`, the last frame first.
  abbrev pub call : Call → Storage F → Storage F
  call call_init s = (init F s).1
  call call_erase_log_area s = (erase_log_area F s).1
  call call_restore_write_address s = (restore_write_address F s).1
  call (call_append bytes) s = (append F bytes s).1
  call (call_read addr n) s = (read F addr n s).1
  call (call_read_frame addr n) s = (read_frame F addr n s).1
  call call_send_frames_oldest_first s =
      (send_frames_oldest_first F (λ frame sent. frame ∷ sent) [] s).1
  call (call_send_latest_frames count) s =
      (send_latest_frames F (λ frame sent. frame ∷ sent) count [] s).1

  abbrev pub calls : List Call → Storage F → Storage F
  calls [] s = s
  calls (k ∷ ks) s = calls ks (call k s)

  pub call-IsValid : (k : Call) (s : Storage F) → IsValid s → IsValid (call k s)
  call-IsValid call_init s p = init-IsValid s p
  call-IsValid call_erase_log_area s p = erase_log_area-IsValid s p
  call-IsValid call_restore_write_address s p = restore-IsValid s p
  call-IsValid (call_append bytes) s p = append-IsValid bytes s p
  call-IsValid (call_read addr n) s p = read-kept F IsValid take-IsValid give-IsValid addr n s p
  call-IsValid (call_read_frame addr n) s p =
      read_frame-kept F IsValid take-IsValid give-IsValid addr n s p
  call-IsValid call_send_frames_oldest_first s p =
      send_frames-kept F IsValid take-IsValid give-IsValid (λ frame sent. frame ∷ sent) [] s p
  call-IsValid (call_send_latest_frames count) s p =
      send_latest-kept F IsValid take-IsValid give-IsValid (λ frame sent. frame ∷ sent) count [] s p

  calls-IsValid : (ks : List Call) (s : Storage F) → IsValid s → IsValid (calls ks s)
  calls-IsValid [] s p = p
  calls-IsValid (k ∷ ks) s p = calls-IsValid ks (call k s) (call-IsValid k s p)

  -- After any sequence of calls on a new object, on any device and whatever fails: once `init` has
  -- succeeded, the configuration is valid, the mutex is there, the write address and the addresses
  -- of the oldest and the newest frame lie in the area, and the frame count fits its 32 bits.
  pub reachable-IsValid :
      (d : F.Dev) (start end : ℕ) (shared : Bool) (ks : List Call)
      → IsValid (calls ks (create F d start end shared))
  unfolding create
  reachable-IsValid d start end shared ks =
      calls-IsValid ks (create F d start end shared) (λ i. absurd (ground arith))
