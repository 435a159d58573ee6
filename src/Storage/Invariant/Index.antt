-- ===== src/Storage/Invariant/Index.antt =====
-- Each change of the index keeps the invariant, whatever the device does.
use pico_wenvironment_logger.Prelude.{
  ℕ, zero, suc, ◌-◌, ◌≤◌, true, false, ltb, leb, ◌==◌, if◌then◌else◌, some, ◌≡◌, subst, arith,
  Option-cases, if-both, inl, inr,
}
use pico_wenvironment_logger.FlashApi.{Flash}
use pico_wenvironment_logger.Protocol.{LogFrameHeader}
use pico_wenvironment_logger.Driver.{sector_size}
use pico_wenvironment_logger.Storage.{Config, add32, wrap_address}
use pico_wenvironment_logger.Storage.State.{Storage}
use pico_wenvironment_logger.Storage.Scan.{is_valid_frame_at}
use pico_wenvironment_logger.Storage.Append.{
  next_frame, count_removed, invalidate_frames_in_erased_sector, update_index_after_append, give_up,
  commit,
}
use pico_wenvironment_logger.Storage.Frames.{IsConfig}
use pico_wenvironment_logger.Storage.Layout.{InArea, wrap_address-InArea}
use pico_wenvironment_logger.Storage.Invariant.{IsRunning}
use pico_wenvironment_logger.Storage.Invariant.Scanned.{
  rebuild_index_from_flash-IsRunning, start-InArea,
}

module _ (F : Flash) where
  -- Only the device of the object may differ.
  abbrev pub set_dev : Storage F → F.Dev → Storage F
  set_dev s d = record s { dev = d }

  pub IsRunning-dev : (s : Storage F) (d : F.Dev) → IsRunning s → IsRunning (set_dev s d)
  IsRunning-dev s d p = record {
    config = p.config;
    write = p.write;
    oldest = p.oldest;
    newest = p.newest;
    count = p.count;
    mutex = p.mutex;
  }

  pub give_up-IsRunning :
      (s : Storage F) → IsConfig s.config → s.has_mutex ≡ true → IsRunning (give_up F s).1
  unfolding give_up
  give_up-IsRunning s v m = rebuild_index_from_flash-IsRunning F s v m

  update_index-IsRunning :
      (a : ℕ) (h : LogFrameHeader) (s : Storage F)
      → IsRunning s
      → InArea s.config a
      → IsRunning (update_index_after_append F a h s)
  unfolding update_index_after_append
  update_index-IsRunning a h s p i =
      if-both IsRunning (s.valid_frame_count == 0) _ _
        record {
          config = p.config;
          write = p.write;
          oldest = i;
          newest = i;
          count = omega arith;
          mutex = p.mutex;
        }
        record {
          config = p.config;
          write = p.write;
          oldest = p.oldest;
          newest = i;
          count = omega arith;
          mutex = p.mutex;
        }

  pub commit-IsRunning :
      (old start a : ℕ) (s : Storage F)
      → IsRunning s
      → InArea s.config start
      → s.config.start_addr ≤ a
      → IsRunning (commit F old start a s).1
  unfolding commit
  commit-IsRunning old start a s p i from =
      elim (Option-cases (is_valid_frame_at F s.dev s.config start)) [
        | inl e ↦
            rw (e, commit) (give_up-IsRunning (record s { write_addr = old }) p.config p.mutex)
        | inr ((h, n), e) ↦
            rw (e, commit)
              (update_index-IsRunning start h (record s { write_addr = wrap_address s.config a })
                record {
                  config = p.config;
                  write = wrap_address-InArea s.config a p.config from;
                  oldest = p.oldest;
                  newest = p.newest;
                  count = p.count;
                  mutex = p.mutex;
                }
                i)
      ]

  next_frame-InArea :
      (d : F.Dev) (c : Config) (left a b : ℕ)
      → IsConfig c
      → InArea c a
      → next_frame F d c left a ≡ some b
      → InArea c b
  unfolding next_frame
  next_frame-InArea d c zero a b v i = λ e. ground arith
  next_frame-InArea d c (suc left) a b v i = elim (Option-cases (is_valid_frame_at F d c a)) [
    | inl o ↦
        rw (o, next_frame)
          (next_frame-InArea d c left (wrap_address c (add32 a 1)) b v
            (wrap_address-InArea c (add32 a 1) v (omega (arith, i.from, i.below, v.inside))))
    | inr (hn, o) ↦ rw (o, next_frame) (λ q. subst (InArea c) (ground arith) i)
  ]

  pub invalidate-IsRunning :
      (a : ℕ) (s : Storage F)
      → IsRunning s
      → InArea s.config a
      → IsRunning (invalidate_frames_in_erased_sector F a s)
  unfolding invalidate_frames_in_erased_sector
  invalidate-IsRunning a s p i =
      let start = start-InArea s.config p.config in
      let c = s.config in
      let sector_end = add32 a sector_size in
      let removed = count_removed F s.dev c sector_end sector_size a 0 in
      if-both IsRunning (s.valid_frame_count == 0) s _ p (
        if-both IsRunning (leb s.valid_frame_count removed) _ _
          record {
            config = p.config;
            write = i;
            oldest = start;
            newest = start;
            count = omega arith;
            mutex = p.mutex;
          }
          (if-both IsRunning (if leb a s.oldest_addr then ltb s.oldest_addr sector_end else false) _
            _
            (elim (Option-cases
              (next_frame F s.dev c (c.end_addr - c.start_addr) (wrap_address c sector_end))) [
                | inl e ↦ rw e record {
                  config = p.config;
                  write = p.write;
                  oldest = start;
                  newest = start;
                  count = omega arith;
                  mutex = p.mutex;
                }
                | inr (b, e) ↦ rw e record {
                  config = p.config;
                  write = p.write;
                  oldest =
                      next_frame-InArea s.dev c (c.end_addr - c.start_addr)
                        (wrap_address c sector_end) b p.config
                        (wrap_address-InArea c sector_end p.config
                          (omega (arith, i.from, i.below, p.config.inside)))
                        e;
                  newest = p.newest;
                  count = omega (arith, p.count);
                  mutex = p.mutex;
                }
              ])
            record {
              config = p.config;
              write = p.write;
              oldest = p.oldest;
              newest = p.newest;
              count = omega (arith, p.count);
              mutex = p.mutex;
            }))

  -- Taking the frames of a sector out of the index changes neither the device nor the settings.
  pub invalidate_same :
      (a : ℕ) (s : Storage F)
      → let t = invalidate_frames_in_erased_sector F a s in
        (t.dev ≡ s.dev) × (t.config ≡ s.config) × (t.has_shared_io ≡ s.has_shared_io)
  unfolding invalidate_frames_in_erased_sector
  invalidate_same a s = ground arith
