-- ===== src/Storage/Append/Store.antt =====
-- A frame appended on a device whose requests succeed is stored, found again and indexed.
use pico_wenvironment_logger.Prelude.{
  ℕ, ◌+◌, ◌-◌, ◌%◌, ◌/◌, ◌≤◌, Bool, true, false, ltb, ◌==◌, if◌then◌else◌, List, length, ◌≡◌, sym,
  ◌∙◌, ap, subst, ◌⊎◌, inl, inr, arith, Bool-cases, ==_iff, le→ltb,
}
use pico_wenvironment_logger.Protocol.{LogFrameHeader}
use pico_wenvironment_logger.Frame.{frame_size}
use pico_wenvironment_logger.Memory.{slice, erase}
use pico_wenvironment_logger.Driver.{sector_size, sector_base}
use pico_wenvironment_logger.FlashApi.{Flash, IsFlash}
use pico_wenvironment_logger.Storage.{Config, is_sector_start}
use pico_wenvironment_logger.Storage.State.{Storage, guarded, unlock}
use pico_wenvironment_logger.Storage.Guard.{taken, unlock-cases, guarded-runs}
use pico_wenvironment_logger.Storage.Init.{erase_locked}
use pico_wenvironment_logger.Storage.Frames.{FrameAt, IsConfig}
use pico_wenvironment_logger.Storage.Layout.{InArea, frame_address_fits}
use pico_wenvironment_logger.Storage.Invariant.Index.{invalidate_same}
use pico_wenvironment_logger.Storage.Append.{
  frame_address, invalidate_frames_in_erased_sector, write_frame, place_frame, append_guarded,
  append,
}
use pico_wenvironment_logger.Storage.Append.Reliable.{IsReliable}
use pico_wenvironment_logger.Storage.Append.Bytes.{
  IsErased-sector, IsFrame, IsErased, length-IsFrame,
}
use pico_wenvironment_logger.Storage.Append.Placed.{
  Appended, erase_locked_succeeds, write_frame_lem,
}

module _ (F : Flash) (flash : IsFlash F) (rel : IsReliable F flash) where
  open flash use {contents, Ready}

  -- The sector of `addr` is erased first.
  erase_then_write :
      (old addr : ℕ) (h : LogFrameHeader) (bytes : List ℕ) (s : Storage F)
      → Ready s.dev
      → IsConfig s.config
      → IsFrame h bytes
      → s.config.start_addr ≤ addr
      → addr + length bytes ≤ s.config.end_addr
      → addr % sector_size ≡ 0
      → let t = record s { dev = (erase_locked F s.has_shared_io s.dev addr).1 } in
        ((write_frame F old addr bytes t).0 ≡ true)
        × Appended F flash rel s.config addr h bytes (write_frame F old addr bytes t).1
  erase_then_write old addr h bytes s r v f from to z =
      write_frame_lem F flash rel old addr h bytes
        (record s { dev = (erase_locked F s.has_shared_io s.dev addr).1 }) (done.2) v f from to
        (subst (λ m. IsErased m addr (length bytes)) (sym done.1)
          (IsErased-sector (contents s.dev) addr (length bytes) z (omega (arith, size, f.short))))
    where
      size : length bytes ≡ frame_size h.length
      size = length-IsFrame h bytes f

      done :
          ((erase_locked F s.has_shared_io s.dev addr).0 ≡ true)
          × (contents (erase_locked F s.has_shared_io s.dev addr).1
              ≡ erase (contents s.dev) (sector_base addr) sector_size)
          × Ready (erase_locked F s.has_shared_io s.dev addr).1
      done =
          erase_locked_succeeds F flash rel s.has_shared_io s.dev addr r
            (omega (arith, size, v.inside))

  place_frame_lem :
      (old addr : ℕ) (h : LogFrameHeader) (bytes : List ℕ) (s : Storage F)
      → Ready s.dev
      → IsConfig s.config
      → IsFrame h bytes
      → s.config.start_addr ≤ addr
      → addr + length bytes ≤ s.config.end_addr
      → (addr % sector_size ≡ 0) ⊎ IsErased (contents s.dev) addr (length bytes)
      → ((place_frame F old addr bytes s).0 ≡ true)
        × Appended F flash rel s.config addr h bytes (place_frame F old addr bytes s).1
  unfolding place_frame is_sector_start
  place_frame_lem old addr h bytes s r v f from to free =
      elim (Bool-cases (addr % sector_size == 0)) [
        | inr e ↦
            rw (e, place_frame)
              (write_frame_lem F flash rel old addr h bytes s r v f from to
                (elim free [ inl z ↦ absurd (ground arith) | inr b ↦ b ]))
        | inl e ↦
            let s1 : Storage F = invalidate_frames_in_erased_sector F addr s in
            let same = invalidate_same F addr s in
            let r1 : Ready s1.dev = subst Ready (sym same.0) r in
            let ok =
              (erase_locked_succeeds F flash rel s1.has_shared_io s1.dev addr r1
                (omega (arith, length-IsFrame h bytes f, v.inside))).0 in
            let done =
              erase_then_write old addr h bytes s1 r1 (subst IsConfig (sym same.1) v) f
                (subst (λ c. c.start_addr ≤ addr) (sym same.1) from)
                (subst (λ c. addr + length bytes ≤ c.end_addr) (sym same.1) to)
                ((==_iff _ _).0 e) in
            rw (e, place_frame, ok)
              (
                done.0,
                subst
                    (λ c.
                      Appended F flash rel c addr h bytes
                        (write_frame F old addr bytes
                          (record s1 { dev = (erase_locked F s1.has_shared_io s1.dev addr).1 })).1)
                    same.1 done.1,
              )
      ]

  unlock-Appended :
      (c : Config) (a : ℕ) (h : LogFrameHeader) (bytes : List ℕ) (t : Storage F)
      → Appended F flash rel c a h bytes t
      → Appended F flash rel c a h bytes (unlock F t)
  unlock-Appended c a h bytes t p = unlock-cases F (Appended F flash rel c a h bytes) t p record {
    frame =
        subst (λ m. FrameAt m c a h (length bytes)) (sym (flash.give_mutex_lem t.dev).0) p.frame;
    stored =
        subst (λ m. slice m a (length bytes) ≡ bytes) (sym (flash.give_mutex_lem t.dev).0) p.stored;
    newest = p.newest;
    newest_seq = p.newest_seq;
    next = p.next;
    ready = (flash.give_mutex_lem t.dev).1 p.ready;
    same_config = p.same_config;
  }

  pub append-guarded :
      (bytes : List ℕ) (s : Storage F)
      → s.initialized ≡ true
      → (length bytes == 0) ≡ false
      → append F bytes s ≡ guarded F false (append_guarded F bytes) s
  unfolding append
  append-guarded bytes s i e =
      ap
        (λ b.
          if b
          then (if length bytes == 0
              then (false, s)
              else guarded F false (append_guarded F bytes) s)
          else (false, s))
        i
      ∙ ap (λ b. if b then (false, s) else guarded F false (append_guarded F bytes) s) e

  -- An `append` of a frame to an initialised log, on a device whose requests succeed and where
  -- the frame's place starts a sector or is erased, returns true. Then its bytes stand at the
  -- frame's place in the flash, the index names it with its sequence number as the newest one, the next
  -- frame goes behind it or to the start of the area, and the device is ready.
  pub append_stores :
      (h : LogFrameHeader) (bytes : List ℕ) (s : Storage F)
      → Ready s.dev
      → IsConfig s.config
      → s.initialized ≡ true
      → s.has_mutex ≡ true
      → InArea s.config s.write_addr
      → IsFrame h bytes
      → (frame_address s.config s.write_addr (length bytes) % sector_size ≡ 0)
        ⊎ IsErased
            (contents s.dev)
            (frame_address s.config s.write_addr (length bytes))
            (length bytes)
      → ((append F bytes s).0 ≡ true)
        × Appended F flash rel s.config
            (frame_address s.config s.write_addr (length bytes))
            h
            bytes
            (append F bytes s).1
  unfolding append_guarded
  append_stores h bytes s r v i m w f free =
      subst Wanted (sym (append-guarded bytes s i nonempty)) (
        guarded-runs F Wanted false (append_guarded F bytes) s m (rel.takes_mutex s.dev) (
          subst (λ b. Wanted (ended (if b then (false, taken F s) else placed))) (sym short)
            (done.0, unlock-Appended s.config addr h bytes placed.1 done.1)))
    where
      size : length bytes ≡ frame_size h.length
      size = length-IsFrame h bytes f

      nonempty : (length bytes == 0) ≡ false
      nonempty = ground (arith, size)

      short : ltb sector_size (length bytes) ≡ false
      short = le→ltb sector_size (length bytes) (omega (arith, size, f.short))

      addr : ℕ
      addr = frame_address s.config s.write_addr (length bytes)

      fits :
          (s.config.start_addr ≤ addr)
          × (addr + length bytes ≤ s.config.end_addr)
          × (addr / sector_size ≡ (addr + length bytes - 1) / sector_size)
          × ((addr ≡ s.write_addr) ⊎ (addr % sector_size ≡ 0))
      fits =
          frame_address_fits s.config s.write_addr (length bytes) v w (omega (arith, size))
            (omega (arith, size, f.short))

      Wanted : Bool × Storage F → Type 0
      Wanted x = (x.0 ≡ true) × Appended F flash rel s.config addr h bytes x.1

      placed : Bool × Storage F
      placed = place_frame F s.write_addr addr bytes (taken F s)

      ended : Bool × Storage F → Bool × Storage F
      ended r = (r.0, unlock F r.1)

      done :
          ((place_frame F s.write_addr addr bytes (taken F s)).0 ≡ true)
          × Appended F flash rel s.config addr h bytes
              (place_frame F s.write_addr addr bytes (taken F s)).1
      done =
          place_frame_lem s.write_addr addr h bytes (taken F s) ((flash.take_mutex_lem s.dev).1 r) v
            f fits.0 fits.1
            (subst (λ k. (addr % sector_size ≡ 0) ⊎ IsErased k addr (length bytes))
              (sym (flash.take_mutex_lem s.dev).0) free)
