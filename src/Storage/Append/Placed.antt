-- ===== src/Storage/Append/Placed.antt =====
-- `append` once the place of the frame is erased: its pages, the read-back and the index.
use pico_wenvironment_logger.Prelude.{
  ℕ, ◌+◌, ◌^◌, ◌≤◌, ◌<◌, Bool, true, ◌==◌, List, length, ◌≡◌, refl, sym, ◌∙◌, ap, subst, arith,
  if-both,
}
use pico_wenvironment_logger.Protocol.{LogFrameHeader}
use pico_wenvironment_logger.Memory.{slice, program, erase, slice-program}
use pico_wenvironment_logger.Driver.{sector_size, sector_base, flash_size}
use pico_wenvironment_logger.Driver.Range.{is_address_valid_iff}
use pico_wenvironment_logger.FlashApi.{Flash, IsFlash}
use pico_wenvironment_logger.Storage.{Config, wrap_address}
use pico_wenvironment_logger.Storage.State.{Storage, lock_shared_io}
use pico_wenvironment_logger.Storage.Init.{erase_locked}
use pico_wenvironment_logger.Storage.Frames.{FrameAt, IsConfig}
use pico_wenvironment_logger.Storage.Frames.Decide.{is_valid_frame_at_iff}
use pico_wenvironment_logger.Storage.Append.{
  update_index_after_append, write_pages, commit, write_frame,
}
use pico_wenvironment_logger.Storage.Append.Pages.{
  write_pages_stores, lock_shared_io_lem, unlock_shared_io_lem, OnWritten, OnWritten-map, Stored,
}
use pico_wenvironment_logger.Storage.Append.Reliable.{
  IsReliable, write_pages-Succeeds, locks_shared_io,
}
use pico_wenvironment_logger.Storage.Append.Bytes.{
  IsFrame, IsErased, IsFrame-IsByte, program-FrameAt,
}

module _ (F : Flash) (flash : IsFlash F) (rel : IsReliable F flash) where
  open flash use {contents, Ready}

  -- After an append: the frame stands at `addr`, the index names it as the newest one, and the
  -- next one goes behind it.
  pub record Appended (c : Config) (addr : ℕ) (h : LogFrameHeader) (bytes : List ℕ) (t : Storage F)
      : Type 0 where
    pub frame : FrameAt (contents t.dev) c addr h (length bytes)
    pub stored : slice (contents t.dev) addr (length bytes) ≡ bytes
    pub newest : t.newest_addr ≡ addr
    pub newest_seq : t.newest_seq ≡ h.seq
    pub next : t.write_addr ≡ wrap_address c (addr + length bytes)
    pub ready : Ready t.dev
    pub same_config : t.config ≡ c

  pub erase_locked_succeeds :
      (has : Bool) (d : F.Dev) (addr : ℕ)
      → Ready d
      → addr < flash_size
      → ((erase_locked F has d addr).0 ≡ true)
        × (contents (erase_locked F has d addr).1
            ≡ erase (contents d) (sector_base addr) sector_size)
        × Ready (erase_locked F has d addr).1
  unfolding erase_locked
  erase_locked_succeeds has d addr r small = rw (locks_shared_io F flash rel has d) (
    ok,
    (unlock_shared_io_lem F flash has d2).0
        ∙ (flash.erase_lem d1 addr r1 ok).0
        ∙ ap (λ m. erase m (sector_base addr) sector_size) (lock_shared_io_lem F flash has d).0,
    (unlock_shared_io_lem F flash has d2).1 (flash.erase_lem d1 addr r1 ok).1,
  )
    where
      d1 : F.Dev
      d1 = (lock_shared_io F has d).1

      d2 : F.Dev
      d2 = (F.sector_erase d1 addr).1

      r1 : Ready d1
      r1 = (lock_shared_io_lem F flash has d).1 r

      ok : (F.sector_erase d1 addr).0 ≡ true
      ok =
          rel.erases d1 addr r1
            ((is_address_valid_iff (sector_base addr) 1).1 (omega arith, omega arith))

  -- A frame that stands at `addr` passes the read-back and enters the index.
  commit_lem :
      (old addr : ℕ) (h : LogFrameHeader) (bytes : List ℕ) (s : Storage F)
      → Ready s.dev
      → IsConfig s.config
      → FrameAt (contents s.dev) s.config addr h (length bytes)
      → slice (contents s.dev) addr (length bytes) ≡ bytes
      → ((commit F old addr (addr + length bytes) s).0 ≡ true)
        × Appended s.config addr h bytes (commit F old addr (addr + length bytes) s).1
  unfolding commit update_index_after_append
  commit_lem old addr h bytes s r v f e =
      rw
        (
          (is_valid_frame_at_iff F flash s.dev s.config addr h (length bytes) r v
                (omega (arith, f.to, v.inside))).1
              f,
          commit,
        )
        (
          refl,
          if-both (Appended s.config addr h bytes) (s.valid_frame_count == 0) _ _
              record {
                frame = f;
                stored = e;
                newest = refl;
                newest_seq = refl;
                next = refl;
                ready = r;
                same_config = refl;
              }
              record {
                frame = f;
                stored = e;
                newest = refl;
                newest_seq = refl;
                next = refl;
                ready = r;
                same_config = refl;
              },
        )

  pub write_frame_lem :
      (old addr : ℕ) (h : LogFrameHeader) (bytes : List ℕ) (s : Storage F)
      → Ready s.dev
      → IsConfig s.config
      → IsFrame h bytes
      → s.config.start_addr ≤ addr
      → addr + length bytes ≤ s.config.end_addr
      → IsErased (contents s.dev) addr (length bytes)
      → ((write_frame F old addr bytes s).0 ≡ true)
        × Appended s.config addr h bytes (write_frame F old addr bytes s).1
  unfolding write_frame
  write_frame_lem old addr h bytes s r v f from to blank =
      let (d, e, r') =
        write_pages-Succeeds F flash rel s.has_shared_io s.config (length bytes) addr bytes s.dev r
          v (omega arith) to in
      let post =
        subst (OnWritten (λ a t. contents t ≡ program (contents s.dev) addr bytes)) e
          (stored s.has_shared_io s.config addr bytes s.dev r (omega (arith, to, v.inside))) in
      rw (e, write_frame)
        (commit_lem old addr h bytes (record s { dev = d }) r' v
          (subst (λ m. FrameAt m s.config addr h (length bytes)) (sym post)
            (program-FrameAt (contents s.dev) s.config addr h bytes f from to blank))
          (ap (λ m. slice m addr (length bytes)) post
            ∙ slice-program (contents s.dev) addr bytes (IsFrame-IsByte h bytes f) blank))
    where
      stored :
          (has : Bool) (c : Config) (a : ℕ) (bs : List ℕ) (d : F.Dev)
          → Ready d
          → a + length bs < 2 ^ 32
          → OnWritten
              (λ b t. contents t ≡ program (contents d) a bs)
              (write_pages F has c (length bs) a bs d)
      stored has c a bs d r small =
          OnWritten-map F flash (Stored F flash d a bs)
            (λ b t. contents t ≡ program (contents d) a bs) (write_pages F has c (length bs) a bs d)
            (write_pages_stores F flash has c (length bs) a bs d r (omega arith) small)
            (λ b t p. p.1)
