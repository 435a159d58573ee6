-- ===== src/Storage/Safety.antt =====
-- The log never changes a byte of the flash outside its area.
pub mod Calls
use pico_wenvironment_logger.Prelude.{
  ℕ, zero, suc, ◌+◌, ◌-◌, ◌%◌, ◌/◌, ◌^◌, ◌≤◌, ◌<◌, Bool, true, false, ltb, leb, ◌==◌, if◌then◌else◌,
  List, [], ◌∷◌, length, Option, none, some, ◌≡◌, refl, sym, ◌∙◌, ap, subst, arith, tests,
  Bool-cases, Option-cases, if-both, if-cases, inl, inr, ltb→le, ltb→lt,
}
use pico_wenvironment_logger.Memory.{Memory, within}
use pico_wenvironment_logger.Driver.{sector_size, sector_base, flash_size}
use pico_wenvironment_logger.FlashApi.{Flash, IsFlash}
use pico_wenvironment_logger.Storage.{Config, add32, is_config_valid, is_sector_start}
use pico_wenvironment_logger.Storage.State.{
  Storage, create, guarded, lock_shared_io, unlock_shared_io,
}
use pico_wenvironment_logger.Storage.Guard.{taken, given, guarded_post}
use pico_wenvironment_logger.Storage.Scan.{is_valid_frame_at, rebuild_index_from_flash, scan_all}
use pico_wenvironment_logger.Storage.Init.{
  reset_index, start_index, init, erase_locked, erase_sectors, erase_area, erase_log_area,
  restore_write_address,
}
use pico_wenvironment_logger.Storage.Append.{
  Written, written, crosses_end, io_timeout, program_failed, frame_address,
  invalidate_frames_in_erased_sector, update_index_after_append, write_pages, give_up, commit,
  write_frame, place_frame, append_guarded, append,
}
use pico_wenvironment_logger.Storage.Append.Pages.{
  device, write_pages_outside, lock_shared_io_lem, unlock_shared_io_lem,
}
use pico_wenvironment_logger.Storage.Frames.{IsConfig}
use pico_wenvironment_logger.Storage.Layout.{InArea, frame_address_fits, is_config_valid_iff}
use pico_wenvironment_logger.Storage.Invariant.{IsRunning, IsValid}
use pico_wenvironment_logger.Storage.Invariant.Index.{invalidate_same, set_dev, IsRunning-dev}

-- The byte at `x`, outside the area.
module _ (F : Flash) (flash : IsFlash F) (c : Config) (x y : ℕ)
    (out : within c.start_addr (c.end_addr - c.start_addr) x ≡ false) where
  open flash use {contents}

  -- It still has the value `y`, and the area is still that of `c`.
  pub record Kept (t : Storage F) : Type 0 where
    pub byte : contents t.dev x ≡ y
    pub config : t.config ≡ c

  pub Kept-dev : (t : Storage F) (d : F.Dev) → contents d x ≡ y → Kept t → Kept (set_dev F t d)
  Kept-dev t d e k = record { byte = e; config = k.config }

  abbrev at : Memory → ℕ
  at m = m x

  pub rebuild-Kept : (s : Storage F) → Kept s → Kept (rebuild_index_from_flash F s).1
  unfolding rebuild_index_from_flash
  rebuild-Kept s k =
      if-both (λ (r : Bool × Storage F). Kept r.1) (scan_all F s.dev s.config).found _ _
        record { byte = k.byte; config = k.config } record { byte = k.byte; config = k.config }

  give_up-Kept : (s : Storage F) → Kept s → Kept (give_up F s).1
  unfolding give_up
  give_up-Kept s k = rebuild-Kept s k

  erase_locked-outside :
      (has : Bool) (d : F.Dev) (a : ℕ)
      → within (sector_base a) sector_size x ≡ false
      → contents d x ≡ y
      → contents (erase_locked F has d a).1 x ≡ y
  unfolding erase_locked
  erase_locked-outside has d a far k =
      let same : contents (lock_shared_io F has d).1 x ≡ y =
        ap at (lock_shared_io_lem F flash has d).0 ∙ k in
      if-both (λ (r : Bool × F.Dev). contents r.1 x ≡ y) (lock_shared_io F has d).0 _ _
        (ap at (unlock_shared_io_lem F flash has (F.sector_erase (lock_shared_io F has d).1 a).1).0
          ∙ flash.erase_outside (lock_shared_io F has d).1 a x far
          ∙ same)
        same

  -- A sector of the area.
  sector_far : (a : ℕ) → IsConfig c → InArea c a → within (sector_base a) sector_size x ≡ false
  sector_far a v i = ground (arith, out, v.start_aligned, v.end_aligned, i.from, i.below, v.inside)

  commit-Kept : (old start a : ℕ) (s : Storage F) → Kept s → Kept (commit F old start a s).1
  unfolding commit update_index_after_append
  commit-Kept old start a s k = elim (Option-cases (is_valid_frame_at F s.dev s.config start)) [
    | inl e ↦
        rw (e, commit)
          (give_up-Kept (record s { write_addr = old }) record { byte = k.byte; config = k.config })
    | inr ((h, n), e) ↦
        rw (e, commit)
          (if-both Kept (s.valid_frame_count == 0) _ _ record { byte = k.byte; config = k.config }
            record { byte = k.byte; config = k.config })
  ]

  write_frame-Kept :
      (old a : ℕ) (bytes : List ℕ) (s : Storage F)
      → a + length bytes < 2 ^ 32
      → within a (length bytes) x ≡ false
      → Kept s
      → Kept (write_frame F old a bytes s).1
  unfolding write_frame
  write_frame-Kept old a bytes s small far k =
      ended (write_pages F s.has_shared_io s.config (length bytes) a bytes s.dev) (
        write_pages_outside F flash s.has_shared_io s.config (length bytes) a bytes s.dev x small
          far
        ∙ k.byte)
    where
      ended :
          (w : Written F.Dev)
          → contents (device w) x ≡ y
          → let r : Bool × Storage F = elim w [
            | written b d ↦ commit F old a b (record s { dev = d })
            | crosses_end d ↦ give_up F (record s { dev = d; write_addr = old })
            | io_timeout d ↦ give_up F (record s { dev = d })
            | program_failed d ↦ give_up F (record s { dev = d; write_addr = old })
          ] in
            Kept r.1
      ended (written b d) q =
          commit-Kept old a b (record s { dev = d }) record { byte = q; config = k.config }
      ended (crosses_end d) q =
          give_up-Kept (record s { dev = d; write_addr = old })
            record { byte = q; config = k.config }
      ended (io_timeout d) q =
          give_up-Kept (record s { dev = d }) record { byte = q; config = k.config }
      ended (program_failed d) q =
          give_up-Kept (record s { dev = d; write_addr = old })
            record { byte = q; config = k.config }

  place_frame-Kept :
      (old a : ℕ) (bytes : List ℕ) (s : Storage F)
      → IsConfig c
      → InArea c a
      → 0 < length bytes
      → a + length bytes ≤ c.end_addr
      → Kept s
      → Kept (place_frame F old a bytes s).1
  unfolding place_frame
  place_frame-Kept old a bytes s v i pos fits k =
      if-both (λ (r : Bool × Storage F). Kept r.1) (is_sector_start a) _ _
        (if-both (λ (r : Bool × Storage F). Kept r.1) (erase_locked F s1.has_shared_io s1.dev a).0 _
          _ (write_frame-Kept old a bytes (record s1 { dev = d1 }) small far k1)
          (give_up-Kept (record s1 { dev = d1 }) k1))
        (write_frame-Kept old a bytes s small far k)
    where
      s1 : Storage F
      s1 = invalidate_frames_in_erased_sector F a s

      d1 : F.Dev
      d1 = (erase_locked F s1.has_shared_io s1.dev a).1

      k1 : Kept (record s1 { dev = d1 })
      k1 = record {
        byte =
            erase_locked-outside s1.has_shared_io s1.dev a (sector_far a v i)
              (ap (λ d. contents d x) (invalidate_same F a s).0 ∙ k.byte);
        config = (invalidate_same F a s).1 ∙ k.config;
      }

      small : a + length bytes < 2 ^ 32
      small = omega (arith, fits, v.inside)

      far : within a (length bytes) x ≡ false
      far = ground (arith, out, i.from, fits)

  pub append_guarded-Kept :
      (bytes : List ℕ) (s : Storage F)
      → 0 < length bytes
      → IsRunning s
      → Kept s
      → Kept (append_guarded F bytes s).1
  unfolding append_guarded
  append_guarded-Kept bytes s pos p k =
      if-cases (λ (r : Bool × Storage F). Kept r.1) (ltb sector_size (length bytes)) _ _ (λ e. k)
        (λ e.
          let v : IsConfig c = subst IsConfig k.config p.config in
          let w : InArea c s.write_addr = subst (λ q. InArea q s.write_addr) k.config p.write in
          let fits =
            frame_address_fits c s.write_addr (length bytes) v w pos
              (ltb→le sector_size (length bytes) e) in
          subst
            (λ q.
              Kept
                (place_frame F s.write_addr (frame_address q s.write_addr (length bytes)) bytes
                  s).1)
            (sym k.config)
            (place_frame-Kept s.write_addr (frame_address c s.write_addr (length bytes)) bytes s v
              record { from = fits.0; below = omega (arith, fits.1, pos) } pos fits.1 k))

  erase_sectors-Kept :
      (has : Bool) (fuel a : ℕ) (d : F.Dev)
      → IsConfig c
      → c.start_addr ≤ a
      → contents d x ≡ y
      → contents (erase_sectors F has c fuel a d).1 x ≡ y
  unfolding erase_sectors
  erase_sectors-Kept has zero a d v from k = k
  erase_sectors-Kept has (suc fuel) a d v from k = elim (Bool-cases (ltb a c.end_addr)) [
    | inr e ↦ rw (e, erase_sectors) k
    | inl e ↦
        let i : InArea c a = record { from = from; below = ltb→lt a c.end_addr e } in
        let k' = erase_locked-outside has d a (sector_far a v i) k in
        elim (Bool-cases (erase_locked F has d a).0) [
          | inr f ↦ rw (e, f, erase_sectors) k'
          | inl f ↦
              rw (e, f, erase_sectors)
                (erase_sectors-Kept has fuel (add32 a sector_size) (erase_locked F has d a).1 v
                  (omega (arith, from, i.below, v.inside)) k')
        ]
  ]

  pub erase_area-Kept : (s : Storage F) → IsRunning s → Kept s → Kept (erase_area F s).1
  unfolding erase_area reset_index
  erase_area-Kept s p k =
      if-both (λ (r : Bool × Storage F). Kept r.1) ran.0 _ _
        record { byte = byte; config = k.config } record { byte = byte; config = k.config }
    where
      run : Config → Bool × F.Dev
      run q =
          erase_sectors F s.has_shared_io q ((q.end_addr - q.start_addr) / sector_size) q.start_addr
            s.dev

      ran : Bool × F.Dev
      ran = run s.config

      byte : contents ran.1 x ≡ y
      byte =
          subst (λ q. contents (run q).1 x ≡ y) (sym k.config)
            (erase_sectors-Kept s.has_shared_io ((c.end_addr - c.start_addr) / sector_size)
              c.start_addr s.dev (subst IsConfig k.config p.config) (omega arith) k.byte)
