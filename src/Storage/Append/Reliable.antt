-- ===== src/Storage/Append/Reliable.antt =====
-- On a device whose requests succeed the loop over the pages succeeds: every request that it makes
-- is one the driver accepts.
use pico_wenvironment_logger.Prelude.{
  ℕ, zero, suc, ◌+◌, ◌≤◌, Bool, true, false, ltb, List, [], ◌∷◌, take, drop, length, length-drop,
  ◌≡◌, refl, ◌∙◌, ap, arith, le→ltb,
}
use pico_wenvironment_logger.Driver.{
  flash_size, is_page_program_valid, is_address_valid, sector_base,
}
use pico_wenvironment_logger.Driver.Range.{is_page_program_valid_iff}
use pico_wenvironment_logger.FlashApi.{Flash, IsFlash}
use pico_wenvironment_logger.Storage.{Config, add32}
use pico_wenvironment_logger.Storage.State.{lock_shared_io, unlock_shared_io}
use pico_wenvironment_logger.Storage.Frames.{IsConfig}
use pico_wenvironment_logger.Storage.Append.{
  Written, written, program_locked, write_pages, and_then,
}
use pico_wenvironment_logger.Storage.Append.Pages.{
  chunk, length-chunk, lock_shared_io_lem, unlock_shared_io_lem,
}

-- No request that the driver accepts fails, and every mutex is had.
pub record IsReliable (F : Flash) (flash : IsFlash F) : Type 0 where
  pub takes_io : (d : F.Dev) → (F.take_io d).0 ≡ true
  pub takes_mutex : (d : F.Dev) → (F.take_mutex d).0 ≡ true
  pub creates_mutex : (d : F.Dev) → (F.create_mutex d).0 ≡ true
  pub programs :
      (d : F.Dev) (addr : ℕ) (bytes : List ℕ)
      → flash.Ready d
      → is_page_program_valid addr (length bytes) ≡ true
      → (F.page_program d addr bytes).0 ≡ true
  pub erases :
      (d : F.Dev) (addr : ℕ)
      → flash.Ready d
      → is_address_valid (sector_base addr) 1 ≡ true
      → (F.sector_erase d addr).0 ≡ true

module _ (F : Flash) (flash : IsFlash F) (rel : IsReliable F flash) where
  open flash use {Ready}

  pub locks_shared_io : (has : Bool) (d : F.Dev) → (lock_shared_io F has d).0 ≡ true
  unfolding lock_shared_io
  locks_shared_io true d = rel.takes_io d
  locks_shared_io false d = refl

  -- Every chunk lies in one page.
  chunk_valid :
      (addr x : ℕ) (xs : List ℕ)
      → addr + length (x ∷ xs) ≤ flash_size
      → is_page_program_valid addr (length (take (chunk addr (x ∷ xs)) (x ∷ xs))) ≡ true
  chunk_valid addr x xs fits = rw (length-chunk addr (x ∷ xs)) (
      (is_page_program_valid_iff addr (chunk addr (x ∷ xs))).1
        (omega arith, omega arith, omega arith))

  abbrev Succeeds : ℕ → Written F.Dev → Type 0
  Succeeds a w = (d' : F.Dev) × (w ≡ written a d') × Ready d'

  program_locked-Succeeds :
      (has : Bool) (d : F.Dev) (addr x : ℕ) (xs : List ℕ)
      → Ready d
      → addr + length (x ∷ xs) ≤ flash_size
      → Succeeds
          (addr + chunk addr (x ∷ xs))
          (program_locked F has d addr (take (chunk addr (x ∷ xs)) (x ∷ xs)))
  unfolding program_locked
  program_locked-Succeeds has d addr x xs r fits = (
    unlock_shared_io F has (F.page_program d1 addr (take (chunk addr (x ∷ xs)) (x ∷ xs))).1,
    rw (locks_shared_io has d, programmed)
        (ap
          (λ a. written a (
            unlock_shared_io F has
              (F.page_program d1 addr (take (chunk addr (x ∷ xs)) (x ∷ xs))).1))
          end_addr),
    (unlock_shared_io_lem F flash has
          (F.page_program d1 addr (take (chunk addr (x ∷ xs)) (x ∷ xs))).1).1
        (flash.program_lem d1 addr (take (chunk addr (x ∷ xs)) (x ∷ xs)) r1 programmed).1,
  )
    where
      d1 : F.Dev
      d1 = (lock_shared_io F has d).1

      r1 : Ready d1
      r1 = (lock_shared_io_lem F flash has d).1 r

      programmed : (F.page_program d1 addr (take (chunk addr (x ∷ xs)) (x ∷ xs))).0 ≡ true
      programmed = rel.programs d1 addr _ r1 (chunk_valid addr x xs fits)

      end_addr :
          add32 addr (length (take (chunk addr (x ∷ xs)) (x ∷ xs))) ≡ addr + chunk addr (x ∷ xs)
      end_addr = omega (arith, length-chunk addr (x ∷ xs))

  write_pages-step :
      (has : Bool) (c : Config) (fuel addr x : ℕ) (xs : List ℕ) (d : F.Dev)
      → ltb c.end_addr (add32 addr (chunk addr (x ∷ xs))) ≡ false
      → write_pages F has c (suc fuel) addr (x ∷ xs) d
        ≡ and_then
            (program_locked F has d addr (take (chunk addr (x ∷ xs)) (x ∷ xs)))
            (λ a d'. write_pages F has c fuel a (drop (chunk addr (x ∷ xs)) (x ∷ xs)) d')
  unfolding write_pages
  write_pages-step has c fuel addr x xs d room = rw (room, write_pages) refl

  pub write_pages-Succeeds :
      (has : Bool) (c : Config) (fuel addr : ℕ) (bytes : List ℕ) (d : F.Dev)
      → Ready d
      → IsConfig c
      → length bytes ≤ fuel
      → addr + length bytes ≤ c.end_addr
      → Succeeds (addr + length bytes) (write_pages F has c fuel addr bytes d)
  unfolding write_pages
  write_pages-Succeeds has c zero addr [] d r v h fits = (d, ap (λ a. written a d) (omega arith), r)
  write_pages-Succeeds has c zero addr (x ∷ xs) d r v h fits = absurd (omega arith)
  write_pages-Succeeds has c (suc fuel) addr [] d r v h fits =
      (d, ap (λ a. written a d) (omega arith), r)
  write_pages-Succeeds has c (suc fuel) addr (x ∷ xs) d r v h fits =
      let room : ltb c.end_addr (add32 addr (chunk addr (x ∷ xs))) ≡ false =
        le→ltb c.end_addr _ (omega arith) in
      let (d', e, r') = program_locked-Succeeds has d addr x xs r (omega arith) in
      let (d2, e2, r2) =
        write_pages-Succeeds has c fuel (addr + chunk addr (x ∷ xs))
          (drop (chunk addr (x ∷ xs)) (x ∷ xs)) d' r' v
          (omega (arith, length-drop (chunk addr (x ∷ xs)) (x ∷ xs)))
          (omega (arith, length-drop (chunk addr (x ∷ xs)) (x ∷ xs))) in
      (
        d2,
        write_pages-step has c fuel addr x xs d room
            ∙ ap
                (λ w.
                  and_then w
                    (λ a t. write_pages F has c fuel a (drop (chunk addr (x ∷ xs)) (x ∷ xs)) t))
                e
            ∙ (e2
                ∙ ap (λ a. written a d2)
                    (omega (arith, length-drop (chunk addr (x ∷ xs)) (x ∷ xs)))),
        r2,
      )
