-- ===== src/Client/Reliable.antt =====
-- On the simulated chip no accepted request fails.
use pico_wenvironment_logger.Prelude.{
  ◌+◌, Bool, true, false, if◌then◌else◌, [], ◌∷◌, ◌≡◌, refl, ap, arith,
}
use pico_wenvironment_logger.Driver.{
  cs_select, cs_deselect, write_enable, wait_while_busy, write_enable_ms, wait_busy_ms, is_enabled,
  is_idle,
}
use pico_wenvironment_logger.Driver.Chip.{asked, sent}
use pico_wenvironment_logger.Driver.Poll.{poll_first}
use pico_wenvironment_logger.Driver.Ops.{page_program_succeeds, sector_erase_succeeds}
use pico_wenvironment_logger.FlashApi.{Flash, IsFlash}
use pico_wenvironment_logger.Storage.Append.Reliable.{IsReliable}
use pico_wenvironment_logger.Client.{driver, driver-IsFlash}
use pico_wenvironment_logger.Client.Sim.{Sim, board, semaphores, w25q32, aside}

abbrev pub flash : Flash
flash = driver board semaphores

abbrev pub flash-IsFlash : IsFlash flash
flash-IsFlash = driver-IsFlash board w25q32 semaphores aside

idle_bit : (b : Bool) → is_idle (if b then 2 else 0) ≡ true
idle_bit true = refl
idle_bit false = refl

enables :
    (s : Sim)
    → write_enable board write_enable_ms s
      ≡ (true, asked board (0x05 ∷ []) 1 (sent board (0x06 ∷ []) s))
unfolding write_enable cs_select cs_deselect
enables s =
    poll_first board is_enabled 10 (s.clock + 1000) 100 (sent board (0x06 ∷ []) s) (omega arith)
      refl

abbrev enabled : Sim → Sim
enabled s = asked board (0x05 ∷ []) 1 (sent board (0x06 ∷ []) s)

waits : (s : Sim) → wait_while_busy board wait_busy_ms s ≡ (true, asked board (0x05 ∷ []) 1 s)
unfolding wait_while_busy
waits s = poll_first board is_idle 1000 (s.clock + 500000) 500 s (omega arith) (idle_bit s.latch)

waited : (s : Sim) → (wait_while_busy board wait_busy_ms s).0 ≡ true
waited s = ap (λ r. r.0) (waits s)

pub flash-IsReliable : IsReliable flash flash-IsFlash
flash-IsReliable = record {
  takes_io = λ s. refl;
  takes_mutex = λ s. refl;
  creates_mutex = λ s. refl;
  programs = λ s addr bytes r v.
      page_program_succeeds board w25q32 addr bytes s (enabled s) v (enables s) waited;
  erases = λ s addr r v. sector_erase_succeeds board w25q32 addr s (enabled s) v (enables s) waited;
}
