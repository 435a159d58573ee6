-- ===== src/Examples/Chip.antt =====
-- The flash driver of src/FlashDriver.cpp on the simulated chip.
use pico_wenvironment_logger.Prelude.{
  ℕ, suc, ◌+◌, ◌*◌, true, false, List, [], ◌∷◌, some, ◌≡◌, refl, arith,
}
use pico_wenvironment_logger.Memory.{slice, program, erase}
use pico_wenvironment_logger.Driver.{
  is_address_valid, is_page_program_valid, read, page_program, sector_erase, poll, wait_while_busy,
  is_idle,
}
use pico_wenvironment_logger.Driver.Range.{is_address_valid_iff, is_page_program_valid_iff}
use pico_wenvironment_logger.Driver.Poll.{IsClock, wait_while_busy_fuel}
use pico_wenvironment_logger.Driver.Ops.{
  read_lem, page_program_lem, page_program_outside, sector_erase_lem, sector_erase_outside,
}
use pico_wenvironment_logger.Client.Sim.{board, contents, w25q32, erased_chip}
use pico_wenvironment_logger.Client.Reliable.{flash-IsReliable}

clock : IsClock board
clock = record { sleeps = λ d s. omega arith; reads = λ s. omega arith }

wait_while_busy_fuel_example :
    poll board is_idle 1000 (0 + 500 * 1000) (suc (500 + 7)) erased_chip
    ≡ wait_while_busy board 500 erased_chip
wait_while_busy_fuel_example = wait_while_busy_fuel board clock 500 7 erased_chip

abbrev three : List ℕ
three = 1 ∷ 2 ∷ 3 ∷ []

read_lem_example :
    ((read board 16 3 erased_chip).0 ≡ some (slice (contents erased_chip) 16 3))
    × (contents (read board 16 3 erased_chip).1 ≡ contents erased_chip)
    × (false ≡ false)
unfolding w25q32 is_address_valid
read_lem_example = read_lem board w25q32 16 3 erased_chip refl

page_program_lem_example :
    (is_page_program_valid 16 3 ≡ true)
    × (contents (page_program board 16 three erased_chip).1
        ≡ program (contents erased_chip) 16 three)
    × (false ≡ false)
unfolding w25q32 is_page_program_valid is_address_valid
page_program_lem_example = page_program_lem board w25q32 16 three erased_chip refl (
    flash-IsReliable.programs erased_chip 16 three refl
      ((is_page_program_valid_iff 16 3).1 (omega arith, omega arith, refl)))

page_program_outside_example :
    contents (page_program board 16 three erased_chip).1 20 ≡ contents erased_chip 20
unfolding w25q32
page_program_outside_example = page_program_outside board w25q32 16 three 20 erased_chip refl

sector_erase_lem_example :
    (contents (sector_erase board 5000 erased_chip).1 ≡ erase (contents erased_chip) 4096 4096)
    × (false ≡ false)
unfolding w25q32 is_address_valid
sector_erase_lem_example = sector_erase_lem board w25q32 5000 erased_chip refl (
    flash-IsReliable.erases erased_chip 5000 refl
      ((is_address_valid_iff 4096 1).1 (omega arith, omega arith)))

sector_erase_outside_example :
    contents (sector_erase board 5000 erased_chip).1 4095 ≡ contents erased_chip 4095
unfolding w25q32
sector_erase_outside_example = sector_erase_outside board w25q32 5000 4095 erased_chip refl
