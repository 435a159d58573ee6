-- ===== src/Aqm0802.antt =====
-- src/AQM0802.cpp: the display of two lines of eight characters. The object is its device.
pub mod Lines
use pico_wenvironment_logger.Prelude.{
  ℕ, ◌+◌, ◌-◌, ◌^◌, ◌%◌, List, [], ◌∷◌, ◌++◌, length, take, replicate, min, Bool, true, false, ◌==◌,
  if◌then◌else◌, Option, none, some, bit_or, u8,
}
use pico_wenvironment_logger.I2c.{I2c, Device, delay_ms}
use pico_wenvironment_logger.I2c.Devices.{write_pair}

abbrev pub cmd_control : ℕ
cmd_control = 0x00

abbrev pub data_control : ℕ
data_control = 0x40

abbrev pub set_ddram_addr : ℕ
set_ddram_addr = 0x80

-- `init_cmds1` and `init_cmds2`, with CONTRAST 0x20.
abbrev pub init_cmds1 : List ℕ
init_cmds1 = 0x38 ∷ (0x39 ∷ (0x14 ∷ (0x70 ∷ (0x56 ∷ (0x6C ∷ [])))))

abbrev pub init_cmds2 : List ℕ
init_cmds2 = 0x38 ∷ (0x0C ∷ (0x01 ∷ []))

-- The eight characters of a line: those of the string, and blanks behind them; `none` is the null
-- pointer.
unfoldable pub line_of : Option (List ℕ) → List ℕ
line_of none = replicate 8 b' '
line_of (some str) = take 8 str ++ replicate (8 - min (length str) 8) b' '

module _ (I : I2c) where
  unfoldable pub command : ℕ → Device I → Bool × Device I
  command cmd d = let (ok, d') = write_pair I cmd_control cmd d in (ok, delay_ms I 2 d')

  unfoldable pub data_byte : ℕ → Device I → Bool × Device I
  data_byte value d = let (ok, d') = write_pair I data_control value d in (ok, delay_ms I 2 d')

  unfoldable pub clear : Device I → Bool × Device I
  unfolding command
  clear d = let (ok, d') = command 0x01 d in (ok, delay_ms I 2 d')

  unfoldable pub home : Device I → Bool × Device I
  unfolding command
  home d = let (ok, d') = command 0x02 d in (ok, delay_ms I 2 d')

  unfoldable pub set_cursor : ℕ → ℕ → Device I → Bool × Device I
  unfolding command
  set_cursor row col d =
      let addr = (if row == 0 then col else u8 (0x40 + col)) in
      command (u8 (bit_or set_ddram_addr addr)) d

  -- The characters of a string up to its end.
  unfoldable pub print_from : List ℕ → Device I → Bool × Device I
  unfolding data_byte
  print_from [] d = (true, d)
  print_from (c ∷ str) d =
      let (ok, d') = data_byte c d in elim ok [ true ↦ print_from str d' | false ↦ (false, d') ]

  unfoldable pub print : Option (List ℕ) → Device I → Bool × Device I
  unfolding print_from
  print none d = (false, d)
  print (some str) d = print_from str d

  unfoldable pub print_line : ℕ → Option (List ℕ) → Device I → Bool × Device I
  unfolding set_cursor print line_of
  print_line row str d =
      let (ok, d') = set_cursor row 0 d in if ok then print (some (line_of str)) d' else (false, d')

  unfoldable pub newline : Device I → Bool × Device I
  unfolding set_cursor
  newline d = set_cursor 1 0 d

  unfoldable pub commands : List ℕ → Device I → Bool × Device I
  unfolding command
  commands [] d = (true, d)
  commands (cmd ∷ cmds) d =
      let (ok, d') = command cmd d in
      elim ok [ true ↦ commands cmds (delay_ms I 5 d') | false ↦ (false, d') ]

  unfoldable pub init : Device I → Bool × Device I
  unfolding commands
  init d =
      let (ok, d1) = commands init_cmds1 (delay_ms I 100 d) in
      if ok then commands init_cmds2 (delay_ms I 200 d1) else (false, d1)
