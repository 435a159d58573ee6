-- ===== src/I2c/Release/Drivers.antt =====
-- The operations of the pressure sensor, the thermometer and the display, one by one.
use pico_wenvironment_logger.Prelude.{
  ℕ, List, [], ◌∷◌, Bool, true, false, ◌==◌, Option, none, some, if-both, option-both,
}
use pico_wenvironment_logger.I2c.{I2c, IsShared, Device, delay_ms}
use pico_wenvironment_logger.I2c.Devices.{write_pair, read_registers}
use pico_wenvironment_logger.I2c.Release.{Free, write_pair-Free, read_registers-Free, delay-Free}
use pico_wenvironment_logger.Bme280
use pico_wenvironment_logger.Bme280.{Bme280, Values}
use pico_wenvironment_logger.Aeadt7410
use pico_wenvironment_logger.Aeadt7410.{Aeadt7410}
use pico_wenvironment_logger.Aqm0802

module _ (I : I2c) (shared : IsShared I) where
  abbrev Freed : {A : Type 0} → A × Device I → Type 0
  Freed r = Free I shared r.1

  configure-Free : (d : Device I) → Free I shared d → Freed (Bme280.configure_device I d)
  unfolding Bme280.configure_device
  configure-Free d f =
      if-both (λ (r : Bool × Device I). Freed r) d1.0 _ _
        (if-both (λ (r : Bool × Device I). Freed r) d2.0 _ _
          (if-both (λ (r : Bool × Device I). Freed r) d3.0 _ _
            (if-both (λ (r : Bool × Device I). Freed r) d4.0 _ _ (delay-Free I shared 1000 d4.1 f4)
              f4)
            f3)
          f2)
        f1
    where
      d1 : Bool × Device I
      d1 = write_pair I 0xE0 0xB6 d

      f1 : Freed d1
      f1 = write_pair-Free I shared 0xE0 0xB6 d f

      d2 : Bool × Device I
      d2 = write_pair I 0xF5 0xB0 (delay_ms I 10 d1.1)

      f2 : Freed d2
      f2 = write_pair-Free I shared 0xF5 0xB0 (delay_ms I 10 d1.1) (delay-Free I shared 10 d1.1 f1)

      d3 : Bool × Device I
      d3 = write_pair I 0xF2 0x01 d2.1

      f3 : Freed d3
      f3 = write_pair-Free I shared 0xF2 0x01 d2.1 f2

      d4 : Bool × Device I
      d4 = write_pair I 0xF4 0x27 d3.1

      f4 : Freed d4
      f4 = write_pair-Free I shared 0xF4 0x27 d3.1 f3

  abbrev BmeFree : {A : Type 0} → A × Bme280 I → Type 0
  BmeFree r = Free I shared r.1.device

  read_calibration-Free :
      (s : Bme280 I) → Free I shared s.device → BmeFree (Bme280.read_calibration I s)
  unfolding Bme280.read_calibration
  read_calibration-Free s f =
      let r1 = read_registers I 0x88 26 s.device in
      let f1 : Freed r1 = read_registers-Free I shared 0x88 26 s.device f in
      let f2 : Freed (read_registers I 0xE1 7 r1.1) = read_registers-Free I shared 0xE1 7 r1.1 f1 in
      option-both (λ (r : Bool × Bme280 I). BmeFree r) r1.0 _ _ f1
        (λ low.
          option-both (λ (r : Bool × Bme280 I). BmeFree r) (read_registers I 0xE1 7 r1.1).0 _ _ f2
            (λ high. f2))

  pub bme_init-Free : (s : Bme280 I) → Free I shared s.device → BmeFree (Bme280.init I s)
  unfolding Bme280.init
  bme_init-Free s f =
      let r1 = read_registers I 0xD0 1 s.device in
      let f1 : Freed r1 = read_registers-Free I shared 0xD0 1 s.device f in
      let s1 : Bme280 I = record s { device = r1.1 } in
      let f2 = read_calibration-Free s1 f1 in
      option-both (λ (r : Bool × Bme280 I). BmeFree r) (Bme280.read_chip_id I s).0 _ _ f1
        (λ n.
          if-both (λ (r : Bool × Bme280 I). BmeFree r) (n == 0x60) _ _
            (if-both (λ (r : Bool × Bme280 I). BmeFree r) (Bme280.read_calibration I s1).0 _ _
              (configure-Free (Bme280.read_calibration I s1).1.device f2) f2)
            f1)

  pub bme_read-Free : (s : Bme280 I) → Free I shared s.device → BmeFree (Bme280.read I s)
  unfolding Bme280.read
  bme_read-Free s f =
      let f1 = read_registers-Free I shared 0xF7 8 s.device f in
      option-both (λ (r : Option Values × Bme280 I). BmeFree r) (read_registers I 0xF7 8 s.device).0
        _ _ f1 (λ raw. f1)

  print_from-Free :
      (str : List ℕ) (d : Device I) → Free I shared d → Freed (Aqm0802.print_from I str d)
  unfolding Aqm0802.print_from
  print_from-Free [] d f = f
  print_from-Free (c ∷ str) d f =
      let r = write_pair I 0x40 c d in
      let g = delay-Free I shared 2 r.1 (write_pair-Free I shared 0x40 c d f) in
      elim r.0
        as (λ ok. Freed {A = Bool} (elim ok [
          | true ↦ Aqm0802.print_from I str (delay_ms I 2 r.1)
          | false ↦ (false, delay_ms I 2 r.1)
        ])) [ true ↦ print_from-Free str (delay_ms I 2 r.1) g | false ↦ g ]

  command-Free : (cmd : ℕ) (d : Device I) → Free I shared d → Freed (Aqm0802.command I cmd d)
  unfolding Aqm0802.command
  command-Free cmd d f =
      delay-Free I shared 2 (write_pair I 0x00 cmd d).1 (write_pair-Free I shared 0x00 cmd d f)

  commands-Free :
      (cmds : List ℕ) (d : Device I) → Free I shared d → Freed (Aqm0802.commands I cmds d)
  unfolding Aqm0802.commands
  commands-Free [] d f = f
  commands-Free (cmd ∷ cmds) d f =
      let r = Aqm0802.command I cmd d in
      let g = command-Free cmd d f in
      elim r.0
        as (λ ok.
          Freed {A = Bool} (elim ok [
            | true ↦ Aqm0802.commands I cmds (delay_ms I 5 r.1)
            | false ↦ (false, r.1)
          ])) [
            | true ↦ commands-Free cmds (delay_ms I 5 r.1) (delay-Free I shared 5 r.1 g)
            | false ↦ g
          ]

  pub lcd_init-Free : (d : Device I) → Free I shared d → Freed (Aqm0802.init I d)
  unfolding Aqm0802.init
  lcd_init-Free d f =
      let r = Aqm0802.commands I Aqm0802.init_cmds1 (delay_ms I 100 d) in
      let g = commands-Free Aqm0802.init_cmds1 (delay_ms I 100 d) (delay-Free I shared 100 d f) in
      if-both (λ (x : Bool × Device I). Freed x) r.0 _ _
        (commands-Free Aqm0802.init_cmds2 (delay_ms I 200 r.1) (delay-Free I shared 200 r.1 g)) g

  pub set_cursor-Free :
      (row col : ℕ) (d : Device I) → Free I shared d → Freed (Aqm0802.set_cursor I row col d)
  unfolding Aqm0802.set_cursor
  set_cursor-Free row col d f = command-Free _ d f

  pub clear-Free : (d : Device I) → Free I shared d → Freed (Aqm0802.clear I d)
  unfolding Aqm0802.clear
  clear-Free d f = delay-Free I shared 2 (Aqm0802.command I 0x01 d).1 (command-Free 0x01 d f)

  pub home-Free : (d : Device I) → Free I shared d → Freed (Aqm0802.home I d)
  unfolding Aqm0802.home
  home-Free d f = delay-Free I shared 2 (Aqm0802.command I 0x02 d).1 (command-Free 0x02 d f)

  pub print-Free :
      (str : Option (List ℕ)) (d : Device I) → Free I shared d → Freed (Aqm0802.print I str d)
  unfolding Aqm0802.print
  print-Free none d f = f
  print-Free (some str) d f = print_from-Free str d f

  pub print_line-Free :
      (row : ℕ) (str : Option (List ℕ)) (d : Device I)
      → Free I shared d
      → Freed (Aqm0802.print_line I row str d)
  unfolding Aqm0802.print_line
  print_line-Free row str d f =
      let g = set_cursor-Free row 0 d f in
      if-both (λ (x : Bool × Device I). Freed x) (Aqm0802.set_cursor I row 0 d).0 _ _
        (print-Free (some (Aqm0802.line_of str)) (Aqm0802.set_cursor I row 0 d).1 g) g

  pub newline-Free : (d : Device I) → Free I shared d → Freed (Aqm0802.newline I d)
  unfolding Aqm0802.newline
  newline-Free d f = set_cursor-Free 1 0 d f

  pub adt_init-Free :
      (s : Aeadt7410 I) → Free I shared s.device → Free I shared (Aeadt7410.init I s).1.device
  unfolding Aeadt7410.init
  adt_init-Free s f = write_pair-Free I shared 0x03 0x80 s.device f

  pub adt_read-Free :
      (s : Aeadt7410 I)
      → Free I shared s.device
      → Free I shared (Aeadt7410.read_temperature I s).1.device
  unfolding Aeadt7410.read_temperature
  adt_read-Free s f = read_registers-Free I shared 0x00 2 s.device f
