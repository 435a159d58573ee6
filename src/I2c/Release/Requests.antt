-- ===== src/I2c/Release/Requests.antt =====
-- The three devices on their shared bus, and any sequence of requests to them.
use pico_wenvironment_logger.Prelude.{ℕ, List, [], ◌∷◌, Bool, false, Option, ◌≡◌}
use pico_wenvironment_logger.I2c.{I2c, IsShared, Device}
use pico_wenvironment_logger.Bme280
use pico_wenvironment_logger.Bme280.{Bme280, Values}
use pico_wenvironment_logger.Aeadt7410
use pico_wenvironment_logger.Aeadt7410.{Aeadt7410}
use pico_wenvironment_logger.Aqm0802
use pico_wenvironment_logger.I2c.Release.Drivers.{
  bme_init-Free, bme_read-Free, lcd_init-Free, set_cursor-Free, clear-Free, home-Free, print-Free,
  print_line-Free, newline-Free, adt_init-Free, adt_read-Free,
}

module _ (I : I2c) where
  -- The devices work on the one bus of the board, whatever bus they hold.
  pub record Board : Type 0 where
    pub bus : I.Bus
    pub bme : Bme280 I
    pub adt : Aeadt7410 I
    pub lcd : Device I

  pub data Request : Type 0 where
    bme_init bme_read adt_init adt_read : Request
    lcd_init lcd_clear lcd_home lcd_newline : Request
    lcd_set_cursor : ℕ → ℕ → Request
    lcd_print : Option (List ℕ) → Request
    lcd_print_line : ℕ → Option (List ℕ) → Request

  abbrev on_bme : {A : Type 0} → (Bme280 I → A × Bme280 I) → Board → Board
  on_bme f b =
      let s = (f (record b.bme { device = record b.bme.device { bus = b.bus } })).1 in
      record b { bus = s.device.bus; bme = s }

  abbrev on_adt : {A : Type 0} → (Aeadt7410 I → A × Aeadt7410 I) → Board → Board
  on_adt f b =
      let s = (f (record b.adt { device = record b.adt.device { bus = b.bus } })).1 in
      record b { bus = s.device.bus; adt = s }

  abbrev on_lcd : (Device I → Bool × Device I) → Board → Board
  on_lcd f b = let d = (f (record b.lcd { bus = b.bus })).1 in record b { bus = d.bus; lcd = d }

  abbrev pub request : Request → Board → Board
  request bme_init = on_bme (Bme280.init I)
  request bme_read = on_bme (Bme280.read I)
  request adt_init = on_adt (Aeadt7410.init I)
  request adt_read = on_adt (Aeadt7410.read_temperature I)
  request lcd_init = on_lcd (Aqm0802.init I)
  request lcd_clear = on_lcd (Aqm0802.clear I)
  request lcd_home = on_lcd (Aqm0802.home I)
  request lcd_newline = on_lcd (Aqm0802.newline I)
  request (lcd_set_cursor row col) = on_lcd (Aqm0802.set_cursor I row col)
  request (lcd_print str) = on_lcd (Aqm0802.print I str)
  request (lcd_print_line row str) = on_lcd (Aqm0802.print_line I row str)

  abbrev pub requests : List Request → Board → Board
  requests [] b = b
  requests (r ∷ rs) b = requests rs (request r b)

module _ (I : I2c) (shared : IsShared I) where
  request-free :
      (r : Request I) (b : Board I)
      → shared.held b.bus ≡ false
      → shared.held (request I r b).bus ≡ false
  request-free bme_init b f =
      bme_init-Free I shared (record b.bme { device = record b.bme.device { bus = b.bus } }) f
  request-free bme_read b f =
      bme_read-Free I shared (record b.bme { device = record b.bme.device { bus = b.bus } }) f
  request-free adt_init b f =
      adt_init-Free I shared (record b.adt { device = record b.adt.device { bus = b.bus } }) f
  request-free adt_read b f =
      adt_read-Free I shared (record b.adt { device = record b.adt.device { bus = b.bus } }) f
  request-free lcd_init b f = lcd_init-Free I shared (record b.lcd { bus = b.bus }) f
  request-free lcd_clear b f = clear-Free I shared (record b.lcd { bus = b.bus }) f
  request-free lcd_home b f = home-Free I shared (record b.lcd { bus = b.bus }) f
  request-free lcd_newline b f = newline-Free I shared (record b.lcd { bus = b.bus }) f
  request-free (lcd_set_cursor row col) b f =
      set_cursor-Free I shared row col (record b.lcd { bus = b.bus }) f
  request-free (lcd_print str) b f = print-Free I shared str (record b.lcd { bus = b.bus }) f
  request-free (lcd_print_line row str) b f =
      print_line-Free I shared row str (record b.lcd { bus = b.bus }) f

  -- If the mutex is free, it is free again after any sequence of requests to the pressure sensor,
  -- the thermometer and the display, in whatever order, whether the bus answers, fails or times
  -- out, and whether a device has the mutex or was built without.
  pub requests-free :
      (rs : List (Request I)) (b : Board I)
      → shared.held b.bus ≡ false
      → shared.held (requests I rs b).bus ≡ false
  requests-free [] b f = f
  requests-free (r ∷ rs) b f = requests-free rs (request I r b) (request-free r b f)
