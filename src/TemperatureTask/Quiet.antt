-- ===== src/TemperatureTask/Quiet.antt =====
-- What the parts of a round keep: the mutex of the bus free, and the thermometer's flag.
use pico_wenvironment_logger.Prelude.{
  ℕ, zero, suc, Bool, true, false, List, [], ◌∷◌, Option, none, some, if◌then◌else◌, ◌≡◌, refl,
  if-both, option-both,
}
use pico_wenvironment_logger.Prelude.Int.{ℤ}
use pico_wenvironment_logger.I2c.{I2c, IsShared, Device, delay_ms}
use pico_wenvironment_logger.I2c.Release.{Free, delay-Free}
use pico_wenvironment_logger.I2c.Release.Drivers.{
  adt_init-Free, adt_read-Free, print_line-Free, clear-Free,
}
use pico_wenvironment_logger.Aeadt7410
use pico_wenvironment_logger.Aeadt7410.{Aeadt7410}
use pico_wenvironment_logger.Aqm0802
use pico_wenvironment_logger.DisplayMode.{ModeQueue}
use pico_wenvironment_logger.TemperatureTask.Screen.{Formats, Lines}
use pico_wenvironment_logger.TemperatureTask.{
  Message, temp, adt_init_ok, hwm, mode_changed, read_retries, Temperature, on_sensor, on_lcd,
  print_lines, show, receive_mode,
}

-- The first reading that is reported, with its flag.
abbrev pub reported : List Message → Option (ℤ × Bool)
reported [] = none
reported (temp ts c valid ∷ ms) = some (c, valid)
reported (adt_init_ok ∷ ms) = reported ms
reported (hwm n ∷ ms) = reported ms
reported (mode_changed m ∷ ms) = reported ms

module _ (I : I2c) (shared : IsShared I) where
  pub read_retries-Free :
      (n : ℕ) (s : Aeadt7410 I)
      → Free I shared s.device
      → Free I shared (read_retries I n s).1.device
        × ((read_retries I n s).1.initialized ≡ s.initialized)
  unfolding read_retries Aeadt7410.read_temperature Aeadt7410.read_temp_raw
  read_retries-Free zero s f = (f, refl)
  read_retries-Free (suc n) s f =
      let r = Aeadt7410.read_temperature I s in
      let g : Free I shared r.1.device = adt_read-Free I shared s f in
      elim r.0
        as (λ (o : Option ℤ).
          (let q : Option ℤ × Aeadt7410 I = elim o [
            | none ↦ read_retries I n (record r.1 { device = delay_ms I 10 r.1.device })
            | some v ↦ (some v, r.1)
          ] in
            Free I shared q.1.device × (q.1.initialized ≡ s.initialized))) [
              | none ↦
                  read_retries-Free n (record r.1 { device = delay_ms I 10 r.1.device })
                    (delay-Free I shared 10 r.1.device g)
              | some v ↦ (g, refl)
            ]

  module _ (Q : ModeQueue) (formats : Formats) where
    abbrev pub Task : Type 0
    Task = Temperature I Q formats

    -- The mutex is free, and the thermometer's flag and the count are as given.
    pub record Quiet (flag : Bool) (n : ℕ) (t : Task) : Type 0 where
      pub free : shared.held t.bus ≡ false
      pub initialized : t.sensor.initialized ≡ flag
      pub count : t.count ≡ n

    on_lcd-Quiet :
        (f : Device I → Bool × Device I)
        → ((d : Device I) → Free I shared d → Free I shared (f d).1)
        → (b : Bool) (n : ℕ) (t : Task) → Quiet b n t
        → Quiet b n (on_lcd I Q formats f t)
    on_lcd-Quiet f frees b n t q = option-both (Quiet b n) t.lcd _ _ q (λ lcd.
        if-both (Quiet b n) t.lcd_initialized _ _
          record {
            free = frees (record lcd { bus = t.bus }) q.free;
            initialized = q.initialized;
            count = q.count;
          }
          q)

    print_lines-Free :
        (lines : Lines) (d : Device I)
        → Free I shared d
        → Free I shared (print_lines I Q formats lines d).1
    print_lines-Free lines d f =
        print_line-Free I shared 1 (some lines.1) (Aqm0802.print_line I 0 (some lines.0) d).1
          (print_line-Free I shared 0 (some lines.0) d f)

    pub show-Quiet :
        (o : Option Lines) (b : Bool) (n : ℕ) (t : Task)
        → Quiet b n t
        → Quiet b n (show I Q formats o t)
    unfolding show
    show-Quiet none b n t q = q
    show-Quiet (some lines) b n t q =
        on_lcd-Quiet (print_lines I Q formats lines) (print_lines-Free lines) b n t q

    pub receive_mode-Quiet :
        (logs b : Bool) (n : ℕ) (t : Task)
        → Quiet b n t
        → Quiet b n (receive_mode I Q formats logs t).1
          × (reported (receive_mode I Q formats logs t).0 ≡ none)
    unfolding receive_mode
    receive_mode-Quiet logs b n t q =
        option-both Good t.queue _ _ (q, refl)
          (λ queue.
            option-both Good (Q.receive queue).0 _ _
              (record { free = q.free; initialized = q.initialized; count = q.count }, refl)
              (λ m. (
                on_lcd-Quiet (Aqm0802.clear I) (clear-Free I shared) b n
                    (record t { queue = some (Q.receive queue).1; current_mode = m })
                    record { free = q.free; initialized = q.initialized; count = q.count },
                if-both (λ ms. reported ms ≡ none) logs _ _ refl refl,
              )))
      where
        Good : List Message × Task → Type 0
        Good x = Quiet b n x.1 × (reported x.0 ≡ none)

    pub checked :
        (valid : Bool) (n : ℕ) (t : Task)
        → Quiet true n t
        → Quiet valid n
            (if valid then t else record t { sensor = Aeadt7410.clear_initialized I t.sensor })
    unfolding Aeadt7410.clear_initialized
    checked true n t q = q
    checked false n t q = record { free = q.free; initialized = refl; count = q.count }

    pub adt_init-Quiet :
        (t : Task)
        → shared.held t.bus ≡ false
        → let r = on_sensor I Q formats (Aeadt7410.init I) t in Quiet r.0 t.count r.1
    unfolding Aeadt7410.init
    adt_init-Quiet t f = record {
      free =
          adt_init-Free I shared
            (record t.sensor { device = record t.sensor.device { bus = t.bus } }) f;
      initialized = refl;
      count = refl;
    }
