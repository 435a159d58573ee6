-- ===== src/TemperatureTask.antt =====
-- src/TemperatureTask.cpp: the thermometer is read and logged, and the display shows what the mode
-- from the button says. Texts of numbers that `%f` formats make are a parameter.
pub mod Screen
pub mod Quiet
pub mod Tries
pub mod Report
pub mod Rounds
use pico_wenvironment_logger.Prelude.{
  ℕ, zero, suc, ◌+◌, ◌%◌, ◌^◌, ◌&&◌, not, ltb, ◌==◌, Bool, true, false, List, [], ◌∷◌, ◌++◌, Option,
  none, some, if◌then◌else◌, u32,
}
use pico_wenvironment_logger.Prelude.Int.{ℤ, pos}
use pico_wenvironment_logger.I2c.{I2c, Device, delay_ms}
use pico_wenvironment_logger.Aeadt7410
use pico_wenvironment_logger.Aeadt7410.{Aeadt7410}
use pico_wenvironment_logger.Aqm0802
use pico_wenvironment_logger.DisplayMode.{DisplayMode, temperature, ModeQueue}
use pico_wenvironment_logger.Http.Page.{codes}
use pico_wenvironment_logger.TemperatureTask.Screen.{
  Formats, Sources, Lines, screen, shown_temperature,
}

-- What `logf` gets, in the order of the calls.
pub data Message : Type 0 where
  temp : ℕ → ℤ → Bool → Message
  adt_init_ok : Message
  hwm : ℕ → Message
  mode_changed : DisplayMode → Message

abbrev pub hwm_log_interval_count : ℕ
hwm_log_interval_count = 60

module _ (I : I2c) where
  -- Tries as many as the first argument; `readAdt7410WithRetry` makes three.
  unfoldable pub read_retries : ℕ → Aeadt7410 I → Option ℤ × Aeadt7410 I
  read_retries zero s = (none, s)
  read_retries (suc n) s =
      let (found, s') = Aeadt7410.read_temperature I s in
      elim found [
        | none ↦ read_retries n (record s' { device = delay_ms I 10 s'.device })
        | some t ↦ (some t, s')
      ]

  abbrev pub read_adt7410_with_retry : Aeadt7410 I → Option ℤ × Aeadt7410 I
  read_adt7410_with_retry = read_retries 3

  module _ (Q : ModeQueue) (formats : Formats) where
    -- The thermometer and the display work on one bus; `lcd` is `none` for a null pointer.
    pub record Temperature : Type 0 where
      pub bus : I.Bus
      pub sensor : Aeadt7410 I
      pub lcd : Option (Device I)
      pub queue : Option Q.Queue
      pub current_mode : DisplayMode
      pub count : ℕ
      pub lcd_initialized : Bool

    -- What a round finds: whether the flash is maintained, whether the log is there and not paused,
    -- the time, the stack's high water mark and what the other tasks have published.
    pub record Round : Type 0 where
      pub busy : Bool
      pub logs : Bool
      pub timestamp_ms : ℕ
      pub stack_hwm : ℕ
      pub sources : Sources

    abbrev pub on_sensor :
        {A : Type 0} → (Aeadt7410 I → A × Aeadt7410 I) → Temperature → A × Temperature
    on_sensor f t =
        let (a, s) = f (record t.sensor { device = record t.sensor.device { bus = t.bus } }) in
        (a, record t { bus = s.device.bus; sensor = s })

    -- The display, if there is one that was initialised.
    abbrev pub on_lcd : (Device I → Bool × Device I) → Temperature → Temperature
    on_lcd f t = elim t.lcd [
      | none ↦ t
      | some lcd ↦
          if t.lcd_initialized
          then (let (_, d) = f (record lcd { bus = t.bus }) in
              record t { bus = d.bus; lcd = some d })
          else t
    ]

    -- The two `printLine` of a screen.
    abbrev pub print_lines : Lines → Device I → Bool × Device I
    print_lines lines d =
        let (_, d') = Aqm0802.print_line I 0 (some lines.0) d in
        Aqm0802.print_line I 1 (some lines.1) d'

    unfoldable pub show : Option Lines → Temperature → Temperature
    show none t = t
    show (some lines) t = on_lcd (print_lines lines) t

    -- `count++`
    abbrev counted : Temperature → Temperature
    counted t = record t { count = u32 (t.count + 1) }

    abbrev logged : Bool → Message → List Message
    logged logs m = if logs then m ∷ [] else []

    -- The mode that the button sent, and the display cleared for it.
    unfoldable pub receive_mode : Bool → Temperature → List Message × Temperature
    receive_mode logs t = elim t.queue [
      | none ↦ ([], t)
      | some q ↦
          let (new_mode, q') = Q.receive q in
          elim new_mode [
            | none ↦ ([], record t { queue = some q' })
            | some m ↦ (
              logged logs (mode_changed m),
              on_lcd (Aqm0802.clear I) (record t { queue = some q'; current_mode = m }),
            )
          ]
    ]

    -- The round from the reading on; the messages before it are the first argument.
    unfoldable pub read_and_show : List Message → Round → Temperature → List Message × Temperature
    unfolding show receive_mode read_retries
    read_and_show before r t =
        let (found, t1) = on_sensor read_adt7410_with_retry t in
        let valid : Bool = elim found [ none ↦ false | some _ ↦ true ] in
        let temperature_c : ℤ = elim found [ none ↦ pos 0 | some c ↦ c ] in
        let t2 =
          (if valid then t1 else record t1 { sensor = Aeadt7410.clear_initialized I t1.sensor }) in
        let high =
          (if ltb 0 t.count && t.count % hwm_log_interval_count == 0
            then logged r.logs (hwm r.stack_hwm)
            else []) in
        let (changed, t3) = receive_mode r.logs t2 in
        (
          before ++ (logged r.logs (temp r.timestamp_ms temperature_c valid) ++ (high ++ changed)),
          counted (show (screen formats r.sources valid t.count temperature_c t3.current_mode) t3),
        )

    -- One round of the loop; while the flash is maintained it only waits.
    unfoldable pub temperature_round : Round → Temperature → List Message × Temperature
    unfolding read_and_show show
    temperature_round r t =
        if r.busy
        then ([], t)
        else if t.sensor.initialized
        then read_and_show [] r t
        else let (ok, t') = on_sensor (Aeadt7410.init I) t in
          if ok then read_and_show (logged r.logs adt_init_ok) r t' else (
            logged r.logs (temp r.timestamp_ms (pos 0) false),
            counted (show (some (shown_temperature formats false t.count (pos 0))) t'),
          )

    -- Before the loop: the display is initialised and greets.
    unfoldable pub temperature_start :
        I.Bus → Aeadt7410 I → Option (Device I) → Option Q.Queue → Temperature
    unfolding show
    temperature_start bus sensor lcd queue =
        let t : Temperature = record {
          bus = bus;
          sensor = sensor;
          lcd = lcd;
          queue = queue;
          current_mode = temperature;
          count = 0;
          lcd_initialized = false;
        } in
        elim lcd [
          | none ↦ t
          | some d ↦
              let (ok, d') = Aqm0802.init I (record d { bus = bus }) in
              let t' = record t { bus = d'.bus; lcd = some d'; lcd_initialized = ok } in
              show (some (codes "ADT7410", codes "START")) t'
        ]

    abbrev pub temperature_task : List Round → Temperature → Temperature
    temperature_task [] t = t
    temperature_task (r ∷ rs) t = temperature_task rs (temperature_round r t).1
