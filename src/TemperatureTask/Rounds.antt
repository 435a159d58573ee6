-- ===== src/TemperatureTask/Rounds.antt =====
-- What a round reports, and the state of the thermometer and of the bus behind it.
use pico_wenvironment_logger.Prelude.{
  ℕ, if-follows, ◌+◌, ◌%◌, ◌&&◌, ltb, ◌==◌, Bool, true, false, List, [], ◌∷◌, ◌++◌, Option, none,
  some, if◌then◌else◌, ◌≡◌, refl, subst, ap, ◌∙◌, if-both, if-related_cases, u32,
}
use pico_wenvironment_logger.Prelude.Int.{ℤ, pos}
use pico_wenvironment_logger.I2c.{I2c, IsShared, Device}
use pico_wenvironment_logger.I2c.Release.Drivers.{lcd_init-Free}
use pico_wenvironment_logger.Aeadt7410
use pico_wenvironment_logger.Aeadt7410.{Aeadt7410}
use pico_wenvironment_logger.Aqm0802
use pico_wenvironment_logger.DisplayMode.{temperature, ModeQueue}
use pico_wenvironment_logger.TemperatureTask.Screen.{Formats, Lines, screen, shown_temperature}
use pico_wenvironment_logger.Http.Page.{codes}
use pico_wenvironment_logger.TemperatureTask.{
  Message, temp, adt_init_ok, hwm, read_adt7410_with_retry, Round, on_sensor, show, receive_mode,
  read_and_show, temperature_round, temperature_start, temperature_task,
}
use pico_wenvironment_logger.TemperatureTask.Tries.{tries, tries_lem}
use pico_wenvironment_logger.TemperatureTask.Report.{
  report, reports, reported-append, no_reading, only_reading, with_reading,
}
use pico_wenvironment_logger.TemperatureTask.Quiet.{
  reported, read_retries-Free, Task, Quiet, show-Quiet, receive_mode-Quiet, checked, adt_init-Quiet,
}

module _ (I : I2c) (shared : IsShared I) (Q : ModeQueue) (formats : Formats) where
  -- The thermometer on the bus of the task.
  abbrev pub sensor_of : Task I shared Q formats → Aeadt7410 I
  sensor_of t = record t.sensor { device = record t.sensor.device { bus = t.bus } }

  -- What the thermometer gives in a round that is not suspended: it is initialised if it is not
  -- taken for initialised, and read if that succeeds.
  abbrev pub attempt : Task I shared Q formats → Option ℤ
  attempt t =
      if t.sensor.initialized
      then tries I (sensor_of t)
      else let r = on_sensor I Q formats (Aeadt7410.init I) t in
        if r.0 then tries I (sensor_of r.1) else none

  -- After a round, suspended if `busy`, that began with the flag `before` and the count `n` and in
  -- which the thermometer gave `found`.
  pub record Outcome (busy logs before : Bool) (n : ℕ) (found : Option ℤ)
      (x : List Message × Task I shared Q formats) : Type 0 where
    pub reading : reported x.0 ≡ (if busy then none else if logs then some (report found) else none)
    pub initialized : x.1.sensor.initialized ≡ (if busy then before else (report found).1)
    pub count : x.1.count ≡ (if busy then n else u32 (n + 1))
    pub free : shared.held x.1.bus ≡ false

  read_and_show-Outcome :
      (before : List Message) (b : Bool) (r : Round I Q formats) (t : Task I shared Q formats)
      → reported before ≡ none
      → t.sensor.initialized ≡ true
      → shared.held t.bus ≡ false
      → Outcome false r.logs b t.count
          (tries I (sensor_of t))
          (read_and_show I Q formats before r t)
  unfolding read_and_show
  read_and_show-Outcome before b r t e i f =
      subst (λ o. Outcome false r.logs b t.count o (read_and_show I Q formats before r t))
        (tries_lem I (sensor_of t))
        record {
          reading =
              reported-append before (reading ++ (high ++ changed.0)) e
              ∙ with_reading r.logs valid r.timestamp_ms temperature_c (high ++ changed.0) (
                  reported-append high changed.0
                    (no_reading (ltb 0 t.count && t.count % 60 == 0) r.logs r.stack_hwm)
                  ∙ received.1)
              ∙ ap (λ v. if r.logs then some v else none) (reports found.0);
          initialized = shown.initialized ∙ ap (λ v. v.1) (reports found.0);
          count = ap (λ n. u32 (n + 1)) shown.count;
          free = shown.free;
        }
    where
      found : Option ℤ × Task I shared Q formats
      found = on_sensor I Q formats (read_adt7410_with_retry I) t

      read : Quiet I shared Q formats true t.count found.1
      read =
          let s = record t.sensor { device = record t.sensor.device { bus = t.bus } } in
          let k = read_retries-Free I shared 3 s f in
          record { free = k.0; initialized = k.1 ∙ i; count = refl }

      valid : Bool
      valid = elim found.0 [ none ↦ false | some _ ↦ true ]

      temperature_c : ℤ
      temperature_c = elim found.0 [ none ↦ pos 0 | some c ↦ c ]

      reading : List Message
      reading = if r.logs then temp r.timestamp_ms temperature_c valid ∷ [] else []

      high : List Message
      high =
          if ltb 0 t.count && t.count % 60 == 0
          then (if r.logs then hwm r.stack_hwm ∷ [] else [])
          else []

      t2 : Task I shared Q formats
      t2 =
          if valid
          then found.1
          else record found.1 { sensor = Aeadt7410.clear_initialized I found.1.sensor }

      changed : List Message × Task I shared Q formats
      changed = receive_mode I Q formats r.logs t2

      received : Quiet I shared Q formats valid t.count changed.1 × (reported changed.0 ≡ none)
      received =
          receive_mode-Quiet I shared Q formats r.logs valid t.count t2
            (checked I shared Q formats valid t.count found.1 read)

      lines : Option Lines
      lines = screen formats r.sources valid t.count temperature_c changed.1.current_mode

      shown : Quiet I shared Q formats valid t.count (show I Q formats lines changed.1)
      shown = show-Quiet I shared Q formats lines valid t.count changed.1 received.0

  temperature_round-Outcome :
      (r : Round I Q formats) (t : Task I shared Q formats)
      → shared.held t.bus ≡ false
      → Outcome r.busy r.logs t.sensor.initialized t.count
          (attempt t)
          (temperature_round I Q formats r t)
  unfolding temperature_round
  temperature_round-Outcome r t f =
      if-follows (λ b. Outcome b r.logs t.sensor.initialized t.count (attempt t)) r.busy _ _
        record { reading = refl; initialized = refl; count = refl; free = f }
        (if-related_cases After t.sensor.initialized _ _ _ _
          (λ i. read_and_show-Outcome [] t.sensor.initialized r t refl i f)
          (λ i.
            if-related_cases After begun.0 _ _ _ _
              (λ ok.
                read_and_show-Outcome _ t.sensor.initialized r begun.1
                  (if-both (λ ms. reported ms ≡ none) r.logs (adt_init_ok ∷ []) [] refl refl)
                  (quiet.initialized ∙ ok) quiet.free)
              (λ failed. record {
                reading = only_reading r.logs false r.timestamp_ms (pos 0);
                initialized = shown.initialized ∙ failed;
                count = ap (λ n. u32 (n + 1)) shown.count;
                free = shown.free;
              })))
    where
      After : Option ℤ → List Message × Task I shared Q formats → Type 0
      After found x = Outcome false r.logs t.sensor.initialized t.count found x

      begun : Bool × Task I shared Q formats
      begun = on_sensor I Q formats (Aeadt7410.init I) t

      quiet : Quiet I shared Q formats begun.0 t.count begun.1
      quiet = adt_init-Quiet I shared Q formats t f

      lines : Option Lines
      lines = some (shown_temperature formats false t.count (pos 0))

      shown : Quiet I shared Q formats begun.0 t.count (show I Q formats lines begun.1)
      shown = show-Quiet I shared Q formats lines begun.0 t.count begun.1 quiet

  temperature_task-Free :
      (rs : List (Round I Q formats)) (t : Task I shared Q formats)
      → shared.held t.bus ≡ false
      → shared.held (temperature_task I Q formats rs t).bus ≡ false
  temperature_task-Free [] t f = f
  temperature_task-Free (r ∷ rs) t f =
      temperature_task-Free rs (temperature_round I Q formats r t).1
        (temperature_round-Outcome r t f).free

  temperature_start-Free :
      (bus : I.Bus) (sensor : Aeadt7410 I) (lcd : Option (Device I)) (queue : Option Q.Queue)
      → shared.held bus ≡ false
      → shared.held (temperature_start I Q formats bus sensor lcd queue).bus ≡ false
  unfolding temperature_start
  temperature_start-Free bus sensor none queue f = f
  temperature_start-Free bus sensor (some d) queue f =
      (show-Quiet I shared Q formats (some (codes "ADT7410", codes "START")) sensor.initialized 0
        started
        record {
          free = lcd_init-Free I shared (record d { bus = bus }) f;
          initialized = refl;
          count = refl;
        }).free
    where
      ready : Bool × Device I
      ready = Aqm0802.init I (record d { bus = bus })

      started : Task I shared Q formats
      started = record {
        bus = ready.1.bus;
        sensor = sensor;
        lcd = some ready.1;
        queue = queue;
        current_mode = temperature;
        count = 0;
        lcd_initialized = ready.0;
      }

  -- From the start of the task, with or without a display and a mode queue, the mutex of the bus
  -- free, after any rounds, one more round: while the flash is maintained it reports nothing and
  -- counts nothing, and leaves the thermometer's flag. Otherwise it counts on, and if it logs, it
  -- reports what the thermometer gave, initialised first where its flag was cleared: the value,
  -- marked good, or 0, marked bad, when the initialisation or the three tries to read it failed. Behind
  -- the round the thermometer is taken for initialised exactly if it gave a value, so that after a
  -- failure, and only then, the next round initialises it anew. The mutex is free behind the round,
  -- whatever the bus does.
  pub temperature_task-Outcome :
      (rs : List (Round I Q formats)) (r : Round I Q formats) (bus : I.Bus) (sensor : Aeadt7410 I)
      (lcd : Option (Device I)) (queue : Option Q.Queue)
      → shared.held bus ≡ false
      → let t =
          temperature_task I Q formats rs (temperature_start I Q formats bus sensor lcd queue) in
        Outcome r.busy r.logs t.sensor.initialized t.count
          (attempt t)
          (temperature_round I Q formats r t)
  temperature_task-Outcome rs r bus sensor lcd queue f = temperature_round-Outcome r _ (
      temperature_task-Free rs (temperature_start I Q formats bus sensor lcd queue)
        (temperature_start-Free bus sensor lcd queue f))
