-- ===== src/DisplayMode.antt =====
-- include/DisplayMode.h, and the queue of one mode between button and display.
use pico_wenvironment_logger.Prelude.{ℕ, ◌==◌, Bool, true, Option, none, some, ◌≡◌, if◌then◌else◌}

pub data DisplayMode : Type 0 where
  temperature adc_voltage log_status i2c_info : DisplayMode
  bme_temperature bme_humidity bme_pressure wifi_ip : DisplayMode

unfoldable pub mode_code : DisplayMode → ℕ
mode_code temperature = 0
mode_code adc_voltage = 1
mode_code log_status = 2
mode_code i2c_info = 3
mode_code bme_temperature = 4
mode_code bme_humidity = 5
mode_code bme_pressure = 6
mode_code wifi_ip = 7

-- `DisplayMode::Max`
abbrev pub max_mode : ℕ
max_mode = 8

-- The cast from an `int` below `max_mode`.
unfoldable pub mode_of : ℕ → DisplayMode
mode_of n =
    if n == 0
    then temperature
    else if n == 1
    then adc_voltage
    else if n == 2
    then log_status
    else if n == 3
    then i2c_info
    else if n == 4
    then bme_temperature
    else if n == 5
    then bme_humidity
    else if n == 6
    then bme_pressure
    else wifi_ip

-- What the tasks use of a FreeRTOS queue of length 1.
pub record ModeQueue : Type 1 where
  pub Queue : Type 0
  pub overwrite : DisplayMode → Queue → Bool × Queue  -- xQueueOverwrite == pdPASS
  pub receive : Queue → Option DisplayMode × Queue  -- xQueueReceive == pdTRUE

-- As FreeRTOS documents it.
pub record IsModeQueue (q : ModeQueue) : Type 0 where
  pub content : q.Queue → Option DisplayMode
  pub overwrite_passes : (m : DisplayMode) (x : q.Queue) → (q.overwrite m x).0 ≡ true
  pub overwrite_lem : (m : DisplayMode) (x : q.Queue) → content (q.overwrite m x).1 ≡ some m
  pub receive_lem : (x : q.Queue) → (q.receive x).0 ≡ content x
  pub receive_empties : (x : q.Queue) → content (q.receive x).1 ≡ none
