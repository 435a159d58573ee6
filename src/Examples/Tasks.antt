-- ===== src/Examples/Tasks.antt =====
-- The tasks on the simulated bus.
use pico_wenvironment_logger.Prelude.{ℕ, Bool, true, false, List, [], ◌∷◌, some, refl, arith}
use pico_wenvironment_logger.Prelude.Int.{ℤ, pos, negsuc}
use pico_wenvironment_logger.Bme280.{Values}
use pico_wenvironment_logger.AdcTask.{Reading, adc_task, adc_start}
use pico_wenvironment_logger.AdcTask.Latest.{IsLatest, adc_task-IsLatest}
use pico_wenvironment_logger.EnvironmentTask
use pico_wenvironment_logger.EnvironmentTask.{Latest, Environment, environment_task}
use pico_wenvironment_logger.EnvironmentTask.Rounds as EnvironmentRounds
use pico_wenvironment_logger.TemperatureTask
use pico_wenvironment_logger.TemperatureTask.{
  temperature_round, temperature_task, temperature_start,
}
use pico_wenvironment_logger.TemperatureTask.Rounds.{temperature_task-Outcome}
use pico_wenvironment_logger.TemperatureTask.Rounds as TemperatureRounds
use pico_wenvironment_logger.DisplayMode.{wifi_ip}
use pico_wenvironment_logger.TemperatureTask.Screen.{Formats, Sources}
use pico_wenvironment_logger.WifiTask.{first_status, Answer, wifi_task, wifi_steps}
use pico_wenvironment_logger.WifiTask.Status.{Published, wifi_steps-Published}
use pico_wenvironment_logger.Http.Page.{codes}
use pico_wenvironment_logger.Examples.Sensors.{i2c, i2c_IsShared, lcd, calibration, mode_queue}

abbrev reading : ℕ → Reading
reading n = record { logs = true; raw = n; timestamp_ms = 1000 }

adc_task-IsLatest_example :
    IsLatest
      (reading 2000 ∷ [])
      (reading 2003)
      (adc_task (reading 2000 ∷ (reading 2003 ∷ [])) adc_start).latest
adc_task-IsLatest_example =
    adc_task-IsLatest (reading 2000 ∷ []) (reading 2003) (omega arith, (omega arith, tt))

abbrev answer : ℤ → Answer
answer n = record { result = n; netif = some (codes "192.168.1.20") }

-- Initialised, connected, the link up and then down.
abbrev answers : List Answer
answers = answer (pos 0) ∷ (answer (pos 0) ∷ (answer (pos 3) ∷ (answer (negsuc 0) ∷ [])))

wifi_steps-Published_example :
    let t = wifi_steps (pos 3) answers (wifi_task (pos 3) first_status) in
    Published t.phase t.status
wifi_steps-Published_example = wifi_steps-Published (pos 3) answers first_status

abbrev zero_values : Values
zero_values = record { temperature_01c = pos 0; pressure_pa = 0; humidity_1024 = 0 }

abbrev floats : Values → ℤ × ℤ × ℤ
floats v = (v.temperature_01c, pos v.humidity_1024, pos v.pressure_pa)

abbrev environment : Environment i2c ℤ floats
environment = record {
  bme280 = record { device = record lcd { address = 0x76 }; cal = calibration };
  latest = record { values = zero_values; timestamp_ms = 0; valid = false };
  env_data = record {
    temperature = pos 0;
    humidity = pos 0;
    pressure = pos 0;
    tick = 0;
    valid = false;
  };
}

abbrev environment_round_at : Bool → ℕ → EnvironmentTask.Round i2c ℤ floats
environment_round_at busy ms = record { busy = busy; logs = true; timestamp_ms = ms; tick = ms }

abbrev measured : Environment i2c ℤ floats
measured = environment_task i2c ℤ floats (environment_round_at true 5000 ∷ []) environment

abbrev formats : Formats
formats = record {
  celsius = λ t. codes "T:21.50";
  voltage = λ n. codes "1.614V";
  bme_celsius = λ t. codes "21.30C";
  humidity = λ n. codes "40.2%";
  pressure = λ n. codes "1013hPa";
}

abbrev sources : Sources
sources = record {
  adc = (adc_task (reading 2000 ∷ []) adc_start).latest;
  log_count = some 12;
  bme = environment.latest;
  wifi = first_status;
}

abbrev temperature_round_at : Bool → ℕ → TemperatureTask.Round i2c mode_queue formats
temperature_round_at busy ms = record {
  busy = busy;
  logs = true;
  timestamp_ms = ms;
  stack_hwm = 300;
  sources = sources;
}

abbrev shown : TemperatureTask.Temperature i2c mode_queue formats
shown = temperature_task i2c mode_queue formats (temperature_round_at false 1000 ∷ []) (
    temperature_start i2c mode_queue formats ([], false)
      record { device = record lcd { address = 0x48 }; initialized = false } (some lcd)
      (some (some wifi_ip)))

temperature_task-Outcome_example :
    TemperatureRounds.Outcome i2c i2c_IsShared mode_queue formats false true
      shown.sensor.initialized shown.count
      (TemperatureRounds.attempt i2c i2c_IsShared mode_queue formats shown)
      (temperature_round i2c mode_queue formats (temperature_round_at false 2000) shown)
temperature_task-Outcome_example =
    temperature_task-Outcome i2c i2c_IsShared mode_queue formats
      (temperature_round_at false 1000 ∷ []) (temperature_round_at false 2000) ([], false)
      record { device = record lcd { address = 0x48 }; initialized = false } (some lcd)
      (some (some wifi_ip)) refl
