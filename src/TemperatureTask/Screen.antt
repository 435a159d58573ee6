-- ===== src/TemperatureTask/Screen.antt =====
-- The two lines of each mode of the display. The buffers of nine bytes keep eight characters.
use pico_wenvironment_logger.Prelude.{
  ℕ, ◌+◌, ◌/◌, ◌%◌, Bool, List, [], ◌∷◌, ◌++◌, take, drop, Option, none, some, if◌then◌else◌,
}
use pico_wenvironment_logger.Prelude.Int.{ℤ}
use pico_wenvironment_logger.Bme280.{Values}
use pico_wenvironment_logger.DisplayMode.{
  DisplayMode, temperature, adc_voltage, log_status, i2c_info, bme_temperature, bme_humidity,
  bme_pressure, wifi_ip,
}
use pico_wenvironment_logger.EnvironmentTask.{Latest, get_latest_bme280_values}
use pico_wenvironment_logger.AdcTask.{AdcLatestValue}
use pico_wenvironment_logger.WifiTask.{WifiStatus, idle, init, connecting, got_ip, error}
use pico_wenvironment_logger.Http.Page.{codes}
use pico_wenvironment_logger.Http.{decimal_digits}

-- The texts of `%5.2f` and so on for the numbers that the code computes from these integers.
pub record Formats : Type 0 where
  pub celsius : ℤ → List ℕ  -- `T:%5.2f`
  pub voltage : ℕ → List ℕ  -- `%5.3fV`
  pub bme_celsius : ℤ → List ℕ  -- `%5.2fC`
  pub humidity : ℕ → List ℕ  -- `%5.1f%%`
  pub pressure : ℕ → List ℕ  -- `%4.0fhPa`

-- What the other tasks have published.
pub record Sources : Type 0 where
  pub adc : AdcLatestValue
  pub log_count : Option ℕ  -- `none` without a storage
  pub bme : Latest
  pub wifi : WifiStatus

abbrev pub Lines : Type 0
Lines = List ℕ × List ℕ

abbrev line : List ℕ → List ℕ
line text = take 8 text

-- `%04lu` of a number below 10000.
abbrev four_digits : ℕ → List ℕ
four_digits n =
    (b'0' + n / 1000 % 10)
    ∷ ((b'0' + n / 100 % 10) ∷ ((b'0' + n / 10 % 10) ∷ ((b'0' + n % 10) ∷ [])))

-- `display_temperature`
unfoldable pub shown_temperature : Formats → Bool → ℕ → ℤ → Lines
shown_temperature f valid count temperature_c =
    if valid
    then (line (f.celsius temperature_c), line (codes "OK " ++ four_digits (count % 10000)))
    else (line (codes "T:--.--"), line (codes "NG " ++ four_digits (count % 10000)))

-- A value of the pressure sensor under its title.
unfoldable pub bme_lines : List ℕ → (Values → List ℕ) → Latest → Lines
bme_lines title text g = elim (get_latest_bme280_values g) [
  | none ↦ (title, codes "NO DATA")
  | some found ↦ (title, line (text found.0))
]

unfoldable pub wifi_lines : WifiStatus → Lines
wifi_lines s = elim s.state [
  | got_ip ↦ (take 8 s.ip, take 8 (drop 8 s.ip))
  | connecting ↦ (codes "Wifi", codes "Conn...")
  | error ↦ (codes "Wifi NG", codes "Error")
  | idle ↦ (codes "Wifi", codes "WAIT")
  | init ↦ (codes "Wifi", codes "WAIT")
]

-- The `switch` over the mode.
unfoldable pub screen : Formats → Sources → Bool → ℕ → ℤ → DisplayMode → Option Lines
unfolding shown_temperature bme_lines wifi_lines
screen f s valid count temperature_c temperature =
    some (shown_temperature f valid count temperature_c)
screen f s valid count temperature_c adc_voltage =
    some (codes "ADC", if s.adc.valid then line (f.voltage s.adc.avg) else codes "NO DATA")
screen f s valid count temperature_c log_status =
    some (codes "LOG CNT", line (decimal_digits (elim s.log_count [ none ↦ 0 | some n ↦ n ])))
screen f s valid count temperature_c bme_temperature =
    some (bme_lines (codes "BME T") (λ v. f.bme_celsius v.temperature_01c) s.bme)
screen f s valid count temperature_c bme_humidity =
    some (bme_lines (codes "BME H") (λ v. f.humidity v.humidity_1024) s.bme)
screen f s valid count temperature_c bme_pressure =
    some (bme_lines (codes "BME P") (λ v. f.pressure v.pressure_pa) s.bme)
screen f s valid count temperature_c i2c_info = some (codes "I2C DEV", codes "3E 48 76")
screen f s valid count temperature_c wifi_ip = some (wifi_lines s.wifi)
