-- ===== src/Bme280.antt =====
-- src/BME280.cpp: registers, calibration and the compensation formulas. Signed numbers are exact
-- (Prelude.Int). The result keeps the integers that the code divides at the end to make floats of
-- them: hundredths of a degree, pascals and 1/1024 of a percent.
pub mod Calibration
pub mod Compensate
pub mod Image
pub mod Start
pub mod Bounds
use pico_wenvironment_logger.Prelude.{
  ℕ, ◌+◌, ◌*◌, ◌/◌, ◌^◌, List, Bool, true, false, ◌==◌, Option, none, some, if◌then◌else◌, get_or,
}
use pico_wenvironment_logger.Prelude.Int.{ℤ, pos}
use pico_wenvironment_logger.I2c.{I2c, Device, delay_ms}
use pico_wenvironment_logger.I2c.Devices.{write_pair, read_registers}
use pico_wenvironment_logger.Bme280.Calibration.{Coefficients, coefficients_of}
use pico_wenvironment_logger.Bme280.Compensate.{
  compensate_temperature01c, compensate_pressure_pa, compensate_humidity1024,
}

abbrev pub reg_calib00 : ℕ
reg_calib00 = 0x88

abbrev pub reg_calib26 : ℕ
reg_calib26 = 0xE1

abbrev pub reg_id : ℕ
reg_id = 0xD0

abbrev pub reg_data : ℕ
reg_data = 0xF7

abbrev pub chip_id : ℕ
chip_id = 0x60

-- The three numbers of the eight data bytes, whose shifted parts have no bit in common.
unfoldable pub raw_of : List ℕ → ℤ × ℤ × ℤ
raw_of raw = (
  pos (get_or raw 3 0 * 2 ^ 12 + get_or raw 4 0 * 2 ^ 4 + get_or raw 5 0 / 2 ^ 4),
  pos (get_or raw 0 0 * 2 ^ 12 + get_or raw 1 0 * 2 ^ 4 + get_or raw 2 0 / 2 ^ 4),
  pos (get_or raw 6 0 * 2 ^ 8 + get_or raw 7 0),
)

-- BME280Values, before the divisions by 100 and 1024.
pub record Values : Type 0 where
  pub temperature_01c : ℤ
  pub pressure_pa : ℕ
  pub humidity_1024 : ℕ

-- The values of a measurement, with `t_fine` set on the way.
unfoldable pub values_of : Coefficients → ℤ × ℤ × ℤ → Values × Coefficients
values_of c raw =
    let (t, c') = compensate_temperature01c c raw.0 in
    (
      record {
        temperature_01c = t;
        pressure_pa = compensate_pressure_pa c' raw.1;
        humidity_1024 = compensate_humidity1024 c' raw.2;
      },
      c',
    )

module _ (I : I2c) where
  pub record Bme280 : Type 0 where
    pub device : Device I
    pub cal : Coefficients

  unfoldable pub read_chip_id : Bme280 → Option ℕ × Bme280
  read_chip_id s =
      let (bytes, d) = read_registers I reg_id 1 s.device in
      (elim bytes [ none ↦ none | some b ↦ some (get_or b 0 0) ], record s { device = d })

  unfoldable pub read_calibration : Bme280 → Bool × Bme280
  read_calibration s =
      let (b1, d1) = read_registers I reg_calib00 26 s.device in
      elim b1 [
        | none ↦ (false, record s { device = d1 })
        | some low ↦
            let (b2, d2) = read_registers I reg_calib26 7 d1 in
            elim b2 [
              | none ↦ (false, record s { device = d2 })
              | some high ↦ (true, record s { device = d2; cal = coefficients_of low high })
            ]
      ]

  -- Reset and wait; standby 1000 ms and filter 16; humidity, then temperature and pressure with
  -- normal mode; and a wait for the first measurement.
  unfoldable pub configure_device : Device I → Bool × Device I
  configure_device d =
      let (reset, d1) = write_pair I 0xE0 0xB6 d in
      if reset
      then (let (config, d2) = write_pair I 0xF5 0xB0 (delay_ms I 10 d1) in
          if config
          then (let (ctrl_hum, d3) = write_pair I 0xF2 0x01 d2 in
              if ctrl_hum
              then (let (ctrl_meas, d4) = write_pair I 0xF4 0x27 d3 in
                  if ctrl_meas then (true, delay_ms I 1000 d4) else (false, d4))
              else (false, d3))
          else (false, d2))
      else (false, d1)

  unfoldable pub configure_normal_mode : Bme280 → Bool × Bme280
  unfolding configure_device
  configure_normal_mode s = let (ok, d) = configure_device s.device in (ok, record s { device = d })

  unfoldable pub init : Bme280 → Bool × Bme280
  unfolding read_chip_id read_calibration configure_normal_mode
  init s =
      let (id, s1) = read_chip_id s in
      elim id [
        | none ↦ (false, s1)
        | some n ↦
            if n == chip_id
            then (let (calibrated, s2) = read_calibration s1 in
                if calibrated then configure_normal_mode s2 else (false, s2))
            else (false, s1)
      ]

  unfoldable pub read : Bme280 → Option Values × Bme280
  unfolding raw_of values_of
  read s =
      let (bytes, d) = read_registers I reg_data 8 s.device in
      elim bytes [
        | none ↦ (none, record s { device = d })
        | some raw ↦
            let (values, c) = values_of s.cal (raw_of raw) in
            (some values, record s { device = d; cal = c })
      ]
