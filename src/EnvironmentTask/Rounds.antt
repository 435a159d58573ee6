-- ===== src/EnvironmentTask/Rounds.antt =====
-- What the rounds leave in the two places that keep the measurement, and on the bus.
use pico_wenvironment_logger.Prelude.{ℕ, true, false, Option, none, some, if◌then◌else◌, ◌≡◌, ◌⊎◌}
use pico_wenvironment_logger.I2c.{I2c, IsShared}
use pico_wenvironment_logger.I2c.Release.{Free}
use pico_wenvironment_logger.Bme280
use pico_wenvironment_logger.Bme280.{Bme280, Values}
use pico_wenvironment_logger.EnvironmentData.{EnvironmentData}
use pico_wenvironment_logger.EnvironmentTask.{
  Latest, get_latest_bme280_values, Line, env, env_err, read_bme280_with_retry, Environment, Round,
}

module _ (I : I2c) (shared : IsShared I) where
  module _ (Float : Type 0) (floats : Values → Float × Float × Float) where
    -- Both places hold one measurement, or neither does.
    abbrev pub Agrees : Latest → EnvironmentData Float → Type 0
    Agrees g d =
        ((g.valid ≡ false) × (d.valid ≡ false))
        ⊎ ((g.valid ≡ true)
            × (d.valid ≡ true)
            × (d.temperature ≡ (floats g.values).0)
            × (d.humidity ≡ (floats g.values).1)
            × (d.pressure ≡ (floats g.values).2))

    record IsKept (e : Environment I Float floats) : Type 0 where
      pub agrees : Agrees e.latest e.env_data
      pub free : Free I shared e.bme280.device

    abbrev pub line_of : Round I Float floats → Option Values → Line
    line_of r none = env_err r.timestamp_ms
    line_of r (some v) = env r.timestamp_ms v

    abbrev pub after : Round I Float floats → Option Values → Latest → Option (Values × ℕ)
    after r none g = get_latest_bme280_values g
    after r (some v) g = some (v, r.timestamp_ms)

    -- What the sensor gives to a round in the state `e`; and what comes of it.
    abbrev pub found_by : Round I Float floats → Environment I Float floats → Option Values
    found_by r e = if r.busy then none else (read_bme280_with_retry I e.bme280).0

    pub record Outcome (r : Round I Float floats) (found : Option Values)
        (e : Environment I Float floats) (x : Option Line × Environment I Float floats)
        : Type 0 where
      pub line : x.0 ≡ (if r.busy then none else if r.logs then some (line_of r found) else none)
      pub latest : get_latest_bme280_values x.1.latest ≡ after r found e.latest
      pub agrees : Agrees x.1.latest x.1.env_data
      pub free : Free I shared x.1.bme280.device
