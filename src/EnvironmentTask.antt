-- ===== src/EnvironmentTask.antt =====
-- src/EnvironmentTask.cpp: the measurements of the pressure sensor, kept as the latest values and in
-- the shared EnvironmentData.
pub mod Rounds
use pico_wenvironment_logger.Prelude.{
  ℕ, zero, suc, ◌==◌, Bool, true, false, List, [], ◌∷◌, Option, none, some, if◌then◌else◌,
}
use pico_wenvironment_logger.I2c.{I2c, Device, delay_ms}
use pico_wenvironment_logger.Bme280
use pico_wenvironment_logger.Bme280.{Bme280, Values}
use pico_wenvironment_logger.EnvironmentData.{EnvironmentData, environment_data_set}

abbrev pub default_period_ms : ℕ
default_period_ms = 5000

abbrev pub period_of : ℕ → ℕ
period_of period_ms = if period_ms == 0 then default_period_ms else period_ms

-- The three globals of the latest values.
pub record Latest : Type 0 where
  pub values : Values
  pub timestamp_ms : ℕ
  pub valid : Bool

unfoldable pub update_latest_bme280_values : Values → ℕ → Latest → Latest
update_latest_bme280_values values timestamp_ms g = record {
  values = values;
  timestamp_ms = timestamp_ms;
  valid = true;
}

unfoldable pub get_latest_bme280_values : Latest → Option (Values × ℕ)
get_latest_bme280_values g = if g.valid then some (g.values, g.timestamp_ms) else none

-- The lines of the log: `ENV` with the measurement, or with `ERR`.
pub data Line : Type 0 where
  env : ℕ → Values → Line
  env_err : ℕ → Line

module _ (I : I2c) where
  -- Tries as many as the first argument, with a delay behind each that fails.
  unfoldable pub read_retries : ℕ → Bme280 I → Option Values × Bme280 I
  read_retries zero s = (none, s)
  read_retries (suc n) s =
      let (values, s') = Bme280.read I s in
      elim values [
        | none ↦ read_retries n (record s' { device = delay_ms I 10 s'.device })
        | some v ↦ (some v, s')
      ]

  abbrev pub read_bme280_with_retry : Bme280 I → Option Values × Bme280 I
  read_bme280_with_retry = read_retries 3

  -- `floats` makes the members temperature_c, humidity_rh and pressure_hpa of the integers.
  module _ (Float : Type 0) (floats : Values → Float × Float × Float) where
    pub record Environment : Type 0 where
      pub bme280 : Bme280 I
      pub latest : Latest
      pub env_data : EnvironmentData Float

    -- What a round finds: whether the flash is maintained, whether the log is there and not paused,
    -- the time since boot and the tick.
    pub record Round : Type 0 where
      pub busy : Bool
      pub logs : Bool
      pub timestamp_ms : ℕ
      pub tick : ℕ

    measured : Round → Values → Environment → Environment
    measured r values e = record e {
      latest = update_latest_bme280_values values r.timestamp_ms e.latest;
      env_data =
          environment_data_set Float (floats values).0 (floats values).1 (floats values).2 r.tick
            e.env_data;
    }

    unfoldable pub environment_round : Round → Environment → Option Line × Environment
    unfolding measured update_latest_bme280_values read_retries
    environment_round r e =
        if r.busy
        then (none, e)
        else let (found, s) = read_bme280_with_retry e.bme280 in
          let e' = record e { bme280 = s } in
          elim found [
            | none ↦ (if r.logs then some (env_err r.timestamp_ms) else none, e')
            | some values ↦
                (if r.logs then some (env r.timestamp_ms values) else none, measured r values e')
          ]

    abbrev pub environment_task : List Round → Environment → Environment
    environment_task [] e = e
    environment_task (r ∷ rs) e = environment_task rs (environment_round r e).1
