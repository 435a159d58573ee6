-- ===== src/EnvironmentData.antt =====
-- src/EnvironmentData.cpp: the latest values, written and read in critical sections. Floats are a
-- parameter.
use pico_wenvironment_logger.Prelude.{ℕ, Bool, true}

module _ (Float : Type 0) where
  pub record EnvironmentData : Type 0 where
    pub temperature : Float
    pub humidity : Float
    pub pressure : Float
    pub tick : ℕ
    pub valid : Bool

  -- `tick` is xTaskGetTickCount. `environment_data_get` returns a copy of the record.
  unfoldable pub environment_data_set :
      Float → Float → Float → ℕ → EnvironmentData → EnvironmentData
  environment_data_set temperature humidity pressure tick d = record {
    temperature = temperature;
    humidity = humidity;
    pressure = pressure;
    tick = tick;
    valid = true;
  }
