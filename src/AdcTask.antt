-- ===== src/AdcTask.antt =====
-- src/AdcLoggerTask.cpp and include/AdcLoggerTask.h: the readings of the converter, averaged over
-- the last sixteen.
pub mod Latest
use pico_wenvironment_logger.Prelude.{
  ℕ, Bool, true, false, List, [], ◌∷◌, Option, none, some, if◌then◌else◌,
}
use pico_wenvironment_logger.MovingAverage.{MovingAverage, reset, add, average}

-- `AdcLatestValue`; the voltage is computed from `avg` alone (`avg * 3.3 / 4095`) and left out.
pub record AdcLatestValue : Type 0 where
  pub raw : ℕ
  pub avg : ℕ
  pub timestamp_ms : ℕ
  pub valid : Bool

pub record AdcTask : Type 0 where
  pub adc_avg : MovingAverage
  pub latest : AdcLatestValue

-- `g_adc_latest` and the average as the task starts.
abbrev pub adc_start : AdcTask
adc_start = record {
  adc_avg = reset 16;
  latest = record { raw = 0; avg = 0; timestamp_ms = 0; valid = false };
}

-- One round: the values that are logged, unless the log is paused or absent, and the state.
unfoldable pub adc_round : Bool → ℕ → ℕ → AdcTask → Option AdcLatestValue × AdcTask
adc_round logs raw timestamp_ms t =
    let avg = add raw t.adc_avg in
    let latest : AdcLatestValue = record {
      raw = raw;
      avg = average avg;
      timestamp_ms = timestamp_ms;
      valid = true;
    } in
    (if logs then some latest else none, record { adc_avg = avg; latest = latest })

-- What a round finds.
pub record Reading : Type 0 where
  pub logs : Bool
  pub raw : ℕ
  pub timestamp_ms : ℕ

abbrev pub adc_task : List Reading → AdcTask → AdcTask
adc_task [] t = t
adc_task (r ∷ rs) t = adc_task rs (adc_round r.logs r.raw r.timestamp_ms t).1
