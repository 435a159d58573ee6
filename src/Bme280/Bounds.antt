-- ===== src/Bme280/Bounds.antt =====
-- The ranges of raw numbers and of the humidity.
use pico_wenvironment_logger.Prelude.{◌≤◌, arith}
use pico_wenvironment_logger.Prelude.Int.{ℤ, pos, negsuc, shr, to_unsigned}
use pico_wenvironment_logger.Bme280.Calibration.{Coefficients}
use pico_wenvironment_logger.Bme280.Compensate.{
  clamp_humidity, humidity_value, compensate_humidity1024,
}

clamp_humidity-le : (v : ℤ) → clamp_humidity v ≤ 102400
unfolding clamp_humidity shr to_unsigned
clamp_humidity-le (pos n) = ground arith
clamp_humidity-le (negsuc n) = ground arith

-- Whatever the calibration and the raw number, the humidity is at most 102400/1024, 100 percent.
pub compensate_humidity1024-le :
    (c : Coefficients) (adc_h : ℤ) → compensate_humidity1024 c adc_h ≤ 102400
unfolding compensate_humidity1024
compensate_humidity1024-le c adc_h = clamp_humidity-le (humidity_value c adc_h)
