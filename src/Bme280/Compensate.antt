-- ===== src/Bme280/Compensate.antt =====
-- The compensation formulas.
use pico_wenvironment_logger.Prelude.{ℕ, if◌then◌else◌}
use pico_wenvironment_logger.Prelude.Int.{
  ℤ, pos, ◌+ℤ◌, ◌-ℤ◌, ◌*ℤ◌, shr, shl, div_ℤ, ltb_ℤ, eq_ℤ, to_unsigned,
}
use pico_wenvironment_logger.Bme280.Calibration.{Coefficients}

unfoldable pub compensate_temperature01c : Coefficients → ℤ → ℤ × Coefficients
compensate_temperature01c c adc_t =
    let var1 = shr ((shr adc_t 3 -ℤ shl (pos c.dig_t1) 1) *ℤ c.dig_t2) 11 in
    let off = shr adc_t 4 -ℤ pos c.dig_t1 in
    let var2 = shr (shr (off *ℤ off) 12 *ℤ c.dig_t3) 14 in
    let t_fine = var1 +ℤ var2 in (shr (t_fine *ℤ pos 5 +ℤ pos 128) 8, record c { t_fine = t_fine })

-- The divisor of the pressure, and what is subtracted before the division.
unfoldable pub pressure_scale : Coefficients → ℤ
pressure_scale c =
    let var1 = c.t_fine -ℤ pos 128000 in
    let scaled = shr (var1 *ℤ var1 *ℤ c.dig_p3) 8 +ℤ shl (var1 *ℤ c.dig_p2) 12 in
    shr ((shl (pos 1) 47 +ℤ scaled) *ℤ pos c.dig_p1) 33

unfoldable pub pressure_offset : Coefficients → ℤ
pressure_offset c =
    let var1 = c.t_fine -ℤ pos 128000 in
    var1 *ℤ var1 *ℤ c.dig_p6 +ℤ shl (var1 *ℤ c.dig_p5) 17 +ℤ shl c.dig_p4 35

unfoldable pub compensate_pressure_pa : Coefficients → ℤ → ℕ
unfolding pressure_scale pressure_offset
compensate_pressure_pa c adc_p =
    let scale = pressure_scale c in
    if eq_ℤ scale (pos 0)
    then 0
    else let p = div_ℤ ((shl (pos 1048576 -ℤ adc_p) 31 -ℤ pressure_offset c) *ℤ pos 3125) scale in
      let var1 = shr (c.dig_p9 *ℤ shr p 13 *ℤ shr p 13) 25 in
      let var2 = shr (c.dig_p8 *ℤ p) 19 in
      let q = shr (p +ℤ var1 +ℤ var2) 8 +ℤ shl c.dig_p7 4 in
      if ltb_ℤ q (pos 0) then 0 else to_unsigned 32 (shr q 8)

-- The clamping at the end of the humidity, and its cast.
unfoldable pub clamp_humidity : ℤ → ℕ
clamp_humidity v =
    let low = (if ltb_ℤ v (pos 0) then pos 0 else v) in
    let high = (if ltb_ℤ (pos 419430400) low then pos 419430400 else low) in
    to_unsigned 32 (shr high 12)

-- The relative humidity before it is clamped.
unfoldable pub humidity_value : Coefficients → ℤ → ℤ
humidity_value c adc_h =
    let x = c.t_fine -ℤ pos 76800 in
    let raised = shr (shl adc_h 14 -ℤ shl c.dig_h4 20 -ℤ c.dig_h5 *ℤ x +ℤ pos 16384) 15 in
    let slope = shr (shr (x *ℤ c.dig_h6) 10 *ℤ (shr (x *ℤ pos c.dig_h3) 11 +ℤ pos 32768)) 10 in
    let factor = shr ((slope +ℤ pos 2097152) *ℤ c.dig_h2 +ℤ pos 8192) 14 in
    let v = raised *ℤ factor in
    let bend = shr (shr (shr v 15 *ℤ shr v 15) 7 *ℤ pos c.dig_h1) 4 in v -ℤ bend

unfoldable pub compensate_humidity1024 : Coefficients → ℤ → ℕ
unfolding clamp_humidity humidity_value
compensate_humidity1024 c adc_h = clamp_humidity (humidity_value c adc_h)
