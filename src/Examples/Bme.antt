-- ===== src/Examples/Bme.antt =====
-- A BME280 of src/BME280.cpp that holds the image of a calibration, on a bus of its own.
use pico_wenvironment_logger.Prelude.{
  ℕ, ◌-◌, length, get_or, true, ltb, ◌==◌, if◌then◌else◌, ◌≡◌, refl, to_le,
}
use pico_wenvironment_logger.Prelude.Int.{pos, to_unsigned}
use pico_wenvironment_logger.Memory.{Memory, slice}
use pico_wenvironment_logger.I2c.{I2c}
use pico_wenvironment_logger.Bme280.{Bme280, init}
use pico_wenvironment_logger.Bme280.Image.{low_image, high_image}
use pico_wenvironment_logger.Bme280.Start.{IsSensor, init_lem}
use pico_wenvironment_logger.Examples.Sensors.{calibration, calibration-IsCalibration}

abbrev registers : Memory
registers a =
    if a == 0xD0
    then 0x60
    else if ltb a 0xE1
    then get_or (low_image calibration) (a - 0x88) 0
    else get_or (high_image calibration) (a - 0xE1) 0

-- The state of the bus is the register that the next reading begins at.
abbrev bus : I2c
bus = record {
  Bus = ℕ;
  write = λ a bytes nostop b. (pos (length bytes), get_or bytes 0 0);
  read = λ a n nostop b. ((pos n, slice registers b n), b);
  take = λ b. (true, b);
  give = λ b. b;
  delay = λ ms b. b;
}

abbrev bus_IsSensor : IsSensor bus 0x76 registers
bus_IsSensor = record {
  Ready = λ b. Unit;
  pointer = λ b. b;
  take_lem = λ b r. (refl, tt);
  give_lem = λ b r. tt;
  delay_lem = λ ms b r. tt;
  point_lem = λ a reg b e r. (refl, tt, refl);
  read_lem = λ a n b e r fits. (refl, tt);
  write_lem = λ a reg value b e r. (refl, tt);
}

abbrev sensor : Bme280 bus
sensor = record {
  device = record { bus = 0; address = 0x76; has_mutex = true };
  cal = record calibration { dig_t1 = 0; dig_h4 = pos 0 };
}

init_lem_example :
    ((init bus sensor).0 ≡ true) × ((init bus sensor).1.cal ≡ record calibration { t_fine = pos 0 })
unfolding low_image high_image to_le to_unsigned slice
init_lem_example =
    init_lem bus 0x76 registers bus_IsSensor sensor calibration tt refl calibration-IsCalibration
      refl refl refl
