-- ===== src/Aeadt7410.antt =====
-- src/AEADT7410.cpp: the thermometer. A temperature is kept as the number that the code divides by
-- 128 to make a float of it.
use pico_wenvironment_logger.Prelude.{ℕ, ◌+◌, ◌*◌, ◌^◌, Bool, false, Option, none, some, get_or}
use pico_wenvironment_logger.Prelude.Int.{ℤ, to_signed}
use pico_wenvironment_logger.I2c.{I2c, Device}
use pico_wenvironment_logger.I2c.Devices.{write_pair, read_registers}

-- The 16-bit number in units of 1/128 degree.
unfoldable pub convert_temp : ℕ → ℕ → ℤ
convert_temp msb lsb = to_signed 16 (msb * 2 ^ 8 + lsb)

module _ (I : I2c) where
  pub record Aeadt7410 : Type 0 where
    pub device : Device I
    pub initialized : Bool

  -- 16-bit resolution.
  unfoldable pub init : Aeadt7410 → Bool × Aeadt7410
  init s =
      let (ok, d) = write_pair I 0x03 0x80 s.device in (ok, record { device = d; initialized = ok })

  unfoldable pub clear_initialized : Aeadt7410 → Aeadt7410
  clear_initialized s = record s { initialized = false }

  unfoldable pub read_temp_raw : Aeadt7410 → Option (ℕ × ℕ) × Aeadt7410
  read_temp_raw s =
      let (bytes, d) = read_registers I 0x00 2 s.device in
      (
        elim bytes [ none ↦ none | some buf ↦ some (get_or buf 0 0, get_or buf 1 0) ],
        record s { device = d },
      )

  unfoldable pub read_temperature : Aeadt7410 → Option ℤ × Aeadt7410
  unfolding read_temp_raw convert_temp
  read_temperature s =
      let (raw, s') = read_temp_raw s in
      (elim raw [ none ↦ none | some (msb, lsb) ↦ some (convert_temp msb lsb) ], s')
