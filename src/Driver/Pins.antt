-- ===== src/Driver/Pins.antt =====
-- What the flash driver calls of the Pico SDK: the chip select pin, the SPI bus and the clock.
use pico_wenvironment_logger.Prelude.{ℕ, ◌+◌, ◌*◌, List, [], ◌∷◌, Bool}

pub record Board : Type 1 where
  pub State : Type 0
  pub setup : State → State  -- spi_init, gpio_set_function, gpio_init, gpio_set_dir
  pub cs_put : Bool → State → State  -- gpio_put(cs_pin_, level)
  pub spi_write : List ℕ → State → State  -- spi_write_blocking
  pub spi_read : ℕ → State → List ℕ × State  -- spi_read_blocking
  pub now_us : State → ℕ  -- get_absolute_time
  pub sleep_us : ℕ → State → State  -- sleep_us, sleep_ms

-- The byte of a read of one byte.
abbrev pub first : List ℕ → ℕ
first [] = 0
first (b ∷ bs) = b

-- (id[0] << 16) | (id[1] << 8) | id[2]
abbrev pub big_endian : List ℕ → ℕ
big_endian (a ∷ b ∷ c ∷ rest) = a * 65536 + b * 256 + c
big_endian _ = 0
