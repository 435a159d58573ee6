-- ===== src/I2c.antt =====
-- The I2C bus that sensors and display share, as the Pico SDK and FreeRTOS give it: transfers with
-- a timeout, and the mutex that is taken around each of them.
pub mod Devices
pub mod Release
use pico_wenvironment_logger.Prelude.{
  ℕ, List, [], ◌∷◌, ◌++◌, length, Bool, true, false, ◌≡◌, if◌then◌else◌,
}
use pico_wenvironment_logger.Prelude.Int.{ℤ, pos}

pub record I2c : Type 1 where
  pub Bus : Type 0
  -- i2c_write_timeout_us: address, bytes, nostop; the number of bytes written, or an error below 0.
  pub write : ℕ → List ℕ → Bool → Bus → ℤ × Bus
  -- i2c_read_timeout_us: address, length, nostop; the result and the buffer.
  pub read : ℕ → ℕ → Bool → Bus → (ℤ × List ℕ) × Bus
  pub take : Bus → Bool × Bus  -- xSemaphoreTake(i2c_mutex_, ...) == pdTRUE
  pub give : Bus → Bus  -- xSemaphoreGive(i2c_mutex_)
  pub delay : ℕ → Bus → Bus  -- sleep_ms, vTaskDelay

-- Who holds the mutex: only taking and giving it changes that.
pub record IsShared (I : I2c) : Type 0 where
  pub held : I.Bus → Bool
  pub write_held :
      (addr : ℕ) (bytes : List ℕ) (nostop : Bool) (b : I.Bus)
      → held (I.write addr bytes nostop b).1 ≡ held b
  pub read_held :
      (addr n : ℕ) (nostop : Bool) (b : I.Bus) → held (I.read addr n nostop b).1 ≡ held b
  pub take_held : (b : I.Bus) → held (I.take b).1 ≡ (if (I.take b).0 then true else held b)
  pub give_held : (b : I.Bus) → held (I.give b) ≡ false
  pub delay_held : (ms : ℕ) (b : I.Bus) → held (I.delay ms b) ≡ held b

module _ (I : I2c) where
  -- A device object: its bus, its address and whether it has a mutex (i2c_mutex_ != nullptr).
  pub record Device : Type 0 where
    pub bus : I.Bus
    pub address : ℕ
    pub has_mutex : Bool

  -- `lockI2c` and `unlockI2c`, the same in the three classes.
  unfoldable pub lock_i2c : Device → Bool × Device
  lock_i2c d =
      if d.has_mutex then (let (ok, b) = I.take d.bus in (ok, record d { bus = b })) else (true, d)

  unfoldable pub unlock_i2c : Device → Device
  unlock_i2c d = if d.has_mutex then record d { bus = I.give d.bus } else d

  abbrev pub delay_ms : ℕ → Device → Device
  delay_ms ms d = record d { bus = I.delay ms d.bus }
