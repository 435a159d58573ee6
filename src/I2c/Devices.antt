-- ===== src/I2c/Devices.antt =====
-- The transfers of the three device classes.
use pico_wenvironment_logger.Prelude.{
  ℕ, List, [], ◌∷◌, Bool, true, false, ◌==◌, Option, none, some, if◌then◌else◌,
}
use pico_wenvironment_logger.Prelude.Int.{pos, eq_ℤ}
use pico_wenvironment_logger.I2c.{I2c, Device, lock_i2c, unlock_i2c}

module _ (I : I2c) where
  -- One register is written, or one byte with its control byte: `writeRegister8`, `writeReg` and
  -- `write`.
  unfoldable pub write_pair : ℕ → ℕ → Device I → Bool × Device I
  write_pair reg value d =
      let (locked, d1) = lock_i2c I d in
      if locked
      then (let (ret, b) = I.write d1.address (reg ∷ value ∷ []) false d1.bus in
          (eq_ℤ ret (pos 2), unlock_i2c I (record d1 { bus = b })))
      else (false, d1)

  -- `readRegisters` and `readTempRaw`: `n` registers from `start_reg` on.
  unfoldable pub read_registers : ℕ → ℕ → Device I → Option (List ℕ) × Device I
  read_registers start_reg n d =
      if n == 0
      then (none, d)
      else let (locked, d1) = lock_i2c I d in
        if locked
        then (let (ret, b) = I.write d1.address (start_reg ∷ []) true d1.bus in
            if eq_ℤ ret (pos 1)
            then (let ((got, buffer), b') = I.read d1.address n false b in
                (
                  if eq_ℤ got (pos n) then some buffer else none,
                  unlock_i2c I (record d1 { bus = b' }),
                ))
            else (none, unlock_i2c I (record d1 { bus = b })))
        else (none, d1)
