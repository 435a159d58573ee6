-- ===== src/I2c/Release.antt =====
-- Every operation of the three devices gives the mutex of the bus back.
pub mod Drivers
pub mod Requests
use pico_wenvironment_logger.Prelude.{
  ℕ, List, [], ◌∷◌, Bool, true, false, ◌==◌, if◌then◌else◌, Option, none, some, ◌≡◌, ◌∙◌, refl, ap,
  Option-cases, inl, inr, if-both, if-cases,
}
use pico_wenvironment_logger.Prelude.Int.{ℤ, pos, eq_ℤ}
use pico_wenvironment_logger.I2c.{I2c, IsShared, Device, lock_i2c, unlock_i2c, delay_ms}
use pico_wenvironment_logger.I2c.Devices.{write_pair, read_registers}
use pico_wenvironment_logger.Aqm0802

module _ (I : I2c) (shared : IsShared I) where
  -- Nobody holds the mutex; and the same unless the device has taken it.
  abbrev pub Free : Device I → Type 0
  Free d = shared.held d.bus ≡ false

  abbrev Taken : Device I → Type 0
  Taken d = d.has_mutex ≡ false → Free d

  lock-Taken :
      (d : Device I)
      → Free d
      → let r = lock_i2c I d in (r.0 ≡ true → Taken r.1) × (r.0 ≡ false → Free r.1)
  unfolding lock_i2c
  lock-Taken d f =
      if-cases (λ (r : Bool × Device I). (r.0 ≡ true → Taken r.1) × (r.0 ≡ false → Free r.1))
        d.has_mutex _ _
        (λ m. (
          λ e n. absurd (both d.has_mutex m n),
          λ e. shared.take_held d.bus ∙ ap (λ b. if b then true else shared.held d.bus) e ∙ f,
        ))
        (λ m. (λ e n. f, λ e. f))
    where
      both : (b : Bool) → b ≡ true → b ≡ false → ⊥
      both b p q = cc

  unlock-Free : (d : Device I) → Taken d → Free (unlock_i2c I d)
  unfolding unlock_i2c
  unlock-Free d t = if-cases Free d.has_mutex _ _ (λ m. shared.give_held d.bus) (λ m. t m)

  pub write_pair-Free : (reg value : ℕ) (d : Device I) → Free d → Free (write_pair I reg value d).1
  unfolding write_pair
  write_pair-Free reg value d f =
      let d1 : Device I = (lock_i2c I d).1 in
      let bytes : List ℕ = reg ∷ (value ∷ []) in
      if-cases (λ (r : Bool × Device I). Free r.1) (lock_i2c I d).0 _ _
        (λ e.
          unlock-Free (record d1 { bus = (I.write d1.address bytes false d1.bus).1 })
            (λ m. shared.write_held d1.address bytes false d1.bus ∙ (lock-Taken d f).0 e m))
        (λ e. (lock-Taken d f).1 e)

  pub read_registers-Free :
      (start_reg n : ℕ) (d : Device I) → Free d → Free (read_registers I start_reg n d).1
  unfolding read_registers
  read_registers-Free start_reg n d f =
      let d1 : Device I = (lock_i2c I d).1 in
      let w : ℤ × I.Bus = I.write d1.address (start_reg ∷ []) true d1.bus in
      if-both (λ (r : Option (List ℕ) × Device I). Free r.1) (n == 0) _ _ f
        (if-cases (λ (r : Option (List ℕ) × Device I). Free r.1) (lock_i2c I d).0 _ _
          (λ e.
            let written : Taken (record d1 { bus = w.1 }) = λ m.
              shared.write_held d1.address (start_reg ∷ []) true d1.bus ∙ (lock-Taken d f).0 e m in
            if-both (λ (r : Option (List ℕ) × Device I). Free r.1) (eq_ℤ w.0 (pos 1)) _ _
              (unlock-Free (record d1 { bus = (I.read d1.address n false w.1).1 })
                (λ m. shared.read_held d1.address n false w.1 ∙ written m))
              (unlock-Free (record d1 { bus = w.1 }) written))
          (λ e. (lock-Taken d f).1 e))

  pub delay-Free : (ms : ℕ) (d : Device I) → Free d → Free (delay_ms I ms d)
  delay-Free ms d f = shared.delay_held ms d.bus ∙ f
