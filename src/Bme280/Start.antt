-- ===== src/Bme280/Start.antt =====
-- src/BME280.cpp on a chip that answers: what `init` takes from its registers.
use pico_wenvironment_logger.Prelude.{
  ℕ, ◌+◌, ◌≤◌, ◌<◌, [], ◌∷◌, get_or, Bool, true, false, ◌==◌, ==_iff, none, some, if◌then◌else◌,
  ◌≡◌, refl, ap, ap₂, ◌∙◌, arith, if-both,
}
use pico_wenvironment_logger.Prelude.Int.{pos, eq_ℤ}
use pico_wenvironment_logger.Memory.{Memory, slice}
use pico_wenvironment_logger.I2c.{I2c, Device, lock_i2c, unlock_i2c, delay_ms}
use pico_wenvironment_logger.I2c.Devices.{write_pair, read_registers}
use pico_wenvironment_logger.Bme280.Calibration.{Coefficients, coefficients_of}
use pico_wenvironment_logger.Bme280.Image.{
  low_image, high_image, IsCalibration, coefficients_of-image,
}
use pico_wenvironment_logger.Bme280.{
  Bme280, read_chip_id, read_calibration, configure_device, configure_normal_mode, init,
}

-- A chip at an address of the bus, as its data sheet has it: a register number that is written is
-- where the next reading begins, and the registers below 0xE8, identity and calibration among
-- them, hold `image`. While it is ready, its transfers and the mutex of the bus succeed.
pub record IsSensor (I : I2c) (address : ℕ) (image : Memory) : Type 1 where
  pub Ready : I.Bus → Type 0
  pub pointer : I.Bus → ℕ
  pub take_lem : (b : I.Bus) → Ready b → ((I.take b).0 ≡ true) × Ready (I.take b).1
  pub give_lem : (b : I.Bus) → Ready b → Ready (I.give b)
  pub delay_lem : (ms : ℕ) (b : I.Bus) → Ready b → Ready (I.delay ms b)
  pub point_lem :
      (a reg : ℕ) (b : I.Bus)
      → a ≡ address
      → Ready b
      → let r = I.write a (reg ∷ []) true b in (r.0 ≡ pos 1) × Ready r.1 × (pointer r.1 ≡ reg)
  pub read_lem :
      (a n : ℕ) (b : I.Bus)
      → a ≡ address
      → Ready b
      → pointer b + n ≤ 0xE8
      → let r = I.read a n false b in (r.0 ≡ (pos n, slice image (pointer b) n)) × Ready r.1
  pub write_lem :
      (a reg value : ℕ) (b : I.Bus)
      → a ≡ address
      → Ready b
      → let r = I.write a (reg ∷ value ∷ []) false b in (r.0 ≡ pos 2) × Ready r.1

eq_ℤ-refl : (n : ℕ) → eq_ℤ (pos n) (pos n) ≡ true
eq_ℤ-refl n = ground arith

module _ (I : I2c) (address : ℕ) (image : Memory) (chip : IsSensor I address image) where
  open chip use {Ready, pointer}

  -- The chip's object, and its bus ready.
  pub record Reached (d : Device I) : Type 0 where
    pub ready : Ready d.bus
    pub here : d.address ≡ address

  lock-Reached : (d : Device I) → Reached d → ((lock_i2c I d).0 ≡ true) × Reached (lock_i2c I d).1
  unfolding lock_i2c
  lock-Reached d p =
      if-both (λ (r : Bool × Device I). (r.0 ≡ true) × Reached r.1) d.has_mutex _ _
        (
          (chip.take_lem d.bus p.ready).0,
          record { ready = (chip.take_lem d.bus p.ready).1; here = p.here },
        )
        (refl, p)

  unlock-Reached : (d : Device I) → Reached d → Reached (unlock_i2c I d)
  unfolding unlock_i2c
  unlock-Reached d p =
      if-both Reached d.has_mutex _ _ record { ready = chip.give_lem d.bus p.ready; here = p.here }
        p

  delay-Reached : (ms : ℕ) (d : Device I) → Reached d → Reached (delay_ms I ms d)
  delay-Reached ms d p = record { ready = chip.delay_lem ms d.bus p.ready; here = p.here }

  write_pair-Reached :
      (reg value : ℕ) (d : Device I)
      → Reached d
      → ((write_pair I reg value d).0 ≡ true) × Reached (write_pair I reg value d).1
  unfolding write_pair
  write_pair-Reached reg value d p =
      let (e, q) = lock-Reached d p in
      let d1 : Device I = (lock_i2c I d).1 in
      let w = chip.write_lem d1.address reg value d1.bus q.here q.ready in
      rw e (
        ap (λ x. eq_ℤ x (pos 2)) w.0,
        unlock-Reached (record d1 { bus = (I.write d1.address (reg ∷ value ∷ []) false d1.bus).1 })
            record { ready = w.1; here = q.here },
      )

  read_registers-Reached :
      (reg n : ℕ) (d : Device I)
      → 0 < n
      → reg + n ≤ 0xE8
      → Reached d
      → ((read_registers I reg n d).0 ≡ some (slice image reg n))
        × Reached (read_registers I reg n d).1
  unfolding read_registers
  read_registers-Reached reg n d pos_n fits p =
      let (e, q) = lock-Reached d p in
      let d1 : Device I = (lock_i2c I d).1 in
      let w = chip.point_lem d1.address reg d1.bus q.here q.ready in
      let b : I.Bus = (I.write d1.address (reg ∷ []) true d1.bus).1 in
      let r = chip.read_lem d1.address n b q.here w.1 (omega (arith, fits, w.2)) in
      let some_bytes : (n == 0) ≡ false = ground arith in
      let pointed : eq_ℤ (I.write d1.address (reg ∷ []) true d1.bus).0 (pos 1) ≡ true =
        ap (λ x. eq_ℤ x (pos 1)) w.0 in
      rw (some_bytes, e, pointed)
        (
          ap (λ x. if eq_ℤ x.0 (pos n) then some x.1 else none) r.0
              ∙ ap (λ c. if c then some (slice image (pointer b) n) else none) (eq_ℤ-refl n)
              ∙ ap (λ a. some (slice image a n)) w.2,
          unlock-Reached (record d1 { bus = (I.read d1.address n false b).1 })
              record { ready = r.1; here = q.here },
        )

  read_chip_id-Reached :
      (s : Bme280 I)
      → Reached s.device
      → ((read_chip_id I s).0 ≡ some (image 0xD0))
        × Reached (read_chip_id I s).1.device
        × ((read_chip_id I s).1.cal ≡ s.cal)
  unfolding read_chip_id slice
  read_chip_id-Reached s p =
      let (e, q) = read_registers-Reached 0xD0 1 s.device (omega arith) (omega arith) p in
      (ap (λ o. elim o [ none ↦ none | some b ↦ some (get_or b 0 0) ]) e, q, refl)

  read_calibration-Reached :
      (s : Bme280 I)
      → Reached s.device
      → ((read_calibration I s).0 ≡ true)
        × Reached (read_calibration I s).1.device
        × ((read_calibration I s).1.cal
            ≡ coefficients_of (slice image 0x88 26) (slice image 0xE1 7))
  unfolding read_calibration
  read_calibration-Reached s p =
      let (e, q) = read_registers-Reached 0x88 26 s.device (omega arith) (omega arith) p in
      let d1 : Device I = (read_registers I 0x88 26 s.device).1 in
      let (f, r) = read_registers-Reached 0xE1 7 d1 (omega arith) (omega arith) q in
      rw (e, f, read_calibration) (refl, r, refl)

  configure_device-Reached :
      (d : Device I)
      → Reached d
      → ((configure_device I d).0 ≡ true) × Reached (configure_device I d).1
  unfolding configure_device
  configure_device-Reached d p =
      let (e1, p1) = write_pair-Reached 0xE0 0xB6 d p in
      let d1 : Device I = delay_ms I 10 (write_pair I 0xE0 0xB6 d).1 in
      let q1 : Reached d1 = delay-Reached 10 (write_pair I 0xE0 0xB6 d).1 p1 in
      let (e2, p2) = write_pair-Reached 0xF5 0xB0 d1 q1 in
      let d2 : Device I = (write_pair I 0xF5 0xB0 d1).1 in
      let (e3, p3) = write_pair-Reached 0xF2 0x01 d2 p2 in
      let d3 : Device I = (write_pair I 0xF2 0x01 d2).1 in
      let (e4, p4) = write_pair-Reached 0xF4 0x27 d3 p3 in
      rw (e1, e2, e3, e4) (refl, delay-Reached 1000 (write_pair I 0xF4 0x27 d3).1 p4)

  -- `init` of a BME280 whose registers hold its identity at 0xD0 and, from 0x88 and from 0xE1 on, the
  -- images of coefficients in the ranges of their types, on a bus whose transfers and mutex
  -- succeed: it returns true, and the driver has every one of those coefficients, signs and the two
  -- packed twelve-bit numbers included, with `t_fine` 0.
  pub init_lem :
      (s : Bme280 I) (c : Coefficients)
      → Ready s.device.bus
      → s.device.address ≡ address
      → IsCalibration c
      → image 0xD0 ≡ 0x60
      → slice image 0x88 26 ≡ low_image c
      → slice image 0xE1 7 ≡ high_image c
      → ((init I s).0 ≡ true) × ((init I s).1.cal ≡ record c { t_fine = pos 0 })
  unfolding init configure_normal_mode
  init_lem s c ready here v id low high =
      let (e, p, _) = read_chip_id-Reached s record { ready = ready; here = here } in
      let s1 : Bme280 I = (read_chip_id I s).1 in
      let (f, q, cal) = read_calibration-Reached s1 p in
      let s2 : Bme280 I = (read_calibration I s1).1 in
      let known : (image 0xD0 == 0x60) ≡ true = (==_iff (image 0xD0) 0x60).1 id in
      rw (e, known, f, init)
        (
          (configure_device-Reached s2.device q).0,
          cal ∙ ap₂ coefficients_of low high ∙ coefficients_of-image c v,
        )
