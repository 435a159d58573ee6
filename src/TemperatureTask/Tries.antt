-- ===== src/TemperatureTask/Tries.antt =====
-- The three tries of `readAdt7410WithRetry`, as a value.
use pico_wenvironment_logger.Prelude.{ℕ, suc, Option, none, some, ◌≡◌, refl, ap, ◌∙◌}
use pico_wenvironment_logger.Prelude.Int.{ℤ}
use pico_wenvironment_logger.I2c.{I2c, delay_ms}
use pico_wenvironment_logger.Aeadt7410
use pico_wenvironment_logger.Aeadt7410.{Aeadt7410}
use pico_wenvironment_logger.TemperatureTask.{read_retries, read_adt7410_with_retry}

module _ (I : I2c) where
  -- The first of three readings that succeeds, with a wait of 10 ms behind each that does not.
  abbrev first : Option ℤ → Option ℤ → Option ℤ
  first none o = o
  first (some c) o = some c

  abbrev waited : Aeadt7410 I → Aeadt7410 I
  waited s =
      let r = Aeadt7410.read_temperature I s in record r.1 { device = delay_ms I 10 r.1.device }

  abbrev pub tries : Aeadt7410 I → Option ℤ
  tries s =
      let given : Aeadt7410 I → Option ℤ = λ x. (Aeadt7410.read_temperature I x).0 in
      first (given s) (first (given (waited s)) (first (given (waited (waited s))) none))

  one_try :
      (n : ℕ) (s : Aeadt7410 I)
      → (read_retries I (suc n) s).0
        ≡ first (Aeadt7410.read_temperature I s).0 (read_retries I n (waited s)).0
  unfolding read_retries
  one_try n s =
      elim (Aeadt7410.read_temperature I s).0
        as (λ (o : Option ℤ).
          (let x : Option ℤ × Aeadt7410 I = elim o [
            | none ↦ read_retries I n (waited s)
            | some t ↦ (some t, (Aeadt7410.read_temperature I s).1)
          ] in
            x.0)
          ≡ first o (read_retries I n (waited s)).0) [ none ↦ refl | some c ↦ refl ]

  pub tries_lem : (s : Aeadt7410 I) → (read_adt7410_with_retry I s).0 ≡ tries s
  unfolding read_retries
  tries_lem s =
      let after : Aeadt7410 I → Option ℤ → Option ℤ =
        λ x. first (Aeadt7410.read_temperature I x).0 in
      one_try 2 s
      ∙ ap (after s) (one_try 1 (waited s) ∙ ap (after (waited s)) (one_try 0 (waited (waited s))))
