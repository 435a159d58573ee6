-- ===== src/TemperatureTask/Report.antt =====
-- The reading among the messages of a round.
use pico_wenvironment_logger.Prelude.{
  ℕ, Bool, true, false, List, [], ◌∷◌, ◌++◌, Option, none, some, if◌then◌else◌, ◌≡◌, refl,
}
use pico_wenvironment_logger.Prelude.Int.{ℤ, pos}
use pico_wenvironment_logger.TemperatureTask.{Message, temp, adt_init_ok, hwm, mode_changed}
use pico_wenvironment_logger.TemperatureTask.Quiet.{reported}

-- The report of a reading, and whether it succeeded; a failed one is reported as 0 and not good.
abbrev pub report : Option ℤ → ℤ × Bool
report none = (pos 0, false)
report (some c) = (c, true)

pub reported-append :
    (xs ys : List Message) → reported xs ≡ none → reported (xs ++ ys) ≡ reported ys
reported-append [] ys e = refl
reported-append (temp ts c v ∷ xs) ys e = absurd (some_none (c, v) e)
  where
    some_none : (v : ℤ × Bool) → ◌≡◌ {A = Option (ℤ × Bool)} (some v) none → ⊥
    some_none v e = cc
reported-append (adt_init_ok ∷ xs) ys e = reported-append xs ys e
reported-append (hwm n ∷ xs) ys e = reported-append xs ys e
reported-append (mode_changed m ∷ xs) ys e = reported-append xs ys e

pub no_reading :
    (a b : Bool) (n : ℕ) → reported (if a then (if b then hwm n ∷ [] else []) else []) ≡ none
no_reading true true n = refl
no_reading true false n = refl
no_reading false b n = refl

pub only_reading :
    (logs valid : Bool) (ts : ℕ) (c : ℤ)
    → reported (if logs then temp ts c valid ∷ [] else [])
      ≡ (if logs then some (c, valid) else none)
only_reading true valid ts c = refl
only_reading false valid ts c = refl

pub with_reading :
    (logs valid : Bool) (ts : ℕ) (c : ℤ) (rest : List Message)
    → reported rest ≡ none
    → reported ((if logs then temp ts c valid ∷ [] else []) ++ rest)
      ≡ (if logs then some (c, valid) else none)
with_reading true valid ts c rest e = refl
with_reading false valid ts c rest e = e

pub reports :
    (o : Option ℤ)
    → (elim o [ none ↦ pos 0 | some c ↦ c ], elim o [ none ↦ false | some _ ↦ true ]) ≡ report o
reports none = refl
reports (some c) = refl
