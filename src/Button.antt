-- ===== src/Button.antt =====
-- src/ButtonTask.cpp. A level of the pin is a Bool, true for high; the button pulls it low. The
-- delays stand between the samples, so the task is a machine that takes one sample after the other.
pub mod Gestures
use pico_wenvironment_logger.Prelude.{ℕ, ◌+◌, Bool, true, false, leb, if◌then◌else◌, List, [], ◌∷◌}
use pico_wenvironment_logger.DisplayMode.{
  DisplayMode, temperature, mode_code, mode_of, max_mode, ModeQueue,
}

-- Which `gpio_get` comes next: that of the loop, with `prev_state`; the one after the debounce
-- delay; or that of the wait for the release.
pub data Phase : Type 0 where
  polling : Bool → Phase
  debouncing : Phase
  releasing : Phase

unfoldable pub next_mode : DisplayMode → DisplayMode
next_mode mode = let next = mode_code mode + 1 in mode_of (if leb max_mode next then 0 else next)

module _ (Q : ModeQueue) where
  pub record Button : Type 0 where
    pub phase : Phase
    pub mode : DisplayMode
    pub queue : Q.Queue

  -- The state before the loop; `level` is the first sample.
  unfoldable pub start : Bool → Q.Queue → Button
  start level q = record { phase = polling level; mode = temperature; queue = q }

  -- The button is still pressed after the delay.
  unfoldable pub advance : Button → Button
  unfolding next_mode
  advance b =
      let mode = next_mode b.mode in
      record b { phase = releasing; mode = mode; queue = (Q.overwrite mode b.queue).1 }

  sample_at : Phase → Bool → Button → Button
  unfolding advance
  sample_at (polling prev) now b =
      if prev
      then (if now then record b { phase = polling now } else record b { phase = debouncing })
      else record b { phase = polling now }
  sample_at debouncing now b = if now then record b { phase = polling false } else advance b
  sample_at releasing now b = if now then record b { phase = polling true } else b

  unfoldable pub sample : Bool → Button → Button
  unfolding sample_at
  sample now b = sample_at b.phase now b

  abbrev pub samples : List Bool → Button → Button
  samples [] b = b
  samples (s ∷ ss) b = samples ss (sample s b)
