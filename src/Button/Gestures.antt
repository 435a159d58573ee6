-- ===== src/Button/Gestures.antt =====
-- What the user does with the button, and what the task makes of it.
use pico_wenvironment_logger.Prelude.{
  ℕ, zero, suc, ◌+◌, ◌%◌, ◌<◌, ◌==◌, Bool, true, false, List, [], ◌∷◌, ◌++◌, replicate, some, ◌≡◌,
  refl, sym, ap, subst, ◌∙◌, arith, if◌then◌else◌, if-cases, ==_iff,
}
use pico_wenvironment_logger.DisplayMode.{
  DisplayMode, temperature, adc_voltage, log_status, i2c_info, bme_temperature, bme_humidity,
  bme_pressure, wifi_ip, mode_code, mode_of, max_mode, ModeQueue, IsModeQueue,
}
use pico_wenvironment_logger.Button.{Button, Phase, polling, releasing, next_mode, sample, samples}

-- Each ends with the button released: nothing; a press that is still low after the debounce delay,
-- held for some samples more; or a low level that is high again at that time, whatever is held
-- low after it.
pub data Gesture : Type 0 where
  idle : Gesture
  press : ℕ → Gesture
  bounce : ℕ → Gesture

abbrev pub levels : Gesture → List Bool
levels idle = true ∷ []
levels (press held) = false ∷ (false ∷ (replicate held false ++ (true ∷ [])))
levels (bounce held) = false ∷ (true ∷ (replicate held false ++ (true ∷ [])))

abbrev pub all_levels : List Gesture → List Bool
all_levels [] = []
all_levels (g ∷ gs) = levels g ++ all_levels gs

abbrev pub presses : List Gesture → ℕ
presses [] = 0
presses (idle ∷ gs) = presses gs
presses (press held ∷ gs) = suc (presses gs)
presses (bounce held ∷ gs) = presses gs

next_mode_code : (m : DisplayMode) → mode_code (next_mode m) ≡ (mode_code m + 1) % max_mode
unfolding next_mode mode_code mode_of
next_mode_code temperature = refl
next_mode_code adc_voltage = refl
next_mode_code log_status = refl
next_mode_code i2c_info = refl
next_mode_code bme_temperature = refl
next_mode_code bme_humidity = refl
next_mode_code bme_pressure = refl
next_mode_code wifi_ip = refl

mode_code-lt : (m : DisplayMode) → mode_code m < max_mode
unfolding mode_code
mode_code-lt m = ground arith

suc_no_zero : (n : ℕ) → (suc n == 0) ≡ false
suc_no_zero n = ground arith

module _ (Q : ModeQueue) (queue : IsModeQueue Q) where
  samples-append :
      (xs ys : List Bool) (b : Button Q) → samples Q (xs ++ ys) b ≡ samples Q ys (samples Q xs b)
  samples-append [] ys b = refl
  samples-append (x ∷ xs) ys b = samples-append xs ys (sample Q x b)

  abbrev pub state : Phase → DisplayMode → Q.Queue → Button Q
  state p m q = record { phase = p; mode = m; queue = q }

  abbrev pub pressed : DisplayMode → Q.Queue → Button Q
  pressed m q = state (polling true) (next_mode m) (Q.overwrite (next_mode m) q).1

  held_down :
      (n : ℕ) (m : DisplayMode) (q : Q.Queue)
      → samples Q (replicate n false ++ (true ∷ [])) (state releasing m q)
        ≡ state (polling true) m q
  unfolding sample
  held_down zero m q = refl
  held_down (suc n) m q = held_down n m q

  held_after_bounce :
      (n : ℕ) (m : DisplayMode) (q : Q.Queue)
      → samples Q (replicate n false ++ (true ∷ [])) (state (polling false) m q)
        ≡ state (polling true) m q
  unfolding sample
  held_after_bounce zero m q = refl
  held_after_bounce (suc n) m q = held_after_bounce n m q

  gesture_lem :
      (g : Gesture) (m : DisplayMode) (q : Q.Queue)
      → samples Q (levels g) (state (polling true) m q) ≡ (elim g [
        | idle ↦ state (polling true) m q
        | press _ ↦ pressed m q
        | bounce _ ↦ state (polling true) m q
      ])
  unfolding sample
  gesture_lem idle m q = refl
  gesture_lem (press held) m q = held_down held (next_mode m) (Q.overwrite (next_mode m) q).1
  gesture_lem (bounce held) m q = held_after_bounce held m q

  -- What follows from gestures that contain `n` presses.
  pub record Pressed (n : ℕ) (m : DisplayMode) (q : Q.Queue) (b : Button Q) : Type 0 where
    pub phase : b.phase ≡ polling true
    pub mode : mode_code b.mode ≡ (mode_code m + n) % max_mode
    pub kept : n ≡ 0 → b.mode ≡ m
    pub content : queue.content b.queue ≡ (if n == 0 then queue.content q else some b.mode)

  one_more :
      (n : ℕ) (m : DisplayMode) (q : Q.Queue) (b : Button Q)
      → Pressed n (next_mode m) (Q.overwrite (next_mode m) q).1 b
      → Pressed (suc n) m q b
  one_more zero m q b p = record {
    phase = p.phase;
    mode = p.mode ∙ omega (arith, next_mode_code m);
    kept = λ e. absurd (omega arith);
    content =
        p.content ∙ queue.overwrite_lem (next_mode m) q ∙ ap (λ k. some k) (sym (p.kept refl));
  }
  one_more (suc n) m q b p = record {
    phase = p.phase;
    mode = p.mode ∙ omega (arith, next_mode_code m);
    kept = λ e. absurd (omega arith);
    content =
        p.content
        ∙ ap (λ k. if k then queue.content (Q.overwrite (next_mode m) q).1 else some b.mode)
            (suc_no_zero n)
        ∙ sym (ap (λ k. if k then queue.content q else some b.mode) (suc_no_zero (suc n)));
  }

  all_levels-Pressed :
      (gs : List Gesture) (m : DisplayMode) (q : Q.Queue)
      → Pressed (presses gs) m q (samples Q (all_levels gs) (state (polling true) m q))
  all_levels-Pressed [] m q = record {
    phase = refl;
    mode = omega (arith, mode_code-lt m);
    kept = λ _. refl;
    content = refl;
  }
  all_levels-Pressed (idle ∷ gs) m q =
      subst (Pressed (presses gs) m q) (sym (samples-append (levels idle) (all_levels gs) _)) (
        subst (λ b. Pressed (presses gs) m q (samples Q (all_levels gs) b))
          (sym (gesture_lem idle m q)) (all_levels-Pressed gs m q))
  all_levels-Pressed (bounce held ∷ gs) m q =
      subst (Pressed (presses gs) m q)
        (sym (samples-append (levels (bounce held)) (all_levels gs) _))
        (subst (λ b. Pressed (presses gs) m q (samples Q (all_levels gs) b))
          (sym (gesture_lem (bounce held) m q)) (all_levels-Pressed gs m q))
  all_levels-Pressed (press held ∷ gs) m q =
      subst (Pressed (suc (presses gs)) m q)
        (sym (samples-append (levels (press held)) (all_levels gs) _))
        (subst (λ b. Pressed (suc (presses gs)) m q (samples Q (all_levels gs) b))
          (sym (gesture_lem (press held) m q))
          (one_more (presses gs) m q _
            (all_levels-Pressed gs (next_mode m) (Q.overwrite (next_mode m) q).1)))

  -- From the released button, whatever gestures follow: the mode has moved on by one for each press
  -- that is still low after the debounce delay, around the eight modes, however long it is held; a
  -- low level that is high again after the delay counts for nothing, also if it is held low later.
  -- The task polls again with the button released, and if there was a press the queue holds the
  -- mode; without one the mode and the queue's content are as before.
  pub gestures_lem :
      (gs : List Gesture) (m : DisplayMode) (q : Q.Queue)
      → let b = samples Q (all_levels gs) (state (polling true) m q) in
        (b.phase ≡ polling true)
        × (mode_code b.mode ≡ (mode_code m + presses gs) % max_mode)
        × (queue.content b.queue ≡ (if presses gs == 0 then queue.content q else some b.mode))
        × ((if presses gs == 0 then b.mode else m) ≡ m)
  gestures_lem gs m q =
      let p = all_levels-Pressed gs m q in
      (
        p.phase,
        p.mode,
        p.content,
        if-cases (λ k. k ≡ m) (presses gs == 0) _ _ (λ e. p.kept ((==_iff (presses gs) 0).0 e))
            (λ e. refl),
      )
