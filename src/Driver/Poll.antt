-- ===== src/Driver/Poll.antt =====
-- The waits of the driver: what they leave alone, what their success means, and that the fuel of
-- the model covers every wait the deadline allows.
use pico_wenvironment_logger.Prelude.{
  ℕ, zero, suc, ◌+◌, ◌*◌, ◌≤◌, ◌<◌, Bool, true, false, [], ◌∷◌, ◌≡◌, refl, ◌∙◌, sym, arith, ltb,
  if◌then◌else◌, Bool-cases, inl, inr, lt→ltb,
}
use pico_wenvironment_logger.Driver.Pins.{Board}
use pico_wenvironment_logger.Driver.{
  cs_select, cs_deselect, read_status1, poll, write_enable, wait_while_busy, is_enabled, is_idle,
}
use pico_wenvironment_logger.Driver.Chip.{asked, status, sent, IsW25q32}

-- The clock moves on by at least what is slept, and does not go back while the status is read.
pub record IsClock (b : Board) : Type 0 where
  pub sleeps : (d : ℕ) (s : b.State) → b.now_us s + d ≤ b.now_us (b.sleep_us d s)
  pub reads : (s : b.State) → b.now_us s ≤ b.now_us (asked b (0x05 ∷ []) 1 s)

module _ (b : Board) where
  abbrev status_test : b.State → ℕ
  status_test s = status b s

  read_status1_lem : (s : b.State) → read_status1 b s ≡ (status b s, asked b (0x05 ∷ []) 1 s)
  unfolding read_status1 cs_select cs_deselect
  read_status1_lem s = refl

  -- One round of the loop.
  poll-suc :
      (done : ℕ → Bool) (pause deadline fuel : ℕ) (s : b.State)
      → poll b done pause deadline (suc fuel) s ≡ (
          if ltb (b.now_us s) deadline
          then (if done (status b s)
              then (true, asked b (0x05 ∷ []) 1 s)
              else poll b done pause deadline fuel (b.sleep_us pause (asked b (0x05 ∷ []) 1 s)))
          else (false, s))
  unfolding poll read_status1 cs_select cs_deselect
  poll-suc done pause deadline fuel s = refl

  -- A status that is as wanted at once, before the deadline.
  pub poll_first :
      (done : ℕ → Bool) (pause deadline fuel : ℕ) (s : b.State)
      → b.now_us s < deadline
      → done (status b s) ≡ true
      → poll b done pause deadline (suc fuel) s ≡ (true, asked b (0x05 ∷ []) 1 s)
  poll_first done pause deadline fuel s early e =
      poll-suc done pause deadline fuel s ∙ rw (lt→ltb (b.now_us s) deadline early, e) refl

  -- A state predicate that a status read and a sleep keep holds after the loop; if the loop
  -- reports success, it holds with the status test passed in the state before the last read.
  poll_keeps {κ} :
      (P : b.State → Type κ)
      → ((s : b.State) → P s → P (asked b (0x05 ∷ []) 1 s))
      → ((d : ℕ) (s : b.State) → P s → P (b.sleep_us d s))
      → (done : ℕ → Bool) (pause deadline fuel : ℕ) (s : b.State) → P s
      → P (poll b done pause deadline fuel s).1
  unfolding poll
  poll_keeps P read sleep done pause deadline zero s h = h
  poll_keeps P read sleep done pause deadline (suc fuel) s h =
      rw (poll-suc done pause deadline fuel s) (elim (Bool-cases (ltb (b.now_us s) deadline)) [
        | inl early ↦ elim (Bool-cases (done (status b s))) [
          | inl e ↦ rw (early, e) (read s h)
          | inr e ↦
              rw (early, e)
                (poll_keeps P read sleep done pause deadline fuel _ (sleep pause _ (read s h)))
        ]
        | inr late ↦ rw late h
      ])

  poll_success {κ} :
      (P : b.State → Type κ) (done : ℕ → Bool)
      → ((s : b.State) → done (status b s) ≡ true → P (asked b (0x05 ∷ []) 1 s))
      → (pause deadline fuel : ℕ) (s : b.State) → (poll b done pause deadline fuel s).0 ≡ true
      → P (poll b done pause deadline fuel s).1
  unfolding poll
  poll_success P done found pause deadline zero s = λ e. cc
  poll_success P done found pause deadline (suc fuel) s =
      rw (poll-suc done pause deadline fuel s) (elim (Bool-cases (ltb (b.now_us s) deadline)) [
        | inl early ↦ elim (Bool-cases (done (status b s))) [
          | inl e ↦ rw (early, e) (λ _. found s e)
          | inr e ↦ rw (early, e) (poll_success P done found pause deadline fuel _)
        ]
        | inr late ↦ rw late (λ e. cc)
      ])

  poll_more :
      (c : IsClock b) (done : ℕ → Bool) (pause deadline fuel more : ℕ) (s : b.State)
      → deadline ≤ b.now_us s + fuel * pause
      → poll b done pause deadline (suc (fuel + more)) s ≡ poll b done pause deadline (suc fuel) s
  poll_more c done pause deadline zero more s h =
      rw (poll-suc done pause deadline (zero + more) s, poll-suc done pause deadline zero s)
        (let late : ltb (b.now_us s) deadline ≡ false = ground arith in rw late)
  poll_more c done pause deadline (suc fuel) more s h =
      let e : suc fuel + more ≡ suc (fuel + more) = omega arith in
      rw
        (
          poll-suc done pause deadline (suc fuel + more) s,
          poll-suc done pause deadline (suc fuel) s,
          e,
          poll_more c done pause deadline fuel more (b.sleep_us pause (asked b (0x05 ∷ []) 1 s))
              (omega (arith, c.sleeps pause (asked b (0x05 ∷ []) 1 s), c.reads s)),
        )
        refl

  -- The fuel of `waitWhileBusy` covers its wait: on a clock that moves as slept, more rounds would
  -- change nothing.
  pub wait_while_busy_fuel :
      (c : IsClock b) (timeout more : ℕ) (s : b.State)
      → poll b is_idle 1000 (b.now_us s + timeout * 1000) (suc (timeout + more)) s
        ≡ wait_while_busy b timeout s
  unfolding wait_while_busy
  wait_while_busy_fuel c timeout more s =
      let e : timeout + 1 ≡ suc timeout = omega arith in
      rw e (poll_more c is_idle 1000 (b.now_us s + timeout * 1000) timeout more s (omega arith))

  -- So does the fuel of the wait for the enable latch, whose rounds sleep 10 us.
  write_enable_fuel :
      (c : IsClock b) (timeout more : ℕ) (s : b.State)
      → let s' = sent b (0x06 ∷ []) s in
        poll b is_enabled 10 (b.now_us s' + timeout * 1000) (suc (timeout * 100 + more)) s'
        ≡ write_enable b timeout s
  unfolding write_enable cs_select cs_deselect
  write_enable_fuel c timeout more s =
      let e : timeout * 100 + 1 ≡ suc (timeout * 100) = omega arith in
      rw e (
        poll_more c is_enabled 10 (b.now_us (sent b (0x06 ∷ []) s) + timeout * 1000) (timeout * 100)
          more (sent b (0x06 ∷ []) s) (omega arith))

module _ (b : Board) (chip : IsW25q32 b) where
  open chip use {mem, busy, latch}

  pub write_enable-mem : (t : ℕ) (s : b.State) → mem (write_enable b t s).1 ≡ mem s
  unfolding write_enable cs_select cs_deselect
  write_enable-mem t s =
      poll_keeps b (λ x. mem x ≡ mem s) (λ x h. chip.mem_status x ∙ h)
        (λ d x h. chip.mem_sleep d x ∙ h) is_enabled 10 _ (t * 100 + 1) (sent b (0x06 ∷ []) s)
        (chip.mem_enable s)

  pub write_enable-busy :
      (t : ℕ) (s : b.State) → busy s ≡ false → busy (write_enable b t s).1 ≡ false
  unfolding write_enable cs_select cs_deselect
  write_enable-busy t s h =
      poll_keeps b (λ x. busy x ≡ false) chip.busy_status chip.busy_sleep is_enabled 10 _
        (t * 100 + 1) (sent b (0x06 ∷ []) s) (chip.busy_enable s h)

  pub write_enable-latch :
      (t : ℕ) (s : b.State) → (write_enable b t s).0 ≡ true → latch (write_enable b t s).1 ≡ true
  unfolding write_enable cs_select cs_deselect
  write_enable-latch t s =
      poll_success b (λ x. latch x ≡ true) is_enabled
        (λ x e. chip.latch_status x ∙ sym (chip.latch_bit x) ∙ e) 10 _ (t * 100 + 1)
        (sent b (0x06 ∷ []) s)

  pub wait_while_busy-mem : (t : ℕ) (s : b.State) → mem (wait_while_busy b t s).1 ≡ mem s
  unfolding wait_while_busy
  wait_while_busy-mem t s =
      poll_keeps b (λ x. mem x ≡ mem s) (λ x h. chip.mem_status x ∙ h)
        (λ d x h. chip.mem_sleep d x ∙ h) is_idle 1000 _ (t + 1) s refl

  pub wait_while_busy-idle :
      (t : ℕ) (s : b.State)
      → (wait_while_busy b t s).0 ≡ true
      → busy (wait_while_busy b t s).1 ≡ false
  unfolding wait_while_busy
  wait_while_busy-idle t s =
      poll_success b (λ x. busy x ≡ false) is_idle chip.busy_bit 1000 _ (t + 1) s
