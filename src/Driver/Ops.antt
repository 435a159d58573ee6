-- ===== src/Driver/Ops.antt =====
-- `read`, `pageProgram` and `sectorErase` on a W25Q32: what a result true means for the contents,
-- and what no call ever touches.
use pico_wenvironment_logger.Prelude.{
  ℕ, Bool, true, false, List, length, none, some, ◌≡◌, refl, ap, ◌∙◌, arith, inl, inr,
  if◌then◌else◌, Bool-cases,
}
use pico_wenvironment_logger.Memory.{Memory, slice, program, erase, within}
use pico_wenvironment_logger.Driver.Pins.{Board}
use pico_wenvironment_logger.Driver.{
  command, cs_select, cs_deselect, read, page_program, sector_erase, write_enable, wait_while_busy,
  is_address_valid, is_page_program_valid, sector_base, sector_size, write_enable_ms, wait_busy_ms,
}
use pico_wenvironment_logger.Driver.Chip.{sent, sent2, IsW25q32}
use pico_wenvironment_logger.Driver.Poll.{
  write_enable-mem, write_enable-busy, write_enable-latch, wait_while_busy-mem,
  wait_while_busy-idle,
}

module _ (b : Board) (chip : IsW25q32 b) where
  open chip use {mem, busy, latch}

  -- `read` gives the bytes of a valid range, refuses any other, and leaves the contents alone.
  pub read_lem :
      (addr n : ℕ) (s : b.State)
      → busy s ≡ false
      → ((read b addr n s).0
          ≡ (if is_address_valid addr n then some (slice (mem s) addr n) else none))
        × (mem (read b addr n s).1 ≡ mem s)
        × (busy (read b addr n s).1 ≡ false)
  unfolding read cs_select cs_deselect
  read_lem addr n s idle = elim (Bool-cases (is_address_valid addr n)) [
    | inl e ↦ rw e (
      ap some (chip.read_data s addr n idle e),
      chip.mem_read s addr n,
      chip.busy_read s addr n idle,
    )
    | inr e ↦ rw e (refl, refl, idle)
  ]

  -- What a program or erase request does, in terms of the frame that carries it out.
  abbrev request : (b.State → b.State) → b.State → Bool × b.State
  request frame s =
      let (enabled, s') = write_enable b write_enable_ms s in
      if enabled then wait_while_busy b wait_busy_ms (frame s') else (false, s')

  request_done :
      (frame : b.State → b.State) (after : Memory → Memory) (s : b.State)
      → ((x : b.State) → busy x ≡ false → latch x ≡ true → mem (frame x) ≡ after (mem x))
      → busy s ≡ false
      → (request frame s).0 ≡ true
      → (mem (request frame s).1 ≡ after (mem s)) × (busy (request frame s).1 ≡ false)
  request_done frame after s law idle = elim (Bool-cases (write_enable b write_enable_ms s).0) [
    | inl e ↦ rw e λ done. (
      wait_while_busy-mem b chip wait_busy_ms (frame (write_enable b write_enable_ms s).1)
          ∙ law (write_enable b write_enable_ms s).1
              (write_enable-busy b chip write_enable_ms s idle)
              (write_enable-latch b chip write_enable_ms s e)
          ∙ ap after (write_enable-mem b chip write_enable_ms s),
      wait_while_busy-idle b chip wait_busy_ms _ done,
    )
    | inr e ↦ rw e (λ f. cc)
  ]

  request_outside :
      (frame : b.State → b.State) (after : Memory → Memory) (a : ℕ) (s : b.State)
      → ((m : Memory) → after m a ≡ m a)
      → ((x : b.State) → busy x ≡ false → latch x ≡ true → mem (frame x) ≡ after (mem x))
      → ((x : b.State) → busy x ≡ true → mem (frame x) ≡ mem x)
      → mem (request frame s).1 a ≡ mem s a
  request_outside frame after a s outside on off =
      elim (Bool-cases (write_enable b write_enable_ms s).0) [
        | inl e ↦ rw e (
            ap (λ (m : Memory). m a) (wait_while_busy-mem b chip wait_busy_ms (frame s'))
            ∙ framed (write_enable-latch b chip write_enable_ms s e)
            ∙ ap (λ (m : Memory). m a) (write_enable-mem b chip write_enable_ms s))
        | inr e ↦ rw e (ap (λ (m : Memory). m a) (write_enable-mem b chip write_enable_ms s))
      ]
    where
      s' : b.State
      s' = (write_enable b write_enable_ms s).1

      framed : latch s' ≡ true → mem (frame s') a ≡ mem s' a
      framed set = elim (Bool-cases (busy s')) [
        | inl e ↦ ap (λ (m : Memory). m a) (off s' e)
        | inr e ↦ ap (λ (m : Memory). m a) (on s' e set) ∙ outside (mem s')
      ]

  request_succeeds :
      (frame : b.State → b.State) (s s' : b.State)
      → write_enable b write_enable_ms s ≡ (true, s')
      → (wait_while_busy b wait_busy_ms (frame s')).0 ≡ true
      → (request frame s).0 ≡ true
  request_succeeds frame s s' e w = rw e w

  page_program_frame : ℕ → List ℕ → b.State → b.State
  page_program_frame addr bytes = sent2 b (command 0x02 addr) bytes

  page_program_request :
      (addr : ℕ) (bytes : List ℕ) (s : b.State)
      → page_program b addr bytes s ≡ (
          if is_page_program_valid addr (length bytes)
          then request (page_program_frame addr bytes) s
          else (false, s))
  unfolding page_program page_program_frame cs_select cs_deselect
  page_program_request addr bytes s = refl

  sector_erase_request :
      (addr : ℕ) (s : b.State)
      → sector_erase b addr s ≡ (
          if is_address_valid (sector_base addr) 1
          then request (sent b (command 0x20 (sector_base addr))) s
          else (false, s))
  unfolding sector_erase cs_select cs_deselect
  sector_erase_request addr s = refl

  -- A program request that returns true was one the driver accepts, has cleared exactly the bits
  -- of its range that are 0 in its bytes, and leaves the chip idle.
  pub page_program_lem :
      (addr : ℕ) (bytes : List ℕ) (s : b.State)
      → busy s ≡ false
      → (page_program b addr bytes s).0 ≡ true
      → (is_page_program_valid addr (length bytes) ≡ true)
        × (mem (page_program b addr bytes s).1 ≡ program (mem s) addr bytes)
        × (busy (page_program b addr bytes s).1 ≡ false)
  page_program_lem addr bytes s idle =
      rw (page_program_request addr bytes s)
        (elim (Bool-cases (is_page_program_valid addr (length bytes))) [
          | inl e ↦ rw e λ done.
              let (p, q) =
                request_done (page_program_frame addr bytes) (λ m. program m addr bytes) s
                  (unfold page_program_frame in λ x i l. chip.page_program_on x addr bytes e i l)
                  idle done in
              (refl, p, q)
          | inr e ↦ rw e (λ f. cc)
        ])

  -- Whatever a program request returns, no byte outside its range has changed.
  pub page_program_outside :
      (addr : ℕ) (bytes : List ℕ) (a : ℕ) (s : b.State)
      → within addr (length bytes) a ≡ false
      → mem (page_program b addr bytes s).1 a ≡ mem s a
  unfolding program page_program_frame
  page_program_outside addr bytes a s out =
      rw (page_program_request addr bytes s)
        (elim (Bool-cases (is_page_program_valid addr (length bytes))) [
          | inl e ↦ rw e (
              request_outside (page_program_frame addr bytes) (λ m. program m addr bytes) a s
                (λ m. rw out) (λ x i l. chip.page_program_on x addr bytes e i l)
                (λ x i. chip.page_program_off x addr bytes i))
          | inr e ↦ rw e refl
        ])

  -- An erase request that returns true has set the whole sector of its address to 0xFF, has
  -- changed nothing else, and leaves the chip idle.
  pub sector_erase_lem :
      (addr : ℕ) (s : b.State)
      → busy s ≡ false
      → (sector_erase b addr s).0 ≡ true
      → (mem (sector_erase b addr s).1 ≡ erase (mem s) (sector_base addr) sector_size)
        × (busy (sector_erase b addr s).1 ≡ false)
  sector_erase_lem addr s idle =
      rw (sector_erase_request addr s) (elim (Bool-cases (is_address_valid (sector_base addr) 1)) [
        | inl e ↦ rw e (
            request_done (sent b (command 0x20 (sector_base addr)))
              (λ m. erase m (sector_base addr) sector_size) s
              (λ x i l.
                chip.sector_erase_on x (sector_base addr) e i l
                ∙ ap (λ k. erase (mem x) k sector_size) (omega arith))
              idle)
        | inr e ↦ rw e (λ f. cc)
      ])

  -- Whatever an erase request returns, no byte outside the sector has changed.
  pub sector_erase_outside :
      (addr a : ℕ) (s : b.State)
      → within (sector_base addr) sector_size a ≡ false
      → mem (sector_erase b addr s).1 a ≡ mem s a
  unfolding erase
  sector_erase_outside addr a s out =
      rw (sector_erase_request addr s) (elim (Bool-cases (is_address_valid (sector_base addr) 1)) [
        | inl e ↦ rw e (
            request_outside (sent b (command 0x20 (sector_base addr)))
              (λ m. erase m (sector_base addr) sector_size) a s (λ m. rw out)
              (λ x i l.
                chip.sector_erase_on x (sector_base addr) e i l
                ∙ ap (λ k. erase (mem x) k sector_size) base)
              (λ x i. chip.sector_erase_off x (sector_base addr) i))
        | inr e ↦ rw e refl
      ])
    where
      base : sector_base (sector_base addr) ≡ sector_base addr
      base = omega arith

  -- A request whose waits both succeed returns true.
  pub page_program_succeeds :
      (addr : ℕ) (bytes : List ℕ) (s s' : b.State)
      → is_page_program_valid addr (length bytes) ≡ true
      → write_enable b write_enable_ms s ≡ (true, s')
      → ((t : b.State) → (wait_while_busy b wait_busy_ms t).0 ≡ true)
      → (page_program b addr bytes s).0 ≡ true
  page_program_succeeds addr bytes s s' v e w =
      rw (page_program_request addr bytes s, v)
        (request_succeeds (page_program_frame addr bytes) s s' e
          (w (page_program_frame addr bytes s')))

  pub sector_erase_succeeds :
      (addr : ℕ) (s s' : b.State)
      → is_address_valid (sector_base addr) 1 ≡ true
      → write_enable b write_enable_ms s ≡ (true, s')
      → ((t : b.State) → (wait_while_busy b wait_busy_ms t).0 ≡ true)
      → (sector_erase b addr s).0 ≡ true
  sector_erase_succeeds addr s s' v e w =
      rw (sector_erase_request addr s, v)
        (request_succeeds (sent b (command 0x20 (sector_base addr))) s s' e
          (w (sent b (command 0x20 (sector_base addr)) s')))
