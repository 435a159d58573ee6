-- ===== src/Uart/Fifo/Blocking.antt =====
-- The loop of `writeByteBlocking` ends.
use pico_wenvironment_logger.Prelude.{
  ℕ, zero, suc, ◌+◌, ◌-◌, ◌≤◌, ◌<◌, Bool, true, false, ◌==◌, if◌then◌else◌, List, [], ◌∷◌, ◌++◌,
  length, Option, none, some, append-nil, set, replicate, ◌≡◌, refl, sym, ap, subst, ◌∙◌, arith,
  Bool-cases, inl, inr, if-cases, length-drop,
}
use pico_wenvironment_logger.Uart.{
  Uart, mask, start_tx_dma_locked, start_tx_dma_if_needed_isr, write_byte, dma_irq_handler,
  write_byte_blocking,
}
use pico_wenvironment_logger.Uart.Mask.{size_bounds}
use pico_wenvironment_logger.Uart.Fifo.{tx_used, pending, IsRing}
use pico_wenvironment_logger.Uart.Fifo.Push.{used-lt}
use pico_wenvironment_logger.Uart.Fifo.Ops.{Taken, write_byte_lem}
use pico_wenvironment_logger.Uart.Fifo.Interrupt.{dma_irq_handler_lem}
use pico_wenvironment_logger.Uart.Fifo.Accept.{used-pending, write_byte_accepts}

start-size : (u : Uart) → (start_tx_dma_locked u).tx_size ≡ u.tx_size
unfolding start_tx_dma_locked
start-size u = ground arith

write_byte-size : (b : ℕ) (u : Uart) → (write_byte b u).1.tx_size ≡ u.tx_size
unfolding write_byte
write_byte-size b u =
    if-cases (λ (r : Bool × Uart). r.1.tx_size ≡ u.tx_size)
      (mask u.tx_size (u.tx_head + 1) == u.tx_tail) _ _ (λ _. refl)
      (λ _. start-size (record u {
        tx_buf = set u.tx_buf u.tx_head b;
        tx_head = mask u.tx_size (u.tx_head + 1);
        interrupts = false;
      }))

dma_irq_handler-size : (u : Uart) → (dma_irq_handler u).tx_size ≡ u.tx_size
unfolding dma_irq_handler start_tx_dma_if_needed_isr
dma_irq_handler-size u = ground arith

-- A full ring has room after the interrupt of the transfer that then runs.
room_after_transfer :
    (b : ℕ) (w : Uart)
    → IsRing w
    → tx_used w + 1 ≡ w.tx_size
    → (write_byte b (dma_irq_handler w)).0 ≡ true
room_after_transfer b w p full =
    (write_byte_accepts b v q).1
      (omega (arith, used, active, full, dma_irq_handler-size w, p.loaded.started))
  where
    v : Uart
    v = dma_irq_handler w

    q : IsRing v
    q = (dma_irq_handler_lem w p).0

    used : tx_used v ≡ tx_used w - w.tx_dma_active_count
    used =
        sym (used-pending v)
        ∙ ap length (dma_irq_handler_lem w p).1
        ∙ length-drop w.tx_dma_active_count (pending w)
        ∙ ap (λ k. k - w.tx_dma_active_count) (used-pending w)

    active : 0 < w.tx_dma_active_count
    active = elim (Bool-cases w.tx_dma_running) [
      | inl e ↦ p.loaded.active e
      | inr e ↦ absurd (omega (arith, p.rest e, full, (size_bounds w.tx_size p.loaded.size).0))
    ]

-- A write that is refused leaves the ring full.
refused :
    (b : ℕ) (u : Uart)
    → IsRing u
    → (write_byte b u).0 ≡ false
    → let w = (write_byte b u).1 in IsRing w × (tx_used w + 1 ≡ w.tx_size)
refused b u p e = (t.0, omega (arith, used, size, full, used-lt u p.loaded))
  where
    t : Taken u (b ∷ []) (write_byte b u)
    t = write_byte_lem b u p

    size : (write_byte b u).1.tx_size ≡ u.tx_size
    size = write_byte-size b u

    used : tx_used (write_byte b u).1 ≡ tx_used u
    used =
        sym (used-pending (write_byte b u).1)
        ∙ ap length
            (t.1 ∙ ap (λ k. pending u ++ (if k then b ∷ [] else [])) e ∙ append-nil (pending u))
        ∙ used-pending u

    full : u.tx_size ≤ tx_used u + 1
    full = ground (arith, e, (write_byte_accepts b u p).1)

first_try :
    (sched : List Bool) (b : ℕ) (u : Uart)
    → (write_byte b u).0 ≡ true
    → write_byte_blocking sched b u ≡ some (write_byte b u).1
unfolding write_byte_blocking
first_try [] b u e = ap (λ k. if k then some (write_byte b u).1 else none) e
first_try (irq ∷ rest) b u e =
    ap
      (λ k.
        if k
        then some (write_byte b u).1
        else write_byte_blocking rest b
            (if irq then dma_irq_handler (write_byte b u).1 else (write_byte b u).1))
      e

next_try :
    (irq : Bool) (rest : List Bool) (b : ℕ) (u : Uart)
    → (write_byte b u).0 ≡ false
    → write_byte_blocking (irq ∷ rest) b u
      ≡ write_byte_blocking rest b
          (if irq then dma_irq_handler (write_byte b u).1 else (write_byte b u).1)
unfolding write_byte_blocking
next_try irq rest b u e =
    ap
      (λ k.
        if k
        then some (write_byte b u).1
        else write_byte_blocking rest b
            (if irq then dma_irq_handler (write_byte b u).1 else (write_byte b u).1))
      e

-- A result with the byte behind what waits.
abbrev Returned : ℕ → Option Uart → Type 0
Returned b o = (v : Uart) × (o ≡ some v) × IsRing v × ((q : List ℕ) × (pending v ≡ q ++ (b ∷ [])))

first_try-Returned :
    (sched : List Bool) (b : ℕ) (u : Uart)
    → IsRing u
    → (write_byte b u).0 ≡ true
    → Returned b (write_byte_blocking sched b u)
first_try-Returned sched b u p e =
    let (q, f) = write_byte_lem b u p in
    (
      (write_byte b u).1,
      first_try sched b u e,
      q,
      (pending u, f ∙ ap (λ k. pending u ++ (if k then b ∷ [] else [])) e),
    )

-- The blocking write returns, with its byte behind what waits, as soon as one transfer interrupt
-- has come between two tries, however many tries came before it and whatever comes after.
pub write_byte_blocking_returns :
    (n : ℕ) (rest : List Bool) (b : ℕ) (u : Uart)
    → IsRing u
    → (v : Uart) × (write_byte_blocking (replicate n false ++ (true ∷ rest)) b u ≡ some v)
      × IsRing v
      × ((q : List ℕ) × (pending v ≡ q ++ (b ∷ [])))
write_byte_blocking_returns zero rest b u p = elim (Bool-cases (write_byte b u).0) [
  | inl e ↦ first_try-Returned (true ∷ rest) b u p e
  | inr e ↦
      let (q, full) = refused b u p e in
      subst (Returned b) (sym (next_try true rest b u e)) (
        first_try-Returned rest b (dma_irq_handler (write_byte b u).1)
          (dma_irq_handler_lem (write_byte b u).1 q).0
          (room_after_transfer b (write_byte b u).1 q full))
]
write_byte_blocking_returns (suc n) rest b u p = elim (Bool-cases (write_byte b u).0) [
  | inl e ↦ first_try-Returned (false ∷ (replicate n false ++ (true ∷ rest))) b u p e
  | inr e ↦
      subst (Returned b) (sym (next_try false (replicate n false ++ (true ∷ rest)) b u e))
        (write_byte_blocking_returns n rest b (write_byte b u).1 (refused b u p e).0)
]
