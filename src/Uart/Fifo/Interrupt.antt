-- ===== src/Uart/Fifo/Interrupt.antt =====
-- The interrupt at the end of a transfer as an operation on the queue of bytes that wait.
use pico_wenvironment_logger.Prelude.{
  ◌+◌, ◌-◌, ◌<◌, false, ◌==◌, drop, ◌≡◌, ==_iff, refl, sym, ap, ap₂, subst, ◌∙◌, arith, if-cases,
}
use pico_wenvironment_logger.Uart.{Uart, mask, start_tx_dma_if_needed_isr, dma_irq_handler}
use pico_wenvironment_logger.Uart.Ring.{ring, place, ring_drop}
use pico_wenvironment_logger.Uart.Fifo.{tx_used, pending, IsLoaded, IsRing}
use pico_wenvironment_logger.Uart.Fifo.Push.{mask-place, used-lt}
use pico_wenvironment_logger.Uart.Fifo.Start.{start_isr_lem}

-- The tail moves past the bytes of the transfer.
abbrev passed : Uart → Uart
passed u = record u {
  tx_tail = mask u.tx_size (u.tx_tail + u.tx_dma_active_count);
  tx_dma_active_count = 0;
  tx_dma_running = false;
}

tail_place :
    (u : Uart)
    → IsLoaded u
    → mask u.tx_size (u.tx_tail + u.tx_dma_active_count)
      ≡ place u.tx_size u.tx_tail u.tx_dma_active_count
tail_place u p =
    mask-place u.tx_size u.tx_tail u.tx_dma_active_count p.size p.tail
      (omega (arith, p.started, used-lt u p))

passed_tail :
    (u : Uart) → IsLoaded u → mask u.tx_size (u.tx_tail + u.tx_dma_active_count) < u.tx_size
passed_tail u p =
    subst (λ x. x < u.tx_size) (sym (tail_place u p))
      (ground (arith, p.tail, p.started, used-lt u p))

used-passed : (u : Uart) → IsLoaded u → tx_used (passed u) ≡ tx_used u - u.tx_dma_active_count
used-passed u p = rw (tail_place u p) (ground (arith, p.head, p.tail, p.started))

passed_lem :
    (u : Uart)
    → IsLoaded u
    → IsLoaded (passed u) × (pending (passed u) ≡ drop u.tx_dma_active_count (pending u))
passed_lem u p = (
  record {
    size = p.size;
    buf = p.buf;
    head = p.head;
    tail = passed_tail u p;
    chunk = p.chunk;
    active = λ e. absurd (ground arith);
    started = omega arith;
    linear = omega (arith, passed_tail u p);
    stopped = λ _. refl;
  },
  ap₂ (ring u.tx_buf u.tx_size) (tail_place u p) (used-passed u p)
      ∙ sym (
          ring_drop u.tx_size u.tx_buf u.tx_tail u.tx_dma_active_count (tx_used u) p.tail p.started
            (used-lt u p)),
)

idle_lem :
    (u : Uart)
    → IsLoaded u
    → u.tx_dma_active_count ≡ 0
    → IsLoaded (record u { tx_dma_running = false })
idle_lem u p e = record {
  size = p.size;
  buf = p.buf;
  head = p.head;
  tail = p.tail;
  chunk = p.chunk;
  active = λ f. absurd (ground arith);
  started = p.started;
  linear = p.linear;
  stopped = λ _. e;
}

-- The interrupt at the end of a transfer takes the bytes of the transfer off the front, and the
-- next transfer starts.
pub dma_irq_handler_lem :
    (u : Uart)
    → IsRing u
    → IsRing (dma_irq_handler u)
      × (pending (dma_irq_handler u) ≡ drop u.tx_dma_active_count (pending u))
unfolding dma_irq_handler
dma_irq_handler_lem u p =
    if-cases
      (λ v.
        let w = start_tx_dma_if_needed_isr (record v { tx_dma_running = false }) in
        IsRing w × (pending w ≡ drop u.tx_dma_active_count (pending u)))
      (u.tx_dma_active_count == 0) _ _
      (λ e.
        let none : u.tx_dma_active_count ≡ 0 = (==_iff u.tx_dma_active_count 0).0 e in
        let (q, f) =
          start_isr_lem (record u { tx_dma_running = false }) (idle_lem u p.loaded none) in
        (q, f ∙ ap (λ k. drop k (pending u)) {x = 0} (sym none)))
      (λ _.
        let (q, f) = passed_lem u p.loaded in let (r, g) = start_isr_lem (passed u) q in (r, g ∙ f))
