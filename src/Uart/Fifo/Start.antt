-- ===== src/Uart/Fifo/Start.antt =====
-- The start of a transfer, `startTxDmaLocked` and `startTxDmaIfNeededIsr`, moves no byte.
use pico_wenvironment_logger.Prelude.{
  ℕ, ◌+◌, ◌-◌, ◌≤◌, ◌<◌, Bool, true, false, leb, ◌==◌, if◌then◌else◌, ◌≡◌, ◌≢◌, ==_iff, refl, arith,
  if-cases,
}
use pico_wenvironment_logger.Uart.{Uart, tx_count, start_tx_dma_locked, start_tx_dma_if_needed_isr}
use pico_wenvironment_logger.Uart.Fifo.{tx_used, pending, IsLoaded, IsRing}

-- The transfer starts with at least one byte, no more than wait, and none behind the buffer's end.
tx_count_lem :
    (u : Uart)
    → IsLoaded u
    → u.tx_tail ≢ u.tx_head
    → (0 < tx_count u) × (tx_count u ≤ tx_used u) × (u.tx_tail + tx_count u ≤ u.tx_size)
unfolding tx_count
tx_count_lem u p ne = (
  ground (arith, p.head, p.tail, p.chunk, ne),
  ground (arith, p.head, p.tail, p.chunk, ne),
  ground (arith, p.head, p.tail, p.chunk, ne),
)

-- What starting the transfer leaves behind, when one runs, when nothing waits, and otherwise.
abbrev pub Started : Uart → Uart → Type 0
Started u v = IsRing v × (pending v ≡ pending u)

Started-busy : (u : Uart) → IsLoaded u → u.tx_dma_running ≡ true → Started u u
Started-busy u p e = (record { loaded = p; rest = λ f. ground arith }, refl)

Started-empty : (u : Uart) → IsLoaded u → u.tx_tail ≡ u.tx_head → Started u u
Started-empty u p e = (record { loaded = p; rest = λ _. ground arith }, refl)

Started-new :
    (u : Uart)
    → IsLoaded u
    → u.tx_tail ≢ u.tx_head
    → Started u (record u { tx_dma_running = true; tx_dma_active_count = tx_count u })
Started-new u p ne = (
  record {
    loaded = record {
      size = p.size;
      buf = p.buf;
      head = p.head;
      tail = p.tail;
      chunk = p.chunk;
      active = λ _. (tx_count_lem u p ne).0;
      started = (tx_count_lem u p ne).1;
      linear = (tx_count_lem u p ne).2;
      stopped = λ f. ground arith;
    };
    rest = λ f. ground arith;
  },
  refl,
)

start_lem : (u : Uart) → IsLoaded u → Started u (start_tx_dma_locked u)
unfolding start_tx_dma_locked
start_lem u p = if-cases (Started u) u.tx_dma_running _ _ (Started-busy u p) (λ _.
    if-cases (Started u) (u.tx_tail == u.tx_head) _ _
      (λ e. Started-empty u p ((==_iff u.tx_tail u.tx_head).0 e))
      (λ e. Started-new u p (ground arith)))

pub start_isr_lem : (u : Uart) → IsLoaded u → Started u (start_tx_dma_if_needed_isr u)
unfolding start_tx_dma_if_needed_isr
start_isr_lem u p = if-cases (Started u) u.tx_dma_running _ _ (Started-busy u p) (λ _.
    if-cases (Started u) (u.tx_tail == u.tx_head) _ _
      (λ e. Started-empty u p ((==_iff u.tx_tail u.tx_head).0 e))
      (λ e.
        if-cases (Started u)
          ((if leb u.tx_tail u.tx_head then u.tx_head - u.tx_tail else u.tx_size - u.tx_tail) == 0)
          _ _ (λ f. absurd (ground (arith, p.head, p.tail))) (λ _. Started-new u p (ground arith))))

-- The counters and the interrupt flag are no part of the ring.
abbrev pub counted : ℕ → ℕ → ℕ → Bool → Uart → Uart
counted x y z b u = record u {
  tx_byte_full_count = x;
  tx_drop_frame_count = y;
  tx_drop_bytes_count = z;
  interrupts = b;
}

counted-IsLoaded : (x y z : ℕ) (b : Bool) (u : Uart) → IsLoaded u → IsLoaded (counted x y z b u)
counted-IsLoaded x y z b u p = record {
  size = p.size;
  buf = p.buf;
  head = p.head;
  tail = p.tail;
  chunk = p.chunk;
  active = p.active;
  started = p.started;
  linear = p.linear;
  stopped = p.stopped;
}

pub counted-IsRing : (x y z : ℕ) (b : Bool) (u : Uart) → IsRing u → IsRing (counted x y z b u)
counted-IsRing x y z b u p = record { loaded = counted-IsLoaded x y z b u p.loaded; rest = p.rest }

abbrev pub with_interrupts : Bool → Uart → Uart
with_interrupts b u = counted u.tx_byte_full_count u.tx_drop_frame_count u.tx_drop_bytes_count b u

-- The end of a write: the transfer starts, and the interrupts are as they were.
pub written_lem :
    (b : Bool) (v : Uart) → IsLoaded v → Started v (with_interrupts b (start_tx_dma_locked v))
written_lem b v p =
    let w : Uart = start_tx_dma_locked v in
    let (q, e) = start_lem v p in
    (counted-IsRing w.tx_byte_full_count w.tx_drop_frame_count w.tx_drop_bytes_count b w q, e)

pub silent_lem : (u : Uart) → IsLoaded u → IsLoaded (with_interrupts false u)
silent_lem u p =
    counted-IsLoaded u.tx_byte_full_count u.tx_drop_frame_count u.tx_drop_bytes_count false u p
