-- ===== src/Uart/Fifo/Line.antt =====
-- The line as its users and the hardware see it: writes, transfer interrupts, and the bytes that
-- have left.
use pico_wenvironment_logger.Prelude.{
  ℕ, Bool, if◌then◌else◌, List, [], ◌∷◌, ◌++◌, take-append-drop, append_assoc, ◌≡◌, refl, sym, ap,
  if-cases, ap₂, ◌∙◌,
}
use pico_wenvironment_logger.Uart.{Uart, write_byte, write_frame, dma_irq_handler}
use pico_wenvironment_logger.Uart.Fifo.{pending, range, IsRing}
use pico_wenvironment_logger.Uart.Fifo.Flight.{
  range_lem, Undisturbed, write_byte-Undisturbed, write_frame-Undisturbed, range-kept,
}
use pico_wenvironment_logger.Uart.Fifo.Ops.{Taken, write_byte_lem, write_frame_lem}
use pico_wenvironment_logger.Uart.Fifo.Interrupt.{dma_irq_handler_lem}

-- The ring with what was accepted so far, what has left over the wire, and the bytes of the range as
-- they stood when the transfer started.
pub record Line : Type 0 where
  pub uart : Uart
  pub accepted : List ℕ
  pub wire : List ℕ
  pub flight : List ℕ

pub data Event : Type 0 where
  put : ℕ → Event  -- write_byte
  send : List ℕ → Event  -- write_frame
  transferred : Event  -- the interrupt of the transmit channel

-- A write starts a transfer only if none runs.
abbrev after_write : List ℕ → Bool × Uart → Line → Line
after_write bs r l = record l {
  uart = r.1;
  accepted = l.accepted ++ (if r.0 then bs else []);
  flight = if l.uart.tx_dma_running then l.flight else range r.1;
}

-- A transfer sends the bytes of its range in the buffer; then comes the interrupt, which may start
-- the next one.
abbrev pub event : Event → Line → Line
event (put b) l = after_write (b ∷ []) (write_byte b l.uart) l
event (send bs) l = after_write bs (write_frame bs l.uart) l
event transferred l = record l {
  uart = dma_irq_handler l.uart;
  wire = l.wire ++ range l.uart;
  flight = range (dma_irq_handler l.uart);
}

abbrev pub events : List Event → Line → Line
events [] l = l
events (e ∷ es) l = events es (event e l)

pub record IsLine (l : Line) : Type 0 where
  pub ring : IsRing l.uart
  pub queue : l.accepted ≡ l.wire ++ pending l.uart
  pub steady : l.flight ≡ range l.uart

took-IsLine :
    (l : Line) (bs : List ℕ) (r : Bool × Uart)
    → IsLine l
    → Taken l.uart bs r
    → Undisturbed l.uart r.1
    → IsLine (after_write bs r l)
took-IsLine l bs r p t k = record {
  ring = t.0;
  queue =
      ap (λ x. x ++ (if r.0 then bs else [])) p.queue
      ∙ append_assoc l.wire (pending l.uart) (if r.0 then bs else [])
      ∙ ap (λ x. l.wire ++ x) (sym t.1);
  steady =
      if-cases (λ f. f ≡ range r.1) l.uart.tx_dma_running l.flight (range r.1)
        (λ running. p.steady ∙ sym (range-kept l.uart bs r p.ring t k running)) (λ _. refl);
}

event-IsLine : (e : Event) (l : Line) → IsLine l → IsLine (event e l)
event-IsLine (put b) l p =
    took-IsLine l (b ∷ []) (write_byte b l.uart) p (write_byte_lem b l.uart p.ring)
      (write_byte-Undisturbed b l.uart)
event-IsLine (send bs) l p =
    took-IsLine l bs (write_frame bs l.uart) p (write_frame_lem bs l.uart p.ring)
      (write_frame-Undisturbed bs l.uart)
event-IsLine transferred l p =
    let k = l.uart.tx_dma_active_count in
    let (q, f) = dma_irq_handler_lem l.uart p.ring in
    record {
      ring = q;
      queue =
          p.queue
          ∙ ap (λ x. l.wire ++ x)
              (sym (take-append-drop k (pending l.uart))
                ∙ ap₂ ◌++◌ (range_lem l.uart p.ring.loaded) (sym f))
          ∙ sym (append_assoc l.wire (range l.uart) (pending (dma_irq_handler l.uart)));
      steady = refl;
    }

-- After any sequence of byte writes, frame writes and transfer interrupts, what was accepted is,
-- in order, what has left over the wire followed by what waits in the ring, where each transfer
-- sends the bytes that stand in the buffer from the tail on, as many as it was started with; its
-- range ends in the buffer, and no write changes the bytes of it until its interrupt; the ring's positions
-- stay in the buffer; and bytes only wait while a transfer runs.
pub events-IsLine : (es : List Event) (l : Line) → IsLine l → IsLine (events es l)
events-IsLine [] l p = p
events-IsLine (e ∷ es) l p = events-IsLine es (event e l) (event-IsLine e l p)
