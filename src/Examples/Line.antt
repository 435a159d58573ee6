-- ===== src/Examples/Line.antt =====
-- The transmit ring of src/UartDma.cpp with eight places.
use pico_wenvironment_logger.Prelude.{
  ℕ, ◌+◌, ◌^◌, length-replicate, ◌≤◌, ◌<◌, true, false, List, [], ◌∷◌, ◌++◌, length, replicate,
  some, ◌≡◌, ◌↔◌, refl, arith, if◌then◌else◌,
}
use native.Mathlib.Nat.{one-le-pow}
use pico_wenvironment_logger.Uart.{Uart, create, init, write_frame, write_byte_blocking}
use pico_wenvironment_logger.Uart.Ring.{ring}
use pico_wenvironment_logger.Uart.Fifo.{IsRing, pending}
use pico_wenvironment_logger.Uart.Fifo.Line.{
  Line, put, send, transferred, events, IsLine, events-IsLine,
}
use pico_wenvironment_logger.Uart.Fifo.Accept.{write_frame_accepts}
use pico_wenvironment_logger.Uart.Fifo.Blocking.{write_byte_blocking_returns}

abbrev pub ring_of : ℕ → Uart
ring_of size = record {
  tx_size = size;
  tx_buf = replicate size 0;
  tx_head = 0;
  tx_tail = 0;
  tx_dma_running = false;
  tx_dma_active_count = 0;
  tx_dma_chunk_max = 1024;
  tx_byte_full_count = 0;
  tx_drop_frame_count = 0;
  tx_drop_bytes_count = 0;
  rx_size = 4;
  rx_buf = replicate 4 0;
  rx_read_pos = 0;
  drop_first_rx_byte = true;
  inited = true;
  interrupts = true;
}

-- The object that the constructor and `init` make.
made : (init (create (replicate 8 0) (replicate 4 0) 8 4)).1 ≡ ring_of 8
unfolding init create
made = refl

pub ring_IsRing : (k : ℕ) → 1 ≤ k → k ≤ 16 → IsRing (ring_of (2 ^ k))
ring_IsRing k from to = record {
  loaded = record {
    size = record { k = k; power = refl; from = from; to = to };
    buf = length-replicate (2 ^ k) 0;
    head = one-le-pow k 2 (omega arith);
    tail = one-le-pow k 2 (omega arith);
    chunk = omega arith;
    active = λ e. absurd (ground arith);
    started = omega arith;
    linear = omega arith;
    stopped = λ _. refl;
  };
  rest = λ _. refl;
}

eight : IsRing (ring_of 8)
eight = ring_IsRing 3 (omega arith) (omega arith)

abbrev line : Line
line = record { uart = ring_of 8; accepted = []; wire = []; flight = [] }

events-IsLine_example :
    IsLine (events (put 1 ∷ send (2 ∷ 3 ∷ []) ∷ transferred ∷ put 4 ∷ transferred ∷ []) line)
unfolding ring
events-IsLine_example =
    events-IsLine (put 1 ∷ send (2 ∷ 3 ∷ []) ∷ transferred ∷ put 4 ∷ transferred ∷ []) line
      record { ring = eight; queue = refl; steady = refl }

write_frame_accepts_example :
    (((write_frame (1 ∷ 2 ∷ []) (ring_of 8)).0 ≡ true)
      ↔ ((0 < 2) × (length (pending (ring_of 8)) + 2 < 8)))
    × (pending (write_frame (1 ∷ 2 ∷ []) (ring_of 8)).1
        ≡ pending (ring_of 8)
          ++ (if (write_frame (1 ∷ 2 ∷ []) (ring_of 8)).0 then 1 ∷ 2 ∷ [] else []))
write_frame_accepts_example = write_frame_accepts (1 ∷ 2 ∷ []) (ring_of 8) eight

write_byte_blocking_returns_example :
    (v : Uart) × (write_byte_blocking (false ∷ false ∷ true ∷ []) 7 (ring_of 8) ≡ some v)
    × IsRing v
    × ((q : List ℕ) × (pending v ≡ q ++ (7 ∷ [])))
write_byte_blocking_returns_example = write_byte_blocking_returns 2 [] 7 (ring_of 8) eight
