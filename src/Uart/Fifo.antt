-- ===== src/Uart/Fifo.antt =====
-- The transmit ring is a queue: what was accepted is what was sent and what waits, in order; and
-- nothing waits without a transfer running.
pub mod Push
pub mod Start
pub mod Ops
pub mod Interrupt
pub mod Line
pub mod Flight
pub mod Accept
pub mod Blocking
use pico_wenvironment_logger.Prelude.{
  ℕ, zero, suc, ◌+◌, ◌-◌, ◌≤◌, ◌<◌, Bool, true, false, leb, if◌then◌else◌, List, length, take, drop,
  ◌≡◌,
}
use pico_wenvironment_logger.Uart.{Uart}
use pico_wenvironment_logger.Uart.Mask.{IsSize}
use pico_wenvironment_logger.Uart.Ring.{ring}

-- The bytes that wait, and how many.
abbrev pub tx_used : Uart → ℕ
tx_used u =
    if leb u.tx_tail u.tx_head then u.tx_head - u.tx_tail else u.tx_size + u.tx_head - u.tx_tail

-- The range of the transfer: the channel reads `tx_dma_active_count` bytes from `&tx_buf_[tail]` on,
-- without going round the ring.
abbrev pub range : Uart → List ℕ
range u = take u.tx_dma_active_count (drop u.tx_tail u.tx_buf)

abbrev pub pending : Uart → List ℕ
pending u = ring u.tx_buf u.tx_size u.tx_tail (tx_used u)

-- The ring between the steps of an operation.
pub record IsLoaded (u : Uart) : Type 0 where
  pub size : IsSize u.tx_size
  pub buf : length u.tx_buf ≡ u.tx_size
  pub head : u.tx_head < u.tx_size
  pub tail : u.tx_tail < u.tx_size
  pub chunk : 0 < u.tx_dma_chunk_max
  pub active : u.tx_dma_running ≡ true → 0 < u.tx_dma_active_count
  pub started : u.tx_dma_active_count ≤ tx_used u
  pub linear : u.tx_tail + u.tx_dma_active_count ≤ u.tx_size
  pub stopped : u.tx_dma_running ≡ false → u.tx_dma_active_count ≡ 0

-- Between operations there is no byte that waits without a transfer running.
pub record IsRing (u : Uart) : Type 0 where
  pub loaded : IsLoaded u
  pub rest : u.tx_dma_running ≡ false → tx_used u ≡ 0
