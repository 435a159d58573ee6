-- ===== src/Uart.antt =====
-- src/UartDma.cpp and include/UartDma.h: the UART with its transmit and receive rings. The DMA
-- channels are the hardware's: a transfer that was started ends with an interrupt, and the bytes
-- of its range have then been sent.
pub mod Mask
pub mod Ring
pub mod Fifo
use pico_wenvironment_logger.Prelude.{
  ℕ, zero, suc, ◌+◌, ◌-◌, ◌%◌, ◌^◌, Bool, true, false, ltb, leb, ◌==◌, if◌then◌else◌, List, [], ◌∷◌,
  ◌++◌, length, get_or, set, take, drop, replicate, Option, none, some, bit_and, u8,
}

pub record Uart : Type 0 where
  pub tx_size : ℕ
  pub tx_buf : List ℕ
  pub tx_head : ℕ
  pub tx_tail : ℕ
  pub tx_dma_running : Bool
  pub tx_dma_active_count : ℕ
  pub tx_dma_chunk_max : ℕ
  pub tx_byte_full_count : ℕ
  pub tx_drop_frame_count : ℕ
  pub tx_drop_bytes_count : ℕ
  pub rx_size : ℕ
  pub rx_buf : List ℕ
  pub rx_read_pos : ℕ
  pub drop_first_rx_byte : Bool
  pub inited : Bool
  pub interrupts : Bool  -- of this core: save_and_disable_interrupts, restore_interrupts

-- `x & (size - 1)`, on 32 bits.
abbrev pub mask : ℕ → ℕ → ℕ
mask size x = bit_and (x % 2 ^ 32) (size - 1)

pub is_power_of_two : ℕ → Bool
is_power_of_two x = if x == 0 then false else bit_and x (x - 1) == 0

-- `free_space`, with the place that is kept empty.
pub tx_free_space_locked : Uart → ℕ
tx_free_space_locked u = mask u.tx_size (u.tx_tail + 2 ^ 32 - u.tx_head - 1)

pub push_bytes_locked : List ℕ → Uart → Uart
push_bytes_locked [] u = u
push_bytes_locked (b ∷ bs) u =
    push_bytes_locked bs
      (record u { tx_buf = set u.tx_buf u.tx_head b; tx_head = mask u.tx_size (u.tx_head + 1) })

-- The bytes from the tail up to the head, or up to the end of the buffer, at most a chunk.
pub tx_count : Uart → ℕ
tx_count u =
    let count =
      (if leb u.tx_tail u.tx_head then u.tx_head - u.tx_tail else u.tx_size - u.tx_tail) in
    if ltb u.tx_dma_chunk_max count then u.tx_dma_chunk_max else count

pub start_tx_dma_locked : Uart → Uart
unfolding tx_count
start_tx_dma_locked u =
    if u.tx_dma_running
    then u
    else if u.tx_tail == u.tx_head
    then u
    else record u { tx_dma_running = true; tx_dma_active_count = tx_count u }

-- `start_tx_dma_if_needed` and `start_tx_dma_if_needed_isr` test the count once more.
pub start_tx_dma_if_needed_isr : Uart → Uart
unfolding tx_count
start_tx_dma_if_needed_isr u =
    if u.tx_dma_running
    then u
    else if u.tx_tail == u.tx_head
    then u
    else if (if leb u.tx_tail u.tx_head then u.tx_head - u.tx_tail else u.tx_size - u.tx_tail) == 0
    then u
    else record u { tx_dma_running = true; tx_dma_active_count = tx_count u }

pub start_tx_dma_if_needed : Uart → Uart
unfolding start_tx_dma_if_needed_isr
start_tx_dma_if_needed u = record (start_tx_dma_if_needed_isr (record u { interrupts = false })) {
  interrupts = u.interrupts;
}

-- The `else` of a full buffer returns with the interrupts still disabled.
pub write_frame : List ℕ → Uart → Bool × Uart
unfolding tx_free_space_locked push_bytes_locked start_tx_dma_locked
write_frame frame u =
    if length frame == 0
    then (false, u)
    else let v = record u { interrupts = false } in
      if ltb (tx_free_space_locked v) (length frame)
      then (
        false,
        record v {
          tx_drop_frame_count = (v.tx_drop_frame_count + 1) % 2 ^ 32;
          tx_drop_bytes_count = (v.tx_drop_bytes_count + length frame) % 2 ^ 32;
        },
      )
      else (
        true,
        record (start_tx_dma_locked (push_bytes_locked frame v)) { interrupts = u.interrupts },
      )

pub write_byte : ℕ → Uart → Bool × Uart
unfolding start_tx_dma_locked
write_byte b u =
    let v = record u { interrupts = false } in
    let next = mask v.tx_size (v.tx_head + 1) in
    if next == v.tx_tail
    then (
      false,
      record v {
        tx_byte_full_count = (v.tx_byte_full_count + 1) % 2 ^ 32;
        interrupts = u.interrupts;
      },
    )
    else (
      true,
      record (start_tx_dma_locked
          (record v { tx_buf = set v.tx_buf v.tx_head b; tx_head = next })) {
            interrupts = u.interrupts;
          },
    )

-- `write_string` and `write_buffer`: a byte that finds no room is lost.
pub write_buffer : List ℕ → Uart → Uart
unfolding write_byte
write_buffer [] u = u
write_buffer (b ∷ bs) u = write_buffer bs (write_byte b u).1

pub dma_irq_handler : Uart → Uart
unfolding start_tx_dma_if_needed_isr
dma_irq_handler u =
    let sent = u.tx_dma_active_count in
    let v =
      (if sent == 0
        then u
        else record u { tx_tail = mask u.tx_size (u.tx_tail + sent); tx_dma_active_count = 0 }) in
    start_tx_dma_if_needed_isr (record v { tx_dma_running = false })

-- The spin loop, while the transfer interrupt comes or not between two tries.
pub write_byte_blocking : List Bool → ℕ → Uart → Option Uart
unfolding write_byte dma_irq_handler
write_byte_blocking [] b u = let (ok, v) = write_byte b u in if ok then some v else none
write_byte_blocking (irq ∷ rest) b u =
    let (ok, v) = write_byte b u in
    let later = write_byte_blocking rest b (if irq then dma_irq_handler v else v) in
    if ok then some v else later

-- `none` is the result -1. `waddr_pos` is where the receive DMA writes next.
pub read_byte : ℕ → Uart → Option ℕ × Uart
read_byte waddr_pos u =
    if waddr_pos == u.rx_read_pos
    then (none, u)
    else let b = get_or u.rx_buf u.rx_read_pos 0 in
      let v = record u { rx_read_pos = mask u.rx_size (u.rx_read_pos + 1) } in
      if v.drop_first_rx_byte
      then (let w = record v { drop_first_rx_byte = false } in
          if (if b == 0x00 then true else b == 0xFF) then (none, w) else (some b, w))
      else (some b, v)

-- Up to `maxlen` bytes.
pub read_bytes : ℕ → ℕ → Uart → List ℕ × Uart
unfolding read_byte
read_bytes waddr_pos zero u = ([], u)
read_bytes waddr_pos (suc maxlen) u =
    let (r, v) = read_byte waddr_pos u in
    let (bs, w) = read_bytes waddr_pos maxlen v in elim r [ none ↦ ([], v) | some b ↦ (b ∷ bs, w) ]

get_tx_byte_drop_count : Uart → ℕ
get_tx_byte_drop_count u = u.tx_byte_full_count

-- The constructor; `aligned_alloc_for_dma` gives the two buffers, whatever they hold.
unfoldable pub create : (tx_buf rx_buf : List ℕ) (tx_size rx_size : ℕ) → Uart
create tx_buf rx_buf tx_size rx_size = record {
  tx_size = tx_size;
  tx_buf = tx_buf;
  tx_head = 0;
  tx_tail = 0;
  tx_dma_running = false;
  tx_dma_active_count = 0;
  tx_dma_chunk_max = 0;
  tx_byte_full_count = 0;
  tx_drop_frame_count = 0;
  tx_drop_bytes_count = 0;
  rx_size = rx_size;
  rx_buf = rx_buf;
  rx_read_pos = 0;
  drop_first_rx_byte = true;
  inited = false;
  interrupts = true;
}

-- What `init` does to the object: a second call fails, sizes that it refuses it reports with true.
unfoldable pub init : Uart → Bool × Uart
unfolding is_power_of_two
init u =
    if u.inited
    then (false, u)
    else if (if ltb u.rx_size 2
        then true
        else if ltb 32768 u.rx_size
        then true
        else if is_power_of_two u.rx_size
        then (if is_power_of_two u.tx_size then false else true)
        else true)
    then (true, u)
    else (true, record u { tx_byte_full_count = 0; tx_dma_chunk_max = 1024; inited = true })

-- The wait of `write_frame_blocking`, while the transfer interrupt comes or not between two tests.
pub wait_for_space : List Bool → ℕ → Uart → Option Uart
unfolding tx_free_space_locked dma_irq_handler
wait_for_space [] len u = if leb len (tx_free_space_locked u) then some u else none
wait_for_space (irq ∷ rest) len u =
    let later = wait_for_space rest len (if irq then dma_irq_handler u else u) in
    if leb len (tx_free_space_locked u) then some u else later

-- Each byte has its own tries.
pub write_buffer_blocking : List (List Bool) → List ℕ → Uart → Option Uart
unfolding write_byte_blocking
write_buffer_blocking tries [] u = some u
write_buffer_blocking [] (b ∷ bs) u = elim (write_byte_blocking [] b u) [
  | none ↦ none
  | some v ↦ write_buffer_blocking [] bs v
]
write_buffer_blocking (t ∷ ts) (b ∷ bs) u = elim (write_byte_blocking t b u) [
  | none ↦ none
  | some v ↦ write_buffer_blocking ts bs v
]

pub write_frame_blocking : List Bool → List (List Bool) → List ℕ → Uart → Option (Bool × Uart)
unfolding wait_for_space write_buffer_blocking
write_frame_blocking waits tries frame u =
    if length frame == 0
    then some (false, u)
    else if ltb (u.tx_size - 1) (length frame)
    then some (false, u)
    else elim (wait_for_space waits (length frame) u) [
      | none ↦ none
      | some v ↦ elim (write_buffer_blocking tries frame v) [
        | none ↦ none
        | some w ↦ some (true, w)
      ]
    ]
