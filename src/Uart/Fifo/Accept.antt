-- ===== src/Uart/Fifo/Accept.antt =====
-- When `writeFrame` and `writeByte` take their bytes.
use pico_wenvironment_logger.Prelude.{
  ℕ, ◌+◌, ◌-◌, ◌<◌, Bool, true, false, ltb, ◌==◌, if◌then◌else◌, List, [], ◌++◌, length, ◌≡◌, refl,
  arith, tests, ◌↔◌, if-cases,
}
use pico_wenvironment_logger.Uart.{Uart, mask, write_byte, write_frame, tx_free_space_locked}
use pico_wenvironment_logger.Uart.Ring.{length-ring}
use pico_wenvironment_logger.Uart.Fifo.{tx_used, pending, IsRing}
use pico_wenvironment_logger.Uart.Fifo.Push.{free_space_lem, used-lt}
use pico_wenvironment_logger.Uart.Fifo.Start.{silent_lem, with_interrupts}
use pico_wenvironment_logger.Uart.Fifo.Ops.{write_frame_lem, write_byte_room, write_byte_full}

pub used-pending : (u : Uart) → length (pending u) ≡ tx_used u
used-pending u = length-ring u.tx_size u.tx_buf u.tx_tail (tx_used u)

-- A frame is accepted exactly if it has a byte and fits next to what waits, with one place left
-- over; then all of it waits behind the rest, and otherwise none of it does.
pub write_frame_accepts :
    (bs : List ℕ) (u : Uart)
    → IsRing u
    → (((write_frame bs u).0 ≡ true)
        ↔ ((0 < length bs) × (length (pending u) + length bs < u.tx_size)))
      × (pending (write_frame bs u).1 ≡ pending u ++ (if (write_frame bs u).0 then bs else []))
unfolding write_frame
write_frame_accepts bs u p = (
  if-cases (λ (r : Bool × Uart). (r.0 ≡ true) ↔ Fits) (length bs == 0) _ _
      (λ e. (λ f. absurd (ground arith), λ f. absurd (ground arith)))
      (λ e.
        if-cases (λ (r : Bool × Uart). (r.0 ≡ true) ↔ Fits)
          (ltb (tx_free_space_locked (record u { interrupts = false })) (length bs)) _ _
          (λ f. (
            λ g. absurd (ground arith),
            λ g. absurd (omega (tests, f, g.1, space, used-pending u, used-lt u p.loaded)),
          ))
          (λ f. (
            λ g. (ground arith, omega (tests, f, space, used-pending u, used-lt u p.loaded)),
            λ g. refl,
          ))),
  (write_frame_lem bs u p).1,
)
  where
    Fits : Type 0
    Fits = (0 < length bs) × (length (pending u) + length bs < u.tx_size)

    space : tx_free_space_locked (record u { interrupts = false }) ≡ u.tx_size - 1 - tx_used u
    space = free_space_lem (with_interrupts false u) (silent_lem u p.loaded)

-- A byte is accepted exactly if two places are free.
pub write_byte_accepts :
    (b : ℕ) (u : Uart) → IsRing u → ((write_byte b u).0 ≡ true) ↔ (tx_used u + 1 < u.tx_size)
unfolding write_byte
write_byte_accepts b u p =
    if-cases (λ (r : Bool × Uart). (r.0 ≡ true) ↔ (tx_used u + 1 < u.tx_size))
      (mask u.tx_size (u.tx_head + 1) == u.tx_tail) _ _
      (λ e. (λ f. absurd (ground arith), λ g. absurd (omega (arith, write_byte_full u p.loaded e))))
      (λ e. (λ f. write_byte_room u p.loaded e, λ g. refl))
