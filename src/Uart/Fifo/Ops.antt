-- ===== src/Uart/Fifo/Ops.antt =====
-- `writeByte` and `writeFrame` as operations on the queue of bytes that wait.
use pico_wenvironment_logger.Prelude.{
  ℕ, ◌+◌, ◌^◌, ◌<◌, Bool, true, false, ltb, ◌==◌, if◌then◌else◌, List, [], ◌∷◌, ◌++◌, length, ◌%◌,
  append-nil, ◌≡◌, ==_iff, sym, ◌∙◌, arith, tests, if-cases, Bool-cases, inl, inr,
}
use pico_wenvironment_logger.Uart.{
  Uart, mask, tx_free_space_locked, push_bytes_locked, write_byte, write_frame,
}
use pico_wenvironment_logger.Uart.Mask.{size_bounds}
use pico_wenvironment_logger.Uart.Ring.{place}
use pico_wenvironment_logger.Uart.Fifo.{tx_used, pending, IsLoaded, IsRing}
use pico_wenvironment_logger.Uart.Fifo.Push.{
  mask-place, free_space_lem, used-lt, push, push_lem, push_bytes_lem,
}
use pico_wenvironment_logger.Uart.Fifo.Start.{
  counted-IsRing, with_interrupts, written_lem, silent_lem,
}

-- What a write does to the queue: the bytes it takes go to the end.
abbrev pub Taken : Uart → List ℕ → Bool × Uart → Type 0
Taken u bs r = IsRing r.1 × (pending r.1 ≡ pending u ++ (if r.0 then bs else []))

-- The test of a byte write: there is no place but the one that stays empty.
pub write_byte_room :
    (u : Uart)
    → IsLoaded u
    → (mask u.tx_size (u.tx_head + 1) == u.tx_tail) ≡ false
    → tx_used u + 1 < u.tx_size
write_byte_room u p e = elim (Bool-cases (place u.tx_size u.tx_head 1 == u.tx_tail)) [
  | inl f ↦
      absurd (
        ground
          (arith, e, f, mask-place u.tx_size u.tx_head 1 p.size p.head (omega (arith, p.head))))
  | inr f ↦ ground (arith, f, p.head, p.tail)
]

pub write_byte_full :
    (u : Uart)
    → IsLoaded u
    → (mask u.tx_size (u.tx_head + 1) == u.tx_tail) ≡ true
    → tx_used u + 1 ≡ u.tx_size
write_byte_full u p e =
    let f : place u.tx_size u.tx_head 1 ≡ u.tx_tail =
      sym (mask-place u.tx_size u.tx_head 1 p.size p.head (omega (arith, p.head)))
      ∙ (==_iff (mask u.tx_size (u.tx_head + 1)) u.tx_tail).0 e in
    ground (arith, f, p.head, p.tail, (size_bounds u.tx_size p.size).0)

pub write_byte_lem : (b : ℕ) (u : Uart) → IsRing u → Taken u (b ∷ []) (write_byte b u)
unfolding write_byte
write_byte_lem b u p =
    if-cases (Taken u (b ∷ [])) (mask u.tx_size (u.tx_head + 1) == u.tx_tail) _ _
      (λ _. (
        counted-IsRing ((u.tx_byte_full_count + 1) % 2 ^ 32) u.tx_drop_frame_count
            u.tx_drop_bytes_count u.interrupts u p,
        sym (append-nil (pending u)),
      ))
      (λ e.
        let v : Uart = with_interrupts false u in
        let (q, f) = push_lem v b (silent_lem u p.loaded) (room e) in
        let (r, g) = written_lem u.interrupts (push b v) q in (r, g ∙ f))
  where
    room : (mask u.tx_size (u.tx_head + 1) == u.tx_tail) ≡ false → tx_used u + 1 < u.tx_size
    room = write_byte_room u p.loaded

pub write_frame_lem : (bs : List ℕ) (u : Uart) → IsRing u → Taken u bs (write_frame bs u)
unfolding write_frame
write_frame_lem bs u p =
    if-cases (Taken u bs) (length bs == 0) _ _ (λ _. (p, sym (append-nil (pending u))))
      (λ _.
        if-cases (Taken u bs)
          (ltb (tx_free_space_locked (record u { interrupts = false })) (length bs)) _ _
          (λ _. (
            counted-IsRing u.tx_byte_full_count ((u.tx_drop_frame_count + 1) % 2 ^ 32)
                ((u.tx_drop_bytes_count + length bs) % 2 ^ 32) false u p,
            sym (append-nil (pending u)),
          ))
          (λ e.
            let v : Uart = with_interrupts false u in
            let (q, f) =
              push_bytes_lem bs v (silent_lem u p.loaded)
                (omega (tests, e, free_space_lem v (silent_lem u p.loaded), used-lt u p.loaded)) in
            let (r, g) = written_lem u.interrupts (push_bytes_locked bs v) q in (r, g ∙ f)))
