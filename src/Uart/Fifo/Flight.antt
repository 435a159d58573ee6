-- ===== src/Uart/Fifo/Flight.antt =====
-- A write does not disturb the transfer that runs: the channel may read its range at any time.
use pico_wenvironment_logger.Prelude.{
  ℕ, zero, suc, ◌+◌, ◌≤◌, set, Bool, true, false, ltb, ◌==◌, if◌then◌else◌, List, [], ◌∷◌, ◌++◌,
  length, take, ◌≡◌, refl, sym, ap, ap₂, ◌∙◌, arith, if-cases, if-both,
}
use pico_wenvironment_logger.Uart.{
  Uart, mask, tx_free_space_locked, push_bytes_locked, start_tx_dma_locked, write_byte, write_frame,
}
use pico_wenvironment_logger.Uart.Ring.{take-ring, length-ring}
use pico_wenvironment_logger.Uart.Fifo.{tx_used, pending, range, IsLoaded, IsRing}
use pico_wenvironment_logger.Uart.Fifo.Ops.{Taken}

-- The range of a transfer is the front of the queue.
pub range_lem : (u : Uart) → IsLoaded u → take u.tx_dma_active_count (pending u) ≡ range u
range_lem u p =
    take-ring u.tx_size u.tx_buf u.tx_tail u.tx_dma_active_count (tx_used u) p.buf p.started
      p.linear

-- The count of the transfer stays, if it runs.
abbrev pub Undisturbed : Uart → Uart → Type 0
Undisturbed u v = u.tx_dma_running ≡ true → v.tx_dma_active_count ≡ u.tx_dma_active_count

start-Undisturbed :
    (u v : Uart)
    → Undisturbed u v
    → v.tx_dma_running ≡ u.tx_dma_running
    → Undisturbed u (start_tx_dma_locked v)
unfolding start_tx_dma_locked
start-Undisturbed u v k same running =
    if-cases (λ (w : Uart). w.tx_dma_active_count ≡ u.tx_dma_active_count) v.tx_dma_running _ _
      (λ _. k running) (λ stopped. absurd (both v.tx_dma_running (same ∙ running) stopped))
  where
    both : (b : Bool) → b ≡ true → b ≡ false → ⊥
    both b p q = cc

push_bytes-count :
    (bs : List ℕ) (u : Uart)
    → ((push_bytes_locked bs u).tx_dma_active_count ≡ u.tx_dma_active_count)
      × ((push_bytes_locked bs u).tx_dma_running ≡ u.tx_dma_running)
unfolding push_bytes_locked
push_bytes-count [] u = (refl, refl)
push_bytes-count (b ∷ bs) u =
    push_bytes-count bs
      (record u { tx_buf = set u.tx_buf u.tx_head b; tx_head = mask u.tx_size (u.tx_head + 1) })

pub write_byte-Undisturbed : (b : ℕ) (u : Uart) → Undisturbed u (write_byte b u).1
unfolding write_byte
write_byte-Undisturbed b u =
    if-both (λ (r : Bool × Uart). Undisturbed u r.1) (mask u.tx_size (u.tx_head + 1) == u.tx_tail) _
      _ (λ _. refl)
      (start-Undisturbed u
        (record u {
          tx_buf = set u.tx_buf u.tx_head b;
          tx_head = mask u.tx_size (u.tx_head + 1);
          interrupts = false;
        })
        (λ _. refl) refl)

pub write_frame-Undisturbed : (bs : List ℕ) (u : Uart) → Undisturbed u (write_frame bs u).1
unfolding write_frame
write_frame-Undisturbed bs u =
    let v : Uart = record u { interrupts = false } in
    let kept = push_bytes-count bs v in
    if-both (λ (r : Bool × Uart). Undisturbed u r.1) (length bs == 0) _ _ (λ _. refl)
      (if-both (λ (r : Bool × Uart). Undisturbed u r.1) (ltb (tx_free_space_locked v) (length bs)) _
        _ (λ _. refl) (start-Undisturbed u (push_bytes_locked bs v) (λ _. kept.0) kept.1))

take-front : (k : ℕ) (xs ys : List ℕ) → k ≤ length xs → take k (xs ++ ys) ≡ take k xs
take-front zero xs ys h = refl
take-front (suc k) [] ys h = absurd (omega arith)
take-front (suc k) (x ∷ xs) ys h = ap (λ t. x ∷ t) (take-front k xs ys (omega arith))

-- So its range holds the same bytes.
pub range-kept :
    (u : Uart) (bs : List ℕ) (r : Bool × Uart)
    → IsRing u
    → Taken u bs r
    → Undisturbed u r.1
    → u.tx_dma_running ≡ true
    → range r.1 ≡ range u
range-kept u bs r p t k running =
    sym (range_lem r.1 t.0.loaded)
    ∙ ap₂ take (k running) t.1
    ∙ take-front u.tx_dma_active_count (pending u) (if r.0 then bs else [])
        (omega (arith, p.loaded.started, length-ring u.tx_size u.tx_buf u.tx_tail (tx_used u)))
    ∙ range_lem u p.loaded
