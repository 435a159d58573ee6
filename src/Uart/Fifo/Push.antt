-- ===== src/Uart/Fifo/Push.antt =====
-- Bytes at the head of the transmit ring as bytes at the end of the queue.
use pico_wenvironment_logger.Prelude.{
  ℕ, suc, ◌+◌, ◌-◌, ◌^◌, ◌≤◌, ◌<◌, ltb, leb, List, [], ◌∷◌, ◌++◌, length, set, get_or, bit_and, ◌%◌,
  length-set, get_or-set_self, append_assoc, append-nil, ◌≡◌, sym, ap, ap₂, subst, ◌∙◌, arith,
  if-cases, Bool-cases, inl, inr,
}
use pico_wenvironment_logger.Uart.{Uart, mask, tx_free_space_locked, push_bytes_locked}
use pico_wenvironment_logger.Uart.Mask.{IsSize, size_bounds, mask_small, mask_wrap, mask_below}
use pico_wenvironment_logger.Uart.Ring.{ring, place, ring_snoc, ring_set}
use pico_wenvironment_logger.Uart.Fifo.{tx_used, pending, IsLoaded}

pub mask-place : (n p i : ℕ) → IsSize n → p < n → i ≤ n → mask n (p + i) ≡ place n p i
mask-place n p i v h k =
    if-cases (λ x. mask n (p + i) ≡ x) (ltb (p + i) n) (p + i) (p + i - n)
      (λ e. mask_small n (p + i) v (ground arith))
      (λ e. mask_wrap n (p + i) v (ground arith) (ground arith))

-- The free space is what is left of the ring, less the place that is kept empty.
pub free_space_lem : (u : Uart) → IsLoaded u → tx_free_space_locked u ≡ u.tx_size - 1 - tx_used u
unfolding tx_free_space_locked
free_space_lem u p = elim (Bool-cases (leb u.tx_tail u.tx_head)) [
  | inl e ↦
      ap (mask u.tx_size) {y = 2 ^ 32 - (u.tx_head - u.tx_tail + 1)} (ground (arith, bounds))
      ∙ mask_below u.tx_size (u.tx_head - u.tx_tail + 1) p.size (omega arith)
          (omega (arith, p.head))
      ∙ ground (arith, p.head)
  | inr e ↦
      ap (λ x. bit_and x (u.tx_size - 1)) {y = (u.tx_tail - u.tx_head - 1) % 2 ^ 32}
        (ground (arith, bounds, p.tail))
      ∙ mask_small u.tx_size (u.tx_tail - u.tx_head - 1) p.size (omega (arith, p.tail))
      ∙ ground (arith, p.tail)
]
  where
    bounds : (2 ≤ u.tx_size) × (u.tx_size ≤ 65536)
    bounds = size_bounds u.tx_size p.size

-- There is always a place that stays empty.
pub used-lt : (u : Uart) → IsLoaded u → tx_used u < u.tx_size
used-lt u p = ground (arith, p.head, p.tail)

head_place : (u : Uart) → IsLoaded u → u.tx_head ≡ place u.tx_size u.tx_tail (tx_used u)
head_place u p = ground (arith, p.head, p.tail)

-- One byte at the head.
abbrev pub push : ℕ → Uart → Uart
push b u = record u { tx_buf = set u.tx_buf u.tx_head b; tx_head = mask u.tx_size (u.tx_head + 1) }

used-push :
    (u : Uart) (b : ℕ) → IsLoaded u → tx_used u + 1 < u.tx_size → tx_used (push b u) ≡ tx_used u + 1
used-push u b p room =
    rw (mask-place u.tx_size u.tx_head 1 p.size p.head (omega arith))
      (ground (arith, p.head, p.tail))

pub push_lem :
    (u : Uart) (b : ℕ)
    → IsLoaded u
    → tx_used u + 1 < u.tx_size
    → IsLoaded (push b u) × (pending (push b u) ≡ pending u ++ (b ∷ []))
push_lem u b p room = (
  record {
    size = p.size;
    buf = length-set u.tx_buf u.tx_head b ∙ p.buf;
    head =
        subst (λ x. x < u.tx_size)
          (sym (mask-place u.tx_size u.tx_head 1 p.size p.head (omega arith)))
          (ground (arith, p.head));
    tail = p.tail;
    chunk = p.chunk;
    active = p.active;
    started = omega (arith, used-push u b p room, p.started);
    linear = p.linear;
    stopped = p.stopped;
  },
  ap (ring (set u.tx_buf u.tx_head b) u.tx_size u.tx_tail) {y = suc (tx_used u)}
        (used-push u b p room ∙ omega arith)
      ∙ ring_snoc u.tx_size (set u.tx_buf u.tx_head b) u.tx_tail (tx_used u) p.tail (used-lt u p)
      ∙ ap₂ (λ xs x. xs ++ (x ∷ [])) kept placed,
)
  where
    kept : ring (set u.tx_buf u.tx_head b) u.tx_size u.tx_tail (tx_used u) ≡ pending u
    kept =
        ap (λ q. ring (set u.tx_buf q b) u.tx_size u.tx_tail (tx_used u)) (head_place u p)
        ∙ ring_set u.tx_size u.tx_buf u.tx_tail (tx_used u) (tx_used u) b p.tail (omega arith)
            (used-lt u p)

    placed : get_or (set u.tx_buf u.tx_head b) (place u.tx_size u.tx_tail (tx_used u)) 0 ≡ b
    placed =
        ap (λ q. get_or (set u.tx_buf u.tx_head b) q 0) (sym (head_place u p))
        ∙ get_or-set_self u.tx_buf u.tx_head b 0 (omega (arith, p.head, p.buf))

pub push_bytes_lem :
    (bs : List ℕ) (u : Uart)
    → IsLoaded u
    → tx_used u + length bs < u.tx_size
    → IsLoaded (push_bytes_locked bs u) × (pending (push_bytes_locked bs u) ≡ pending u ++ bs)
unfolding push_bytes_locked
push_bytes_lem [] u p room = (p, sym (append-nil (pending u)))
push_bytes_lem (b ∷ bs) u p room =
    let (q, e) = push_lem u b p (omega arith) in
    let (r, f) = push_bytes_lem bs (push b u) q (omega (arith, used-push u b p (omega arith))) in
    (r, f ∙ ap (λ t. t ++ bs) e ∙ append_assoc (pending u) (b ∷ []) bs)
