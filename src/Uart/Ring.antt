-- ===== src/Uart/Ring.antt =====
-- The bytes of a ring of `n` places: from a position on, round the end.
use pico_wenvironment_logger.Prelude.{
  ℕ, zero, suc, ◌+◌, ◌-◌, ◌≤◌, ◌<◌, ltb, if◌then◌else◌, List, [], ◌∷◌, ◌++◌, length, get_or, set,
  take, drop, get_or-set_ne, ◌≡◌, refl, sym, ap, ap₂, ◌∙◌, arith,
}

-- The position `i` places on from `p`.
abbrev pub place : ℕ → ℕ → ℕ → ℕ
place n p i = if ltb (p + i) n then p + i else p + i - n

unfoldable pub ring : List ℕ → ℕ → ℕ → ℕ → List ℕ
ring buf n p zero = []
ring buf n p (suc i) = get_or buf p 0 ∷ ring buf n (place n p 1) i

-- The bytes from a position on begin with the byte there.
drop-get : (buf : List ℕ) (p : ℕ) → p < length buf → drop p buf ≡ get_or buf p 0 ∷ drop (suc p) buf
drop-get [] p h = absurd (omega arith)
drop-get (x ∷ xs) zero h = refl
drop-get (x ∷ xs) (suc p) h = drop-get xs p (omega arith)

module _ (n : ℕ) where
  place-place : (p i : ℕ) → p < n → i < n → place n (place n p 1) i ≡ place n p (suc i)
  place-place p i h k = ground arith

  pub length-ring : (buf : List ℕ) (p i : ℕ) → length (ring buf n p i) ≡ i
  unfolding ring
  length-ring buf p zero = refl
  length-ring buf p (suc i) = ap suc (length-ring buf (place n p 1) i)

  -- One more byte stands at the end.
  pub ring_snoc :
      (buf : List ℕ) (p i : ℕ)
      → p < n
      → i < n
      → ring buf n p (suc i) ≡ ring buf n p i ++ (get_or buf (place n p i) 0 ∷ [])
  unfolding ring
  ring_snoc buf p zero h k = ap (λ q. get_or buf q 0 ∷ []) (ground arith)
  ring_snoc buf p (suc i) h k =
      ap (λ t. get_or buf p 0 ∷ t)
        (ring_snoc buf (place n p 1) i (ground arith) (omega arith)
          ∙ ap (λ q. ring buf n (place n p 1) i ++ (get_or buf q 0 ∷ []))
              (place-place p i h (omega arith)))

  -- A write at a place outside the run does not show in it.
  pub ring_set :
      (buf : List ℕ) (p i j b : ℕ)
      → p < n
      → i ≤ j
      → j < n
      → ring (set buf (place n p j) b) n p i ≡ ring buf n p i
  unfolding ring
  ring_set buf p zero j b h k l = refl
  ring_set buf p (suc i) zero b h k l = absurd (omega arith)
  ring_set buf p (suc i) (suc j) b h k l =
      ap₂ ◌∷◌ (get_or-set_ne buf (place n p (suc j)) p b 0 (ground arith)) (
        ap (λ q. ring (set buf q b) n (place n p 1) i) (sym (place-place p j h (omega arith)))
        ∙ ring_set buf (place n p 1) i j b (ground arith) (omega arith) (omega arith))

  pub ring_drop :
      (buf : List ℕ) (p j i : ℕ)
      → p < n
      → j ≤ i
      → i < n
      → drop j (ring buf n p i) ≡ ring buf n (place n p j) (i - j)
  unfolding ring
  ring_drop buf p zero i h k l = ap₂ (ring buf n) (ground arith) (omega arith)
  ring_drop buf p (suc j) zero h k l = absurd (omega arith)
  ring_drop buf p (suc j) (suc i) h k l =
      ring_drop buf (place n p 1) j i (ground arith) (omega arith) (omega arith)
      ∙ ap₂ (ring buf n) (place-place p j h (omega arith)) (omega arith)

  -- Up to the end of the buffer the run is what stands there.
  pub take-ring :
      (buf : List ℕ) (p k i : ℕ)
      → length buf ≡ n
      → k ≤ i
      → p + k ≤ n
      → take k (ring buf n p i) ≡ take k (drop p buf)
  unfolding ring
  take-ring buf p zero i h k l = refl
  take-ring buf p (suc j) zero h k l = absurd (omega arith)
  take-ring buf p (suc zero) (suc i) h k l = sym (ap (take 1) (drop-get buf p (omega (arith, h))))
  take-ring buf p (suc (suc j)) (suc i) h k l =
      let next : place n p 1 ≡ suc p = ground arith in
      ap (λ xs. get_or buf p 0 ∷ xs)
        (ap (λ q. take (suc j) (ring buf n q i)) next
          ∙ take-ring buf (suc p) (suc j) i h (omega arith) (omega arith))
      ∙ sym (ap (take (suc (suc j))) (drop-get buf p (omega (arith, h))))
