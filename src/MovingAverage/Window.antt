-- ===== src/MovingAverage/Window.antt =====
-- The average is that of the last N values.
use native.Mathlib.Nat.{mod-eq_of_lt, div-zero, zero-div, div-le_of_le-mul}
use pico_wenvironment_logger.Prelude.{
  ℕ, suc, ◌-◌, ◌*◌, ◌/◌, ◌^◌, ◌≤◌, ◌<◌, ltb, ◌==◌, if◌then◌else◌, List, [], ◌∷◌, ◌++◌, length, drop,
  replicate, All, ◌≡◌, refl, sym, ap, subst, ◌∙◌, arith, tests, length-append, append_assoc,
  append-nil, inl, inr, lt→ltb, Bool-cases,
}
use pico_wenvironment_logger.Prelude.Int.{pos, div_ℤ, to_unsigned}
use pico_wenvironment_logger.MovingAverage.{MovingAverage, reset, add, average}
use pico_wenvironment_logger.MovingAverage.Buffer.{
  total, slide, Holds, add-n, add-Holds, drop-none, drop-suc,
}

abbrev pub last_n : ℕ → List ℕ → List ℕ
last_n n xs = drop (length xs - n) xs

abbrev pub add_all : List ℕ → MovingAverage → MovingAverage
add_all [] m = m
add_all (v ∷ vs) m = add_all vs (add v m)

slide-last_n :
    (n v : ℕ) (w vs : List ℕ)
    → 0 < n
    → length w ≤ n
    → last_n n (slide n v w ++ vs) ≡ last_n n (w ++ (v ∷ vs))
slide-last_n n v [] vs h k = rw (lt→ltb 0 n h)
slide-last_n n v (x ∷ xs) vs h k = elim (Bool-cases (ltb (suc (length xs)) n)) [
  | inl e ↦ rw e (ap (last_n n) (append_assoc (x ∷ xs) (v ∷ []) vs))
  | inr e ↦ rw e (
      ap (last_n n) (append_assoc xs (v ∷ []) vs)
      ∙ sym (
          drop-suc (suc (length (xs ++ (v ∷ vs))) - n) (length (xs ++ (v ∷ vs)) - n) x
            (xs ++ (v ∷ vs)) (omega (tests, e, k, length-append {0} xs (v ∷ vs)))))
]

length-slide : (n v : ℕ) (w : List ℕ) → 0 < n → length w ≤ n → length (slide n v w) ≤ n
length-slide n v [] h k = rw (lt→ltb 0 n h) (omega arith)
length-slide n v (x ∷ xs) h k = elim (Bool-cases (ltb (suc (length xs)) n)) [
  | inl e ↦ rw e (omega (tests, e, length-append {0} xs (v ∷ [])))
  | inr e ↦ rw e (omega (arith, length-append {0} xs (v ∷ [])))
]

add_all-Holds :
    (vs : List ℕ) (m : MovingAverage) (w : List ℕ)
    → 0 < m.n
    → length w ≤ m.n
    → Holds m w
    → Holds (add_all vs m) (last_n m.n (w ++ vs))
add_all-Holds [] m w h k p =
    subst (Holds m)
      (sym (ap (last_n m.n) (append-nil w) ∙ drop-none (length w - m.n) w (omega arith))) p
add_all-Holds (v ∷ vs) m w h k p =
    subst (Holds (add_all vs (add v m))) (slide-last_n m.n v w vs h k) (
      subst (λ n. Holds (add_all vs (add v m)) (last_n n (slide m.n v w ++ vs))) (add-n v m)
        (add_all-Holds vs (add v m) (slide m.n v w) (omega (arith, add-n v m))
          (subst (λ n. length (slide m.n v w) ≤ n) (sym (add-n v m)) (length-slide m.n v w h k))
          (add-Holds m w v p)))

reset-Holds : (n : ℕ) → 0 < n → Holds (reset n) []
unfolding reset
reset-Holds n h = record {
  count = refl;
  sum = refl;
  layout = inl record {
    free = n - 1;
    buffer = ap (λ k. replicate k 0) {y = suc (n - 1)} (omega arith);
    index = refl;
    size = omega arith;
  };
}

total-bound : (w : List ℕ) → All (λ x. x < 2 ^ 16) w → total w ≤ length w * 65535
total-bound [] b = omega arith
total-bound (x ∷ w) b = omega (arith, total-bound w b.1, b.0)

div_pos : (a b : ℕ) → 0 < b → div_ℤ (pos a) (pos b) ≡ pos (a / b)
unfolding div_ℤ
div_pos a b h = ground (arith, div-zero a, zero-div b)

-- The average of 16-bit values is the truncated mean of them.
average-Holds :
    (m : MovingAverage) (w : List ℕ)
    → Holds m w
    → All (λ x. x < 2 ^ 16) w
    → average m ≡ (if length w == 0 then 0 else total w / length w)
unfolding average to_unsigned
average-Holds m w p b =
    rw (p.count, p.sum)
      (elim (Bool-cases (length w == 0)) [
        | inl e ↦ rw e
        | inr e ↦
            rw (e, div_pos (total w) (length w) (ground arith))
              (mod-eq_of_lt (mean (total w) (length w) (ground arith) (total-bound w b)))
      ])
  where
    mean : (t l : ℕ) → 0 < l → t ≤ l * 65535 → t / l < 2 ^ 16
    mean t l h k = omega (arith, div-le_of_le-mul l k)

-- After any values were added to a fresh average over N values, N not 0, the sum and the count are
-- those of the last N values, or of all if there are fewer; and if those have 16 bits, `average` is
-- their sum divided by their count, rounded down, or 0 if there are none.
pub add_all-average :
    (n : ℕ) (vs : List ℕ)
    → 0 < n
    → All (λ x. x < 2 ^ 16) (last_n n vs)
    → let m = add_all vs (reset n) in
      let w = last_n n vs in
      (m.count ≡ length w)
      × (m.sum ≡ pos (total w))
      × (average m ≡ (if length w == 0 then 0 else total w / length w))
unfolding reset
add_all-average n vs h b = (p.count, p.sum, average-Holds (add_all vs (reset n)) (last_n n vs) p b)
  where
    p : Holds (add_all vs (reset n)) (last_n n vs)
    p = add_all-Holds vs (reset n) [] h (omega arith) (reset-Holds n h)
