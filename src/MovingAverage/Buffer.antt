-- ===== src/MovingAverage/Buffer.antt =====
-- How the buffer of the average holds its window, and what `add` does to it.
use pico_wenvironment_logger.Prelude.{
  ℕ, zero, suc, ◌+◌, ltb, leb, if◌then◌else◌, List, [], ◌∷◌, ◌++◌, length, drop, set, get_or,
  replicate, ◌≡◌, refl, sym, ap, subst, ◌∙◌, arith, length-append, append_assoc, append-nil, ◌⊎◌,
  inl, inr, le→ltb, lt→ltb,
}
use pico_wenvironment_logger.Prelude.Int.{pos, ◌+ℤ◌, ◌-ℤ◌, int_sides, eq_of_sides}
use pico_wenvironment_logger.MovingAverage.{MovingAverage, add}

abbrev pub total : List ℕ → ℕ
total [] = 0
total (x ∷ xs) = x + total xs

-- The next window: the oldest value leaves a full one.
abbrev pub slide : ℕ → ℕ → List ℕ → List ℕ
slide n v w = (if ltb (length w) n then w else drop 1 w) ++ (v ∷ [])

-- How the buffer holds the window, oldest value first.
pub record Filling (m : MovingAverage) (w : List ℕ) : Type 0 where
  pub free : ℕ
  pub buffer : m.buffer ≡ w ++ replicate (suc free) 0
  pub index : m.index ≡ length w
  pub size : m.n ≡ length w + suc free

pub record Full (m : MovingAverage) (w : List ℕ) : Type 0 where
  pub newer : List ℕ
  pub oldest : ℕ
  pub older : List ℕ
  pub window : w ≡ (oldest ∷ older) ++ newer
  pub buffer : m.buffer ≡ newer ++ (oldest ∷ older)
  pub index : m.index ≡ length newer
  pub size : m.n ≡ length w

pub record Holds (m : MovingAverage) (w : List ℕ) : Type 0 where
  pub count : m.count ≡ length w
  pub sum : m.sum ≡ pos (total w)
  pub layout : Filling m w ⊎ Full m w

total-append : (xs ys : List ℕ) → total (xs ++ ys) ≡ total xs + total ys
total-append [] ys = omega arith
total-append (x ∷ xs) ys = omega (arith, total-append xs ys)

set_middle :
    (xs ys : List ℕ) (y v i : ℕ) → i ≡ length xs → set (xs ++ (y ∷ ys)) i v ≡ xs ++ (v ∷ ys)
set_middle [] ys y v zero e = refl
set_middle [] ys y v (suc i) e = absurd (omega arith)
set_middle (x ∷ xs) ys y v zero e = absurd (omega arith)
set_middle (x ∷ xs) ys y v (suc i) e = ap (λ t. x ∷ t) (set_middle xs ys y v i (omega arith))

get_middle : (xs ys : List ℕ) (y i : ℕ) → i ≡ length xs → get_or (xs ++ (y ∷ ys)) i 0 ≡ y
get_middle [] ys y zero e = refl
get_middle [] ys y (suc i) e = absurd (omega arith)
get_middle (x ∷ xs) ys y zero e = absurd (omega arith)
get_middle (x ∷ xs) ys y (suc i) e = get_middle xs ys y i (omega arith)

-- At index 0 a full buffer is the window.
Full-start :
    (m : MovingAverage) (xs : List ℕ) (v : ℕ)
    → m.buffer ≡ xs ++ (v ∷ [])
    → m.index ≡ 0
    → m.n ≡ length xs + 1
    → Full m (xs ++ (v ∷ []))
Full-start m [] v b i s = record {
  newer = [];
  oldest = v;
  older = [];
  window = refl;
  buffer = b;
  index = i;
  size = s;
}
Full-start m (x ∷ xs) v b i s = record {
  newer = [];
  oldest = x;
  older = xs ++ (v ∷ []);
  window = sym (append-nil (x ∷ (xs ++ (v ∷ []))));
  buffer = b;
  index = i;
  size = omega (arith, s, length-append {0} xs (v ∷ []));
}

add-buffer : (v : ℕ) (m : MovingAverage) → (add v m).buffer ≡ set m.buffer m.index v
unfolding add
add-buffer v m = ground arith

pub add-n : (v : ℕ) (m : MovingAverage) → (add v m).n ≡ m.n
unfolding add
add-n v m = ground arith

add-index :
    (v : ℕ) (m : MovingAverage)
    → (add v m).index ≡ (if leb m.n (m.index + 1) then 0 else m.index + 1)
unfolding add
add-index v m = refl

add-count :
    (v : ℕ) (m : MovingAverage)
    → (add v m).count ≡ (if ltb m.count m.n then m.count + 1 else m.count)
unfolding add
add-count v m = ground arith

add-sum :
    (v : ℕ) (m : MovingAverage)
    → (add v m).sum ≡ (
        if ltb m.count m.n
        then m.sum +ℤ pos v
        else m.sum -ℤ pos (get_or m.buffer m.index 0) +ℤ pos v)
unfolding add
add-sum v m = ground arith

-- A buffer that is not full yet takes the value behind the others.
add-Filling :
    (m : MovingAverage) (w : List ℕ) (v free : ℕ)
    → m.buffer ≡ w ++ replicate (suc free) 0
    → m.index ≡ length w
    → m.n ≡ length w + suc free
    → Filling (add v m) (w ++ (v ∷ [])) ⊎ Full (add v m) (w ++ (v ∷ []))
add-Filling m w v zero b i s = inr (
    Full-start (add v m) w v (add-buffer v m ∙ rw b (set_middle w [] 0 v m.index i))
      (add-index v m ∙ ground arith) (add-n v m ∙ omega arith))
add-Filling m w v (suc free) b i s = inl record {
  free = free;
  buffer =
      add-buffer v m
      ∙ rw b (set_middle w (0 ∷ replicate free 0) 0 v m.index i)
      ∙ sym (append_assoc w (v ∷ []) (0 ∷ replicate free 0));
  index = add-index v m ∙ ground (arith, length-append {0} w (v ∷ []));
  size = add-n v m ∙ omega (arith, length-append {0} w (v ∷ []));
}

-- A full one overwrites the oldest value.
add-Full :
    (m : MovingAverage) (newer older : List ℕ) (oldest v : ℕ)
    → m.buffer ≡ newer ++ (oldest ∷ older)
    → m.index ≡ length newer
    → m.n ≡ length newer + length older + 1
    → Full (add v m) ((older ++ newer) ++ (v ∷ []))
add-Full m newer [] oldest v b i s =
    Full-start (add v m) newer v (add-buffer v m ∙ rw b (set_middle newer [] oldest v m.index i))
      (add-index v m ∙ ground arith) (add-n v m ∙ omega arith)
add-Full m newer (o ∷ older) oldest v b i s = record {
  newer = newer ++ (v ∷ []);
  oldest = o;
  older = older;
  window = append_assoc (o ∷ older) newer (v ∷ []);
  buffer =
      add-buffer v m
      ∙ rw b (set_middle newer (o ∷ older) oldest v m.index i)
      ∙ sym (append_assoc newer (v ∷ []) (o ∷ older));
  index = add-index v m ∙ ground (arith, length-append {0} newer (v ∷ []));
  size =
      add-n v m
      ∙ omega
          (arith, length-append {0} ((o ∷ older) ++ newer) (v ∷ []), length-append {0} older newer);
}

Filling-Holds :
    (m : MovingAverage) (w : List ℕ) (v : ℕ)
    → m.count ≡ length w
    → m.sum ≡ pos (total w)
    → Filling m w
    → Holds (add v m) (w ++ (v ∷ []))
Filling-Holds m w v c s f = record {
  count = add-count v m ∙ ground (arith, f.size, length-append {0} w (v ∷ []));
  sum =
      add-sum v m
      ∙ rw (lt→ltb m.count m.n (omega (arith, f.size)), s)
          (eq_of_sides _ _ (omega (int_sides, total-append w (v ∷ []))));
  layout = add-Filling m w v f.free f.buffer f.index f.size;
}

Full-Holds :
    (m : MovingAverage) (newer older : List ℕ) (oldest v : ℕ)
    → m.count ≡ m.n
    → m.sum ≡ pos (oldest + total (older ++ newer))
    → m.buffer ≡ newer ++ (oldest ∷ older)
    → m.index ≡ length newer
    → m.n ≡ length newer + length older + 1
    → Holds (add v m) ((older ++ newer) ++ (v ∷ []))
Full-Holds m newer older oldest v c s b i n = record {
  count =
      add-count v m
      ∙ ground (arith, length-append {0} (older ++ newer) (v ∷ []), length-append {0} older newer);
  sum =
      add-sum v m
      ∙ rw (le→ltb m.count m.n (omega arith), s, b, get_middle newer older oldest m.index i)
          (eq_of_sides _ _ (omega (int_sides, total-append (older ++ newer) (v ∷ []))));
  layout = inr (add-Full m newer older oldest v b i n);
}

pub add-Holds :
    (m : MovingAverage) (w : List ℕ) (v : ℕ) → Holds m w → Holds (add v m) (slide m.n v w)
add-Holds m w v p = elim p.layout [
  | inl f ↦
      subst (λ b. Holds (add v m) ((if b then w else drop 1 w) ++ (v ∷ [])))
        (sym (lt→ltb (length w) m.n (omega (arith, f.size)))) (Filling-Holds m w v p.count p.sum f)
  | inr f ↦
      subst (λ b. Holds (add v m) ((if b then w else drop 1 w) ++ (v ∷ [])))
        (sym (le→ltb (length w) m.n (omega (arith, f.size))))
        (subst (λ u. Holds (add v m) (drop 1 u ++ (v ∷ []))) (sym f.window)
          (Full-Holds m f.newer f.older f.oldest v (p.count ∙ sym f.size)
            (p.sum ∙ ap (λ u. pos (total u)) f.window) f.buffer f.index
            (omega (arith, f.size, ap length f.window, length-append {0} f.older f.newer))))
]

pub drop-none : (k : ℕ) (xs : List ℕ) → k ≡ 0 → drop k xs ≡ xs
drop-none zero xs e = refl
drop-none (suc k) xs e = absurd (omega arith)

pub drop-suc : (k j x : ℕ) (xs : List ℕ) → k ≡ suc j → drop k (x ∷ xs) ≡ drop j xs
drop-suc zero j x xs e = absurd (omega arith)
drop-suc (suc k) j x xs e = ap (λ i. drop i xs) (omega (arith, e))
