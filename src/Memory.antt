-- ===== src/Memory.antt =====
-- Flash memory as a function from addresses to bytes: ranges, programming and erasing.
pub mod Bytes
use pico_wenvironment_logger.Prelude.{
  ℕ, zero, suc, ◌+◌, ◌-◌, ◌≤◌, ◌<◌, bit_and, List, [], ◌∷◌, ◌++◌, length, take, drop, get_or, All,
  ◌≡◌, refl, ap, ap₂, ◌∙◌, fun_ext, length-append, get_or_append_left, sym, arith, ltb, leb,
  if◌then◌else◌, Bool, true, false, ◌&&◌, ◌==◌, ==_iff,
}

abbrev pub Memory : Type 0
Memory = ℕ → ℕ

-- The `n` bytes from `addr` on.
unfoldable pub slice : Memory → ℕ → ℕ → List ℕ
slice m addr zero = []
slice m addr (suc n) = m addr ∷ slice m (addr + 1) n

abbrev pub within : ℕ → ℕ → ℕ → Bool
within addr n a = if ltb a addr then false else ltb a (addr + n)

-- Programming clears bits and sets none.
unfoldable pub program : Memory → ℕ → List ℕ → Memory
program m addr bytes a =
    if within addr (length bytes) a then bit_and (m a) (get_or bytes (a - addr) 0) else m a

unfoldable pub erase : Memory → ℕ → ℕ → Memory
erase m addr n a = if within addr n a then 255 else m a

pub length-slice : (m : Memory) (addr n : ℕ) → length (slice m addr n) ≡ n
unfolding slice
length-slice m addr zero = refl
length-slice m addr (suc n) = ap suc (length-slice m (addr + 1) n)

pub slice-IsByte :
    (m : Memory) (addr n : ℕ) → ((a : ℕ) → m a < 256) → All (λ b. b < 256) (slice m addr n)
unfolding slice
slice-IsByte m addr zero h = tt
slice-IsByte m addr (suc n) h = (h addr, slice-IsByte m (addr + 1) n h)

pub slice-congr :
    (m k : Memory) (addr n : ℕ)
    → ((a : ℕ) → addr ≤ a → a < addr + n → m a ≡ k a)
    → slice m addr n ≡ slice k addr n
unfolding slice
slice-congr m k addr zero h = refl
slice-congr m k addr (suc n) h =
    ap₂ ◌∷◌ (h addr (omega arith) (omega arith))
      (slice-congr m k (addr + 1) n (λ a p q. h a (omega arith) (omega arith)))

pub slice-add :
    (m : Memory) (addr j n : ℕ) → slice m addr (j + n) ≡ slice m addr j ++ slice m (addr + j) n
unfolding slice
slice-add m addr zero n = ap₂ (slice m) (omega arith) (omega arith)
slice-add m addr (suc j) n =
    let e : suc j + n ≡ suc (j + n) = omega arith in
    let f : addr + 1 + j ≡ addr + suc j = omega arith in rw (e, slice-add m (addr + 1) j n, f) refl

pub get_or-slice :
    (m : Memory) (addr n i d : ℕ) → i < n → get_or (slice m addr n) i d ≡ m (addr + i)
unfolding slice
get_or-slice m addr zero i d h = absurd (omega arith)
get_or-slice m addr (suc n) zero d h = ap m (omega arith)
get_or-slice m addr (suc n) (suc i) d h =
    get_or-slice m (addr + 1) n i d (omega arith) ∙ ap m (omega arith)

-- A range that holds given bytes, position by position.
pub slice-eq :
    (m : Memory) (bytes : List ℕ) (addr : ℕ)
    → ((i : ℕ) → i < length bytes → m (addr + i) ≡ get_or bytes i 0)
    → slice m addr (length bytes) ≡ bytes
unfolding slice
slice-eq m [] addr h = refl
slice-eq m (x ∷ xs) addr h =
    ap₂ ◌∷◌ (ap m (omega arith) ∙ h 0 (omega arith))
      (slice-eq m xs (addr + 1) (λ i lt. ap m (omega arith) ∙ h (suc i) (omega arith)))

and_table : ℕ → ℕ → Bool
and_table zero n = true
and_table (suc k) n = (bit_and 255 k == k) && and_table k n

and_table_sound : (k n x : ℕ) → and_table k n ≡ true → x < k → (bit_and 255 x == x) ≡ true
unfolding and_table
and_table_sound zero n x h lt = absurd (omega arith)
and_table_sound (suc k) n x h lt = ground (arith, and_table_sound k n x)

and_table_256 : and_table 256 0 ≡ true
unfolding and_table
and_table_256 = refl

-- A byte programmed into an erased cell is read back.
pub bit_and_erased : (x : ℕ) → x < 256 → bit_and 255 x ≡ x
bit_and_erased x h = (==_iff _ x).0 (and_table_sound 256 0 x and_table_256 h)

take-slice : (m : Memory) (addr j n : ℕ) → j ≤ n → take j (slice m addr n) ≡ slice m addr j
unfolding slice
take-slice m addr zero n h = refl
take-slice m addr (suc j) zero h = absurd (omega arith)
take-slice m addr (suc j) (suc n) h =
    ap (λ t. m addr ∷ t) (take-slice m (addr + 1) j n (omega arith))

drop-slice :
    (m : Memory) (addr j n : ℕ) → j ≤ n → drop j (slice m addr n) ≡ slice m (addr + j) (n - j)
unfolding slice
drop-slice m addr zero n h = ap₂ (slice m) (omega arith) (omega arith)
drop-slice m addr (suc j) zero h = absurd (omega arith)
drop-slice m addr (suc j) (suc n) h =
    drop-slice m (addr + 1) j n (omega arith) ∙ ap₂ (slice m) (omega arith) (omega arith)

-- A part of a range is a range.
pub slice_part :
    (m : Memory) (addr i k n : ℕ)
    → i + k ≤ n
    → take k (drop i (slice m addr n)) ≡ slice m (addr + i) k
slice_part m addr i k n h =
    ap (take k) (drop-slice m addr i n (omega arith))
    ∙ take-slice m (addr + i) k (n - i) (omega arith)

get_or_append_right :
    (xs ys : List ℕ) (i : ℕ) → length xs ≤ i → get_or (xs ++ ys) i 0 ≡ get_or ys (i - length xs) 0
get_or_append_right [] ys i h = ap (λ k. get_or ys k 0) (omega arith)
get_or_append_right (x ∷ xs) ys zero h = absurd (omega arith)
get_or_append_right (x ∷ xs) ys (suc i) h =
    get_or_append_right xs ys i (omega arith) ∙ ap (λ k. get_or ys k 0) (omega arith)

-- Programming two runs of bytes one behind the other programs their concatenation.
pub program-append :
    (m : Memory) (addr : ℕ) (xs ys : List ℕ)
    → program (program m addr xs) (addr + length xs) ys ≡ program m addr (xs ++ ys)
unfolding program
program-append m addr xs ys = fun_ext λ a. ground (
  arith,
  length-append xs ys,
  get_or_append_left xs ys (a - addr) 0,
  get_or_append_right xs ys (a - addr),
  shifted a,
)
  where
    shifted : (a : ℕ) → get_or ys (a - (addr + length xs)) 0 ≡ get_or ys (a - addr - length xs) 0
    shifted a = ap (λ k. get_or ys k 0) (omega arith)

pub program_outside :
    (m : Memory) (addr : ℕ) (bytes : List ℕ) (a : ℕ)
    → within addr (length bytes) a ≡ false
    → program m addr bytes a ≡ m a
unfolding program
program_outside m addr bytes a h = rw h

pub program-nil : (m : Memory) (addr : ℕ) → program m addr [] ≡ m
unfolding program
program-nil m addr = fun_ext λ a. ground arith

All-get_or : (bytes : List ℕ) (i : ℕ) → All (λ b. b < 256) bytes → get_or bytes i 0 < 256
All-get_or [] i v = omega arith
All-get_or (x ∷ xs) zero v = v.0
All-get_or (x ∷ xs) (suc i) v = All-get_or xs i v.1

-- What is programmed into an erased range is read back from it.
pub slice-program :
    (m : Memory) (addr : ℕ) (bytes : List ℕ)
    → All (λ b. b < 256) bytes
    → ((a : ℕ) → addr ≤ a → a < addr + length bytes → m a ≡ 255)
    → slice (program m addr bytes) addr (length bytes) ≡ bytes
unfolding program
slice-program m addr bytes v blank = slice-eq (program m addr bytes) bytes addr λ i lt.
    let e : addr + i - addr ≡ i = omega arith in
    ground (arith, blank (addr + i), e, bit_and_erased (get_or bytes i 0) (All-get_or bytes i v))
