-- ===== src/Uart/Mask.antt =====
-- The mask of a power of two is the remainder.
use Prim.Native.Nat.{digits, bit_and-bitwise}
use native.Mathlib.Nat.{
  pow-suc, mod-lt, mod-eq_of_lt, mul-add-mod_self_right, div-add-mod', mod-eq-sub-mod,
  pow-le-pow_right, one-le-pow, mul_assoc, suc-mul, mul-one, zero-mod,
}
use pico_wenvironment_logger.Prelude.{
  ℕ, zero, suc, ◌+◌, ◌-◌, ◌*◌, ◌/◌, ◌%◌, ◌^◌, ◌≤◌, ◌<◌, min, bit_and, ◌≡◌, sym, ap, subst, ◌∙◌,
  arith,
}
use pico_wenvironment_logger.Uart.{mask}

-- Of a number written as a multiple and a rest.
rest-mod : (q r n : ℕ) → r < n → (q * n + r) % n ≡ r
rest-mod q r n h = mul-add-mod_self_right q n r ∙ mod-eq_of_lt h

pow_pos : (j : ℕ) → 0 < 2 ^ j
pow_pos j = one-le-pow j 2 (omega arith)

-- A remainder by a power of two, digit by digit.
mod-half : (a k : ℕ) → a % 2 ^ suc k ≡ a / 2 % 2 ^ k * 2 + a % 2
mod-half a k =
    ap (λ n. a % n) (pow-suc 2 k)
    ∙ ap (λ x. x % (p * 2)) whole
    ∙ rest-mod (a / 2 / p) (a / 2 % p * 2 + a % 2) (p * 2)
        (omega (arith, mod-lt (a / 2) (pow_pos k)))
  where
    p : ℕ
    p = 2 ^ k

    twice : (x y : ℕ) → x * (y * 2) ≡ x * y * 2
    twice x y = omega arith

    whole : a ≡ a / 2 / p * (p * 2) + (a / 2 % p * 2 + a % 2)
    whole = omega (arith, div-add-mod' (a / 2) p, twice (a / 2 / p) p)

-- The conjunction with a row of ones, where `fuel` counts its digits.
ones-digits : (fuel k a : ℕ) → a ≤ fuel → digits (λ b. zero) min fuel a (2 ^ k - 1) ≡ a % 2 ^ k
ones-digits zero k a h = sym (ap (λ x. x % 2 ^ k) {y = 0} (omega arith) ∙ zero-mod (2 ^ k))
ones-digits (suc fuel) k zero h = sym (zero-mod (2 ^ k))
ones-digits (suc fuel) zero (suc a) h =
    let rest = ones-digits fuel zero (suc a / 2) (omega arith) in omega (arith, rest)
ones-digits (suc fuel) (suc k) (suc a) h =
    let p = pow-suc 2 k in
    let q = pow_pos k in
    let half : (2 ^ suc k - 1) / 2 ≡ 2 ^ k - 1 = omega (arith, p, q) in
    let rest =
      ap (digits (λ b. zero) min fuel (suc a / 2)) half
      ∙ ones-digits fuel k (suc a / 2) (omega arith) in
    omega (arith, rest, p, q, mod-half (suc a) k)

bit_and-ones : (k a : ℕ) → bit_and a (2 ^ k - 1) ≡ a % 2 ^ k
bit_and-ones k a = bit_and-bitwise a (2 ^ k - 1) ∙ ones-digits a k a (omega arith)

-- The sizes that `init` accepts, as far as 16-bit positions reach.
pub record IsSize (n : ℕ) : Type 0 where
  pub k : ℕ
  pub power : n ≡ 2 ^ k
  pub from : 1 ≤ k
  pub to : k ≤ 16

pub size_bounds : (n : ℕ) → IsSize n → (2 ≤ n) × (n ≤ 65536)
size_bounds n v = (
  subst (λ m. 2 ≤ m) (sym v.power) (pow-le-pow_right {n = 2} (omega arith) v.from),
  subst (λ m. m ≤ 65536) (sym v.power) (pow-le-pow_right {n = 2} (omega arith) v.to),
)

mask-mod : (n x : ℕ) → IsSize n → mask n x ≡ x % 2 ^ 32 % n
mask-mod n x v =
    ap (λ m. bit_and (x % 2 ^ 32) (m - 1)) v.power
    ∙ bit_and-ones v.k (x % 2 ^ 32)
    ∙ ap (λ m. x % 2 ^ 32 % m) (sym v.power)

pub mask_small : (n x : ℕ) → IsSize n → x < n → mask n x ≡ x
mask_small n x v h =
    mask-mod n x v ∙ ap (λ y. y % n) (omega (arith, (size_bounds n v).1)) ∙ mod-eq_of_lt h

pub mask_wrap : (n x : ℕ) → IsSize n → n ≤ x → x < n + n → mask n x ≡ x - n
mask_wrap n x v h k =
    mask-mod n x v
    ∙ ap (λ y. y % n) (omega (arith, (size_bounds n v).1))
    ∙ mod-eq-sub-mod h
    ∙ mod-eq_of_lt (omega arith)

pow-add : (i j : ℕ) → 2 ^ (i + j) ≡ 2 ^ j * 2 ^ i
pow-add zero j = ap (λ e. 2 ^ e) (omega arith) ∙ sym (mul-one (2 ^ j))
pow-add (suc i) j =
    ap (λ e. 2 ^ e) (omega arith)
    ∙ pow-suc 2 (i + j)
    ∙ ap (λ x. x * 2) (pow-add i j)
    ∙ mul_assoc (2 ^ j) (2 ^ i) 2
    ∙ ap (λ x. 2 ^ j * x) (sym (pow-suc 2 i))

-- The 32-bit difference of two positions.
pub mask_below : (n m : ℕ) → IsSize n → 1 ≤ m → m ≤ n → mask n (2 ^ 32 - m) ≡ n - m
mask_below n m v pos h =
    mask-mod n (2 ^ 32 - m) v
    ∙ ap (λ y. y % n) (omega (arith, whole, pred, (size_bounds n v).1))
    ∙ rest-mod (q - 1) (n - m) n (omega arith)
  where
    q : ℕ
    q = 2 ^ (32 - v.k)

    whole : 2 ^ 32 ≡ q * n
    whole =
        ap (λ e. 2 ^ e) {x = 32} (omega (arith, v.to))
        ∙ pow-add v.k (32 - v.k)
        ∙ ap (λ x. q * x) (sym v.power)

    q_pos : 1 ≤ q
    q_pos = one-le-pow (32 - v.k) 2 (omega arith)

    pred : q * n ≡ (q - 1) * n + n
    pred = ap (λ x. x * n) (omega (arith, q_pos)) ∙ suc-mul (q - 1) n
