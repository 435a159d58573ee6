-- ===== src/Console/Digits.antt =====
-- Blanks and the digits of a number: how far skipSpaces and strtoul go.
use pico_wenvironment_logger.Prelude.{
  ℕ, ◌+◌, ◌-◌, ◌*◌, ◌≤◌, true, false, List, [], ◌∷◌, ◌++◌, All, ◌≡◌, ◌⊎◌, ◌↔◌, refl, ap, arith,
  Bool-cases, inl, inr,
}
use pico_wenvironment_logger.Console.{is_blank, is_digit, skip_spaces, digits_from}

abbrev pub IsBlank : ℕ → Type 0
IsBlank c = (c ≡ b' ') ⊎ (c ≡ b'\t')

abbrev pub IsDigit : ℕ → Type 0
IsDigit c = (b'0' ≤ c) × (c ≤ b'9')

-- The number that digits write, behind those of `n`.
abbrev pub decimal : ℕ → List ℕ → ℕ
decimal n [] = n
decimal n (c ∷ digits) = decimal (n * 10 + (c - b'0')) digits

abbrev pub NoDigit : List ℕ → Type 0
NoDigit [] = Unit
NoDigit (c ∷ rest) = ¬ (IsDigit c)

is_blank_iff : (c : ℕ) → (is_blank c ≡ true) ↔ IsBlank c
unfolding is_blank
is_blank_iff c = ground arith

pub is_digit_iff : (c : ℕ) → (is_digit c ≡ true) ↔ IsDigit c
unfolding is_digit
is_digit_iff c = ground arith

pub record Skipped (p : List ℕ) : Type 0 where
  pub blanks : List ℕ
  pub are_blanks : All IsBlank blanks
  pub layout : p ≡ blanks ++ skip_spaces p

pub skip_spaces_lem : (p : List ℕ) → Skipped p
unfolding skip_spaces
skip_spaces_lem [] = record { blanks = []; are_blanks = tt; layout = refl }
skip_spaces_lem (c ∷ p) = elim (Bool-cases (is_blank c)) [
  | inl e ↦
      let r = skip_spaces_lem p in
      record {
        blanks = c ∷ r.blanks;
        are_blanks = ((is_blank_iff c).0 e, r.are_blanks);
        layout = rw e (ap (λ t. c ∷ t) r.layout);
      }
  | inr e ↦ record { blanks = []; are_blanks = tt; layout = rw e }
]

-- Behind blanks, at a character that is none.
pub skip_spaces-append :
    (blanks p : List ℕ) (c : ℕ)
    → All IsBlank blanks
    → is_blank c ≡ false
    → skip_spaces (blanks ++ (c ∷ p)) ≡ c ∷ p
unfolding skip_spaces
skip_spaces-append [] p c b e = rw e
skip_spaces-append (x ∷ blanks) p c b e =
    rw ((is_blank_iff x).1 b.0) (skip_spaces-append blanks p c b.1 e)

pub record Spanned (n : ℕ) (p : List ℕ) : Type 0 where
  pub digits : List ℕ
  pub rest : List ℕ
  pub are_digits : All IsDigit digits
  pub ends : NoDigit rest
  pub layout : p ≡ digits ++ rest
  pub value : digits_from n p ≡ decimal n digits

pub digits_from_lem : (n : ℕ) (p : List ℕ) → Spanned n p
unfolding digits_from
digits_from_lem n [] = record {
  digits = [];
  rest = [];
  are_digits = tt;
  ends = tt;
  layout = refl;
  value = refl;
}
digits_from_lem n (c ∷ p) = elim (Bool-cases (is_digit c)) [
  | inl e ↦
      let r = digits_from_lem (n * 10 + (c - b'0')) p in
      record {
        digits = c ∷ r.digits;
        rest = r.rest;
        are_digits = ((is_digit_iff c).0 e, r.are_digits);
        ends = r.ends;
        layout = ap (λ t. c ∷ t) r.layout;
        value = rw (e, digits_from) r.value;
      }
  | inr e ↦ record {
    digits = [];
    rest = c ∷ p;
    are_digits = tt;
    ends = λ d. cc ((is_digit_iff c).1 d, e);
    layout = refl;
    value = rw (e, digits_from);
  }
]

pub digits_from-append :
    (n : ℕ) (digits rest : List ℕ)
    → All IsDigit digits
    → NoDigit rest
    → digits_from n (digits ++ rest) ≡ decimal n digits
unfolding digits_from
digits_from-append n [] [] d e = refl
digits_from-append n [] (c ∷ rest) d e = elim (Bool-cases (is_digit c)) [
  | inl t ↦ absurd (e ((is_digit_iff c).0 t))
  | inr t ↦ rw (t, digits_from)
]
digits_from-append n (c ∷ digits) rest d e =
    rw ((is_digit_iff c).1 d.0, digits_from)
      (digits_from-append (n * 10 + (c - b'0')) digits rest d.1 e)
