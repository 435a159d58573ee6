-- ===== src/Console/Count.antt =====
-- The count of the command `l`: which lines have one, and which it is.
use pico_wenvironment_logger.Prelude.{
  ℕ, ◌+◌, ◌-◌, ◌*◌, ◌^◌, ◌<◌, min, true, false, ◌||◌, ltb, ◌==◌, if◌then◌else◌, List, [], ◌∷◌, ◌++◌,
  All, Option, none, some, ◌≡◌, ◌⊎◌, ◌↔◌, refl, sym, ap, ◌∙◌, arith, Bool-cases, inl, inr,
}
use pico_wenvironment_logger.Console.{
  is_blank, is_digit, skip_spaces, digits_from, count_at, parse_latest_count,
}
use pico_wenvironment_logger.Console.Digits.{
  IsBlank, IsDigit, decimal, NoDigit, is_digit_iff, skip_spaces_lem, skip_spaces-append,
  digits_from_lem, digits_from-append,
}

-- A letter, blanks, the digits of a number and anything else behind them.
pub record IsCount (cmd : List ℕ) (n : ℕ) : Type 0 where
  pub letter : ℕ
  pub blanks : List ℕ
  pub digit : ℕ
  pub digits : List ℕ
  pub rest : List ℕ
  pub is_letter : (letter ≡ b'l') ⊎ (letter ≡ b'L')
  pub are_blanks : All IsBlank blanks
  pub is_digit : IsDigit digit
  pub are_digits : All IsDigit digits
  pub ends : NoDigit rest
  pub layout : cmd ≡ letter ∷ (blanks ++ (digit ∷ (digits ++ rest)))
  pub nonzero : 0 < decimal 0 (digit ∷ digits)
  pub count : n ≡ min (decimal 0 (digit ∷ digits)) 100000

-- The clamping of the number.
clamped : ℕ → Option ℕ
clamped d =
    let value = min d (2 ^ 32 - 1) in
    if value == 0 then none else if ltb 100000 value then some 100000 else some value

clamped_iff : (d n : ℕ) → (clamped d ≡ some n) ↔ ((0 < d) × (n ≡ min d 100000))
unfolding clamped
clamped_iff d n = ground arith

record Counted (p : List ℕ) (n : ℕ) : Type 0 where
  pub digit : ℕ
  pub digits : List ℕ
  pub rest : List ℕ
  pub is_digit : IsDigit digit
  pub are_digits : All IsDigit digits
  pub ends : NoDigit rest
  pub layout : p ≡ digit ∷ (digits ++ rest)
  pub nonzero : 0 < decimal 0 (digit ∷ digits)
  pub count : n ≡ min (decimal 0 (digit ∷ digits)) 100000

count_at-digit :
    (c : ℕ) (p : List ℕ) → is_digit c ≡ true → count_at (c ∷ p) ≡ clamped (digits_from 0 (c ∷ p))
unfolding count_at clamped
count_at-digit c p e = rw (e, count_at)

count_at-other : (c : ℕ) (p : List ℕ) → is_digit c ≡ false → count_at (c ∷ p) ≡ none
unfolding count_at
count_at-other c p e = rw (e, count_at)

digits_from-digit :
    (n c : ℕ) (p : List ℕ)
    → is_digit c ≡ true
    → digits_from n (c ∷ p) ≡ digits_from (n * 10 + (c - b'0')) p
unfolding digits_from
digits_from-digit n c p e = rw (e, digits_from)

none-ne-some : (n : ℕ) → ¬ (none ≡ some n)
none-ne-some n e = cc

no_count : (n : ℕ) → ¬ (count_at [] ≡ some n)
unfolding count_at
no_count n e = cc

count_at_found : (p : List ℕ) (n : ℕ) → count_at p ≡ some n → Counted p n
count_at_found [] n h = absurd (no_count n h)
count_at_found (c ∷ p) n h = elim (Bool-cases (is_digit c)) [
  | inl e ↦
      let r = digits_from_lem (0 * 10 + (c - b'0')) p in
      let k =
        (clamped_iff (decimal 0 (c ∷ r.digits)) n).0 (
          ap clamped (sym (digits_from-digit 0 c p e ∙ r.value))
          ∙ sym (count_at-digit c p e)
          ∙ h) in
      record {
        digit = c;
        digits = r.digits;
        rest = r.rest;
        is_digit = (is_digit_iff c).0 e;
        are_digits = r.are_digits;
        ends = r.ends;
        layout = ap (λ t. c ∷ t) r.layout;
        nonzero = k.0;
        count = k.1;
      }
  | inr e ↦ absurd (none-ne-some n (sym (count_at-other c p e) ∙ h))
]

count_at_reads : (p : List ℕ) (n : ℕ) → Counted p n → count_at p ≡ some n
count_at_reads p n r =
    ap count_at r.layout
    ∙ count_at-digit r.digit (r.digits ++ r.rest) ((is_digit_iff r.digit).1 r.is_digit)
    ∙ ap clamped
        (digits_from-append 0 (r.digit ∷ r.digits) r.rest (r.is_digit, r.are_digits) r.ends)
    ∙ (clamped_iff (decimal 0 (r.digit ∷ r.digits)) n).1 (r.nonzero, r.count)

has_letter : (c : ℕ) → ((c == b'l' || c == b'L') ≡ true) ↔ ((c ≡ b'l') ⊎ (c ≡ b'L'))
has_letter c = ground arith

digit_no_blank : (c : ℕ) → IsDigit c → is_blank c ≡ false
unfolding is_blank
digit_no_blank c d = ground arith

parse_found : (cmd : List ℕ) (n : ℕ) → parse_latest_count cmd ≡ some n → IsCount cmd n
unfolding parse_latest_count
parse_found [] n h = absurd (none-ne-some n h)
parse_found (c ∷ p) n h = elim (Bool-cases (c == b'l' || c == b'L')) [
  | inl e ↦
      let s = skip_spaces_lem p in
      let r =
        count_at_found (skip_spaces p) n
          (sym (ap (λ b. if b then count_at (skip_spaces p) else none) e) ∙ h) in
      record {
        letter = c;
        blanks = s.blanks;
        digit = r.digit;
        digits = r.digits;
        rest = r.rest;
        is_letter = (has_letter c).0 e;
        are_blanks = s.are_blanks;
        is_digit = r.is_digit;
        are_digits = r.are_digits;
        ends = r.ends;
        layout = ap (λ t. c ∷ t) (s.layout ∙ ap (λ t. s.blanks ++ t) r.layout);
        nonzero = r.nonzero;
        count = r.count;
      }
  | inr e ↦
      absurd (none-ne-some n (sym (ap (λ b. if b then count_at (skip_spaces p) else none) e) ∙ h))
]

parse-letter :
    (c : ℕ) (p : List ℕ)
    → (c ≡ b'l') ⊎ (c ≡ b'L')
    → parse_latest_count (c ∷ p) ≡ count_at (skip_spaces p)
unfolding parse_latest_count
parse-letter c p l = ap (λ b. if b then count_at (skip_spaces p) else none) ((has_letter c).1 l)

parse_reads : (cmd : List ℕ) (n : ℕ) → IsCount cmd n → parse_latest_count cmd ≡ some n
parse_reads cmd n r =
    ap parse_latest_count r.layout
    ∙ parse-letter r.letter (r.blanks ++ (r.digit ∷ (r.digits ++ r.rest))) r.is_letter
    ∙ ap count_at (
        skip_spaces-append r.blanks (r.digits ++ r.rest) r.digit r.are_blanks
          (digit_no_blank r.digit r.is_digit))
    ∙ count_at_reads (r.digit ∷ (r.digits ++ r.rest)) n record {
      digit = r.digit;
      digits = r.digits;
      rest = r.rest;
      is_digit = r.is_digit;
      are_digits = r.are_digits;
      ends = r.ends;
      layout = refl;
      nonzero = r.nonzero;
      count = r.count;
    }

-- `parse_latest_count` gives `n` for exactly those lines that are an `l` or `L`, blanks and tabs or
-- none, and at least one digit, with no digit behind the last and anything else there, where the
-- number that the digits write is not 0 and `n` is this number or, above it, 100000; no wrap-around
-- of 32 bits shows.
pub parse_latest_count_iff :
    (cmd : List ℕ) (n : ℕ) → (parse_latest_count cmd ≡ some n) ↔ IsCount cmd n
parse_latest_count_iff cmd n = (parse_found cmd n, parse_reads cmd n)
