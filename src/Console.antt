-- ===== src/Console.antt =====
-- src/task_command.cpp: the command line that the task edits, and the commands it knows. Prompts
-- and echoed characters are left out.
pub mod Line
pub mod Digits
pub mod Count
pub mod Commands
use pico_wenvironment_logger.Prelude.{
  ℕ, zero, suc, ◌+◌, ◌-◌, ◌*◌, ◌^◌, min, Bool, true, false, ◌&&◌, ◌||◌, ltb, leb, ◌==◌,
  if◌then◌else◌, List, [], ◌∷◌, set, u8, Option, none, some,
}

pub record Console : Type 0 where
  pub cmd_buf : List ℕ
  pub pos : ℕ

abbrev pub cmd_buf_size : ℕ
cmd_buf_size = 32

-- The characters of a C string: those before the first NUL.
abbrev pub c_string : List ℕ → List ℕ
c_string [] = []
c_string (c ∷ cs) = if c == 0 then [] else c ∷ c_string cs

-- One character from `getchar_timeout_us`, `none` for PICO_ERROR_TIMEOUT; the first result is the
-- command that the end of a line which is not empty gives.
unfoldable pub console_key : Option ℕ → Console → Option (List ℕ) × Console
console_key none s = (none, s)
console_key (some ch) s =
    if ch == b'\r' || ch == b'\n'
    then (let buf = set s.cmd_buf s.pos 0 in
        (if ltb 0 s.pos then some (c_string buf) else none, record { cmd_buf = buf; pos = 0 }))
    else if ch == 0x08 || ch == 0x7f
    then (none, if ltb 0 s.pos then record s { pos = s.pos - 1 } else s)
    else if ltb s.pos (cmd_buf_size - 1)
    then (none, record { cmd_buf = set s.cmd_buf s.pos (u8 ch); pos = s.pos + 1 })
    else (none, record s { pos = 0 })

unfoldable pub is_blank : ℕ → Bool
is_blank c = c == b' ' || c == b'\t'

unfoldable pub is_digit : ℕ → Bool
is_digit c = leb b'0' c && leb c b'9'

unfoldable pub skip_spaces : List ℕ → List ℕ
skip_spaces [] = []
skip_spaces (c ∷ p) = if is_blank c then skip_spaces p else c ∷ p

-- `strtoul(p, &endp, 10)` of the C library at a digit: the number of the digits at the start, or
-- ULONG_MAX, with 32 bits, above it.
unfoldable pub digits_from : ℕ → List ℕ → ℕ
unfolding is_digit
digits_from n [] = n
digits_from n (c ∷ p) = elim (is_digit c) [ true ↦ digits_from (n * 10 + (c - b'0')) p | false ↦ n ]

unfoldable pub strtoul : List ℕ → ℕ
unfolding digits_from
strtoul p = min (digits_from 0 p) (2 ^ 32 - 1)

-- The count at `p`, behind the letter and the spaces.
unfoldable pub count_at : List ℕ → Option ℕ
unfolding is_digit strtoul
count_at [] = none
count_at (c ∷ p) =
    if is_digit c
    then (let value = strtoul (c ∷ p) in
        if value == 0 then none else if ltb 100000 value then some 100000 else some value)
    else none

unfoldable pub parse_latest_count : List ℕ → Option ℕ
unfolding skip_spaces count_at is_blank
parse_latest_count [] = none
parse_latest_count (c ∷ p) = if c == b'l' || c == b'L' then count_at (skip_spaces p) else none

pub data Command : Type 0 where
  help status pause resume send_all erase : Command
  latest : ℕ → Command
  unknown : Command

-- `strcmp` against one letter, in both cases.
unfoldable pub is_letter : ℕ → ℕ → List ℕ → Bool
is_letter lower upper [] = false
is_letter lower upper (c ∷ []) = c == lower || c == upper
is_letter lower upper (c ∷ d ∷ rest) = false

unfoldable pub command_of : List ℕ → Command
unfolding is_letter parse_latest_count
command_of cmd =
    if is_letter b'h' b'H' cmd
    then help
    else if is_letter b's' b'S' cmd
    then status
    else if is_letter b'p' b'P' cmd
    then pause
    else if is_letter b'r' b'R' cmd
    then resume
    else if is_letter b'a' b'A' cmd
    then send_all
    else if is_letter b'e' b'E' cmd
    then erase
    else elim (parse_latest_count cmd) [ none ↦ unknown | some n ↦ latest n ]
