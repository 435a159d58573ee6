-- ===== src/Console/Line.antt =====
-- The edited line: the buffer with its write position is a list of characters.
use pico_wenvironment_logger.Prelude.{
  ℕ, zero, suc, ◌+◌, ◌-◌, ◌≤◌, ◌<◌, Bool, true, false, ◌||◌, ltb, ◌==◌, if◌then◌else◌, List, [],
  ◌∷◌, ◌++◌, length, take, set, u8, Option, none, some, ◌≡◌, refl, sym, ap, ◌∙◌, arith, tests,
  length-set, length-append, length-take, Bool-cases, inl, inr, lt→ltb, le→ltb,
}
use pico_wenvironment_logger.Console.{Console, cmd_buf_size, c_string, console_key}

abbrev pub ends_line : ℕ → Bool
ends_line ch = ch == b'\r' || ch == b'\n'

abbrev pub deletes : ℕ → Bool
deletes ch = ch == 0x08 || ch == 0x7f

-- A key that does not end the line: the last character is deleted, or one more stands at the end,
-- unless there are 31, which are given up together with it.
abbrev pub edit : ℕ → List ℕ → List ℕ
edit ch line =
    if deletes ch
    then take (length line - 1) line
    else if ltb (length line) 31
    then line ++ (u8 ch ∷ [])
    else []

-- The command lines that keys make of the line so far. A timeout changes nothing.
abbrev pub line_ends : List ℕ → List (List ℕ) → List (List ℕ)
line_ends [] rest = rest
line_ends (c ∷ line) rest = c_string (c ∷ line) ∷ rest

abbrev pub lines : List (Option ℕ) → List ℕ → List (List ℕ)
lines [] line = []
lines (none ∷ keys) line = lines keys line
lines (some ch ∷ keys) line = elim (ends_line ch) [
  | true ↦ line_ends line (lines keys [])
  | false ↦ lines keys (edit ch line)
]

-- The same keys given to the task.
abbrev pub put : Option (List ℕ) → List (List ℕ) → List (List ℕ)
put none rest = rest
put (some cmd) rest = cmd ∷ rest

abbrev pub commands : List (Option ℕ) → Console → List (List ℕ)
commands [] s = []
commands (key ∷ keys) s = put (console_key key s).0 (commands keys (console_key key s).1)

abbrev pub after_keys : List (Option ℕ) → Console → Console
after_keys [] s = s
after_keys (key ∷ keys) s = after_keys keys (console_key key s).1

record IsLine (s : Console) (line : List ℕ) : Type 0 where
  pub size : length s.cmd_buf ≡ cmd_buf_size
  pub pos : s.pos ≡ length line
  pub short : length line < cmd_buf_size
  pub text : take s.pos s.cmd_buf ≡ line

take-set :
    (xs : List ℕ) (i v : ℕ) → i < length xs → take (suc i) (set xs i v) ≡ take i xs ++ (v ∷ [])
take-set [] i v h = absurd (omega arith)
take-set (x ∷ xs) zero v h = refl
take-set (x ∷ xs) (suc i) v h = ap (λ t. x ∷ t) (take-set xs i v (omega arith))

take-take : (i j : ℕ) (xs : List ℕ) → i ≤ j → take i (take j xs) ≡ take i xs
take-take zero j xs h = refl
take-take (suc i) zero xs h = absurd (omega arith)
take-take (suc i) (suc j) [] h = refl
take-take (suc i) (suc j) (x ∷ xs) h = ap (λ t. x ∷ t) (take-take i j xs (omega arith))

c_string-set : (xs : List ℕ) (i : ℕ) → i < length xs → c_string (set xs i 0) ≡ c_string (take i xs)
c_string-set [] i h = absurd (omega arith)
c_string-set (x ∷ xs) zero h = refl
c_string-set (x ∷ xs) (suc i) h =
    ap (λ t. if x == 0 then [] else x ∷ t) (c_string-set xs i (omega arith))

delete-IsLine :
    (s : Console) (line : List ℕ)
    → IsLine s line
    → IsLine (if ltb 0 s.pos then record s { pos = s.pos - 1 } else s) (take (length line - 1) line)
delete-IsLine s [] p = rw (le→ltb 0 s.pos (omega (arith, p.pos))) p
delete-IsLine s (c ∷ cs) p = rw (lt→ltb 0 s.pos (omega (arith, p.pos))) record {
  size = p.size;
  pos = omega (arith, p.pos, length-take {0} (length (c ∷ cs) - 1) (c ∷ cs));
  short = omega (arith, p.short, length-take {0} (length (c ∷ cs) - 1) (c ∷ cs));
  text =
      sym (take-take (s.pos - 1) s.pos s.cmd_buf (omega arith))
      ∙ ap (take (s.pos - 1)) p.text
      ∙ ap (λ k. take k (c ∷ cs)) (omega (arith, p.pos));
}

type-IsLine :
    (ch : ℕ) (s : Console) (line : List ℕ)
    → length line < 31
    → IsLine s line
    → IsLine (record { cmd_buf = set s.cmd_buf s.pos ch; pos = s.pos + 1 }) (line ++ (ch ∷ []))
type-IsLine ch s line h p = record {
  size = length-set s.cmd_buf s.pos ch ∙ p.size;
  pos = omega (arith, p.pos, length-append {0} line (ch ∷ []));
  short = omega (arith, h, length-append {0} line (ch ∷ []));
  text =
      ap (λ k. take k (set s.cmd_buf s.pos ch)) {y = suc s.pos} (omega arith)
      ∙ take-set s.cmd_buf s.pos ch (omega (arith, p.pos, p.size))
      ∙ ap (λ t. t ++ (ch ∷ [])) p.text;
}

empty-IsLine :
    (buf : List ℕ) → length buf ≡ cmd_buf_size → IsLine (record { cmd_buf = buf; pos = 0 }) []
empty-IsLine buf e = record { size = e; pos = refl; short = omega arith; text = refl }

-- A key inside the line.
edit-IsLine :
    (ch : ℕ) (s : Console) (line : List ℕ)
    → ends_line ch ≡ false
    → IsLine s line
    → ((console_key (some ch) s).0 ≡ none) × IsLine (console_key (some ch) s).1 (edit ch line)
unfolding console_key
edit-IsLine ch s line e p = elim (Bool-cases (deletes ch)) [
  | inl d ↦ rw (e, d) (refl, delete-IsLine s line p)
  | inr d ↦ elim (Bool-cases (ltb (length line) 31)) [
    | inl h ↦
        rw (e, d, h, lt→ltb s.pos 31 (omega (tests, h, p.pos)))
          (refl, type-IsLine (u8 ch) s line (omega (tests, h)) p)
    | inr h ↦
        rw (e, d, h, le→ltb s.pos 31 (omega (tests, h, p.pos)))
          (refl, empty-IsLine s.cmd_buf p.size)
  ]
]

end-command :
    (s : Console) (line : List ℕ) (rest : List (List ℕ))
    → IsLine s line
    → put (if ltb 0 s.pos then some (c_string (set s.cmd_buf s.pos 0)) else none) rest
      ≡ line_ends line rest
end-command s [] rest p = rw (le→ltb 0 s.pos (omega (arith, p.pos)))
end-command s (c ∷ cs) rest p = rw (lt→ltb 0 s.pos (omega (arith, p.pos))) (
    ap (λ t. t ∷ rest)
      (c_string-set s.cmd_buf s.pos (omega (arith, p.pos, p.short, p.size)) ∙ ap c_string p.text))

end-IsLine :
    (ch : ℕ) (s : Console) (line : List ℕ)
    → ends_line ch ≡ true
    → IsLine s line
    → ((rest : List (List ℕ)) → put (console_key (some ch) s).0 rest ≡ line_ends line rest)
      × IsLine (console_key (some ch) s).1 []
unfolding console_key
end-IsLine ch s line e p = rw e (
  λ rest. end-command s line rest p,
  empty-IsLine (set s.cmd_buf s.pos 0) (length-set s.cmd_buf s.pos 0 ∙ p.size),
)

abbrev Agree : List (Option ℕ) → Console → List (List ℕ) → Type 0
Agree keys s cmds = (commands keys s ≡ cmds) × ((after_keys keys s).pos < cmd_buf_size)

timeout-Agree :
    (keys : List (Option ℕ)) (s : Console) (cmds : List (List ℕ))
    → Agree keys s cmds
    → Agree (none ∷ keys) s cmds
unfolding console_key
timeout-Agree keys s cmds p = p

commands-eq-lines :
    (keys : List (Option ℕ)) (s : Console) (line : List ℕ)
    → IsLine s line
    → Agree keys s (lines keys line)
commands-eq-lines [] s line p = (refl, omega (arith, p.pos, p.short))
commands-eq-lines (none ∷ keys) s line p =
    timeout-Agree keys s (lines keys line) (commands-eq-lines keys s line p)
commands-eq-lines (some ch ∷ keys) s line p = elim (Bool-cases (ends_line ch)) [
  | inl e ↦
      let (f, q) = end-IsLine ch s line e p in
      let (r, b) = commands-eq-lines keys (console_key (some ch) s).1 [] q in
      rw (e, lines) (ap (put (console_key (some ch) s).0) r ∙ f (lines keys []), b)
  | inr e ↦
      let (f, q) = edit-IsLine ch s line e p in
      let (r, b) = commands-eq-lines keys (console_key (some ch) s).1 (edit ch line) q in
      rw (e, lines) (ap (λ o. put o (commands keys (console_key (some ch) s).1)) f ∙ r, b)
]

-- Whatever keys come in, with timeouts between them, and whatever the buffer of 32 bytes held at the
-- start, the commands that the task executes are the lines that were typed, edited as a list of
-- characters and cut at a NUL, those that are empty left out; and the write position stays inside
-- the buffer.
pub commands_lem :
    (keys : List (Option ℕ)) (buf : List ℕ)
    → length buf ≡ cmd_buf_size
    → let s : Console = record { cmd_buf = buf; pos = 0 } in
      (commands keys s ≡ lines keys []) × ((after_keys keys s).pos < cmd_buf_size)
commands_lem keys buf e =
    commands-eq-lines keys (record { cmd_buf = buf; pos = 0 }) [] (empty-IsLine buf e)
