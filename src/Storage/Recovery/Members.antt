-- ===== src/Storage/Recovery/Members.antt =====
-- What the members of the list of frames have, and where the next frame goes.
use pico_wenvironment_logger.Prelude.{
  ℕ, ◌+◌, ◌-◌, ◌^◌, ◌≤◌, ◌<◌, ◌==◌, if◌then◌else◌, List, [], ◌∷◌, length, All, sym, subst, arith,
  inl, inr,
}
use pico_wenvironment_logger.Memory.{Memory}
use pico_wenvironment_logger.Storage.{Config, wrap_address, next_sector_address}
use pico_wenvironment_logger.Storage.Recovery.{
  Entry, seq, IsEntry, Frames, done, skip, frame, Member, age,
}
use pico_wenvironment_logger.Storage.Recovery.Extremes.{Near}

-- Where the next frame goes: a place whose byte is not erased is left for the next sector.
abbrev pub settled : Memory → Config → ℕ → ℕ
settled m c a = if m a == 255 then a else wrap_address c (next_sector_address a)

abbrev pub Young : ℕ → Entry → Type 0
Young base e = age base (seq e) < 2 ^ 31

pub Young-Near :
    {m : Memory} {c : Config} {a : ℕ} {es : List Entry} (base : ℕ)
    → Frames m c a es
    → All (Young base) es
    → All (Near base) es
Young-Near base (done h) y = tt
Young-Near base (skip h n r) y = Young-Near base r y
Young-Near base (frame e h p f r) y = ((f.header.seq_fits, y.0), Young-Near base r y.1)

pub length-Frames :
    {m : Memory} {c : Config} {a : ℕ} {es : List Entry}
    → Frames m c a es
    → length es ≤ c.end_addr - a
length-Frames (done h) = omega arith
length-Frames (skip h n r) = omega (arith, length-Frames r)
length-Frames (frame e h p f r) = omega (arith, length-Frames r, f.to)

pub Frames-Member :
    {m : Memory} {c : Config} {a : ℕ} {es : List Entry}
    → Frames m c a es
    → (e : Entry) → Member e es
    → IsEntry m c e
Frames-Member (done h) e p = absurd p
Frames-Member (skip h n r) e p = Frames-Member r e p
Frames-Member {m} {c} (frame x h q f r) e p = elim p [
  | inl w ↦ subst (IsEntry m c) (sym w) f
  | inr w ↦ Frames-Member r e w
]

pub all_fit :
    {m : Memory} {c : Config} {a : ℕ} {es : List Entry}
    → Frames m c a es
    → All (λ x. seq x < 2 ^ 32) es
all_fit (done h) = tt
all_fit (skip h n r) = all_fit r
all_fit (frame e h p f r) = (f.header.seq_fits, all_fit r)

pub All-weaken :
    (base : ℕ) (es : List Entry) → All (λ e. age base (seq e) + 1 < 2 ^ 31) es → All (Young base) es
All-weaken base [] y = tt
All-weaken base (e ∷ es) y = (omega (arith, y.0), All-weaken base es y.1)

pub Member-All : (P : Entry → Type 0) (es : List Entry) (e : Entry) → Member e es → All P es → P e
Member-All P [] e m y = absurd m
Member-All P (x ∷ es) e m y = elim m [
  | inl p ↦ subst P (sym p) y.0
  | inr p ↦ Member-All P es e p y.1
]
