-- ===== src/Storage/Recovery.antt =====
-- What stands in the log area: the frames that a walk from its start meets, one after the other,
-- where at a byte that starts none the next byte is tried. The index of `rebuildIndexFromFlash` is
-- described by this list.
pub mod Walk
pub mod Extremes
pub mod Members
pub mod Rebuild
use pico_wenvironment_logger.Prelude.{
  ℕ, suc, ◌+◌, ◌≤◌, ◌<◌, List, [], ◌∷◌, ◌≡◌, ◌⊎◌, refl, sym, ap, ap₂, subst, arith, ◌∙◌,
}
use pico_wenvironment_logger.Memory.{Memory}
use pico_wenvironment_logger.Protocol.{LogFrameHeader}
use pico_wenvironment_logger.Frame.{frame_size}
use pico_wenvironment_logger.Storage.{Config, sub32}
use pico_wenvironment_logger.Storage.Frames.{FrameAt}

pub record Entry : Type 0 where
  pub addr : ℕ
  pub header : LogFrameHeader

abbrev pub size : Entry → ℕ
size e = frame_size e.header.length

abbrev pub seq : Entry → ℕ
seq e = e.header.seq

abbrev pub IsEntry : Memory → Config → Entry → Type 0
IsEntry m c e = FrameAt m c e.addr e.header (size e)

abbrev pub NoFrame : Memory → Config → ℕ → Type 0
NoFrame m c a = (h : LogFrameHeader) (n : ℕ) → ¬ FrameAt m c a h n

pub data Frames (m : Memory) (c : Config) : ℕ → List Entry → Type 0 where
  done : {a : ℕ} → c.end_addr ≤ a → Frames m c a []
  skip :
      {a : ℕ} {es : List Entry}
      → a < c.end_addr
      → NoFrame m c a
      → Frames m c (suc a) es
      → Frames m c a es
  frame :
      {a : ℕ} {es : List Entry} (e : Entry)
      → a < c.end_addr
      → e.addr ≡ a
      → IsEntry m c e
      → Frames m c (a + size e) es
      → Frames m c a (e ∷ es)

abbrev pub Member : Entry → List Entry → Type 0
Member e [] = ⊥
Member e (x ∷ xs) = (e ≡ x) ⊎ Member e xs

-- How far a sequence number is behind `base`, on 32 bits.
abbrev pub age : ℕ → ℕ → ℕ
age base s = sub32 s base
