-- ===== src/Storage/Layout.antt =====
-- Where addresses stay and where a frame goes; sequence numbers across the wrap at 2^32.
use pico_wenvironment_logger.Prelude.{
  ℕ, ◌+◌, ◌-◌, ◌/◌, ◌%◌, ◌^◌, ◌≤◌, ◌<◌, true, false, ◌≡◌, ◌↔◌, ◌⊎◌, arith, ◌*◌, ltb, leb,
  if◌then◌else◌,
}
use pico_wenvironment_logger.Driver.{sector_size}
use pico_wenvironment_logger.Storage.{
  Config, is_config_valid, wrap_address, next_sector_address, current_sector_end, is_seq_newer,
}
use pico_wenvironment_logger.Storage.Frames.{IsConfig}
use pico_wenvironment_logger.Storage.Append.{frame_address}

-- `isConfigValid` accepts exactly the areas that are not empty, made of whole sectors, and inside
-- the chip.
pub is_config_valid_iff : (c : Config) → (is_config_valid c ≡ true) ↔ IsConfig c
unfolding is_config_valid
is_config_valid_iff c = (
  λ h. record {
    ordered = ground arith;
    start_aligned = ground arith;
    end_aligned = ground arith;
    inside = ground arith;
  },
  λ v. ground arith,
)

-- An address of the area.
pub record InArea (c : Config) (a : ℕ) : Type 0 where
  pub from : c.start_addr ≤ a
  pub below : a < c.end_addr

pub wrap_address-InArea :
    (c : Config) (a : ℕ) → IsConfig c → c.start_addr ≤ a → InArea c (wrap_address c a)
unfolding wrap_address
wrap_address-InArea c a v h = record { from = ground arith; below = ground arith }

pub frame_address_fits :
    (c : Config) (w len : ℕ)
    → IsConfig c
    → InArea c w
    → 0 < len
    → len ≤ sector_size
    → let a = frame_address c w len in
      (c.start_addr ≤ a)
      × (a + len ≤ c.end_addr)
      × (a / sector_size ≡ (a + len - 1) / sector_size)
      × ((a ≡ w) ⊎ (a % sector_size ≡ 0))
unfolding frame_address wrap_address current_sector_end next_sector_address
frame_address_fits c w len v i pos short = (ground arith, ground arith, ground arith, ground arith)

-- The place for `len` bytes: the write address, if they fit between it and the end of its sector;
-- otherwise the start of the next sector, or of the area if that was its last one.
abbrev pub place_for : Config → ℕ → ℕ → ℕ
place_for c w len =
    let next : ℕ = (w / sector_size + 1) * sector_size in
    if leb (w % sector_size + len) sector_size
    then w
    else if ltb next c.end_addr
    then next
    else c.start_addr

-- Where a frame of at least one byte and at most a sector goes, from a write address in the area:
-- to the write address, if the frame fits between it and the end of its sector; otherwise to the
-- start of the next sector, or of the area if that was its last one. There it lies inside the area
-- and inside one sector.
pub frame_address_lem :
    (c : Config) (w len : ℕ)
    → IsConfig c
    → InArea c w
    → 0 < len
    → len ≤ sector_size
    → let a = frame_address c w len in
      (a ≡ place_for c w len)
      × (c.start_addr ≤ a)
      × (a + len ≤ c.end_addr)
      × (a / sector_size ≡ (a + len - 1) / sector_size)
unfolding frame_address wrap_address current_sector_end next_sector_address
frame_address_lem c w len v i pos short =
    let fits = frame_address_fits c w len v i pos short in (ground arith, fits.0, fits.1, fits.2)

-- Of two sequence numbers that are `j` and `k` behind one base, with `j` and `k` below 2^31, the
-- first is newer exactly when `j` is above `k`; the counter may wrap in between.
pub is_seq_newer_iff :
    (base j k : ℕ)
    → base < 2 ^ 32
    → j < 2 ^ 31
    → k < 2 ^ 31
    → (is_seq_newer ((base + j) % 2 ^ 32) ((base + k) % 2 ^ 32) ≡ true) ↔ (k < j)
unfolding is_seq_newer
is_seq_newer_iff base j k b p q = (λ h. ground arith, λ h. ground arith)

-- Never are two numbers each newer than the other.
pub is_seq_newer_asymmetric :
    (a b : ℕ) → a < 2 ^ 32 → b < 2 ^ 32 → is_seq_newer a b ≡ true → is_seq_newer b a ≡ false
unfolding is_seq_newer
is_seq_newer_asymmetric a b p q h = ground arith
