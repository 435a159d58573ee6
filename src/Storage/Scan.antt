-- ===== src/Storage/Scan.antt =====
-- `isValidFrameAt`, `isErasedAt` and `rebuildIndexFromFlash`: what the index is computed from.
use pico_wenvironment_logger.Prelude.{
  ℕ, zero, suc, ◌+◌, ◌-◌, Bool, true, false, ltb, leb, ◌==◌, if◌then◌else◌, take, drop, get_or,
  Option, none, some, from_le,
}
use pico_wenvironment_logger.FlashApi.{Flash}
use pico_wenvironment_logger.Protocol.{
  LogFrameHeader, header_of_bytes, magic_size, header_size, crc_size, payload_max,
}
use pico_wenvironment_logger.Crc.{calculate}
use pico_wenvironment_logger.Frame.{frame_size}
use pico_wenvironment_logger.Storage.{
  Config, add32, wrap_address, next_sector_address, is_seq_newer,
}
use pico_wenvironment_logger.Storage.State.{Storage}

infixl 5 ◌>>=◌ ◌>>◌
abbrev pub ◌>>=◌ : {A B : Type 0} → Option A → (A → Option B) → Option B
none >>= f = none
some a >>= f = f a

abbrev pub ◌>>◌ : {B : Type 0} → Option (Unit {0}) → Option B → Option B
m >> k = m >>= λ _. k

-- Goes on if the test that makes the code return false does not hold.
abbrev unless : Bool → Option (Unit {0})
unless true = none
unless false = some tt

-- The variables of the scan in `rebuildIndexFromFlash`.
pub record Index : Type 0 where
  pub found : Bool
  pub oldest_seq : ℕ
  pub oldest_addr : ℕ
  pub newest_seq : ℕ
  pub newest_addr : ℕ
  pub newest_next_addr : ℕ
  pub count : ℕ

-- A valid frame at `addr` enters the index.
unfoldable pub note_frame : Config → Index → ℕ → LogFrameHeader → ℕ → Index
note_frame c i addr h size =
    let next_addr = wrap_address c (add32 addr size) in
    if i.found
    then (let newer = is_seq_newer h.seq i.newest_seq in
        let older = is_seq_newer i.oldest_seq h.seq in
        record i {
          newest_seq = if newer then h.seq else i.newest_seq;
          newest_addr = if newer then addr else i.newest_addr;
          newest_next_addr = if newer then next_addr else i.newest_next_addr;
          oldest_seq = if older then h.seq else i.oldest_seq;
          oldest_addr = if older then addr else i.oldest_addr;
          count = add32 i.count 1;
        })
    else record {
      found = true;
      oldest_seq = h.seq;
      oldest_addr = addr;
      newest_seq = h.seq;
      newest_addr = addr;
      newest_next_addr = next_addr;
      count = add32 i.count 1;
    }

module _ (F : Flash) where
  -- The second half of `isValidFrameAt`, once the header has been read: length, end and CRC.
  unfoldable pub accept_frame : F.Dev → Config → ℕ → LogFrameHeader → Option (LogFrameHeader × ℕ)
  accept_frame d c addr h = do
    unless (ltb payload_max h.length)
    let size = frame_size h.length
    unless (ltb c.end_addr (add32 addr size))
    frame ← F.read d addr size
    let stored_crc = from_le (take crc_size (drop (magic_size + header_size + h.length) frame))
    let calc_crc = calculate (take (size - crc_size) frame)
    if calc_crc == stored_crc then some (h, size) else none

  -- The header and the size of the frame at `addr`, if there is one.
  unfoldable pub is_valid_frame_at : F.Dev → Config → ℕ → Option (LogFrameHeader × ℕ)
  is_valid_frame_at d c addr = do
    unless (ltb addr c.start_addr)
    unless (ltb c.end_addr (add32 addr (magic_size + header_size + crc_size)))
    m ← F.read d addr magic_size
    unless (if get_or m 0 0 == 0xA5 then (if get_or m 1 0 == 0x5A then false else true) else true)
    hb ← F.read d (add32 addr magic_size) header_size
    accept_frame d c addr (header_of_bytes hb)

  unfoldable pub is_erased_at : F.Dev → Config → ℕ → Bool
  is_erased_at d c addr =
      if (if ltb addr c.start_addr then true else leb c.end_addr addr)
      then false
      else elim (F.read d addr 1) [ none ↦ false | some b ↦ get_or b 0 0 == 0xFF ]

  -- The loop, a frame or a byte at a time. Every round moves on by at least one, so a fuel of the
  -- bytes that are left is enough.
  unfoldable pub scan : F.Dev → Config → ℕ → ℕ → Index → Index
  scan d c zero addr i = i
  scan d c (suc fuel) addr i = elim (ltb addr c.end_addr) [
    | false ↦ i
    | true ↦ elim (is_valid_frame_at d c addr) [
      | none ↦ scan d c fuel (add32 addr 1) i
      | some (h, size) ↦ scan d c fuel (add32 addr size) (note_frame c i addr h size)
    ]
  ]

  abbrev pub empty_index : Config → Index
  empty_index c = record {
    found = false;
    oldest_seq = 0;
    oldest_addr = c.start_addr;
    newest_seq = 0;
    newest_addr = c.start_addr;
    newest_next_addr = c.start_addr;
    count = 0;
  }

  unfoldable pub scan_all : F.Dev → Config → Index
  scan_all d c = scan d c (c.end_addr - c.start_addr) c.start_addr (empty_index c)

  -- A write address whose byte is not erased moves on to the next sector.
  unfoldable pub clean_tail : F.Dev → Config → ℕ → ℕ
  clean_tail d c addr =
      if is_erased_at d c addr then addr else wrap_address c (next_sector_address addr)

  unfoldable pub rebuild_index_from_flash : Storage F → Bool × Storage F
  unfolding clean_tail
  rebuild_index_from_flash s =
      let i = scan_all s.dev s.config in
      if i.found
      then (
        true,
        record s {
          oldest_addr = i.oldest_addr;
          newest_addr = i.newest_addr;
          newest_seq = i.newest_seq;
          write_addr = clean_tail s.dev s.config i.newest_next_addr;
          valid_frame_count = i.count;
        },
      )
      else (
        true,
        record s {
          oldest_addr = s.config.start_addr;
          newest_addr = s.config.start_addr;
          newest_seq = 0;
          write_addr = clean_tail s.dev s.config s.config.start_addr;
          valid_frame_count = 0;
        },
      )
