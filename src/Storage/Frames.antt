-- ===== src/Storage/Frames.antt =====
-- What a valid frame is, in terms of the bytes of the flash alone, and that `isValidFrameAt`
-- decides it: here the code as a function of the contents, in the children that it is sound and
-- complete.
mod Sound
pub mod Complete
pub mod Decide
use pico_wenvironment_logger.Prelude.{
  ℕ, zero, suc, ◌+◌, ◌-◌, ◌%◌, ◌^◌, ◌≤◌, ◌<◌, Bool, true, false, ltb, leb, ◌==◌, if◌then◌else◌,
  List, [], ◌∷◌, ◌++◌, take, drop, length, get_or, Option, none, some, from_le, to_le, ◌≡◌, refl,
  sym, ap, ap₂, subst, ◌∙◌, arith, All, take-append, drop-append, length-append, Bool-cases, tests,
  inl, inr, append_assoc, ◌↔◌, ==_iff,
}
use pico_wenvironment_logger.Memory.{
  Memory, slice, length-slice, slice-IsByte, slice-add, get_or-slice, slice_part,
}
use pico_wenvironment_logger.FlashApi.{Flash, IsFlash}
use pico_wenvironment_logger.Driver.{is_address_valid, flash_size, sector_size}
use pico_wenvironment_logger.Driver.Range.{is_address_valid_iff}
use pico_wenvironment_logger.Protocol.{
  LogFrameHeader, header_bytes, header_of_bytes, magic, magic_size, header_size, crc_size,
  payload_max,
}
use pico_wenvironment_logger.Protocol.Codec.{
  IsHeader, header_bytes-header_of_bytes, header_of_bytes-header_bytes, header_of_bytes-IsHeader,
  length-header_bytes,
}
use pico_wenvironment_logger.Crc.{calculate}
use pico_wenvironment_logger.Crc.Bounds.{calculate-lt}
use pico_wenvironment_logger.Frame.{frame_size, frame_body, frame_bytes}
use pico_wenvironment_logger.Frame.RoundTrip.{length-frame_body, length-frame_bytes, length-to_le}
use pico_wenvironment_logger.Storage.{Config, add32, is_config_valid}
use pico_wenvironment_logger.Storage.Scan.{is_valid_frame_at, accept_frame}

-- A frame with header `h` and `n` bytes stands at `addr`, inside the area: its bytes are those of
-- magic, header, some payload of the length that the header gives, and the CRC over these.
pub record FrameAt (m : Memory) (c : Config) (addr : ℕ) (h : LogFrameHeader) (n : ℕ) : Type 0 where
  pub from : c.start_addr ≤ addr
  pub to : addr + n ≤ c.end_addr
  pub size : n ≡ frame_size h.length
  pub short : h.length ≤ payload_max
  pub header : IsHeader h
  pub payload : List ℕ
  pub payload_length : length payload ≡ h.length
  pub bytes : slice m addr n ≡ frame_bytes h payload

-- The test of the read-back bytes.
abbrev pub check : ℕ → List ℕ → Bool
check len frame =
    calculate (take (frame_size len - crc_size) frame)
    == from_le (take crc_size (drop (magic_size + header_size + len) frame))

pub record IsConfig (c : Config) : Type 0 where
  pub ordered : c.start_addr < c.end_addr
  pub start_aligned : c.start_addr % sector_size ≡ 0
  pub end_aligned : c.end_addr % sector_size ≡ 0
  pub inside : c.end_addr ≤ flash_size

abbrev pub header_at : Memory → ℕ → LogFrameHeader
header_at m addr = header_of_bytes (slice m (addr + magic_size) header_size)

-- `isValidFrameAt` as a function of the contents alone.
pub check_header : Memory → Config → ℕ → LogFrameHeader → Option (LogFrameHeader × ℕ)
check_header m c addr h =
    if ltb payload_max h.length
    then none
    else if ltb c.end_addr (addr + frame_size h.length)
    then none
    else if check h.length (slice m addr (frame_size h.length))
    then some (h, frame_size h.length)
    else none

pub check_at : Memory → Config → ℕ → Option (LogFrameHeader × ℕ)
check_at m c addr =
    if ltb addr c.start_addr
    then none
    else if ltb c.end_addr (addr + frame_size 0)
    then none
    else if m addr == 0xA5
    then (if m (addr + 1) == 0x5A then check_header m c addr (header_at m addr) else none)
    else none

module _ (F : Flash) (flash : IsFlash F) where
  open flash use {contents, Ready}

  read_inside :
      (d : F.Dev) (addr n : ℕ)
      → Ready d
      → 0 < n
      → addr + n ≤ flash_size
      → F.read d addr n ≡ some (slice (contents d) addr n)
  read_inside d addr n r pos fits =
      flash.read_lem d addr n r
      ∙ ap (λ b. if b then some (slice (contents d) addr n) else none)
          ((is_address_valid_iff addr n).1 (pos, fits))

  read_outside : (d : F.Dev) (addr n : ℕ) → Ready d → flash_size < addr + n → F.read d addr n ≡ none
  read_outside d addr n r far = elim (Bool-cases (is_address_valid addr n)) [
    | inl e ↦ absurd (omega (arith, ((is_address_valid_iff addr n).0 e).1))
    | inr e ↦
        flash.read_lem d addr n r ∙ ap (λ b. if b then some (slice (contents d) addr n) else none) e
  ]

  accept_frame-check_header :
      (d : F.Dev) (c : Config) (addr : ℕ) (h : LogFrameHeader)
      → Ready d
      → IsConfig c
      → addr ≤ c.end_addr
      → accept_frame F d c addr h ≡ check_header (contents d) c addr h
  unfolding accept_frame check_header
  accept_frame-check_header d c addr h r v fits = elim (Bool-cases (ltb payload_max h.length)) [
    | inl e ↦ rw e
    | inr e ↦
        let e1 : (addr + frame_size h.length) % 2 ^ 32 ≡ addr + frame_size h.length =
          omega (tests) in
        elim (Bool-cases (ltb c.end_addr (addr + frame_size h.length))) [
          | inl f ↦ rw (e, e1, f)
          | inr f ↦
              rw (e, e1, f, read_inside d addr (frame_size h.length) r (omega arith) (omega tests))
        ]
  ]

  -- The part of the code from the header on, where the frame's first 18 bytes lie in the area.
  check_inside :
      (d : F.Dev) (c : Config) (addr : ℕ)
      → Ready d
      → IsConfig c
      → addr + 18 ≤ c.end_addr
      → ltb addr c.start_addr ≡ false
      → is_valid_frame_at F d c addr ≡ check_at (contents d) c addr
  unfolding is_valid_frame_at check_at
  check_inside d c addr r v fits from =
      let e1 : (addr + 18) % 2 ^ 32 ≡ addr + 18 = omega arith in
      let e2 : ltb c.end_addr (addr + 18) ≡ false = ground arith in
      let e3 : (addr + 2) % 2 ^ 32 ≡ addr + 2 = omega arith in
      let m0 : get_or (slice (contents d) addr 2) 0 0 ≡ contents d addr =
        get_or-slice (contents d) addr 2 0 0 (omega arith) ∙ ap (contents d) (omega arith) in
      let m1 : get_or (slice (contents d) addr 2) 1 0 ≡ contents d (addr + 1) =
        get_or-slice (contents d) addr 2 1 0 (omega arith) in
      rw
        (
          from,
          e1,
          e2,
          e3,
          read_inside d addr 2 r (omega arith) (omega arith),
          m0,
          m1,
          read_inside d (addr + 2) 12 r (omega arith) (omega arith),
          accept_frame-check_header d c addr (header_at (contents d) addr) r v (omega arith),
        )
        (elim (Bool-cases (contents d addr == 0xA5)) [
          | inl p ↦ elim (Bool-cases (contents d (addr + 1) == 0x5A)) [
            | inl q ↦ rw (p, q)
            | inr q ↦ rw (p, q)
          ]
          | inr p ↦ rw p
        ])

  pub is_valid_frame_at-check_at :
      (d : F.Dev) (c : Config) (addr : ℕ)
      → Ready d
      → IsConfig c
      → addr < 2 ^ 32
      → is_valid_frame_at F d c addr ≡ check_at (contents d) c addr
  is_valid_frame_at-check_at d c addr r v small = elim (Bool-cases (ltb addr c.start_addr)) [
    | inl before ↦ unfold is_valid_frame_at check_at in rw before
    | inr from ↦ elim (Bool-cases (ltb c.end_addr (addr + 18))) [
      | inr fits ↦ check_inside d c addr r v (omega tests) from
      | inl far ↦
          unfold is_valid_frame_at check_at in
          elim (Bool-cases (ltb c.end_addr ((addr + 18) % 2 ^ 32))) [
            | inl e ↦ rw (from, far, e)
            | inr e ↦ rw (from, far, e, read_outside d addr 2 r (omega tests))
          ]
    ]
  ]
