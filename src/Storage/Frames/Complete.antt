-- ===== src/Storage/Frames/Complete.antt =====
-- Every frame is accepted by `isValidFrameAt`.
use pico_wenvironment_logger.Prelude.{
  ℕ, ◌+◌, ◌-◌, ◌<◌, true, List, [], ◌++◌, take, drop, length, get_or, some, from_le, to_le, ◌≡◌,
  sym, ap, ◌∙◌, arith, take-append, drop-append, append_assoc, append-nil, ==_iff, le→ltb,
}
use pico_wenvironment_logger.Memory.{Memory, slice, get_or-slice, slice_part}
use pico_wenvironment_logger.Protocol.{
  LogFrameHeader, header_bytes, header_of_bytes, magic_size, header_size, crc_size, payload_max,
}
use pico_wenvironment_logger.Protocol.Codec.{header_of_bytes-header_bytes, length-header_bytes}
use pico_wenvironment_logger.Crc.{calculate}
use pico_wenvironment_logger.Crc.Bounds.{calculate-lt}
use pico_wenvironment_logger.Frame.{frame_size, frame_body, frame_bytes}
use pico_wenvironment_logger.Frame.RoundTrip.{length-frame_body}
use pico_wenvironment_logger.Storage.{Config}
use pico_wenvironment_logger.Storage.Frames.{FrameAt, check, header_at, check_header, check_at}

-- On the bytes of a frame, the parts are found again.
check-frame_bytes :
    (h : LogFrameHeader) (p : List ℕ)
    → length p ≡ h.length
    → check h.length (frame_bytes h p) ≡ true
unfolding from_le to_le
check-frame_bytes h p e = (==_iff _ _).1 (
    rw
      (
        take-append (frame_body h p) (to_le 4 (calculate (frame_body h p)))
            (frame_size h.length - crc_size) (omega (arith, length-frame_body h p)),
        drop-append (frame_body h p) (to_le 4 (calculate (frame_body h p)))
            (magic_size + header_size + h.length) (omega (arith, length-frame_body h p)),
      )
      (omega (arith, calculate-lt (frame_body h p))))

module _ (m : Memory) (c : Config) (addr : ℕ) (h : LogFrameHeader) (n : ℕ)
    (f : FrameAt m c addr h n) where
  open f use {payload, payload_length, bytes, size}

  byte_at : (i : ℕ) → i < n → m (addr + i) ≡ get_or (frame_bytes h payload) i 0
  byte_at i lt = sym (get_or-slice m addr n i 0 lt) ∙ ap (λ bs. get_or bs i 0) bytes

  read_magic_0 : m addr ≡ 0xA5
  read_magic_0 = ap m (omega arith) ∙ byte_at 0 (omega (arith, size))

  read_magic_1 : m (addr + 1) ≡ 0x5A
  read_magic_1 = byte_at 1 (omega (arith, size))

  read_header : header_at m addr ≡ h
  read_header =
      ap header_of_bytes (
        sym (slice_part m addr 2 12 n (omega (arith, size)))
        ∙ ap (λ bs. take 12 (drop 2 bs)) bytes
        ∙ ap (take 12)
            (append_assoc (header_bytes h) payload (to_le 4 (calculate (frame_body h payload))))
        ∙ take-append (header_bytes h) (payload ++ to_le 4 (calculate (frame_body h payload))) 12
            (sym (length-header_bytes h))
        ∙ sym (append-nil (header_bytes h)))
      ∙ header_of_bytes-header_bytes h [] f.header

  read_check : check h.length (slice m addr (frame_size h.length)) ≡ true
  read_check =
      ap (check h.length) (ap (slice m addr) (sym size) ∙ bytes)
      ∙ check-frame_bytes h payload payload_length

  pub FrameAt-check_at : check_at m c addr ≡ some (h, n)
  unfolding check_at check_header
  FrameAt-check_at = rw (
    le→ltb addr c.start_addr f.from,
    le→ltb c.end_addr (addr + 18) (omega (arith, size, f.to)),
    (==_iff (m addr) 0xA5).1 read_magic_0,
    (==_iff (m (addr + 1)) 0x5A).1 read_magic_1,
    read_header,
    le→ltb payload_max h.length f.short,
    le→ltb c.end_addr (addr + frame_size h.length) (omega (arith, size, f.to)),
    read_check,
    size,
  )
