-- ===== src/Storage/Frames/Sound.antt =====
-- What `isValidFrameAt` accepts is a frame.
use pico_wenvironment_logger.Prelude.{
  ℕ, ◌+◌, ◌-◌, ◌≤◌, ◌<◌, List, [], ◌∷◌, ◌++◌, take, drop, length, some, from_le, to_le, ◌≡◌, refl,
  sym, ap, ap₂, subst, ◌∙◌, arith, All, take-append,
}
use pico_wenvironment_logger.Memory.{
  Memory, slice, length-slice, slice-IsByte, slice-add, slice_part,
}
use pico_wenvironment_logger.Protocol.{
  LogFrameHeader, header_bytes, magic, magic_size, header_size, crc_size, payload_max,
}
use pico_wenvironment_logger.Protocol.Codec.{
  IsHeader, header_bytes-header_of_bytes, header_of_bytes-IsHeader,
}
use pico_wenvironment_logger.Crc.{calculate}
use pico_wenvironment_logger.Frame.{frame_size, frame_body}
use pico_wenvironment_logger.Frame.RoundTrip.{length-frame_body}
use pico_wenvironment_logger.Storage.{Config}
use pico_wenvironment_logger.Storage.Frames.{FrameAt, header_at, check_header, check_at}

-- What a result of the check says of the bytes.
pub record Checked (m : Memory) (c : Config) (addr : ℕ) (h : LogFrameHeader) (n : ℕ) : Type 0 where
  from : c.start_addr ≤ addr
  magic_0 : m addr ≡ 0xA5
  magic_1 : m (addr + 1) ≡ 0x5A
  is_header : header_at m addr ≡ h
  short : h.length ≤ payload_max
  size : n ≡ frame_size h.length
  to : addr + n ≤ c.end_addr
  crc :
      calculate (take (frame_size h.length - crc_size) (slice m addr (frame_size h.length)))
      ≡ from_le (
          take crc_size
            (drop (magic_size + header_size + h.length) (slice m addr (frame_size h.length))))

check_header-eq-some :
    (m : Memory) (c : Config) (addr : ℕ) (k h : LogFrameHeader) (n : ℕ)
    → c.start_addr ≤ addr
    → m addr ≡ 0xA5
    → m (addr + 1) ≡ 0x5A
    → header_at m addr ≡ k
    → check_header m c addr k ≡ some (h, n)
    → Checked m c addr h n
unfolding check_header
check_header-eq-some m c addr k h n p q r g e = record {
  from = p;
  magic_0 = q;
  magic_1 = r;
  is_header = ground arith;
  short = ground arith;
  size = ground arith;
  to = ground arith;
  crc = ground arith;
}

pub check_at-Checked :
    (m : Memory) (c : Config) (addr : ℕ) (h : LogFrameHeader) (n : ℕ)
    → check_at m c addr ≡ some (h, n)
    → Checked m c addr h n
unfolding check_at
check_at-Checked m c addr h n e =
    check_header-eq-some m c addr (header_at m addr) h n (ground arith) (ground arith)
      (ground arith) refl (ground arith)

to_le-from_le_4 : (bs : List ℕ) → length bs ≡ 4 → All (λ b. b < 256) bs → to_le 4 (from_le bs) ≡ bs
unfolding to_le from_le
to_le-from_le_4 (a ∷ b ∷ c ∷ d ∷ []) n v = ground arith
to_le-from_le_4 _ n v = absurd (omega arith)

slice_two : (m : Memory) (addr : ℕ) → slice m addr 2 ≡ m addr ∷ m (addr + 1) ∷ []
unfolding slice
slice_two m addr = refl

frame_slices :
    (m : Memory) (addr len : ℕ)
    → slice m addr (frame_size len)
      ≡ (slice m addr 2 ++ (slice m (addr + 2) 12 ++ slice m (addr + 14) len))
        ++ slice m (addr + 14 + len) 4
frame_slices m addr len =
    let e : frame_size len ≡ (2 + (12 + len)) + 4 = omega arith in
    let f : addr + (2 + (12 + len)) ≡ addr + 14 + len = omega arith in
    let g : addr + 2 + 12 ≡ addr + 14 = omega arith in
    rw
      (
        e,
        slice-add m addr (2 + (12 + len)) 4,
        f,
        slice-add m addr 2 (12 + len),
        slice-add m (addr + 2) 12 len,
        g,
      )
      refl

pub Checked-FrameAt :
    (m : Memory) (c : Config) (addr : ℕ) (h : LogFrameHeader) (n : ℕ)
    → ((a : ℕ) → m a < 256)
    → Checked m c addr h n
    → FrameAt m c addr h n
Checked-FrameAt m c addr h n v k = record {
  from = k.from;
  to = k.to;
  size = k.size;
  short = k.short;
  header = subst IsHeader k.is_header (
      header_of_bytes-IsHeader (slice m (addr + 2) 12) (length-slice m (addr + 2) 12)
        (slice-IsByte m (addr + 2) 12 v));
  payload = slice m (addr + 14) h.length;
  payload_length = length-slice m (addr + 14) h.length;
  bytes = rw (k.size, frame_slices m addr h.length) (ap₂ ◌++◌ body (stored ∙ ap (to_le 4) crc));
}
  where
    head : slice m addr 2 ≡ magic
    head = slice_two m addr ∙ ap₂ (λ a b. a ∷ b ∷ []) k.magic_0 k.magic_1

    header_part : slice m (addr + 2) 12 ≡ header_bytes h
    header_part =
        sym (
          header_bytes-header_of_bytes (slice m (addr + 2) 12) (length-slice m (addr + 2) 12)
            (slice-IsByte m (addr + 2) 12 v))
        ∙ ap header_bytes k.is_header

    body :
        slice m addr 2 ++ (slice m (addr + 2) 12 ++ slice m (addr + 14) h.length)
        ≡ frame_body h (slice m (addr + 14) h.length)
    body = ap₂ (λ a b. a ++ (b ++ slice m (addr + 14) h.length)) head header_part

    stored : slice m (addr + 14 + h.length) 4 ≡ to_le 4 (from_le (slice m (addr + 14 + h.length) 4))
    stored = sym (
        to_le-from_le_4 (slice m (addr + 14 + h.length) 4) (length-slice m (addr + 14 + h.length) 4)
          (slice-IsByte m (addr + 14 + h.length) 4 v))

    crc :
        from_le (slice m (addr + 14 + h.length) 4)
        ≡ calculate (frame_body h (slice m (addr + 14) h.length))
    crc =
        ap from_le (
          sym (
            slice_part m addr (14 + h.length) 4 (frame_size h.length) (omega arith)
            ∙ ap (λ a. slice m a 4) (omega arith)))
        ∙ sym k.crc
        ∙ ap calculate (
            ap (take (frame_size h.length - crc_size)) (frame_slices m addr h.length)
            ∙ take-append
                (slice m addr 2 ++ (slice m (addr + 2) 12 ++ slice m (addr + 14) h.length))
                (slice m (addr + 14 + h.length) 4) (frame_size h.length - crc_size)
                (omega (
                  arith,
                  ap length body,
                  length-frame_body h (slice m (addr + 14) h.length),
                  length-slice m (addr + 14) h.length,
                ))
            ∙ body)
