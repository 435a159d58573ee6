-- ===== src/Storage/Append/Bytes.antt =====
-- The bytes of a frame in erased cells of the log area.
use pico_wenvironment_logger.Prelude.{
  ℕ, ◌+◌, ◌%◌, ◌≤◌, ◌<◌, List, length, ◌≡◌, sym, ◌∙◌, ap, subst, arith, All,
}
use pico_wenvironment_logger.Crc.Bounds.{IsByte}
use pico_wenvironment_logger.Protocol.{LogFrameHeader, payload_max}
use pico_wenvironment_logger.Protocol.Codec.{IsHeader}
use pico_wenvironment_logger.Frame.{frame_size, frame_bytes}
use pico_wenvironment_logger.Frame.RoundTrip.{length-frame_bytes, frame_bytes-IsByte}
use pico_wenvironment_logger.Memory.{Memory, program, erase, slice-program}
use pico_wenvironment_logger.Driver.{sector_size, sector_base}
use pico_wenvironment_logger.Storage.{Config}
use pico_wenvironment_logger.Storage.Frames.{FrameAt}

-- The bytes of a frame, with header `h`.
pub record IsFrame (h : LogFrameHeader) (bytes : List ℕ) : Type 0 where
  pub header : IsHeader h
  pub short : h.length ≤ payload_max
  pub payload : List ℕ
  pub payload_length : length payload ≡ h.length
  pub payload_bytes : All IsByte payload
  pub layout : bytes ≡ frame_bytes h payload

abbrev pub IsErased : Memory → ℕ → ℕ → Type 0
IsErased m addr n = (a : ℕ) → addr ≤ a → a < addr + n → m a ≡ 255

pub length-IsFrame :
    (h : LogFrameHeader) (bytes : List ℕ) → IsFrame h bytes → length bytes ≡ frame_size h.length
length-IsFrame h bytes v =
    ap length v.layout ∙ length-frame_bytes h v.payload ∙ ap frame_size v.payload_length

pub IsFrame-IsByte : (h : LogFrameHeader) (bytes : List ℕ) → IsFrame h bytes → All IsByte bytes
IsFrame-IsByte h bytes v =
    subst (All IsByte) (sym v.layout) (frame_bytes-IsByte h v.payload v.header v.payload_bytes)

pub IsErased-sector :
    (m : Memory) (addr n : ℕ)
    → addr % sector_size ≡ 0
    → n ≤ sector_size
    → IsErased (erase m (sector_base addr) sector_size) addr n
unfolding erase
IsErased-sector m addr n z short a p q = ground arith

-- A frame programmed into erased cells of the area stands there.
pub program-FrameAt :
    (m : Memory) (c : Config) (addr : ℕ) (h : LogFrameHeader) (bytes : List ℕ)
    → IsFrame h bytes
    → c.start_addr ≤ addr
    → addr + length bytes ≤ c.end_addr
    → IsErased m addr (length bytes)
    → FrameAt (program m addr bytes) c addr h (length bytes)
program-FrameAt m c addr h bytes v from to blank = record {
  from = from;
  to = to;
  size = length-IsFrame h bytes v;
  short = v.short;
  header = v.header;
  payload = v.payload;
  payload_length = v.payload_length;
  bytes = slice-program m addr bytes (IsFrame-IsByte h bytes v) blank ∙ v.layout;
}
