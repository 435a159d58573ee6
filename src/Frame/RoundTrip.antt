-- ===== src/Frame/RoundTrip.antt =====
-- What `buildFrame` writes, and that its final size check never fires.
use pico_wenvironment_logger.Prelude.{
  ℕ, zero, suc, ◌+◌, ◌/◌, ◌^◌, ◌≤◌, ◌<◌, List, to_le, take, length, none, some, ◌≡◌, refl, ap, ◌∙◌,
  ◌⊎◌, ◌↔◌, arith, length-append, length-take, All, All-append,
}
use pico_wenvironment_logger.Protocol.{
  LogEvent, LogFrameHeader, EventId, LogLevel, header_bytes, payload_max, level_code, event_code,
}
use pico_wenvironment_logger.Protocol.Codec.{IsHeader, length-header_bytes}
use pico_wenvironment_logger.Frame.{
  header_of_event, frame_body, frame_size, frame_bytes, build_frame,
}
use pico_wenvironment_logger.Crc.{calculate}
use pico_wenvironment_logger.Crc.Bounds.{IsByte}

pub length-to_le : (k w : ℕ) → length (to_le k w) ≡ k
unfolding to_le
length-to_le zero w = refl
length-to_le (suc k) w = ap suc (length-to_le k (w / 256))

pub to_le-IsByte : (k w : ℕ) → All IsByte (to_le k w)
unfolding to_le
to_le-IsByte zero w = tt
to_le-IsByte (suc k) w = (omega arith, to_le-IsByte k (w / 256))

pub length-frame_body : (h : LogFrameHeader) (p : List ℕ) → length (frame_body h p) ≡ 14 + length p
length-frame_body h p = omega (arith, length-append (header_bytes h) p, length-header_bytes h)

pub length-frame_bytes :
    (h : LogFrameHeader) (p : List ℕ) → length (frame_bytes h p) ≡ frame_size (length p)
length-frame_bytes h p = omega (
  arith,
  length-append (frame_body h p) (to_le 4 (calculate (frame_body h p))),
  length-to_le 4 (calculate (frame_body h p)),
  length-frame_body h p,
)

pub header_bytes-IsByte : (h : LogFrameHeader) → IsHeader h → All IsByte (header_bytes h)
unfolding header_bytes
header_bytes-IsByte h v = All-append IsByte (to_le 4 h.seq) _ (to_le-IsByte 4 h.seq) (
    All-append IsByte (to_le 2 h.event_id) _ (to_le-IsByte 2 h.event_id)
      (v.level_fits, (v.length_fits, to_le-IsByte 4 h.timestamp_us)))

pub frame_bytes-IsByte :
    (h : LogFrameHeader) (p : List ℕ) → IsHeader h → All IsByte p → All IsByte (frame_bytes h p)
frame_bytes-IsByte h p v k =
    All-append IsByte (frame_body h p) (to_le 4 (calculate (frame_body h p)))
      (omega arith, (omega arith, All-append IsByte (header_bytes h) p (header_bytes-IsByte h v) k))
      (to_le-IsByte 4 (calculate (frame_body h p)))

-- An event as `makeEvent` leaves it.
pub record IsEvent (e : LogEvent) : Type 0 where
  pub seq_fits : e.seq < 2 ^ 32
  pub timestamp_fits : e.timestamp_us < 2 ^ 32
  pub length_le : e.length ≤ payload_max
  pub payload_size : length e.payload ≡ payload_max
  pub payload_bytes : All IsByte e.payload

event_code-lt : (i : EventId) → event_code i < 2 ^ 16
unfolding event_code
event_code-lt i = ground arith

level_code-lt : (l : LogLevel) → level_code l < 256
unfolding level_code
level_code-lt l = ground arith

pub header_of_event-IsHeader : (e : LogEvent) → IsEvent e → IsHeader (header_of_event e)
unfolding header_of_event
header_of_event-IsHeader e v = omega (arith, event_code-lt e.event_id, level_code-lt e.level)

pub length-payload : (e : LogEvent) → IsEvent e → length (take e.length e.payload) ≡ e.length
length-payload e v = omega (arith, length-take e.length e.payload)

-- With room for it `buildFrame` writes the whole frame: magic, header, the first `length` payload
-- bytes and the CRC of all that, `18 + length` bytes in all.
pub build_frame_lem :
    (e : LogEvent) (n : ℕ)
    → IsEvent e
    → frame_size e.length ≤ n
    → let out = frame_bytes (header_of_event e) (take e.length e.payload) in
      (build_frame e n ≡ some out) × (length out ≡ frame_size e.length)
unfolding build_frame
build_frame_lem e n v room =
    let size : length (frame_bytes (header_of_event e) (take e.length e.payload))
        ≡ frame_size e.length =
      length-frame_bytes (header_of_event e) (take e.length e.payload)
      ∙ ap frame_size (length-payload e v) in
    (ground arith, size)

-- It refuses, and only then: a payload length above 64, or an output buffer that is too small.
pub build_frame_refuses :
    (e : LogEvent) (n : ℕ)
    → length e.payload ≡ payload_max
    → (build_frame e n ≡ none) ↔ ((payload_max < e.length) ⊎ (n < frame_size e.length))
unfolding build_frame
build_frame_refuses e n v = (
  λ r. ground (
    arith,
    length-frame_bytes (header_of_event e) (take e.length e.payload),
    length-take e.length e.payload,
  ),
  λ c. ground arith,
)
