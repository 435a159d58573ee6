-- ===== src/Examples/Frames.antt =====
-- CRC, headers and frames of src/Crc32.cpp and src/EventLogger.cpp at concrete inputs.
use pico_wenvironment_logger.Prelude.{
  ℕ, Bool, true, false, ltb, if◌then◌else◌, ◌<◌, List, [], ◌∷◌, ◌++◌, length, take, replicate, none,
  some, All, ◌≡◌, ◌≢◌, ◌↔◌, ◌⊎◌, refl, arith,
}
use pico_wenvironment_logger.Crc.{calculate, calculate2}
use pico_wenvironment_logger.Crc.Bounds.{calculate2-eq-calculate}
use pico_wenvironment_logger.Crc.Detect.{calculate_detects_byte}
use pico_wenvironment_logger.Protocol.{
  LogFrameHeader, LogEvent, info, heartbeat, header_bytes, header_of_bytes,
}
use pico_wenvironment_logger.Protocol.Codec.{IsHeader, header_of_bytes-header_bytes}
use pico_wenvironment_logger.Frame.{header_of_event, frame_bytes, build_frame}
use pico_wenvironment_logger.Frame.RoundTrip.{IsEvent, build_frame_lem, build_frame_refuses}

-- Bytes of a literal list, by evaluation.
abbrev pub are_bytes : List ℕ → Bool
are_bytes [] = true
are_bytes (b ∷ bs) = if ltb b 256 then are_bytes bs else false

pub are_bytes_lem : (bs : List ℕ) → are_bytes bs ≡ true → All (λ b. b < 256) bs
are_bytes_lem [] h = tt
are_bytes_lem (b ∷ bs) h = (ground arith, are_bytes_lem bs (ground arith))

-- The check value of CRC-32: that of "123456789".
check_value :
    calculate (0x31 ∷ 0x32 ∷ 0x33 ∷ 0x34 ∷ 0x35 ∷ 0x36 ∷ 0x37 ∷ 0x38 ∷ 0x39 ∷ []) ≡ 0xCBF43926
unfolding calculate
check_value = refl

calculate2-eq-calculate_example : calculate2 (1 ∷ 2 ∷ []) (3 ∷ []) ≡ calculate (1 ∷ 2 ∷ 3 ∷ [])
calculate2-eq-calculate_example = calculate2-eq-calculate (1 ∷ 2 ∷ []) (3 ∷ [])

calculate_detects_byte_example : calculate (7 ∷ 1 ∷ 9 ∷ []) ≢ calculate (7 ∷ 2 ∷ 9 ∷ [])
calculate_detects_byte_example =
    calculate_detects_byte (7 ∷ []) (9 ∷ []) 1 2 (omega arith, tt) (omega arith, tt) (omega arith)
      (omega arith) (omega arith)

abbrev pub header : LogFrameHeader
header = record { seq = 258; event_id = 100; level = 0; length = 3; timestamp_us = 70000 }

abbrev pub header_IsHeader : IsHeader header
header_IsHeader = record {
  seq_fits = omega arith;
  event_id_fits = omega arith;
  level_fits = omega arith;
  length_fits = omega arith;
  timestamp_fits = omega arith;
}

header_of_bytes-header_bytes_example : header_of_bytes (header_bytes header ++ (5 ∷ [])) ≡ header
header_of_bytes-header_bytes_example = header_of_bytes-header_bytes header (5 ∷ []) header_IsHeader

abbrev pub event : LogEvent
event = record {
  seq = 258;
  event_id = heartbeat;
  level = info;
  length = 3;
  timestamp_us = 70000;
  payload = 9 ∷ 8 ∷ 7 ∷ replicate 61 0;
}

pub event-IsEvent : IsEvent event
event-IsEvent = record {
  seq_fits = omega arith;
  timestamp_fits = omega arith;
  length_le = omega arith;
  payload_size = refl;
  payload_bytes = are_bytes_lem event.payload refl;
}

build_frame_lem_example :
    (build_frame event 82 ≡ some (frame_bytes (header_of_event event) (take 3 event.payload)))
    × (length (frame_bytes (header_of_event event) (take 3 event.payload)) ≡ 21)
build_frame_lem_example = build_frame_lem event 82 event-IsEvent (omega arith)

build_frame_refuses_example : (build_frame event 20 ≡ none) ↔ ((64 < 3) ⊎ (20 < 21))
build_frame_refuses_example = build_frame_refuses event 20 refl
