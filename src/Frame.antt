-- ===== src/Frame.antt =====
-- EventLogger::buildFrame of src/EventLogger.cpp: an event as the bytes of a frame.
pub mod RoundTrip
use pico_wenvironment_logger.Prelude.{
  ℕ, ◌+◌, List, [], ◌∷◌, ◌++◌, to_le, take, length, Option, none, some, ltb, ◌==◌, if◌then◌else◌,
}
use pico_wenvironment_logger.Protocol.{
  LogEvent, LogFrameHeader, magic, header_bytes, level_code, event_code, magic_size, header_size,
  crc_size, payload_max,
}
use pico_wenvironment_logger.Crc.{calculate}

unfoldable pub header_of_event : LogEvent → LogFrameHeader
unfolding event_code level_code
header_of_event e = record {
  seq = e.seq;
  event_id = event_code e.event_id;
  level = level_code e.level;
  length = e.length;
  timestamp_us = e.timestamp_us;
}

-- Magic, header and payload, in the order in which they are copied: what the CRC is taken over.
abbrev pub frame_body : LogFrameHeader → List ℕ → List ℕ
frame_body h payload = magic ++ (header_bytes h ++ payload)

abbrev pub frame_size : ℕ → ℕ
frame_size len = magic_size + header_size + len + crc_size

-- The whole frame, with the CRC behind the body.
abbrev pub frame_bytes : LogFrameHeader → List ℕ → List ℕ
frame_bytes h payload = frame_body h payload ++ to_le 4 (calculate (frame_body h payload))

-- `none` is the result 0; otherwise the bytes stand at the start of `out_buf`.
unfoldable pub build_frame : LogEvent → ℕ → Option (List ℕ)
unfolding header_of_event header_bytes to_le calculate
build_frame e out_buf_size =
    if ltb payload_max e.length
    then none
    else if ltb out_buf_size (frame_size e.length)
    then none
    else let out = frame_bytes (header_of_event e) (take e.length e.payload) in
      if length out == frame_size e.length then some out else none
