-- ===== src/Protocol/Layout.antt =====
-- include/LogProtocol.h: [magic(2)][header(12)][payload(length bytes)][crc32(4)], little-endian.
use pico_wenvironment_logger.Prelude.{
  ℕ, ◌+◌, List, [], ◌∷◌, ◌++◌, to_le, from_le, take, drop, get_or,
}

abbrev pub magic : List ℕ
magic = 0xA5 ∷ 0x5A ∷ []

pub record LogFrameHeader : Type 0 where
  pub seq : ℕ
  pub event_id : ℕ
  pub level : ℕ
  pub length : ℕ
  pub timestamp_us : ℕ

abbrev pub payload_max : ℕ
payload_max = 64

abbrev pub magic_size : ℕ
magic_size = 2

abbrev pub header_size : ℕ
header_size = 12

abbrev pub crc_size : ℕ
crc_size = 4

abbrev pub max_size : ℕ
max_size = magic_size + header_size + payload_max + crc_size

-- The bytes of the packed struct.
unfoldable pub header_bytes : LogFrameHeader → List ℕ
header_bytes h =
    to_le 4 h.seq ++ (to_le 2 h.event_id ++ (h.level ∷ h.length ∷ to_le 4 h.timestamp_us))

-- The struct whose bytes these are.
unfoldable pub header_of_bytes : List ℕ → LogFrameHeader
header_of_bytes bs = record {
  seq = from_le (take 4 bs);
  event_id = from_le (take 2 (drop 4 bs));
  level = get_or bs 6 0;
  length = get_or bs 7 0;
  timestamp_us = from_le (take 4 (drop 8 bs));
}
