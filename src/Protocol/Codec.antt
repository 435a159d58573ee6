-- ===== src/Protocol/Codec.antt =====
-- The packed header and its 12 bytes determine each other.
use pico_wenvironment_logger.Prelude.{
  ℕ, ◌^◌, ◌<◌, List, [], ◌∷◌, ◌++◌, to_le, from_le, length, All, ◌≡◌, refl, arith,
}
use pico_wenvironment_logger.Protocol.{LogFrameHeader, header_bytes, header_of_bytes}

-- Each field fits its C++ type.
pub record IsHeader (h : LogFrameHeader) : Type 0 where
  pub seq_fits : h.seq < 2 ^ 32
  pub event_id_fits : h.event_id < 2 ^ 16
  pub level_fits : h.level < 256
  pub length_fits : h.length < 256
  pub timestamp_fits : h.timestamp_us < 2 ^ 32

pub length-header_bytes : (h : LogFrameHeader) → length (header_bytes h) ≡ 12
unfolding header_bytes to_le
length-header_bytes h = refl

-- Reading back the bytes of a header gives the header.
pub header_of_bytes-header_bytes :
    (h : LogFrameHeader) (rest : List ℕ) → IsHeader h → header_of_bytes (header_bytes h ++ rest) ≡ h
unfolding header_bytes header_of_bytes to_le from_le
header_of_bytes-header_bytes h rest v = ground arith

-- Of any twelve bytes, writing the header that they are read as gives them back.
pub header_bytes-header_of_bytes :
    (bs : List ℕ) → length bs ≡ 12 → All (λ b. b < 256) bs → header_bytes (header_of_bytes bs) ≡ bs
unfolding header_bytes header_of_bytes to_le from_le
header_bytes-header_of_bytes (a ∷ b ∷ c ∷ d ∷ e ∷ f ∷ g ∷ h ∷ i ∷ j ∷ k ∷ l ∷ []) n v = ground arith
header_bytes-header_of_bytes _ n v = absurd (omega arith)

pub header_of_bytes-IsHeader :
    (bs : List ℕ) → length bs ≡ 12 → All (λ b. b < 256) bs → IsHeader (header_of_bytes bs)
unfolding header_of_bytes from_le
header_of_bytes-IsHeader (a ∷ b ∷ c ∷ d ∷ e ∷ f ∷ g ∷ h ∷ i ∷ j ∷ k ∷ l ∷ []) n v = omega arith
header_of_bytes-IsHeader _ n v = absurd (omega arith)
