-- ===== src/Storage/Frames/Decide.antt =====
-- `isValidFrameAt` against the definition of a frame.
use pico_wenvironment_logger.Prelude.{ℕ, ◌^◌, ◌<◌, some, ◌≡◌, ◌↔◌, ◌∙◌, sym}
use pico_wenvironment_logger.FlashApi.{Flash, IsFlash}
use pico_wenvironment_logger.Protocol.{LogFrameHeader}
use pico_wenvironment_logger.Storage.{Config}
use pico_wenvironment_logger.Storage.Scan.{is_valid_frame_at}
use pico_wenvironment_logger.Storage.Frames.{FrameAt, IsConfig, is_valid_frame_at-check_at}
use pico_wenvironment_logger.Storage.Frames.Sound.{check_at-Checked, Checked-FrameAt}
use pico_wenvironment_logger.Storage.Frames.Complete.{FrameAt-check_at}

module _ (F : Flash) (flash : IsFlash F) where
  open flash use {contents, Ready}

  -- On a flash that is ready, `isValidFrameAt` gives a header and a size exactly when a frame with
  -- that header and that size stands at the address, inside the area: magic bytes, header, a
  -- payload of the header's length and the CRC of all these.
  pub is_valid_frame_at_iff :
      (d : F.Dev) (c : Config) (addr : ℕ) (h : LogFrameHeader) (n : ℕ)
      → Ready d
      → IsConfig c
      → addr < 2 ^ 32
      → (is_valid_frame_at F d c addr ≡ some (h, n)) ↔ FrameAt (contents d) c addr h n
  is_valid_frame_at_iff d c addr h n r v small = (
    λ e. Checked-FrameAt (contents d) c addr h n (flash.contents_byte d) (
        check_at-Checked (contents d) c addr h n
          (sym (is_valid_frame_at-check_at F flash d c addr r v small) ∙ e)),
    λ f.
        is_valid_frame_at-check_at F flash d c addr r v small
        ∙ FrameAt-check_at (contents d) c addr h n f,
  )
