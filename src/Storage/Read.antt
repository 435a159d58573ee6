-- ===== src/Storage/Read.antt =====
-- `read`, `readFrame`, and the walks that send frames over the UART.
pub mod Post
pub mod RoundTrip
pub mod Latest
pub mod Fuel
use pico_wenvironment_logger.Prelude.{
  ℕ, zero, suc, ◌+◌, ◌-◌, Bool, true, false, ltb, leb, ◌==◌, if◌then◌else◌, List, [], ◌∷◌, length,
  Option, none, some,
}
use pico_wenvironment_logger.FlashApi.{Flash}
use pico_wenvironment_logger.Protocol.{LogFrameHeader, max_size}
use pico_wenvironment_logger.Storage.{Config, add32, wrap_address}
use pico_wenvironment_logger.Storage.State.{Storage, guarded, is_range_valid}
use pico_wenvironment_logger.Storage.Scan.{is_valid_frame_at}

module _ (F : Flash) where
  unfoldable pub read : ℕ → ℕ → Storage F → Option (List ℕ) × Storage F
  read addr len s =
      if is_range_valid F s addr len
      then guarded F none
          (λ t. (if is_range_valid F t addr len then F.read t.dev addr len else none, t)) s
      else (none, s)

  unfoldable pub read_frame : ℕ → ℕ → Storage F → Option (List ℕ) × Storage F
  read_frame addr out_size s =
      guarded F none
        (λ t. (
          elim (is_valid_frame_at F t.dev t.config addr) [
            | none ↦ none
            | some (h, size) ↦ if ltb out_size size then none else F.read t.dev addr size
          ],
          t,
        ))
        s

  -- The loop of `sendLatestFrames`: from `addr` on, round the area of
  -- `area_size` bytes, `skip_count` frames are passed over and the rest sent, up to and with the
  -- frame of the newest sequence number. `send` is `uart.write_buffer_blocking`. Every round adds
  -- at least one to `scanned`, so a fuel of `area_size` is enough.
  unfoldable pub walk :
      {U : Type 0}
      → (List ℕ → U → U)
      → (area_size skip_count fuel addr scanned valid_seen : ℕ) → U
      → Storage F
      → Bool × U × Storage F
  unfolding read_frame
  walk send area_size skip_count zero addr scanned valid_seen u s = (true, u, s)
  walk send area_size skip_count (suc fuel) addr scanned valid_seen u s =
      elim (ltb scanned area_size) [
        | false ↦ (true, u, s)
        | true ↦ elim (is_valid_frame_at F s.dev s.config addr) [
          | none ↦
              walk send area_size skip_count fuel (wrap_address s.config (add32 addr 1))
                (add32 scanned 1) valid_seen u s
          | some (h, size) ↦
              let (got, s') = read_frame addr max_size s in
              elim got [
                | none ↦ (false, u, s')
                | some frame ↦
                    let u' = (if leb skip_count valid_seen then send frame u else u) in
                    elim (h.seq == s'.newest_seq) [
                      | true ↦ (true, u', s')
                      | false ↦
                          walk send area_size skip_count fuel
                            (wrap_address s'.config (add32 addr (length frame)))
                            (add32 scanned (length frame)) (add32 valid_seen 1) u' s'
                    ]
              ]
        ]
      ]

  abbrev pub area_size : Storage F → ℕ
  area_size s = s.config.end_addr - s.config.start_addr

  abbrev pub as_result : {U : Type 0} → Bool × U × Storage F → (Bool × U) × Storage F
  as_result r = ((r.0, r.1), r.2)

  -- The loop of `sendFramesOldestFirst`, which is that of `sendLatestFrames` less the test of what it
  -- has seen: no frame is passed over.
  abbrev pub walk_all : {U : Type 0} → (List ℕ → U → U) → U → Storage F → Bool × U × Storage F
  walk_all send u t = walk send (area_size t) 0 (area_size t) t.oldest_addr 0 0 u t

  unfoldable pub send_frames_oldest_first :
      {U : Type 0} → (List ℕ → U → U) → U → Storage F → (Bool × U) × Storage F
  unfolding walk
  send_frames_oldest_first send u s =
      if s.initialized
      then guarded F (false, u)
          (λ t. if t.valid_frame_count == 0 then ((true, u), t) else as_result (walk_all send u t))
          s
      else ((false, u), s)

  -- At most the newest `count` frames: those before them in the walk are skipped.
  unfoldable pub send_latest_frames :
      {U : Type 0} → (List ℕ → U → U) → ℕ → U → Storage F → (Bool × U) × Storage F
  unfolding walk
  send_latest_frames send count u s =
      if s.initialized
      then guarded F (false, u)
          (λ t.
            if count == 0
            then ((true, u), t)
            else if t.valid_frame_count == 0
            then ((true, u), t)
            else let target_count =
                (if ltb t.valid_frame_count count then t.valid_frame_count else count) in
              let skip_count = t.valid_frame_count - target_count in
              as_result (walk send (area_size t) skip_count (area_size t) t.oldest_addr 0 0 u t))
          s
      else ((false, u), s)

  -- The same walk with every frame read and none sent; it takes no guard of its own.
  unfoldable pub read_frames_oldest_first_test : Storage F → Bool × Storage F
  unfolding walk
  read_frames_oldest_first_test s =
      if s.initialized
      then (if s.valid_frame_count == 0
          then (true, s)
          else let r = walk_all (λ frame (n : ℕ). n + 1) 0 s in (r.0, r.2))
      else (false, s)
