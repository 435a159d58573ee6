-- ===== src/Storage/Read/RoundTrip.antt =====
-- What `append` stores, `readFrame` gives back.
use pico_wenvironment_logger.Prelude.{
  ℕ, ◌%◌, ◌≤◌, ◌<◌, Bool, true, false, List, length, Option, none, some, ◌≡◌, sym, ◌∙◌, ap, subst,
  ◌⊎◌, arith, le→ltb,
}
use pico_wenvironment_logger.Memory.{slice}
use pico_wenvironment_logger.Protocol.{LogFrameHeader}
use pico_wenvironment_logger.Driver.{sector_size}
use pico_wenvironment_logger.Driver.Range.{is_address_valid_iff}
use pico_wenvironment_logger.FlashApi.{Flash, IsFlash}
use pico_wenvironment_logger.Storage.State.{Storage}
use pico_wenvironment_logger.Storage.Guard.{taken, guarded-runs}
use pico_wenvironment_logger.Storage.Frames.{FrameAt, IsConfig}
use pico_wenvironment_logger.Storage.Frames.Decide.{is_valid_frame_at_iff}
use pico_wenvironment_logger.Storage.Append.{append, append_guarded, frame_address}
use pico_wenvironment_logger.Storage.Append.Reliable.{IsReliable}
use pico_wenvironment_logger.Storage.Append.Bytes.{IsFrame, IsErased, length-IsFrame}
use pico_wenvironment_logger.Storage.Append.Store.{append_stores, append-guarded}
use pico_wenvironment_logger.Storage.Invariant.{IsRunning}
use pico_wenvironment_logger.Storage.Invariant.Kept.{append_guarded-IsRunning, guarded-IsRunning}
use pico_wenvironment_logger.Storage.Read.{read_frame}

module _ (F : Flash) (flash : IsFlash F) (rel : IsReliable F flash) where
  open flash use {contents, Ready}

  -- A frame that stands at an address is read, if the buffer holds it.
  read_frame_lem :
      (addr out_size n : ℕ) (h : LogFrameHeader) (s : Storage F)
      → Ready s.dev
      → IsConfig s.config
      → s.has_mutex ≡ true
      → FrameAt (contents s.dev) s.config addr h n
      → n ≤ out_size
      → (read_frame F addr out_size s).0 ≡ some (slice (contents s.dev) addr n)
  unfolding read_frame
  read_frame_lem addr out_size n h s r v m f fits =
      guarded-runs F
        (λ (x : Option (List ℕ) × Storage F). x.0 ≡ some (slice (contents s.dev) addr n)) none _ s m
        (rel.takes_mutex s.dev)
        (rw
          (
            (is_valid_frame_at_iff F flash (taken F s).dev s.config addr h n ready v
                  (omega (arith, f.to, v.inside))).1
                (subst (λ k. FrameAt k s.config addr h n) (sym same) f),
            le→ltb out_size n fits,
            flash.read_lem (taken F s).dev addr n ready,
            (is_address_valid_iff addr n).1 (omega (arith, f.size), omega (arith, f.to, v.inside)),
          )
          (ap (λ k. some (slice k addr n)) same))
    where
      same : contents (taken F s).dev ≡ contents s.dev
      same = (flash.take_mutex_lem s.dev).0

      ready : Ready (taken F s).dev
      ready = (flash.take_mutex_lem s.dev).1 r

  append-IsRunning :
      (bytes : List ℕ) (s : Storage F)
      → IsRunning s
      → s.initialized ≡ true
      → 0 < length bytes
      → IsRunning (append F bytes s).1
  append-IsRunning bytes s p i pos =
      subst (λ (x : Bool × Storage F). IsRunning x.1)
        (sym (append-guarded F flash rel bytes s i (ground arith)))
        (guarded-IsRunning F false (append_guarded F bytes) s
          (λ t. append_guarded-IsRunning F bytes t pos) p)

  -- A frame appended to a running log, on a device whose requests succeed and where the frame's
  -- place starts a sector or is erased, is what `readFrame` then gives for that place, byte for
  -- byte, if its buffer is large enough.
  pub append-read_frame :
      (h : LogFrameHeader) (bytes : List ℕ) (out_size : ℕ) (s : Storage F)
      → Ready s.dev
      → IsRunning s
      → s.initialized ≡ true
      → IsFrame h bytes
      → (frame_address s.config s.write_addr (length bytes) % sector_size ≡ 0)
        ⊎ IsErased
            (contents s.dev)
            (frame_address s.config s.write_addr (length bytes))
            (length bytes)
      → length bytes ≤ out_size
      → (read_frame F
          (frame_address s.config s.write_addr (length bytes))
          out_size
          (append F bytes s).1).0
        ≡ some bytes
  append-read_frame h bytes out_size s r p i f free fits =
      let a = (append_stores F flash rel h bytes s r p.config i p.mutex p.write f free).1 in
      let q = append-IsRunning bytes s p i (omega (arith, length-IsFrame h bytes f)) in
      read_frame_lem (frame_address s.config s.write_addr (length bytes)) out_size (length bytes) h
        (append F bytes s).1 a.ready q.config q.mutex
        (subst
          (λ c.
            FrameAt (contents (append F bytes s).1.dev) c
              (frame_address s.config s.write_addr (length bytes)) h (length bytes))
          (sym a.same_config) a.frame)
        fits
      ∙ ap some a.stored
