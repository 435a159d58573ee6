-- ===== src/Examples/Log.antt =====
-- The log of src/FlashLogStorage.cpp on the simulated chip.
use pico_wenvironment_logger.Prelude.{
  ℕ, ◌+◌, ◌-◌, ◌%◌, ◌/◌, ◌≤◌, ◌<◌, true, false, List, [], ◌∷◌, length, some, ◌≡◌, ◌↔◌, inl, refl,
  arith,
}
use pico_wenvironment_logger.Driver.{sector_size}
use pico_wenvironment_logger.Frame.{header_of_event}
use pico_wenvironment_logger.Client.Sim.{contents, w25q32, erased_chip}
use pico_wenvironment_logger.Client.Reliable.{flash, flash-IsFlash, flash-IsReliable}
use pico_wenvironment_logger.Storage.{Config, wrap_address, current_sector_end, next_sector_address}
use pico_wenvironment_logger.Storage.State.{Storage, create}
use pico_wenvironment_logger.Storage.Scan.{is_valid_frame_at}
use pico_wenvironment_logger.Storage.Init.{erase_log_area}
use pico_wenvironment_logger.Storage.Append.{append, frame_address}
use pico_wenvironment_logger.Storage.Append.Bytes.{IsFrame, length-IsFrame}
use pico_wenvironment_logger.Storage.Append.Placed.{Appended}
use pico_wenvironment_logger.Storage.Append.Store.{append_stores}
use pico_wenvironment_logger.Storage.Frames.{FrameAt, IsConfig}
use pico_wenvironment_logger.Storage.Frames.Decide.{is_valid_frame_at_iff}
use pico_wenvironment_logger.Storage.Layout.{InArea, frame_address_lem}
use pico_wenvironment_logger.Storage.Invariant.{IsRunning, IsValid}
use pico_wenvironment_logger.Storage.Invariant.Reachable.{
  call_init, call_append, call_erase_log_area, call_send_latest_frames, calls, reachable-IsValid,
}
use pico_wenvironment_logger.Storage.Safety.Calls.{reachable_outside}
use pico_wenvironment_logger.Storage.Erase.{Outcome, erase_log_area-Outcome}
use pico_wenvironment_logger.Storage.Read.{read_frame}
use pico_wenvironment_logger.Storage.Read.RoundTrip.{append-read_frame}
use pico_wenvironment_logger.Logger.Delivery.{frame_of, frame_of-IsFrame}
use pico_wenvironment_logger.Examples.Frames.{event, event-IsEvent}

-- One sector, from 0x1000 on.
abbrev pub area : Config
area = record { start_addr = 4096; end_addr = 8192 }

pub area-IsConfig : IsConfig area
area-IsConfig = record {
  ordered = omega arith;
  start_aligned = refl;
  end_aligned = refl;
  inside = omega arith;
}

-- An empty log, as `init` leaves it on an erased chip.
abbrev pub empty_log : Storage flash
empty_log = record {
  dev = erased_chip;
  config = area;
  write_addr = 4096;
  oldest_addr = 4096;
  newest_addr = 4096;
  newest_seq = 0;
  valid_frame_count = 0;
  has_shared_io = true;
  initialized = true;
  has_mutex = true;
  maintenance_busy = false;
}

pub start_InArea : InArea area 4096
start_InArea = record { from = omega arith; below = omega arith }

empty_log-IsRunning : IsRunning empty_log
empty_log-IsRunning = record {
  config = area-IsConfig;
  write = start_InArea;
  oldest = start_InArea;
  newest = start_InArea;
  count = omega arith;
  mutex = refl;
}

-- A frame that does not fit at the end of a sector goes to the next one, of two.
abbrev two_sectors : Config
two_sectors = record { start_addr = 4096; end_addr = 12288 }

frame_address_lem_example :
    let a = frame_address two_sectors 8180 21 in
    (a ≡ 8192) × (4096 ≤ a) × (a + 21 ≤ 12288) × (a / sector_size ≡ (a + 21 - 1) / sector_size)
frame_address_lem_example =
    frame_address_lem two_sectors 8180 21
      record {
        ordered = omega arith;
        start_aligned = refl;
        end_aligned = refl;
        inside = omega arith;
      }
      record { from = omega arith; below = omega arith } (omega arith) (omega arith)

reachable-IsValid_example : IsValid (
    calls flash
      (call_init ∷ call_append (1 ∷ []) ∷ call_send_latest_frames 3 ∷ [])
      (create flash erased_chip 4096 8192 true))
reachable-IsValid_example =
    reachable-IsValid flash erased_chip 4096 8192 true
      (call_init ∷ call_append (1 ∷ []) ∷ call_send_latest_frames 3 ∷ [])

reachable_outside_example :
    flash-IsFlash.contents
      (calls flash
        (call_init ∷ call_erase_log_area ∷ [])
        (create flash erased_chip 4096 8192 true)).dev
      8192
    ≡ flash-IsFlash.contents erased_chip 8192
reachable_outside_example =
    reachable_outside flash flash-IsFlash erased_chip area true
      (call_init ∷ call_erase_log_area ∷ []) 8192 refl

erase_log_area-Outcome_example : Outcome flash flash-IsFlash area (erase_log_area flash empty_log)
unfolding w25q32
erase_log_area-Outcome_example =
    erase_log_area-Outcome flash flash-IsFlash empty_log empty_log-IsRunning refl refl refl

abbrev pub frame : List ℕ
frame = frame_of event

pub frame_IsFrame : IsFrame (header_of_event event) frame
frame_IsFrame = frame_of-IsFrame event event-IsEvent

pub frame_length : length frame ≡ 21
unfolding header_of_event
frame_length = length-IsFrame (header_of_event event) frame frame_IsFrame

pub starts_sector : (n : ℕ) → 0 < n → n ≤ 82 → frame_address area 4096 n % sector_size ≡ 0
unfolding frame_address wrap_address current_sector_end next_sector_address
starts_sector n pos short = ground arith

append_stores_example :
    ((append flash frame empty_log).0 ≡ true)
    × Appended flash flash-IsFlash flash-IsReliable area
        (frame_address area 4096 (length frame))
        (header_of_event event)
        frame
        (append flash frame empty_log).1
unfolding w25q32
append_stores_example =
    append_stores flash flash-IsFlash flash-IsReliable (header_of_event event) frame empty_log refl
      area-IsConfig refl refl start_InArea frame_IsFrame
      (inl
        (starts_sector (length frame) (omega (arith, frame_length)) (omega (arith, frame_length))))

append-read_frame_example :
    (read_frame flash
      (frame_address area 4096 (length frame))
      82
      (append flash frame empty_log).1).0
    ≡ some frame
unfolding w25q32
append-read_frame_example =
    append-read_frame flash flash-IsFlash flash-IsReliable (header_of_event event) frame 82
      empty_log refl empty_log-IsRunning refl frame_IsFrame
      (inl
        (starts_sector (length frame) (omega (arith, frame_length)) (omega (arith, frame_length))))
      (omega (arith, frame_length))

is_valid_frame_at_iff_example :
    (is_valid_frame_at flash erased_chip area 4096 ≡ some (header_of_event event, 21))
    ↔ FrameAt (contents erased_chip) area 4096 (header_of_event event) 21
unfolding w25q32
is_valid_frame_at_iff_example =
    is_valid_frame_at_iff flash flash-IsFlash erased_chip area 4096 (header_of_event event) 21 refl
      area-IsConfig (omega arith)
