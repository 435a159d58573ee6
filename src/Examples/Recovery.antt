-- ===== src/Examples/Recovery.antt =====
-- A chip with one frame, found again by `rebuildIndexFromFlash` and by `main`.
use pico_wenvironment_logger.Prelude.{
  ℕ, zero, suc, ◌+◌, ◌%◌, ◌≤◌, Bool, true, false, [], ◌∷◌, length, get_or, ◌≡◌, refl, sym, fun_ext,
  subst, ap, ◌∙◌, arith, dec_lt,
}
use pico_wenvironment_logger.Memory.{Memory, get_or-slice, program, program_outside, within}
use pico_wenvironment_logger.Memory.Bytes.{program-lt}
use pico_wenvironment_logger.Frame.{frame_size}
use pico_wenvironment_logger.Frame.{header_of_event}
use pico_wenvironment_logger.Client.Sim.{contents, erased_chip, w25q32, Sim}
use pico_wenvironment_logger.Client.Reliable.{flash, flash-IsFlash}
use pico_wenvironment_logger.Storage.{Config}
use pico_wenvironment_logger.Storage.Scan.{rebuild_index_from_flash}
use pico_wenvironment_logger.Storage.Frames.{FrameAt}
use pico_wenvironment_logger.Storage.Append.Bytes.{program-FrameAt}
use pico_wenvironment_logger.Storage.Recovery.{Entry, NoFrame, Frames, done, skip, frame}
use pico_wenvironment_logger.Storage.Recovery.Rebuild.{Rebuilt, rebuild_index_lem}
use pico_wenvironment_logger.Storage.State.{Storage}
use pico_wenvironment_logger.Storage.Read.Fuel.{walk_ends}
use pico_wenvironment_logger.Storage.Read.{
  area_size, walk, send_frames_oldest_first, send_latest_frames,
}
use pico_wenvironment_logger.Storage.Read.Latest.{collect, rest_sent, latest_frames_lem}
use pico_wenvironment_logger.Uart.{Uart}
use pico_wenvironment_logger.Bme280.{Bme280}
use pico_wenvironment_logger.Boot.{Task, temperature, main}
use pico_wenvironment_logger.Boot.Tasks.{Scheduled, main_lem}
use pico_wenvironment_logger.Examples.Sensors.{i2c, lcd, calibration}
use pico_wenvironment_logger.Boot.Numbering.{log_area, log_area-IsConfig}
use pico_wenvironment_logger.Examples.Log.{
  area, area-IsConfig, empty_log, frame_IsFrame, frame_length,
}
use pico_wenvironment_logger.Examples.Logging.{list_queue}
use pico_wenvironment_logger.Examples.Log
use pico_wenvironment_logger.Examples.Frames.{event}
use pico_wenvironment_logger.Examples.Line.{ring_of}

-- Where every byte is erased, no frame stands.
blank-NoFrame : (m : Memory) (c : Config) (a : ℕ) → m a ≡ 255 → NoFrame m c a
blank-NoFrame m c a e h n f =
    let here : m (a + 0) ≡ 165 =
      sym (get_or-slice m a n 0 0 (omega (arith, f.size))) ∙ ap (λ xs. get_or xs 0 0) f.bytes in
    let same : m (a + 0) ≡ m a = ap m (omega arith) in absurd (omega (arith, here, same, e))

blank-Frames :
    (m : Memory) (c : Config) (n a : ℕ)
    → ((b : ℕ) → a ≤ b → m b ≡ 255)
    → c.end_addr ≤ a + n
    → Frames m c a []
blank-Frames m c zero a e h = done (omega arith)
blank-Frames m c (suc n) a e h = elim (dec_lt a c.end_addr) [
  | yes l ↦
      skip l (blank-NoFrame m c a (e a (omega arith)))
        (blank-Frames m c n (suc a) (λ b le. e b (omega arith)) (omega arith))
  | no g ↦ done (omega arith)
]

-- The erased chip, with the frame of the event programmed at the start of the area.
abbrev chip : Sim
chip = record erased_chip { cells = program (λ a. 255) 4096 Log.frame }

abbrev entry : Entry
entry = record { addr = 4096; header = header_of_event event }

chip-frame : FrameAt (contents chip) log_area 4096 (header_of_event event) (length Log.frame)
chip-frame =
    subst (λ m. FrameAt m log_area 4096 (header_of_event event) (length Log.frame)) cells
      (program-FrameAt (λ a. 255) log_area 4096 (header_of_event event) Log.frame frame_IsFrame
        (omega arith) (omega (arith, frame_length)) (λ a p q. refl))
  where
    same : (a : ℕ) → contents chip a ≡ program (λ a. 255) 4096 Log.frame a
    same a = omega (arith, program-lt (λ a. 255) 4096 Log.frame a (omega arith))

    cells : program (λ a. 255) 4096 Log.frame ≡ contents chip
    cells = fun_ext λ a. sym (same a)

within-behind : (addr n a : ℕ) → addr + n ≤ a → within addr n a ≡ false
within-behind addr n a h = ground arith

behind : (b : ℕ) → 4117 ≤ b → contents chip b ≡ 255
behind b le =
    ap (λ v. v % 256)
      (program_outside (λ a. 255) 4096 Log.frame b
        (within-behind 4096 (length Log.frame) b (omega (arith, frame_length))))

chip-Frames : Frames (contents chip) log_area 4096 (entry ∷ [])
unfolding header_of_event w25q32
chip-Frames =
    frame entry (omega arith) refl
      (subst (FrameAt (contents chip) log_area 4096 (header_of_event event)) frame_length
        chip-frame)
      (blank-Frames (contents chip) log_area 1048576 (4096 + frame_size 3) behind (omega arith))

rebuild_index_lem_example :
    Rebuilt flash flash-IsFlash
      (contents chip)
      log_area
      258
      (entry ∷ [])
      (rebuild_index_from_flash flash (record empty_log { dev = chip; config = log_area })).1
unfolding header_of_event w25q32
rebuild_index_lem_example =
    rebuild_index_lem flash flash-IsFlash (record empty_log { dev = chip; config = log_area })
      (entry ∷ []) 258 refl log_area-IsConfig chip-Frames (omega arith) (omega arith, tt)

abbrev new_uart : Uart
new_uart = record (ring_of 128) { inited = false }

abbrev sensor : Bme280 i2c
sensor = record { device = record lcd { address = 0x76 }; cal = calibration }

-- Where the task of the display cannot be created, `main` stops.
abbrev without : Bool → Task → Bool
without ok temperature = ok
without ok _ = true

main_lem_example :
    Scheduled i2c list_queue flash flash-IsFlash 258
      (entry ∷ [])
      true
      (main i2c list_queue flash true true true (without true) new_uart chip sensor)
unfolding header_of_event w25q32
main_lem_example =
    main_lem i2c list_queue flash flash-IsFlash true (without true) new_uart chip sensor ([], 32)
      (entry ∷ []) 258 refl refl refl refl chip-Frames (omega arith) (omega arith, tt)

-- The log of that chip, as it is found.
abbrev found : Storage flash
found = record empty_log {
  dev = chip;
  config = log_area;
  write_addr = 4117;
  oldest_addr = 4096;
  newest_addr = 4096;
  newest_seq = 258;
  valid_frame_count = 1;
}

latest_frames_lem_example : send_latest_frames flash collect 1 [] found ≡ (
  rest_sent flash collect 0 [] (send_frames_oldest_first flash collect [] found).0,
  (send_frames_oldest_first flash collect [] found).1,
)
latest_frames_lem_example = latest_frames_lem flash collect 1 [] found (omega arith) (omega arith)

walk_ends_example :
    walk flash collect (area_size flash found) 0 (area_size flash found + 7) 4096 0 0 [] found
    ≡ walk flash collect (area_size flash found) 0 (area_size flash found) 4096 0 0 [] found
unfolding w25q32
walk_ends_example =
    walk_ends flash flash-IsFlash collect 0 7 [] found refl log_area-IsConfig (omega arith)
