-- ===== src/Examples/Sensors.antt =====
-- The devices on a simulated bus, the button and the average.
use pico_wenvironment_logger.Prelude.{
  ℕ, Bool, true, false, List, [], ◌∷◌, ◌++◌, length, replicate, get_or, Option, none, some, ◌≡◌,
  refl, arith,
}
use pico_wenvironment_logger.Prelude.Int.{pos, negsuc}
use pico_wenvironment_logger.DisplayMode.{
  DisplayMode, temperature, mode_code, ModeQueue, IsModeQueue,
}
use pico_wenvironment_logger.Button.{polling, samples}
use pico_wenvironment_logger.Button.Gestures.{
  Gesture, idle, press, bounce, all_levels, state, gestures_lem,
}
use pico_wenvironment_logger.I2c.{I2c, IsShared, Device}
use pico_wenvironment_logger.I2c.Release.Requests.{
  Board, Request, requests, bme_init, bme_read, adt_init, adt_read, lcd_print_line, requests-free,
}
use pico_wenvironment_logger.Bme280.Calibration.{Coefficients}
use pico_wenvironment_logger.Bme280.Image.{IsCalibration}
use pico_wenvironment_logger.Aqm0802.{print_line, line_of}
use pico_wenvironment_logger.Aqm0802.Lines.{IsWorking, characters, print_line_lem}

-- A queue of length 1 is what it holds.
abbrev pub mode_queue : ModeQueue
mode_queue = record {
  Queue = Option DisplayMode;
  overwrite = λ m q. (true, some m);
  receive = λ q. (q, none);
}

abbrev mode_queue_IsModeQueue : IsModeQueue mode_queue
mode_queue_IsModeQueue = record {
  content = λ q. q;
  overwrite_passes = λ m q. refl;
  overwrite_lem = λ m q. refl;
  receive_lem = λ q. refl;
  receive_empties = λ q. refl;
}

abbrev gestures : List Gesture
gestures = press 3 ∷ (idle ∷ (bounce 2 ∷ (press 0 ∷ [])))

gestures_lem_example :
    let b =
      samples mode_queue
        (all_levels gestures)
        (state mode_queue mode_queue_IsModeQueue (polling true) temperature none) in
    (b.phase ≡ polling true)
    × (mode_code b.mode ≡ 2)
    × (b.queue ≡ some b.mode)
    × (temperature ≡ temperature)
unfolding mode_code
gestures_lem_example = gestures_lem mode_queue mode_queue_IsModeQueue gestures temperature none

-- A bus that notes the transfers, with its mutex.
abbrev pub i2c : I2c
i2c = record {
  Bus = List (ℕ × List ℕ) × Bool;
  write = λ addr bytes nostop b. (pos (length bytes), (b.0 ++ ((addr, bytes) ∷ []), b.1));
  read = λ addr n nostop b. ((pos n, replicate n 0), b);
  take = λ b. (true, (b.0, true));
  give = λ b. (b.0, false);
  delay = λ ms b. b;
}

abbrev pub i2c_IsShared : IsShared i2c
i2c_IsShared = record {
  held = λ b. b.1;
  write_held = λ addr bytes nostop b. refl;
  read_held = λ addr n nostop b. refl;
  take_held = λ b. refl;
  give_held = λ b. refl;
  delay_held = λ ms b. refl;
}

abbrev i2c_IsWorking : IsWorking i2c
i2c_IsWorking = record {
  trace = λ b. b.0;
  write_ok = λ addr bytes nostop b. refl;
  write_trace = λ addr bytes nostop b. refl;
  take_ok = λ b. refl;
  take_trace = λ b. refl;
  give_trace = λ b. refl;
  delay_trace = λ ms b. refl;
}

abbrev pub lcd : Device i2c
lcd = record { bus = ([], false); address = 0x3E; has_mutex = true }

abbrev pub calibration : Coefficients
calibration = record {
  dig_t1 = 27504;
  dig_t2 = pos 26435;
  dig_t3 = negsuc 999;
  dig_p1 = 36477;
  dig_p2 = negsuc 10684;
  dig_p3 = pos 3024;
  dig_p4 = pos 2855;
  dig_p5 = pos 140;
  dig_p6 = negsuc 6;
  dig_p7 = pos 15500;
  dig_p8 = negsuc 14599;
  dig_p9 = pos 6000;
  dig_h1 = 75;
  dig_h2 = pos 362;
  dig_h3 = 0;
  dig_h4 = pos 313;
  dig_h5 = negsuc 49;
  dig_h6 = pos 30;
  t_fine = pos 5;
}

pub calibration-IsCalibration : IsCalibration calibration
calibration-IsCalibration = record {
  t1 = omega arith;
  t2 = (omega arith, omega arith);
  t3 = (omega arith, omega arith);
  p1 = omega arith;
  p2 = (omega arith, omega arith);
  p3 = (omega arith, omega arith);
  p4 = (omega arith, omega arith);
  p5 = (omega arith, omega arith);
  p6 = (omega arith, omega arith);
  p7 = (omega arith, omega arith);
  p8 = (omega arith, omega arith);
  p9 = (omega arith, omega arith);
  h2 = (omega arith, omega arith);
  h4 = (omega arith, omega arith);
  h5 = (omega arith, omega arith);
  h6 = (omega arith, omega arith);
}

abbrev board : Board i2c
board = record {
  bus = ([], false);
  bme = record { device = record lcd { address = 0x76 }; cal = calibration };
  adt = record { device = record lcd { address = 0x48 }; initialized = false };
  lcd = lcd;
}

abbrev some_requests : List (Request i2c)
some_requests =
    adt_init ∷ (bme_init ∷ (adt_read ∷ (lcd_print_line 1 (some (b'4' ∷ [])) ∷ (bme_read ∷ []))))

requests-free_example : (requests i2c some_requests board).bus.1 ≡ false
requests-free_example = requests-free i2c i2c_IsShared some_requests board refl

print_line_lem_example :
    let r = print_line i2c 1 (some (b'4' ∷ [])) lcd in
    let line = line_of (some (b'4' ∷ [])) in
    (r.0 ≡ true)
    × (r.1.bus.0 ≡ (0x3E, 0x00 ∷ (0xC0 ∷ [])) ∷ characters i2c i2c_IsWorking 0x3E line)
    × (length line ≡ 8)
    × (get_or line 1 0 ≡ b' ')
print_line_lem_example = print_line_lem i2c i2c_IsWorking 1 (b'4' ∷ []) 1 lcd (omega arith)
