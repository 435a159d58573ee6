-- ===== src/Examples/Console.antt =====
-- The command line of src/task_command.cpp and the reply of src/HttpServer.cpp.
use pico_wenvironment_logger.Prelude.{
  ℕ, ◌<◌, true, List, [], ◌∷◌, replicate, Option, none, some, ◌≡◌, ◌↔◌, refl, arith, take,
}
use pico_wenvironment_logger.Prelude.Int.{pos, negsuc}
use pico_wenvironment_logger.Console.{Console, cmd_buf_size, parse_latest_count}
use pico_wenvironment_logger.Console.Line.{commands, lines, after_keys, commands_lem}
use pico_wenvironment_logger.Console.Count.{IsCount, parse_latest_count_iff}
use pico_wenvironment_logger.EnvironmentData.{EnvironmentData}
use pico_wenvironment_logger.Http.{http_recv_callback}
use pico_wenvironment_logger.Http.Reply.{IsAnswer, expected, http_recv_callback_lem}
use pico_wenvironment_logger.Http.Page.{codes}

-- `l`, `4`, a backspace, `7` and the end of the line, and an empty line behind it.
abbrev keys : List (Option ℕ)
keys =
    some b'l' ∷ (none ∷ (some b'4' ∷ (some 0x08 ∷ (some b'7' ∷ (some b'\r' ∷ (some b'\n' ∷ []))))))

abbrev console : Console
console = record { cmd_buf = replicate 32 0; pos = 0 }

commands_lem_example :
    (commands keys console ≡ lines keys []) × ((after_keys keys console).pos < cmd_buf_size)
commands_lem_example = commands_lem keys (replicate 32 0) refl

-- The one line of them.
typed : lines keys [] ≡ (b'l' ∷ (b'7' ∷ [])) ∷ []
typed = refl

parse_latest_count_iff_example :
    (parse_latest_count (b'l' ∷ (b'7' ∷ [])) ≡ some 7) ↔ IsCount (b'l' ∷ (b'7' ∷ [])) 7
parse_latest_count_iff_example = parse_latest_count_iff (b'l' ∷ (b'7' ∷ [])) 7

-- Numbers that are printed as they are.
abbrev five_digits : ℕ → List ℕ
five_digits n = take 5 (codes "21.50")

abbrev measured : EnvironmentData ℕ
measured = record { temperature = 2150; humidity = 4020; pressure = 101325; tick = 7; valid = true }

http_recv_callback_lem_example :
    IsAnswer ℕ five_digits
      (pos 0)
      (negsuc 12)
      (some (codes "GET /api/env HTTP/1.1"))
      (expected ℕ five_digits
        (pos 0)
        (negsuc 12)
        measured
        (some (codes "GET /api/env HTTP/1.1"))
        (pos 0))
      (http_recv_callback ℕ five_digits
        (pos 0)
        (negsuc 12)
        measured
        (some (codes "GET /api/env HTTP/1.1"))
        (pos 0)
        (pos 0)
        (pos 0))
http_recv_callback_lem_example =
    http_recv_callback_lem ℕ five_digits (pos 0) (negsuc 12) refl (λ x. omega arith) measured
      (some (codes "GET /api/env HTTP/1.1")) (pos 0) (pos 0) (pos 0) refl
