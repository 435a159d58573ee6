-- ===== src/Console/Commands.antt =====
-- What `command_task` does at the end of a line. Its context holds the logger's own storage and
-- UART, as src/main.cpp builds it.
use pico_wenvironment_logger.Prelude.{ℕ, Bool, true, false, if◌then◌else◌, List, Option, none, some}
use pico_wenvironment_logger.FlashApi.{Flash}
use pico_wenvironment_logger.QueueApi.{QueueApi}
use pico_wenvironment_logger.Uart.{Uart}
use pico_wenvironment_logger.Storage.State.{Storage}
use pico_wenvironment_logger.Storage.Init.{erase_log_area}
use pico_wenvironment_logger.Storage.Read.{send_frames_oldest_first, send_latest_frames}
use pico_wenvironment_logger.Logger.{Logger, set_next_seq}
use pico_wenvironment_logger.Console.{
  Console, console_key, Command, help, status, pause, resume, send_all, erase, latest, unknown,
  command_of,
}

-- `send` stands for UartDma::write_buffer_blocking under the interrupts that come meanwhile.
module _ (Q : QueueApi) (F : Flash) (send : List ℕ → Uart → Uart) where
  -- `log_paused` is the global `g_log_paused`.
  pub record App : Type 0 where
    pub log_paused : Bool
    pub logger : Logger Q F
    pub console : Console

  -- `is_log_paused` reads the flag, these write it.
  unfoldable pub pause_log_generation : App → App
  pause_log_generation a = record a { log_paused = true }

  unfoldable pub resume_log_generation : App → App
  resume_log_generation a = record a { log_paused = false }

  abbrev sent : Logger Q F → (Bool × Uart) × Storage F → Logger Q F
  sent l r = record l { uart = r.0.1; flash = some r.1 }

  erased : Logger Q F → Bool × Storage F → Logger Q F
  erased l r = let l' = record l { flash = some r.1 } in if r.0 then set_next_seq Q F 0 l' else l'

  -- The commands that use the storage.
  unfoldable pub execute_on : Storage F → Command → App → App
  unfolding pause_log_generation resume_log_generation erased
  execute_on s help a = a
  execute_on s status a = a
  execute_on s pause a = pause_log_generation a
  execute_on s resume a = resume_log_generation a
  execute_on s send_all a = record a {
    logger = sent a.logger (send_frames_oldest_first F send a.logger.uart s);
  }
  execute_on s erase a = record a { logger = erased a.logger (erase_log_area F s) }
  execute_on s (latest n) a = record a {
    logger = sent a.logger (send_latest_frames F send n a.logger.uart s);
  }
  execute_on s unknown a = a

  -- One round of the loop of `command_task`; with no storage (a null pointer) the task has ended.
  unfoldable pub command_round : Option ℕ → App → App
  unfolding execute_on
  command_round ch a = elim a.logger.flash [
    | none ↦ a
    | some s ↦
        let (line, c) = console_key ch a.console in
        let a' = record a { console = c } in
        elim line [ none ↦ a' | some cmd ↦ execute_on s (command_of cmd) a' ]
  ]
