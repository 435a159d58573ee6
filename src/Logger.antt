-- ===== src/Logger.antt =====
-- src/EventLogger.cpp, include/EventLogger.h and include/LogPayloads.h: events are numbered and
-- queued by the tasks and interrupt handlers, and one task frames them, sends them over the UART
-- and appends them to the flash. The critical sections make each operation one step.
pub mod Events
pub mod Delivery
use pico_wenvironment_logger.Prelude.{
  ℕ, zero, suc, ◌+◌, ◌-◌, ◌%◌, ◌^◌, Bool, true, false, ltb, leb, ◌==◌, if◌then◌else◌, List, [], ◌∷◌,
  ◌++◌, length, take, replicate, Option, none, some, to_le, u8, u32,
}
use pico_wenvironment_logger.Protocol.{
  LogLevel, info, EventId, text_log, logger_stats, LogEvent, payload_max, max_size,
}
use pico_wenvironment_logger.Frame.{build_frame}
use pico_wenvironment_logger.Uart.{Uart, write_frame}
use pico_wenvironment_logger.FlashApi.{Flash}
use pico_wenvironment_logger.Storage.State.{Storage}
use pico_wenvironment_logger.Storage.Append.{append}
use pico_wenvironment_logger.QueueApi.{QueueApi}

-- The payload: the data and zeros behind them.
pub fill : Option (List ℕ) → ℕ → List ℕ
fill none len = replicate payload_max 0
fill (some bytes) len = take len bytes ++ replicate (payload_max - len) 0

module _ (Q : QueueApi) (F : Flash) where
  pub record Logger : Type 0 where
    pub queue : Option Q.Queue
    pub seq : ℕ
    pub drop_count : ℕ
    pub uart : Uart
    pub flash : Option (Storage F)
    pub enqueue_ok_count : ℕ
    pub uart_tx_count : ℕ
    pub uart_tx_bytes : ℕ
    pub high_water_mark : ℕ

  unfoldable pub create : Uart → Option (Storage F) → Logger
  create uart flash = record {
    queue = none;
    seq = 0;
    drop_count = 0;
    uart = uart;
    flash = flash;
    enqueue_ok_count = 0;
    uart_tx_count = 0;
    uart_tx_bytes = 0;
    high_water_mark = 0;
  }

  unfoldable pub init : ℕ → Logger → Bool × Logger
  init queue_length l = elim (Q.create queue_length) [
    | none ↦ (false, record l { queue = none })
    | some q ↦ (true, record l { queue = some q })
  ]

  pub increment_drop_count : Logger → Logger
  increment_drop_count l = record l { drop_count = u32 (l.drop_count + 1) }

  pub next_seq : Logger → ℕ × Logger
  next_seq l = (l.seq, record l { seq = u32 (l.seq + 1) })

  unfoldable pub set_next_seq : ℕ → Logger → Logger
  set_next_seq seq l = record l { seq = seq }

  -- `makeEvent` and `makeEventFromISR`: no data (a null pointer) leaves the payload zero. `now_us`
  -- is the time since boot.
  pub make_event : ℕ → LogLevel → EventId → Option (List ℕ) → ℕ → Logger → Option LogEvent × Logger
  unfolding next_seq fill
  make_event now_us level event_id bytes len l =
      if ltb payload_max len
      then (none, l)
      else let (seq, l') = next_seq l in
        (
          some (record {
            seq = seq;
            event_id = event_id;
            level = level;
            length = u8 len;
            timestamp_us = u32 now_us;
            payload = fill bytes len;
          }),
          l',
        )

  -- `log`, with the high water mark, and `logFromISR`, without.
  pub enqueue : Bool → Q.Queue → LogEvent → Logger → Bool × Logger
  unfolding increment_drop_count
  enqueue marks q event l =
      let (ok, q') = Q.send event q in
      let sent = record l { queue = some q' } in
      if ok
      then (
        true,
        record sent {
          enqueue_ok_count = u32 (l.enqueue_ok_count + 1);
          high_water_mark =
              if marks
              then (if ltb l.high_water_mark (Q.waiting q')
                  then Q.waiting q'
                  else l.high_water_mark)
              else l.high_water_mark;
        },
      )
      else (false, increment_drop_count sent)

  pub log_with : Bool → ℕ → LogLevel → EventId → Option (List ℕ) → ℕ → Logger → Bool × Logger
  unfolding make_event enqueue increment_drop_count
  log_with marks now_us level event_id bytes len l = elim l.queue [
    | none ↦ (false, l)
    | some q ↦
        let (made, l') = make_event now_us level event_id bytes len l in
        elim made [
          | none ↦ (false, increment_drop_count l')
          | some event ↦ enqueue marks q event l'
        ]
  ]

  abbrev pub log : ℕ → LogLevel → EventId → Option (List ℕ) → ℕ → Logger → Bool × Logger
  log = log_with true

  abbrev pub log_from_isr : ℕ → LogLevel → EventId → Option (List ℕ) → ℕ → Logger → Bool × Logger
  log_from_isr = log_with false

  -- `logf`: `printed` is what vsnprintf makes of the format, `none` an error of its or no format.
  -- The buffer of 64 bytes keeps 63 of them and the terminator.
  pub logf : ℕ → LogLevel → Option (List ℕ) → Logger → Bool × Logger
  unfolding log_with increment_drop_count
  logf now_us level printed l = elim printed [
    | none ↦ (false, increment_drop_count l)
    | some text ↦
        let len = (if leb payload_max (length text) then payload_max - 1 else length text) in
        log now_us level text_log (some (take len text)) len l
  ]

  pub receive : Logger → Option LogEvent × Logger
  receive l = elim l.queue [
    | none ↦ (none, l)
    | some q ↦ let (e, q') = Q.receive q in (e, record l { queue = some q' })
  ]

  pub send_frame : List ℕ → Logger → Bool × Logger
  send_frame frame l =
      if length frame == 0
      then (false, l)
      else let (ok, u) = write_frame frame l.uart in (ok, record l { uart = u })

  -- The part of `sendBinary` behind a frame that the UART took.
  pub store_frame : List ℕ → Logger → Logger
  unfolding increment_drop_count
  store_frame frame l = elim l.flash [
    | none ↦ l
    | some s ↦
        let (ok, s') = append F frame s in
        let l' = record l { flash = some s' } in if ok then l' else increment_drop_count l'
  ]

  pub send_binary : LogEvent → Logger → Logger
  unfolding send_frame store_frame increment_drop_count
  send_binary event l = elim (build_frame event max_size) [
    | none ↦ increment_drop_count l
    | some frame ↦
        let (sent, l1) = send_frame frame l in
        if sent
        then (let l2 = store_frame frame l1 in
            record l2 {
              uart_tx_count = u32 (l2.uart_tx_count + 1);
              uart_tx_bytes = u32 (l2.uart_tx_bytes + length frame);
            })
        else increment_drop_count l1
  ]

  -- One round of `taskLoop`: with nothing queued it waits.
  pub task_round : Logger → Logger
  unfolding receive send_binary
  task_round l = let (e, l') = receive l in elim e [ none ↦ l' | some event ↦ send_binary event l' ]

  -- LoggerStatsPayloadV1, packed.
  pub stats_payload : Logger → List ℕ
  stats_payload l =
      1
      ∷ 0
      ∷ (to_le 2 0
          ++ (to_le 4 l.enqueue_ok_count
              ++ (to_le 4 l.drop_count
                  ++ (to_le 4 l.uart_tx_count
                      ++ (to_le 4 l.uart_tx_bytes ++ to_le 4 l.high_water_mark)))))

  pub send_stats : ℕ → Logger → Bool × Logger
  unfolding log_with stats_payload
  send_stats now_us l = log now_us info logger_stats (some (stats_payload l)) 24 l

  pub get_tx_byte_drop_count : Logger → ℕ
  get_tx_byte_drop_count l = l.uart.tx_byte_full_count
