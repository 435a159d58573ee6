-- ===== src/Protocol.antt =====
-- include/EventId.h, include/LogTypes.h, include/LogProtocol.h, include/LogPayloads.h and
-- src/LogEvent.cpp: events, the header of a frame, and their layout in bytes.
mod Layout
pub mod Codec
unfoldable pub use Layout.*
use Prim.Native.String.{String}
use pico_wenvironment_logger.Prelude.{ℕ, ◌+◌, ◌%◌, List, [], ◌∷◌, ◌++◌, to_le, from_le, take, drop}

pub data LogLevel : Type 0 where
  info warn error : LogLevel

pub data EventId : Type 0 where
  unkown : EventId
  system_start system_ready system_shutdown watchdog_reboot : EventId
  heartbeat counter_mark checkpoint uart_rx uart_tx dma_done : EventId
  text_log debug_log logger_stats : EventId
  queue_full crc_error uart_error dma_error sensor_error unknown_error fatal_error : EventId
  app_event_00 app_event_01 : EventId

-- `static_cast<uint8_t>(level)`
unfoldable pub level_code : LogLevel → ℕ
level_code info = 0
level_code warn = 1
level_code error = 2

-- `static_cast<uint16_t>(event_id)`
unfoldable pub event_code : EventId → ℕ
event_code unkown = 0
event_code system_start = 1
event_code system_ready = 2
event_code system_shutdown = 3
event_code watchdog_reboot = 4
event_code heartbeat = 100
event_code counter_mark = 101
event_code checkpoint = 102
event_code uart_rx = 110
event_code uart_tx = 111
event_code dma_done = 120
event_code text_log = 200
event_code debug_log = 201
event_code logger_stats = 210
event_code queue_full = 300
event_code crc_error = 301
event_code uart_error = 302
event_code dma_error = 303
event_code sensor_error = 304
event_code unknown_error = 390
event_code fatal_error = 399
event_code app_event_00 = 1000
event_code app_event_01 = 1001

-- `toString(LogLevel)`
pub level_name : LogLevel → String
level_name info = "INFO"
level_name warn = "WARN"
level_name error = "ERROR"

-- `to_string(EventId)`
pub event_name : EventId → String
event_name system_start = "SYSTEM_START"
event_name system_ready = "SYSTEM_READY"
event_name system_shutdown = "SYSTEM_SHUTDOWN"
event_name watchdog_reboot = "WATCHDOG_REBOOT"
event_name heartbeat = "HEARTBEAT"
event_name counter_mark = "COUNTER_MARK"
event_name checkpoint = "CHECKPOINT"
event_name uart_rx = "UART_RX"
event_name uart_tx = "UART_TX"
event_name dma_done = "DMA_DONE"
event_name text_log = "TEXT_LOG"
event_name debug_log = "DEBUG_LOG"
event_name logger_stats = "LOGGER_STATS"
event_name queue_full = "QUEUE_FULL"
event_name crc_error = "CRC_ERROR"
event_name uart_error = "UART_ERROR"
event_name dma_error = "DMA_ERROR"
event_name sensor_error = "SENSOR_ERROR"
event_name unknown_error = "UNKNOWN_ERROR"
event_name fatal_error = "FATAL_ERROR"
event_name _ = "UNKNOWN"

-- The internal event; `payload` has `payload_max` bytes, of which `length` count.
pub record LogEvent : Type 0 where
  pub seq : ℕ
  pub event_id : EventId
  pub level : LogLevel
  pub length : ℕ
  pub timestamp_us : ℕ
  pub payload : List ℕ
