-- ===== src/Boot.antt =====
-- src/main.cpp: the UART, the flash, the storage on it and the logger, whose numbering goes on
-- behind the newest frame; then the sensor's first reading, the queue between button and display,
-- and the tasks, which are modelled in modules of their own, up to the start of the scheduler.
pub mod Numbering
pub mod Tasks
use pico_wenvironment_logger.Prelude.{
  ℕ, ◌+◌, List, [], ◌∷◌, Bool, true, false, ltb, if◌then◌else◌, Option, none, some, u32,
}
use pico_wenvironment_logger.FlashApi.{Flash}
use pico_wenvironment_logger.QueueApi.{QueueApi}
use pico_wenvironment_logger.I2c.{I2c}
use pico_wenvironment_logger.Bme280
use pico_wenvironment_logger.Bme280.{Bme280}
use pico_wenvironment_logger.Uart
use pico_wenvironment_logger.Uart.{Uart}
use pico_wenvironment_logger.Storage.State.{Storage, create}
use pico_wenvironment_logger.Storage.Init
use pico_wenvironment_logger.Logger
use pico_wenvironment_logger.Logger.{Logger, set_next_seq}

abbrev pub log_start_addr : ℕ
log_start_addr = 0x00001000

abbrev pub log_end_addr : ℕ
log_end_addr = 0x00101000

module _ (Q : QueueApi) (F : Flash) where
  -- `if(storage.getCount() > 0) logger.setNextSeq(storage.getNewestSeq() + 1)`
  unfoldable pub restore_seq : Storage F → Logger Q F → Logger Q F
  restore_seq s l =
      if ltb 0 s.valid_frame_count then set_next_seq Q F (u32 (s.newest_seq + 1)) l else l

  -- `init` of the logger and what follows, `none` when it fails and `main` stops in a loop.
  unfoldable pub start_logger : Uart → Storage F → Option (Logger Q F)
  unfolding restore_seq
  start_logger u s =
      let (ok, l) = Logger.init Q F 32 (Logger.create Q F u (some s)) in
      if ok then some (restore_seq s l) else none

  -- `main` up to the logger that the tasks get; `none` when it stops in an endless loop. The arguments are
  -- the results of FlashDriver::init and xSemaphoreCreateMutex.
  unfoldable pub boot : Bool → Bool → Uart → F.Dev → Option (Logger Q F)
  unfolding start_logger
  boot flash_ok mutex_ok uart d =
      let (uart_ok, u) = Uart.init uart in
      if uart_ok
      then (if flash_ok
          then (if mutex_ok
              then (let (ok, s) = Init.init F (create F d log_start_addr log_end_addr true) in
                  if ok then start_logger u s else none)
              else none)
          else none)
      else none

-- The tasks that `xTaskCreate` is called for, in that order.
pub data Task : Type 0 where
  logger environment adc command temperature button wifi : Task

abbrev pub all_tasks : List Task
all_tasks = logger ∷ environment ∷ adc ∷ command ∷ temperature ∷ button ∷ wifi ∷ []

-- The calls of `xTaskCreate`, `created` being their results (pdPASS); `none` when one fails and
-- `main` stops in an endless loop.
unfoldable pub create_tasks : (Task → Bool) → List Task → Option (List Task)
create_tasks created [] = some []
create_tasks created (t ∷ ts) =
    let rest = create_tasks created ts in
    if created t then elim rest [ none ↦ none | some us ↦ some (t ∷ us) ] else none

-- The sensor is read once, if it could be initialised; a failure is only printed.
unfoldable pub start_sensor : (I : I2c) → Bme280 I → Bme280 I
start_sensor I s = let (ok, s') = Bme280.init I s in if ok then (Bme280.read I s').1 else s'

module _ (I : I2c) (Q : QueueApi) (F : Flash) where
  -- What there is when `main` calls vTaskStartScheduler.
  pub record Running : Type 0 where
    pub logger : Logger Q F
    pub bme280 : Bme280 I
    pub tasks : List Task

  -- `main`; `none` when it stops in an endless loop instead. `queue_ok` is the result of xQueueCreate
  -- for the display mode, and `sensor` the object on the bus that was set up and scanned.
  unfoldable pub main :
      (flash_ok mutex_ok queue_ok : Bool) (created : Task → Bool)
      → Uart
      → F.Dev
      → Bme280 I
      → Option Running
  unfolding boot create_tasks start_sensor
  main flash_ok mutex_ok queue_ok created uart d sensor = elim (boot Q F flash_ok mutex_ok uart d) [
    | none ↦ none
    | some l ↦
        let s = start_sensor I sensor in
        if queue_ok
        then elim (create_tasks created all_tasks) [
          | none ↦ none
          | some ts ↦ some record { logger = l; bme280 = s; tasks = ts }
        ]
        else none
  ]
