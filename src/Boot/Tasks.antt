-- ===== src/Boot/Tasks.antt =====
-- What src/main.cpp hands to the scheduler.
use pico_wenvironment_logger.Prelude.{
  ℕ, ◌+◌, ◌^◌, ◌<◌, ◌&&◌, Bool, true, false, if◌then◌else◌, List, [], ◌∷◌, All, Option, none, some,
  ◌≡◌, refl, ap, ◌∙◌,
}
use pico_wenvironment_logger.FlashApi.{Flash, IsFlash}
use pico_wenvironment_logger.QueueApi.{QueueApi}
use pico_wenvironment_logger.I2c.{I2c}
use pico_wenvironment_logger.Bme280.{Bme280}
use pico_wenvironment_logger.Uart.{Uart}
use pico_wenvironment_logger.Storage.State.{Storage}
use pico_wenvironment_logger.Storage.Recovery.{Entry, seq, Frames, age}
use pico_wenvironment_logger.Storage.Recovery.Rebuild.{Rebuilt}
use pico_wenvironment_logger.Logger.{Logger}
use pico_wenvironment_logger.Boot.{
  Task, all_tasks, create_tasks, start_sensor, Running, boot, main, log_start_addr,
}
use pico_wenvironment_logger.Boot.Numbering.{log_area, Fresh, Started, boot_lem}

-- Whether each of the tasks can be created.
abbrev pub all_created : (Task → Bool) → List Task → Bool
all_created created [] = true
all_created created (t ∷ ts) = created t && all_created created ts

create_tasks_lem :
    (created : Task → Bool) (ts : List Task)
    → create_tasks created ts ≡ (if all_created created ts then some ts else none)
unfolding create_tasks
create_tasks_lem created [] = refl
create_tasks_lem created (t ∷ ts) =
    elim (created t)
      as (λ b.
        (if b
          then elim (create_tasks created ts) [ none ↦ none | some us ↦ some (t ∷ us) ]
          else none)
        ≡ (if b && all_created created ts then some (t ∷ ts) else none)) [
          | false ↦ refl
          | true ↦
              ap (λ o. elim o [ none ↦ none | some us ↦ some (t ∷ us) ])
                (create_tasks_lem created ts)
              ∙ (elim (all_created created ts)
                  as (λ b.
                    (elim (if b then some ts else none) [ none ↦ none | some us ↦ some (t ∷ us) ])
                    ≡ (if b then some (t ∷ ts) else none)) [ false ↦ refl | true ↦ refl ])
        ]

module _ (I : I2c) (Q : QueueApi) (F : Flash) (flash : IsFlash F) where
  open flash use {contents, Ready}

  -- What `main` comes to, `ok` saying whether it starts the scheduler.
  pub record Scheduled (base : ℕ) (es : List Entry) (ok : Bool) (r : Option (Running I Q F))
      : Type 0 where
    pub running : Running I Q F
    pub storage : Storage F
    pub result : r ≡ (if ok then some running else none)
    pub tasks : running.tasks ≡ all_tasks
    pub number : Fresh es running.logger.seq
    pub stored : running.logger.flash ≡ some storage
    pub index : Rebuilt F flash (contents storage.dev) log_area base es storage

  -- Where the UART object is new and the flash, both mutexes and the logger's queue are there: on a
  -- chip that is ready, with frames in the area whose sequence numbers are less than half their range,
  -- less one, ahead of some number, `main` starts the scheduler exactly if the display mode queue and
  -- each of the seven tasks can be created, whatever the sensor does, and stops otherwise. When it
  -- starts the scheduler, all seven tasks are there; the storage's index describes the frames of the
  -- area; and the first event gets a number that is newer than that of each of them, or 0 when
  -- there is none.
  pub main_lem :
      (queue_ok : Bool) (created : Task → Bool) (uart : Uart) (d : F.Dev) (sensor : Bme280 I)
      (q : Q.Queue) (es : List Entry) (base : ℕ)
      → uart.inited ≡ false
      → Ready d
      → (F.create_mutex d).0 ≡ true
      → Q.create 32 ≡ some q
      → Frames (contents d) log_area log_start_addr es
      → base < 2 ^ 32
      → All (λ e. age base (seq e) + 1 < 2 ^ 31) es
      → Scheduled base es
          (queue_ok && all_created created all_tasks)
          (main I Q F true true queue_ok created uart d sensor)
  unfolding main
  main_lem queue_ok created uart d sensor q es base first r made queue fs b y = record {
    running = running;
    storage = started.storage;
    result =
        ap (λ o. elim o [ none ↦ none | some l ↦ if queue_ok then scheduled l else none ])
          started.result
        ∙ ap (λ o. if queue_ok then handed started.logger o else none)
            (create_tasks_lem created all_tasks)
        ∙ both queue_ok (all_created created all_tasks);
    tasks = refl;
    number = started.number;
    stored = started.stored;
    index = started.index;
  }
    where
      started : Started Q F flash base es (boot Q F true true uart d)
      started = boot_lem Q F flash uart d q es base first r made queue fs b y

      handed : Logger Q F → Option (List Task) → Option (Running I Q F)
      handed l o = elim o [
        | none ↦ none
        | some ts ↦ some record { logger = l; bme280 = start_sensor I sensor; tasks = ts }
      ]

      scheduled : Logger Q F → Option (Running I Q F)
      scheduled l = handed l (create_tasks created all_tasks)

      running : Running I Q F
      running = record {
        logger = started.logger;
        bme280 = start_sensor I sensor;
        tasks = all_tasks;
      }

      both :
          (a c : Bool)
          → (if a then handed started.logger (if c then some all_tasks else none) else none)
            ≡ (if a && c then some running else none)
      both false c = refl
      both true false = refl
      both true true = refl
