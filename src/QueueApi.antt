-- ===== src/QueueApi.antt =====
-- What EventLogger uses of the queue of FreeRTOS: a bounded first-in first-out queue of events.
use pico_wenvironment_logger.Prelude.{
  ℕ, List, [], ◌∷◌, ◌++◌, length, Bool, Option, none, some, ◌≡◌, ltb, if◌then◌else◌,
}
use pico_wenvironment_logger.Protocol.{LogEvent}

pub record QueueApi : Type 1 where
  pub Queue : Type 0
  pub create : ℕ → Option Queue  -- xQueueCreate
  pub send : LogEvent → Queue → Bool × Queue  -- xQueueSend, xQueueSendFromISR == pdPASS
  pub receive : Queue → Option LogEvent × Queue  -- xQueueReceive == pdTRUE
  pub waiting : Queue → ℕ  -- uxQueueMessagesWaiting

-- As FreeRTOS documents it.
pub record IsQueue (q : QueueApi) : Type 0 where
  pub events : q.Queue → List LogEvent
  pub capacity : q.Queue → ℕ
  pub send_lem :
      (e : LogEvent) (x : q.Queue) → (q.send e x).0 ≡ ltb (length (events x)) (capacity x)
  pub send_events :
      (e : LogEvent) (x : q.Queue)
      → events (q.send e x).1
        ≡ (if ltb (length (events x)) (capacity x) then events x ++ (e ∷ []) else events x)
  pub send_capacity : (e : LogEvent) (x : q.Queue) → capacity (q.send e x).1 ≡ capacity x
  pub receive_empty : (x : q.Queue) → events x ≡ [] → (q.receive x).0 ≡ none
  pub receive_first :
      (x : q.Queue) (e : LogEvent) (rest : List LogEvent)
      → events x ≡ e ∷ rest
      → ((q.receive x).0 ≡ some e) × (events (q.receive x).1 ≡ rest)
  pub waiting_lem : (x : q.Queue) → q.waiting x ≡ length (events x)
