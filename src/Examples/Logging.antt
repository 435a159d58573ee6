-- ===== src/Examples/Logging.antt =====
-- The logger of src/EventLogger.cpp on a queue that is a list, the simulated chip and a small ring.
use pico_wenvironment_logger.Prelude.{
  ℕ, Bool, true, false, ltb, if◌then◌else◌, List, [], ◌∷◌, ◌++◌, length, take, Option, none, some,
  ◌≡◌, inl, refl, arith, sym, subst, if-cases, if-both,
}
use pico_wenvironment_logger.Memory.{slice}
use pico_wenvironment_logger.Protocol.{LogEvent, info, heartbeat}
use pico_wenvironment_logger.Frame.{header_of_event}
use pico_wenvironment_logger.Frame.RoundTrip.{IsEvent}
use pico_wenvironment_logger.QueueApi.{QueueApi, IsQueue}
use pico_wenvironment_logger.Client.Sim.{w25q32}
use pico_wenvironment_logger.Client.Reliable.{flash, flash-IsFlash, flash-IsReliable}
use pico_wenvironment_logger.Uart.Ring.{ring}
use pico_wenvironment_logger.Uart.Fifo.{IsRing, pending}
use pico_wenvironment_logger.Storage.State.{Storage}
use pico_wenvironment_logger.Storage.Append.{frame_address}
use pico_wenvironment_logger.Storage.Frames.{FrameAt}
use pico_wenvironment_logger.Logger.{Logger, make_event, log_with, send_binary}
use pico_wenvironment_logger.Logger.Events.{make_event_lem, log_with_counts, made}
use pico_wenvironment_logger.Logger.Delivery.{IsWritable, send_binary_stores, send_binary_refused}
use pico_wenvironment_logger.Examples.Frames.{event, event-IsEvent, are_bytes_lem}
use pico_wenvironment_logger.Examples.Line.{ring_of, ring_IsRing}
use pico_wenvironment_logger.Examples.Log.{
  area, area-IsConfig, empty_log, start_InArea, frame, starts_sector,
}

abbrev first_of : List LogEvent × ℕ → Option LogEvent × (List LogEvent × ℕ)
first_of ([], n) = (none, ([], n))
first_of (e ∷ es, n) = (some e, (es, n))

-- A queue of FreeRTOS as a list with a capacity.
abbrev pub list_queue : QueueApi
list_queue = record {
  Queue = List LogEvent × ℕ;
  create = λ n. some ([], n);
  send = λ e x. if ltb (length x.0) x.1 then (true, (x.0 ++ (e ∷ []), x.1)) else (false, x);
  receive = λ x. first_of x;
  waiting = λ x. length x.0;
}

abbrev offered : Bool → LogEvent → List LogEvent × ℕ → Bool × (List LogEvent × ℕ)
offered b e x = if b then (true, (x.0 ++ (e ∷ []), x.1)) else (false, x)

pushed :
    (b : Bool) (e : LogEvent) (x : List LogEvent × ℕ)
    → (offered b e x).1.0 ≡ (if b then x.0 ++ (e ∷ []) else x.0)
pushed true e x = refl
pushed false e x = refl

abbrev list_queue_IsQueue : IsQueue list_queue
list_queue_IsQueue = record {
  events = λ x. x.0;
  capacity = λ x. x.1;
  send_lem = λ e x.
      if-cases (λ (r : Bool × (List LogEvent × ℕ)). r.0 ≡ ltb (length x.0) x.1)
        (ltb (length x.0) x.1) _ _ (λ h. sym h) (λ h. sym h);
  send_events = λ e x. pushed (ltb (length x.0) x.1) e x;
  send_capacity = λ e x.
      if-both (λ (r : Bool × (List LogEvent × ℕ)). r.1.1 ≡ x.1) (ltb (length x.0) x.1) _ _ refl
        refl;
  receive_empty = λ x h. subst (λ es. (first_of (es, x.1)).0 ≡ none) (sym h) refl;
  receive_first = λ x e rest h.
      subst (λ es. ((first_of (es, x.1)).0 ≡ some e) × ((first_of (es, x.1)).1.0 ≡ rest)) (sym h)
        (refl, refl);
  waiting_lem = λ x. refl;
}

abbrev logger : Logger list_queue flash
logger = record {
  queue = some ([], 2);
  seq = 258;
  drop_count = 0;
  uart = ring_of 128;
  flash = some empty_log;
  enqueue_ok_count = 0;
  uart_tx_count = 0;
  uart_tx_bytes = 0;
  high_water_mark = 0;
}

logger_ring : IsRing (ring_of 128)
logger_ring = ring_IsRing 7 (omega arith) (omega arith)

make_event_lem_example :
    (e : LogEvent) × (make_event list_queue flash 70000 info heartbeat
        (some (9 ∷ 8 ∷ 7 ∷ []))
        3
        logger
      ≡ (some e, record logger { seq = 259 }))
    × IsEvent e
    × (e.seq ≡ 258)
    × (e.timestamp_us ≡ 70000)
    × (e.level ≡ info)
    × (e.event_id ≡ heartbeat)
    × (take e.length e.payload ≡ 9 ∷ 8 ∷ 7 ∷ [])
make_event_lem_example =
    make_event_lem list_queue flash 70000 info heartbeat (9 ∷ 8 ∷ 7 ∷ []) logger (omega arith)
      (are_bytes_lem (9 ∷ 8 ∷ 7 ∷ []) refl) (omega arith)

abbrev logged : Bool × Logger list_queue flash
logged = log_with list_queue flash true 70000 info heartbeat (some (9 ∷ 8 ∷ 7 ∷ [])) 3 logger

log_with_counts_example :
    (logged.0 ≡ true)
    × (logged.1.enqueue_ok_count ≡ 1)
    × (logged.1.drop_count ≡ 0)
    × (logged.1.seq ≡ 259)
    × ((q : List LogEvent × ℕ) × (logged.1.queue ≡ some q)
        × (q.0 ≡ made list_queue flash 70000 info heartbeat (some (9 ∷ 8 ∷ 7 ∷ [])) 3 logger ∷ []))
log_with_counts_example =
    log_with_counts list_queue flash list_queue_IsQueue true 70000 info heartbeat
      (some (9 ∷ 8 ∷ 7 ∷ [])) 3 logger ([], 2) refl

empty_log-IsWritable : IsWritable flash flash-IsFlash empty_log 21
unfolding w25q32
empty_log-IsWritable = record {
  ready = refl;
  config = area-IsConfig;
  initialized = refl;
  mutex = refl;
  write = start_InArea;
  free = inl (starts_sector 21 (omega arith) (omega arith));
}

abbrev sent : Logger list_queue flash
sent = send_binary list_queue flash event logger

send_binary_stores_example :
    (pending sent.uart ≡ pending (ring_of 128) ++ frame)
    × (sent.uart_tx_count ≡ 1)
    × (sent.drop_count ≡ 0)
    × ((s : Storage flash) × (sent.flash ≡ some s)
        × FrameAt
            (flash-IsFlash.contents s.dev)
            area
            (frame_address area 4096 21)
            (header_of_event event)
            21
        × (slice (flash-IsFlash.contents s.dev) (frame_address area 4096 21) 21 ≡ frame)
        × (s.newest_addr ≡ frame_address area 4096 21)
        × (s.newest_seq ≡ 258))
unfolding ring
send_binary_stores_example =
    send_binary_stores list_queue flash flash-IsFlash flash-IsReliable event logger empty_log
      event-IsEvent logger_ring (omega arith) refl empty_log-IsWritable

-- The same logger with a ring of sixteen places.
abbrev small : Logger list_queue flash
small = record logger { uart = ring_of 16 }

send_binary_refused_example :
    let r = send_binary list_queue flash event small in
    (r.drop_count ≡ 1)
    × (r.flash ≡ some empty_log)
    × (pending r.uart ≡ pending (ring_of 16))
    × (r.uart_tx_count ≡ 0)
unfolding ring
send_binary_refused_example =
    send_binary_refused list_queue flash event small event-IsEvent
      (ring_IsRing 4 (omega arith) (omega arith)) (omega arith)
