-- ===== src/Logger/Events.antt =====
-- What `makeEvent` and `log` do: numbering, payload, queue and counters.
use pico_wenvironment_logger.Prelude.{
  ℕ, zero, suc, ◌+◌, ◌-◌, ◌%◌, ◌^◌, ◌≤◌, ◌<◌, Bool, false, ltb, if◌then◌else◌, List, [], ◌∷◌, ◌++◌,
  length, take, replicate, length-append, length-take, length-replicate, take-append, take-all, All,
  All-append, All-take, Option, none, some, u32, ◌≡◌, refl, sym, ap, subst, ◌∙◌, arith, le→ltb,
  if-cases, Bool-cases, inl, inr,
}
use pico_wenvironment_logger.Protocol.{LogLevel, EventId, LogEvent, payload_max}
use pico_wenvironment_logger.Crc.Bounds.{IsByte}
use pico_wenvironment_logger.Frame.RoundTrip.{IsEvent}
use pico_wenvironment_logger.FlashApi.{Flash}
use pico_wenvironment_logger.QueueApi.{QueueApi, IsQueue}
use pico_wenvironment_logger.Logger.{
  Logger, fill, make_event, next_seq, enqueue, log_with, increment_drop_count,
}

length-fill :
    (bytes : List ℕ) (len : ℕ)
    → len ≤ payload_max
    → len ≤ length bytes
    → length (fill (some bytes) len) ≡ payload_max
unfolding fill
length-fill bytes len h k = omega (
  arith,
  length-append (take len bytes) (replicate (payload_max - len) 0),
  length-take len bytes,
  length-replicate {A = ℕ} (payload_max - len) 0,
)

zeros : (n : ℕ) → All IsByte (replicate n 0)
zeros zero = tt
zeros (suc n) = (omega arith, zeros n)

module _ (Q : QueueApi) (F : Flash) where
  -- With at most 64 bytes of data `makeEvent` makes a well-formed event of them: it has the next
  -- sequence number, the time in 32 bits, the level and the id as given, and its first `len`
  -- payload bytes are the data. The counter moves on by one, modulo 2^32.
  pub make_event_lem :
      (now_us : ℕ) (level : LogLevel) (event_id : EventId) (bytes : List ℕ) (l : Logger Q F)
      → length bytes ≤ payload_max
      → All IsByte bytes
      → l.seq < 2 ^ 32
      → (e : LogEvent) × (make_event Q F now_us level event_id (some bytes) (length bytes) l
          ≡ (some e, record l { seq = u32 (l.seq + 1) }))
        × IsEvent e
        × (e.seq ≡ l.seq)
        × (e.timestamp_us ≡ u32 now_us)
        × (e.level ≡ level)
        × (e.event_id ≡ event_id)
        × (take e.length e.payload ≡ bytes)
  unfolding make_event next_seq fill
  make_event_lem now_us level event_id bytes l short v small = (
    record {
      seq = l.seq;
      event_id = event_id;
      level = level;
      length = length bytes % 2 ^ 8;
      timestamp_us = u32 now_us;
      payload = fill (some bytes) (length bytes);
    },
    rw (le→ltb payload_max (length bytes) short) refl,
    record {
      seq_fits = small;
      timestamp_fits = omega arith;
      length_le = omega arith;
      payload_size = length-fill bytes (length bytes) short (omega arith);
      payload_bytes =
          All-append IsByte (take (length bytes) bytes) (replicate (payload_max - length bytes) 0)
            (All-take IsByte (length bytes) bytes v) (zeros (payload_max - length bytes));
    },
    refl,
    refl,
    refl,
    refl,
    take-append (take (length bytes) bytes) (replicate (payload_max - length bytes) 0)
          (length bytes % 2 ^ 8) (omega (arith, length-take (length bytes) bytes))
        ∙ take-all (length bytes) bytes (omega arith),
  )

  -- The event that a call of `log` or `logFromISR` puts into the queue.
  abbrev pub made : ℕ → LogLevel → EventId → Option (List ℕ) → ℕ → Logger Q F → LogEvent
  made now_us level event_id bytes len l = record {
    seq = l.seq;
    event_id = event_id;
    level = level;
    length = len % 2 ^ 8;
    timestamp_us = u32 now_us;
    payload = fill bytes len;
  }

  log_with-step :
      (marks : Bool) (now_us : ℕ) (level : LogLevel) (event_id : EventId) (bytes : Option (List ℕ))
      (len : ℕ) (l : Logger Q F) (q : Q.Queue)
      → l.queue ≡ some q
      → log_with Q F marks now_us level event_id bytes len l ≡ (
          if ltb payload_max len
          then (false, increment_drop_count Q F l)
          else enqueue Q F marks q
              (made now_us level event_id bytes len l)
              (record l { seq = u32 (l.seq + 1) }))
  unfolding log_with make_event next_seq
  log_with-step marks now_us level event_id bytes len l q has =
      ap body has
      ∙ ap queued (
          if-cases
            (λ m. m ≡ (
              if ltb payload_max len then (none, l) else (
                some (made now_us level event_id bytes len l),
                record l { seq = u32 (l.seq + 1) },
              )))
            (ltb payload_max len) _ _ (λ e. rw e refl) (λ e. rw e refl))
      ∙ if-cases
          (λ b. queued b ≡ (
            if ltb payload_max len
            then (false, increment_drop_count Q F l)
            else enqueue Q F marks q (made now_us level event_id bytes len l)
                (record l { seq = u32 (l.seq + 1) })))
          (ltb payload_max len) _ _ (λ e. rw e refl) (λ e. rw e refl)
    where
      queued_on : Q.Queue → Option LogEvent × Logger Q F → Bool × Logger Q F
      queued_on x m = elim m.0 [
        | none ↦ (false, increment_drop_count Q F m.1)
        | some event ↦ enqueue Q F marks x event m.1
      ]

      queued : Option LogEvent × Logger Q F → Bool × Logger Q F
      queued = queued_on q

      body : Option Q.Queue → Bool × Logger Q F
      body o = elim o [
        | none ↦ (false, l)
        | some x ↦ queued_on x (make_event Q F now_us level event_id bytes len l)
      ]

  -- With a queue, every call of `log` or `logFromISR` is counted exactly once. It returns true if
  -- the length is at most 64 and the queue is not full: then its event, which has the next
  -- sequence number, is the last in the queue, and the call counts as enqueued. Otherwise it
  -- returns false, the queue holds what it held, and the call counts as dropped. A call that is
  -- refused for its length uses up no sequence number, any other uses up one.
  pub log_with_counts :
      (fifo : IsQueue Q) (marks : Bool) (now_us : ℕ) (level : LogLevel) (event_id : EventId)
      (bytes : Option (List ℕ)) (len : ℕ) (l : Logger Q F) (q : Q.Queue)
      → l.queue ≡ some q
      → let r = log_with Q F marks now_us level event_id bytes len l in
        let fits =
          (if ltb payload_max len then false else ltb (length (fifo.events q)) (fifo.capacity q)) in
        (r.0 ≡ fits)
        × (r.1.enqueue_ok_count
            ≡ (if fits then u32 (l.enqueue_ok_count + 1) else l.enqueue_ok_count))
        × (r.1.drop_count ≡ (if fits then l.drop_count else u32 (l.drop_count + 1)))
        × (r.1.seq ≡ (if ltb payload_max len then l.seq else u32 (l.seq + 1)))
        × ((q' : Q.Queue) × (r.1.queue ≡ some q')
            × (fifo.events q' ≡ (
                if fits
                then fifo.events q ++ (made now_us level event_id bytes len l ∷ [])
                else fifo.events q)))
  unfolding enqueue increment_drop_count
  log_with_counts fifo marks now_us level event_id bytes len l q has =
      subst Wanted (sym (log_with-step marks now_us level event_id bytes len l q has))
        (elim (Bool-cases (ltb payload_max len)) [
          | inl e ↦ rw e (refl, refl, refl, refl, (q, has, refl))
          | inr e ↦ elim (Bool-cases (ltb (length (fifo.events q)) (fifo.capacity q))) [
            | inl f ↦
                rw (e, f, enqueue, fifo.send_lem event q ∙ f)
                  (
                    refl,
                    refl,
                    refl,
                    refl,
                    ((Q.send event q).1, refl, fifo.send_events event q ∙ ap grown f),
                  )
            | inr f ↦
                rw (e, f, enqueue, fifo.send_lem event q ∙ f)
                  (
                    refl,
                    refl,
                    refl,
                    refl,
                    ((Q.send event q).1, refl, fifo.send_events event q ∙ ap grown f),
                  )
          ]
        ])
    where
      event : LogEvent
      event = made now_us level event_id bytes len l

      grown : Bool → List LogEvent
      grown b = if b then fifo.events q ++ (event ∷ []) else fifo.events q

      Wanted : Bool × Logger Q F → Type 0
      Wanted r =
          let fits =
            (if ltb payload_max len
              then false
              else ltb (length (fifo.events q)) (fifo.capacity q)) in
          (r.0 ≡ fits)
          × (r.1.enqueue_ok_count
              ≡ (if fits then u32 (l.enqueue_ok_count + 1) else l.enqueue_ok_count))
          × (r.1.drop_count ≡ (if fits then l.drop_count else u32 (l.drop_count + 1)))
          × (r.1.seq ≡ (if ltb payload_max len then l.seq else u32 (l.seq + 1)))
          × ((q' : Q.Queue) × (r.1.queue ≡ some q')
              × (fifo.events q' ≡ (
                  if fits
                  then fifo.events q ++ (made now_us level event_id bytes len l ∷ [])
                  else fifo.events q)))
