-- ===== src/Logger/Delivery.antt =====
-- `sendBinary` from the event to the wire and the flash.
use pico_wenvironment_logger.Prelude.{
  ℕ, ◌+◌, ◌%◌, ◌≤◌, ◌<◌, true, false, ◌==◌, if◌then◌else◌, List, [], ◌++◌, length, take, append-nil,
  All-take, some, u32, ◌≡◌, ◌⊎◌, refl, sym, ap, subst, ◌∙◌, arith, Bool-cases, inl, inr,
}
use pico_wenvironment_logger.Crc.Bounds.{IsByte}
use pico_wenvironment_logger.Protocol.{LogEvent, max_size}
use pico_wenvironment_logger.Frame.{header_of_event, frame_bytes, frame_size, build_frame}
use pico_wenvironment_logger.Frame.RoundTrip.{
  IsEvent, build_frame_lem, header_of_event-IsHeader, length-payload,
}
use pico_wenvironment_logger.Driver.{sector_size}
use pico_wenvironment_logger.Memory.{slice}
use pico_wenvironment_logger.FlashApi.{Flash, IsFlash}
use pico_wenvironment_logger.QueueApi.{QueueApi}
use pico_wenvironment_logger.Uart.{write_frame}
use pico_wenvironment_logger.Uart.Fifo.{IsRing, pending}
use pico_wenvironment_logger.Uart.Fifo.Accept.{write_frame_accepts}
use pico_wenvironment_logger.Storage.State.{Storage}
use pico_wenvironment_logger.Storage.Frames.{FrameAt, IsConfig}
use pico_wenvironment_logger.Storage.Layout.{InArea}
use pico_wenvironment_logger.Storage.Append.{append, frame_address}
use pico_wenvironment_logger.Storage.Append.Reliable.{IsReliable}
use pico_wenvironment_logger.Storage.Append.Bytes.{IsFrame, IsErased}
use pico_wenvironment_logger.Storage.Append.Placed.{Appended}
use pico_wenvironment_logger.Storage.Append.Store.{append_stores}
use pico_wenvironment_logger.Logger.{
  Logger, send_frame, store_frame, send_binary, increment_drop_count,
}

abbrev pub frame_of : LogEvent → List ℕ
frame_of e = frame_bytes (header_of_event e) (take e.length e.payload)

pub frame_of-IsFrame : (e : LogEvent) → IsEvent e → IsFrame (header_of_event e) (frame_of e)
unfolding header_of_event
frame_of-IsFrame e v = record {
  header = header_of_event-IsHeader e v;
  short = v.length_le;
  payload = take e.length e.payload;
  payload_length = length-payload e v;
  payload_bytes = All-take IsByte e.length e.payload v.payload_bytes;
  layout = refl;
}

module _ (Q : QueueApi) (F : Flash) where
  built :
      (e : LogEvent)
      → IsEvent e
      → (build_frame e max_size ≡ some (frame_of e)) × (length (frame_of e) ≡ frame_size e.length)
  built e v = build_frame_lem e max_size v (omega (arith, v.length_le))

  -- After the UART took the frame.
  abbrev counted : List ℕ → Logger Q F → Logger Q F
  counted frame l = record l {
    uart_tx_count = u32 (l.uart_tx_count + 1);
    uart_tx_bytes = u32 (l.uart_tx_bytes + length frame);
  }

  sent-counted :
      (e : LogEvent) (l : Logger Q F)
      → IsEvent e
      → send_binary Q F e l ≡ (
          if (write_frame (frame_of e) l.uart).0
          then counted (frame_of e) (
              store_frame Q F
                (frame_of e)
                (record l { uart = (write_frame (frame_of e) l.uart).1 }))
          else increment_drop_count Q F (record l { uart = (write_frame (frame_of e) l.uart).1 }))
  unfolding send_binary send_frame
  sent-counted e l v =
      let nonempty : (length (frame_of e) == 0) ≡ false = ground (arith, (built e v).1) in
      rw (send_binary, (built e v).0, nonempty) refl

  -- An event for which the ring has no room is counted as a drop and is not written to the flash.
  pub send_binary_refused :
      (e : LogEvent) (l : Logger Q F)
      → IsEvent e
      → IsRing l.uart
      → l.uart.tx_size ≤ length (pending l.uart) + frame_size e.length
      → let r = send_binary Q F e l in
        (r.drop_count ≡ u32 (l.drop_count + 1))
        × (r.flash ≡ l.flash)
        × (pending r.uart ≡ pending l.uart)
        × (r.uart_tx_count ≡ l.uart_tx_count)
  unfolding increment_drop_count
  send_binary_refused e l v p full = elim (Bool-cases (write_frame (frame_of e) l.uart).0) [
    | inl sent ↦ absurd (
        omega
          (arith, full, (built e v).1, ((write_frame_accepts (frame_of e) l.uart p).0.0 sent).1))
    | inr lost ↦
        rw (sent-counted e l v, lost)
          (
            refl,
            refl,
            (write_frame_accepts (frame_of e) l.uart p).1
                ∙ ap (λ b. pending l.uart ++ (if b then frame_of e else [])) lost
                ∙ append-nil (pending l.uart),
            refl,
          )
  ]

module _ (F : Flash) (flash : IsFlash F) where
  open flash use {contents, Ready}

  -- What is required of the log for an append of `n` bytes to succeed on a reliable device.
  pub record IsWritable (s : Storage F) (n : ℕ) : Type 0 where
    pub ready : Ready s.dev
    pub config : IsConfig s.config
    pub initialized : s.initialized ≡ true
    pub mutex : s.has_mutex ≡ true
    pub write : InArea s.config s.write_addr
    pub free :
        (frame_address s.config s.write_addr n % sector_size ≡ 0)
        ⊎ IsErased (contents s.dev) (frame_address s.config s.write_addr n) n

module _ (Q : QueueApi) (F : Flash) (flash : IsFlash F) (rel : IsReliable F flash) where
  open flash use {contents, Ready}

  -- An event for which the ring has room, on a log whose next place is free and a device whose
  -- requests succeed: its frame waits behind the others for the UART, the same bytes stand in the
  -- flash at the frame's place and are a valid frame with the event's header, the index names that
  -- place and the event's number as the newest ones, and it is counted as sent and not as dropped.
  pub send_binary_stores :
      (e : LogEvent) (l : Logger Q F) (s : Storage F)
      → IsEvent e
      → IsRing l.uart
      → length (pending l.uart) + frame_size e.length < l.uart.tx_size
      → l.flash ≡ some s
      → IsWritable F flash s (frame_size e.length)
      → let r = send_binary Q F e l in
        (pending r.uart ≡ pending l.uart ++ frame_of e)
        × (r.uart_tx_count ≡ u32 (l.uart_tx_count + 1))
        × (r.drop_count ≡ l.drop_count)
        × ((s' : Storage F) × (r.flash ≡ some s')
            × FrameAt
                (contents s'.dev)
                s.config
                (frame_address s.config s.write_addr (frame_size e.length))
                (header_of_event e)
                (frame_size e.length)
            × (slice
                  (contents s'.dev)
                  (frame_address s.config s.write_addr (frame_size e.length))
                  (frame_size e.length)
                ≡ frame_of e)
            × (s'.newest_addr ≡ frame_address s.config s.write_addr (frame_size e.length))
            × (s'.newest_seq ≡ e.seq))
  unfolding store_frame increment_drop_count header_of_event
  send_binary_stores e l s v p room has w =
      rw (sent-counted Q F e l v, sent, has, stored.0)
        (
          (write_frame_accepts (frame_of e) l.uart p).1
              ∙ ap (λ b. pending l.uart ++ (if b then frame_of e else [])) sent,
          refl,
          refl,
          (
            (append F (frame_of e) s).1,
            refl,
            subst
                (λ n.
                  FrameAt (contents (append F (frame_of e) s).1.dev) s.config
                    (frame_address s.config s.write_addr n) (header_of_event e) n)
                size stored.1.frame,
            subst
                (λ n.
                  slice (contents (append F (frame_of e) s).1.dev)
                    (frame_address s.config s.write_addr n) n
                  ≡ frame_of e)
                size stored.1.stored,
            subst
                (λ n.
                  (append F (frame_of e) s).1.newest_addr ≡ frame_address s.config s.write_addr n)
                size stored.1.newest,
            stored.1.newest_seq,
          ),
        )
    where
      size : length (frame_of e) ≡ frame_size e.length
      size = (built Q F e v).1

      sent : (write_frame (frame_of e) l.uart).0 ≡ true
      sent =
          (write_frame_accepts (frame_of e) l.uart p).0.1
            (omega (arith, size), omega (arith, size, room))

      stored :
          ((append F (frame_of e) s).0 ≡ true)
          × Appended F flash rel s.config
              (frame_address s.config s.write_addr (length (frame_of e)))
              (header_of_event e)
              (frame_of e)
              (append F (frame_of e) s).1
      stored =
          append_stores F flash rel (header_of_event e) (frame_of e) s w.ready w.config
            w.initialized w.mutex w.write (frame_of-IsFrame e v)
            (subst
              (λ n.
                (frame_address s.config s.write_addr n % sector_size ≡ 0)
                ⊎ IsErased (contents s.dev) (frame_address s.config s.write_addr n) n)
              (sym size) w.free)
