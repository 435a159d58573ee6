-- ===== src/Aqm0802/Lines.antt =====
-- What a line of the display shows, on a bus where every transfer succeeds.
use pico_wenvironment_logger.Prelude.{
  ℕ, zero, suc, ◌+◌, ◌-◌, ◌<◌, List, [], ◌∷◌, ◌++◌, length, take, replicate, min, map, Bool, true,
  false, ◌==◌, ltb, if◌then◌else◌, some, bit_or, u8, get_or, ◌≡◌, refl, sym, ap, ◌∙◌, arith,
  append_assoc, append-nil, length-append, length-take, length-replicate, if-both, ap₂, if-cases,
}
use pico_wenvironment_logger.Prelude.Int.{pos, eq_ℤ}
use pico_wenvironment_logger.I2c.{I2c, Device, delay_ms, lock_i2c, unlock_i2c}
use pico_wenvironment_logger.I2c.Devices.{write_pair}
use pico_wenvironment_logger.Aqm0802.{
  command, data_byte, set_cursor, print_from, print, print_line, line_of,
}

-- `trace` lists the transfers: each an address and its bytes.
pub record IsWorking (I : I2c) : Type 0 where
  pub trace : I.Bus → List (ℕ × List ℕ)
  pub write_ok :
      (addr : ℕ) (bytes : List ℕ) (nostop : Bool) (b : I.Bus)
      → (I.write addr bytes nostop b).0 ≡ pos (length bytes)
  pub write_trace :
      (addr : ℕ) (bytes : List ℕ) (nostop : Bool) (b : I.Bus)
      → trace (I.write addr bytes nostop b).1 ≡ trace b ++ ((addr, bytes) ∷ [])
  pub take_ok : (b : I.Bus) → (I.take b).0 ≡ true
  pub take_trace : (b : I.Bus) → trace (I.take b).1 ≡ trace b
  pub give_trace : (b : I.Bus) → trace (I.give b) ≡ trace b
  pub delay_trace : (ms : ℕ) (b : I.Bus) → trace (I.delay ms b) ≡ trace b

blank-get_or : (n i c : ℕ) → i < n → get_or (replicate n c) i 0 ≡ c
blank-get_or zero i c h = absurd (omega arith)
blank-get_or (suc n) zero c h = refl
blank-get_or (suc n) (suc i) c h = blank-get_or n i c (omega arith)

padded-get_or :
    (n i c : ℕ) (str : List ℕ)
    → i < n
    → get_or (take n str ++ replicate (n - min (length str) n) c) i 0
      ≡ (if ltb i (length str) then get_or str i 0 else c)
padded-get_or zero i c str h = absurd (omega arith)
padded-get_or (suc n) i c [] h =
    blank-get_or (suc n - min 0 (suc n)) i c (omega arith) ∙ sym (if_no i (get_or [] i 0) c)
  where
    if_no : (i x y : ℕ) → (if ltb i 0 then x else y) ≡ y
    if_no i x y = ground arith
padded-get_or (suc n) zero c (x ∷ str) h = ground arith
padded-get_or (suc n) (suc i) c (x ∷ str) h =
    ap (λ k. get_or (take n str ++ replicate k c) i 0) {y = n - min (length str) n} (omega arith)
    ∙ padded-get_or n i c str (omega arith)
    ∙ ap (λ b. if b then get_or str i 0 else c) (ground arith)

length-padded :
    (n c : ℕ) (str : List ℕ) → length (take n str ++ replicate (n - min (length str) n) c) ≡ n
length-padded n c str =
    length-append (take n str) (replicate (n - min (length str) n) c)
    ∙ omega (arith, length-take {0} n str, length-replicate {0} (n - min (length str) n) c)

module _ (I : I2c) (w : IsWorking I) where
  -- After transfers of the device.
  record Sent (d : Device I) (ts : List (ℕ × List ℕ)) (r : Bool × Device I) : Type 0 where
    pub ok : r.0 ≡ true
    pub trace : w.trace r.1.bus ≡ w.trace d.bus ++ ts
    pub address : r.1.address ≡ d.address

  record Quiet (d e : Device I) : Type 0 where
    pub trace : w.trace e.bus ≡ w.trace d.bus
    pub address : e.address ≡ d.address

  lock-Quiet : (d : Device I) → ((lock_i2c I d).0 ≡ true) × Quiet d (lock_i2c I d).1
  unfolding lock_i2c
  lock-Quiet d =
      if-both (λ (r : Bool × Device I). (r.0 ≡ true) × Quiet d r.1) d.has_mutex _ _
        (w.take_ok d.bus, record { trace = w.take_trace d.bus; address = refl })
        (refl, record { trace = refl; address = refl })

  unlock-Quiet : (d : Device I) → Quiet d (unlock_i2c I d)
  unfolding unlock_i2c
  unlock-Quiet d =
      if-both (Quiet d) d.has_mutex _ _ record { trace = w.give_trace d.bus; address = refl }
        record { trace = refl; address = refl }

  write_pair-Sent :
      (reg value : ℕ) (d : Device I)
      → Sent d ((d.address, reg ∷ (value ∷ [])) ∷ []) (write_pair I reg value d)
  unfolding write_pair
  write_pair-Sent reg value d =
      let (ok, q) = lock-Quiet d in
      let d1 : Device I = (lock_i2c I d).1 in
      let bytes : List ℕ = reg ∷ (value ∷ []) in
      let b : I.Bus = (I.write d1.address bytes false d1.bus).1 in
      let u = unlock-Quiet (record d1 { bus = b }) in
      rw ok record {
        ok = ap (λ r. eq_ℤ r (pos 2)) (w.write_ok d1.address bytes false d1.bus);
        trace =
            u.trace
            ∙ w.write_trace d1.address bytes false d1.bus
            ∙ ap₂ (λ t a. t ++ ((a, bytes) ∷ [])) q.trace q.address;
        address = u.address ∙ q.address;
      }

  Sent-delay :
      (ms : ℕ) (d : Device I) (ts : List (ℕ × List ℕ)) (r : Bool × Device I)
      → Sent d ts r
      → Sent d ts (r.0, delay_ms I ms r.1)
  Sent-delay ms d ts r p = record {
    ok = p.ok;
    trace = w.delay_trace ms r.1.bus ∙ p.trace;
    address = p.address;
  }

  -- The transfers for characters.
  abbrev pub characters : ℕ → List ℕ → List (ℕ × List ℕ)
  characters addr str = map (λ (c : ℕ). (addr, 0x40 ∷ (c ∷ []))) str

  print_from-Sent :
      (str : List ℕ) (d : Device I) → Sent d (characters d.address str) (print_from I str d)
  unfolding print_from data_byte
  print_from-Sent [] d = record {
    ok = refl;
    trace = sym (append-nil (w.trace d.bus));
    address = refl;
  }
  print_from-Sent (c ∷ str) d =
      let p =
        Sent-delay 2 d ((d.address, 0x40 ∷ (c ∷ [])) ∷ []) (write_pair I 0x40 c d)
          (write_pair-Sent 0x40 c d) in
      let e : Device I = delay_ms I 2 (write_pair I 0x40 c d).1 in
      let q = print_from-Sent str e in
      rw (p.ok, print_from)
        record {
          ok = q.ok;
          trace =
              q.trace
              ∙ ap₂ (λ t a. t ++ characters a str) p.trace p.address
              ∙ append_assoc (w.trace d.bus) ((d.address, 0x40 ∷ (c ∷ [])) ∷ [])
                  (characters d.address str);
          address = q.address ∙ p.address;
        }

  -- The cursor command of a row: DDRAM address 0x00 or 0x40, with the command's bit 0x80.
  set_cursor-Sent :
      (row : ℕ) (d : Device I)
      → Sent d
          ((d.address, 0x00 ∷ ((if row == 0 then 0x80 else 0xC0) ∷ [])) ∷ [])
          (set_cursor I row 0 d)
  unfolding set_cursor command
  set_cursor-Sent row d =
      if-cases
        (λ a.
          Sent d ((d.address, 0x00 ∷ ((if row == 0 then 0x80 else 0xC0) ∷ [])) ∷ [])
            (let r = write_pair I 0x00 (u8 (bit_or 0x80 a)) d in (r.0, delay_ms I 2 r.1)))
        (row == 0) 0 (u8 (0x40 + 0)) (λ e. rw e (cursor 0x80)) (λ e. rw e (cursor 0xC0))
    where
      cursor :
          (v : ℕ)
          → Sent d
              ((d.address, 0x00 ∷ (v ∷ [])) ∷ [])
              ((write_pair I 0x00 v d).0, delay_ms I 2 (write_pair I 0x00 v d).1)
      cursor v =
          Sent-delay 2 d ((d.address, 0x00 ∷ (v ∷ [])) ∷ []) (write_pair I 0x00 v d)
            (write_pair-Sent 0x00 v d)

  -- On a bus where every transfer succeeds, `printLine` returns true and its transfers are, in this
  -- order, the command that sets the cursor to the start of the row, the first or else the second,
  -- and one for each character of the line; and this line has eight characters, that at `i` is the one of
  -- the string or, behind its end, a blank, so that nothing of an older line stays.
  pub print_line_lem :
      (row : ℕ) (str : List ℕ) (i : ℕ) (d : Device I)
      → i < 8
      → let r = print_line I row (some str) d in
        let line = line_of (some str) in
        (r.0 ≡ true)
        × (w.trace r.1.bus
            ≡ w.trace d.bus
              ++ ((d.address, 0x00 ∷ ((if row == 0 then 0x80 else 0xC0) ∷ []))
                  ∷ characters d.address line))
        × (length line ≡ 8)
        × (get_or line i 0 ≡ (if ltb i (length str) then get_or str i 0 else b' '))
  unfolding print_line print line_of
  print_line_lem row str i d h =
      let line : List ℕ = line_of (some str) in
      let cmd : List (ℕ × List ℕ) =
        (d.address, 0x00 ∷ ((if row == 0 then 0x80 else 0xC0) ∷ [])) ∷ [] in
      let p = set_cursor-Sent row d in
      let q = print_from-Sent line (set_cursor I row 0 d).1 in
      rw (p.ok, print_line)
        (
          q.ok,
          q.trace
              ∙ ap₂ (λ t a. t ++ characters a line) p.trace p.address
              ∙ append_assoc (w.trace d.bus) cmd (characters d.address line),
          length-padded 8 b' ' str,
          padded-get_or 8 i b' ' str h,
        )
