-- ===== src/Storage/Invariant/Scanned.antt =====
-- `rebuildIndexFromFlash` leaves every address of the index in the area.
use pico_wenvironment_logger.Prelude.{
  ℕ, zero, suc, ◌-◌, ◌^◌, ◌≤◌, ◌<◌, Bool, true, ltb, some, ◌≡◌, ltb→lt, arith, Bool-cases,
  Option-cases, if-both, inl, inr,
}
use pico_wenvironment_logger.FlashApi.{Flash}
use pico_wenvironment_logger.Protocol.{LogFrameHeader}
use pico_wenvironment_logger.Storage.{
  Config, add32, wrap_address, next_sector_address, is_seq_newer,
}
use pico_wenvironment_logger.Storage.State.{Storage}
use pico_wenvironment_logger.Storage.Scan.{
  Index, is_erased_at, note_frame, accept_frame, is_valid_frame_at, scan, scan_all, empty_index,
  clean_tail, rebuild_index_from_flash,
}
use pico_wenvironment_logger.Storage.Frames.{IsConfig}
use pico_wenvironment_logger.Storage.Layout.{InArea, wrap_address-InArea}
use pico_wenvironment_logger.Storage.Invariant.{IsRunning}

record IsIn (c : Config) (i : Index) : Type 0 where
  oldest : InArea c i.oldest_addr
  newest : InArea c i.newest_addr
  next : InArea c i.newest_next_addr
  count : i.count < 2 ^ 32

note_frame-IsIn :
    (c : Config) (i : Index) (addr : ℕ) (h : LogFrameHeader) (n : ℕ)
    → IsConfig c
    → IsIn c i
    → InArea c addr
    → n ≤ 82
    → IsIn c (note_frame c i addr h n)
unfolding note_frame
note_frame-IsIn c i addr h n v p a small =
    let next : InArea c (wrap_address c (add32 addr n)) =
      wrap_address-InArea c (add32 addr n) v (omega (arith, a.from, a.below, v.inside)) in
    let newer : Bool = is_seq_newer h.seq i.newest_seq in
    let older : Bool = is_seq_newer i.oldest_seq h.seq in
    if-both (IsIn c) i.found _ _
      record {
        oldest = if-both (InArea c) older addr i.oldest_addr a p.oldest;
        newest = if-both (InArea c) newer addr i.newest_addr a p.newest;
        next =
            if-both (InArea c) newer (wrap_address c (add32 addr n)) i.newest_next_addr next p.next;
        count = omega arith;
      }
      record { oldest = a; newest = a; next = next; count = omega arith }

pub start-InArea : (c : Config) → IsConfig c → InArea c c.start_addr
start-InArea c v = record { from = omega arith; below = v.ordered }

module _ (F : Flash) where
  accept_frame-size :
      (d : F.Dev) (c : Config) (addr : ℕ) (h k : LogFrameHeader) (n : ℕ)
      → accept_frame F d c addr h ≡ some (k, n)
      → n ≤ 82
  unfolding accept_frame
  accept_frame-size d c addr h k n e = ground arith

  pub is_valid_frame_at-size :
      (d : F.Dev) (c : Config) (addr : ℕ) (h : LogFrameHeader) (n : ℕ)
      → is_valid_frame_at F d c addr ≡ some (h, n)
      → n ≤ 82
  unfolding is_valid_frame_at
  is_valid_frame_at-size d c addr h n e = grind (arith, accept_frame-size)

  -- Every round starts at an address from the start of the area on.
  scan-IsIn :
      (d : F.Dev) (c : Config) (fuel addr : ℕ) (i : Index)
      → IsConfig c
      → IsIn c i
      → c.start_addr ≤ addr
      → IsIn c (scan F d c fuel addr i)
  unfolding scan
  scan-IsIn d c zero addr i v p from = p
  scan-IsIn d c (suc fuel) addr i v p from = elim (Bool-cases (ltb addr c.end_addr)) [
    | inr e ↦ rw (e, scan) p
    | inl e ↦
        let a : InArea c addr = record { from = from; below = ltb→lt addr c.end_addr e } in
        elim (Option-cases (is_valid_frame_at F d c addr)) [
          | inl o ↦
              rw (e, scan, o)
                (scan-IsIn d c fuel (add32 addr 1) i v p (omega (arith, a.below, v.inside)))
          | inr ((h, n), o) ↦
              let small : n ≤ 82 = is_valid_frame_at-size d c addr h n o in
              rw (e, scan, o)
                (scan-IsIn d c fuel (add32 addr n) (note_frame c i addr h n) v
                  (note_frame-IsIn c i addr h n v p a small) (omega (arith, a.below, v.inside)))
        ]
  ]

  clean_tail-InArea :
      (d : F.Dev) (c : Config) (addr : ℕ)
      → IsConfig c
      → InArea c addr
      → InArea c (clean_tail F d c addr)
  unfolding clean_tail next_sector_address
  clean_tail-InArea d c addr v a =
      if-both (InArea c) (is_erased_at F d c addr) addr (wrap_address c (next_sector_address addr))
        a
        (wrap_address-InArea c (next_sector_address addr) v
          (ground (arith, a.from, a.below, v.inside)))

  scan_all-IsIn : (d : F.Dev) (c : Config) → IsConfig c → IsIn c (scan_all F d c)
  unfolding scan_all
  scan_all-IsIn d c v =
      scan-IsIn d c (c.end_addr - c.start_addr) c.start_addr (empty_index F c) v
        record {
          oldest = start-InArea c v;
          newest = start-InArea c v;
          next = start-InArea c v;
          count = omega arith;
        }
        (omega arith)

  -- Whatever the flash holds and answers, the index built from it lies in the area.
  pub rebuild_index_from_flash-IsRunning :
      (s : Storage F)
      → IsConfig s.config
      → s.has_mutex ≡ true
      → IsRunning (rebuild_index_from_flash F s).1
  unfolding rebuild_index_from_flash
  rebuild_index_from_flash-IsRunning s v m =
      let i : Index = scan_all F s.dev s.config in
      let p = scan_all-IsIn s.dev s.config v in
      let start = start-InArea s.config v in
      if-both (λ (x : Bool × Storage F). IsRunning x.1) i.found _ _
        record {
          config = v;
          write = clean_tail-InArea s.dev s.config i.newest_next_addr v p.next;
          oldest = p.oldest;
          newest = p.newest;
          count = p.count;
          mutex = m;
        }
        record {
          config = v;
          write = clean_tail-InArea s.dev s.config s.config.start_addr v start;
          oldest = start;
          newest = start;
          count = omega arith;
          mutex = m;
        }
