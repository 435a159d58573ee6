-- ===== src/Storage/Recovery/Rebuild.antt =====
-- The index after `rebuildIndexFromFlash`, that is after a start or a loss of power.
use pico_wenvironment_logger.Prelude.{
  ℕ, ◌+◌, ◌-◌, ◌^◌, ◌≤◌, ◌<◌, Bool, true, false, if◌then◌else◌, List, [], ◌∷◌, length, All, none,
  some, ◌≡◌, refl, sym, ap, subst, ◌∙◌, arith, le→ltb, lt→leb, if-both,
}
use pico_wenvironment_logger.Memory.{Memory, slice}
use pico_wenvironment_logger.FlashApi.{Flash, IsFlash}
use pico_wenvironment_logger.Driver.Range.{is_address_valid_iff}
use pico_wenvironment_logger.Storage.{Config, wrap_address}
use pico_wenvironment_logger.Storage.State.{Storage}
use pico_wenvironment_logger.Storage.Scan.{
  Index, is_erased_at, clean_tail, empty_index, scan_all, rebuild_index_from_flash,
}
use pico_wenvironment_logger.Storage.Frames.{IsConfig}
use pico_wenvironment_logger.Storage.Layout.{InArea, wrap_address-InArea}
use pico_wenvironment_logger.Storage.Invariant.Scanned.{start-InArea}
use pico_wenvironment_logger.Storage.Recovery.{Entry, size, seq, Frames, Member, age}
use pico_wenvironment_logger.Storage.Recovery.Walk.{Frames-unique, scan-Frames}
use pico_wenvironment_logger.Storage.Recovery.Extremes.{
  note, note_all, Newest, Oldest, note_all-Newest, note_all-Oldest, note_all-count, note_all-found,
  note-first, note-found, IsNewest, IsOldest,
}
use pico_wenvironment_logger.Storage.Recovery.Members.{
  settled, Young, Young-Near, length-Frames, Frames-Member,
}

module _ (F : Flash) (flash : IsFlash F) where
  open flash use {contents, Ready}

  read_one :
      (d : F.Dev) (c : Config) (a : ℕ)
      → Ready d
      → IsConfig c
      → InArea c a
      → F.read d a 1 ≡ some (slice (contents d) a 1)
  read_one d c a r v p =
      flash.read_lem d a 1 r
      ∙ ap (λ b. if b then some (slice (contents d) a 1) else none)
          ((is_address_valid_iff a 1).1 (omega arith, omega (arith, p.below, v.inside)))

  clean_tail_lem :
      (d : F.Dev) (c : Config) (a : ℕ)
      → Ready d
      → IsConfig c
      → InArea c a
      → clean_tail F d c a ≡ settled (contents d) c a
  unfolding clean_tail is_erased_at slice
  clean_tail_lem d c a r v p = rw (
    le→ltb a c.start_addr p.from,
    lt→leb a c.end_addr p.below,
    read_one d c a r v p,
    is_erased_at,
  )

  -- The index of an area without frames, and of one with the frames `es`.
  pub record RebuiltEmpty (m : Memory) (c : Config) (t : Storage F) : Type 0 where
    pub count : t.valid_frame_count ≡ 0
    pub oldest : t.oldest_addr ≡ c.start_addr
    pub newest : t.newest_addr ≡ c.start_addr
    pub newest_seq : t.newest_seq ≡ 0
    pub write : t.write_addr ≡ settled m c c.start_addr

  pub record RebuiltSome (m : Memory) (c : Config) (base : ℕ) (es : List Entry) (t : Storage F)
      : Type 0 where
    pub count : t.valid_frame_count ≡ length es
    pub newest :
        (e : Entry) × Member e es
        × (t.newest_addr ≡ e.addr)
        × (t.newest_seq ≡ seq e)
        × (t.write_addr ≡ settled m c (wrap_address c (e.addr + size e)))
        × All (λ x. age base (seq x) ≤ age base (seq e)) es
    pub oldest :
        (e : Entry) × Member e es
        × (t.oldest_addr ≡ e.addr)
        × All (λ x. age base (seq e) ≤ age base (seq x)) es

  abbrev pub Rebuilt : Memory → Config → ℕ → List Entry → Storage F → Type 0
  Rebuilt m c base [] t = RebuiltEmpty m c t
  Rebuilt m c base (x ∷ es) t = RebuiltSome m c base (x ∷ es) t

  -- The two results of `rebuildIndexFromFlash`.
  abbrev indexed : Storage F → Index → Storage F
  indexed s i = record s {
    oldest_addr = i.oldest_addr;
    newest_addr = i.newest_addr;
    newest_seq = i.newest_seq;
    write_addr = clean_tail F s.dev s.config i.newest_next_addr;
    valid_frame_count = i.count;
  }

  abbrev unindexed : Storage F → Storage F
  unindexed s = record s {
    oldest_addr = s.config.start_addr;
    newest_addr = s.config.start_addr;
    newest_seq = 0;
    write_addr = clean_tail F s.dev s.config s.config.start_addr;
    valid_frame_count = 0;
  }

  rebuild-scan :
      (s : Storage F) (i : Index)
      → scan_all F s.dev s.config ≡ i
      → (rebuild_index_from_flash F s).1 ≡ (if i.found then indexed s i else unindexed s)
  unfolding rebuild_index_from_flash
  rebuild-scan s i e =
      subst (λ j. (rebuild_index_from_flash F s).1 ≡ (if j.found then indexed s j else unindexed s))
        e
        (let j : Index = scan_all F s.dev s.config in
          elim j.found
            as (λ b.
              (let r : Bool × Storage F =
                  (if b then (true, indexed s j) else (true, unindexed s)) in
                r.1)
              ≡ (if b then indexed s j else unindexed s)) [ true ↦ refl | false ↦ refl ])

  pub rebuild-dev : (s : Storage F) → (rebuild_index_from_flash F s).1.dev ≡ s.dev
  rebuild-dev s =
      ap (λ (t : Storage F). t.dev) (rebuild-scan s (scan_all F s.dev s.config) refl)
      ∙ if-both (λ (t : Storage F). t.dev ≡ s.dev) (scan_all F s.dev s.config).found _ _ refl refl

  rebuilt_empty :
      (s : Storage F)
      → Ready s.dev
      → IsConfig s.config
      → RebuiltEmpty (contents s.dev) s.config (unindexed s)
  rebuilt_empty s r v = record {
    count = refl;
    oldest = refl;
    newest = refl;
    newest_seq = refl;
    write = clean_tail_lem s.dev s.config s.config.start_addr r v (start-InArea s.config v);
  }

  rebuilt_some :
      (s : Storage F) (i : Index) (x : Entry) (es : List Entry) (base : ℕ)
      → base < 2 ^ 32
      → All (Young base) (x ∷ es)
      → Ready s.dev
      → IsConfig s.config
      → Frames (contents s.dev) s.config s.config.start_addr (x ∷ es)
      → i ≡ note_all s.config es (note s.config (empty_index F s.config) x)
      → RebuiltSome (contents s.dev) s.config base (x ∷ es) (indexed s i)
  rebuilt_some s i x es base b y r v fs e = record {
    count =
        ap (λ j. j.count) e
        ∙ note_all-count s.config (x ∷ es) first (omega (arith, length-Frames fs, v.inside))
        ∙ omega arith;
    newest =
        let n =
          subst (λ j. Newest s.config base j (x ∷ es)) (sym e)
            (note_all-Newest s.config base es (note s.config first x) x b
              (note-found s.config first x) both.0 (Young-Near base fs y).0
              (Young-Near base fs y).1) in
        let f = Frames-Member fs n.entry n.member in
        let q : i.newest_next_addr ≡ wrap_address s.config (n.entry.addr + size n.entry) =
          n.named.2
          ∙ ap (wrap_address s.config) {y = n.entry.addr + size n.entry}
              (omega (arith, f.to, v.inside)) in
        let area =
          subst (InArea s.config) (sym q) (
            wrap_address-InArea s.config (n.entry.addr + size n.entry) v (omega (arith, f.from))) in
        (
          n.entry,
          n.member,
          n.named.0,
          n.named.1,
          clean_tail_lem s.dev s.config i.newest_next_addr r v area
              ∙ ap (settled (contents s.dev) s.config) q,
          n.above,
        );
    oldest =
        let n =
          subst (λ j. Oldest base j (x ∷ es)) (sym e)
            (note_all-Oldest s.config base es (note s.config first x) x b
              (note-found s.config first x) both.1 (Young-Near base fs y).0
              (Young-Near base fs y).1) in
        (n.entry, n.member, n.named.0, n.above);
  }
    where
      first : Index
      first = empty_index F s.config

      both : IsNewest s.config (note s.config first x) x × IsOldest (note s.config first x) x
      both = note-first s.config first x refl

  described :
      (s : Storage F) (es : List Entry) (base : ℕ)
      → base < 2 ^ 32
      → All (Young base) es
      → Ready s.dev
      → IsConfig s.config
      → Frames (contents s.dev) s.config s.config.start_addr es
      → scan_all F s.dev s.config ≡ note_all s.config es (empty_index F s.config)
      → Rebuilt (contents s.dev) s.config base es (rebuild_index_from_flash F s).1
  described s [] base b y r v fs e =
      subst (RebuiltEmpty (contents s.dev) s.config)
        (sym (rebuild-scan s (empty_index F s.config) e)) (rebuilt_empty s r v)
  described s (x ∷ es) base b y r v fs e =
      let i : Index = note_all s.config es (note s.config (empty_index F s.config) x) in
      subst (RebuiltSome (contents s.dev) s.config base (x ∷ es))
        (sym (
          rebuild-scan s i e
          ∙ ap (λ f. if f then indexed s i else unindexed s)
              (note_all-found s.config es (note s.config (empty_index F s.config) x)
                (note-found s.config (empty_index F s.config) x))))
        (rebuilt_some s i x es base b y r v fs refl)

  -- There is exactly one list of the frames that stand in an area, met from its start.
  pub Frames-unique_exist :
      (s : Storage F)
      → Ready s.dev
      → IsConfig s.config
      → (es : List Entry) × Frames (contents s.dev) s.config s.config.start_addr es
        × ((xs : List Entry) → Frames (contents s.dev) s.config s.config.start_addr xs → xs ≡ es)
        × (scan_all F s.dev s.config ≡ note_all s.config es (empty_index F s.config))
  unfolding scan_all
  Frames-unique_exist s r v =
      let (es, fs, q) =
        scan-Frames F flash s.dev s.config (s.config.end_addr - s.config.start_addr)
          s.config.start_addr (empty_index F s.config) r v (omega arith) (omega (arith, v.ordered))
          (omega arith) in
      (es, fs, λ xs gs. Frames-unique gs fs, q)

  -- On a chip that is ready, for the frames that stand in the area, met from its start, whose
  -- sequence numbers are less than half their range ahead of some number, the index after
  -- `rebuildIndexFromFlash` describes them. The count is their number. With no frame, oldest and
  -- newest address are the start and the newest number is 0. With frames, the newest address and
  -- number are those of a frame that none is newer than, the oldest address that of a frame that
  -- none is older than, and the next frame goes behind the newest one. The place for the next frame
  -- wraps at the end of the area, and moves to the next sector if its byte is not erased.
  pub rebuild_index_lem :
      (s : Storage F) (es : List Entry) (base : ℕ)
      → Ready s.dev
      → IsConfig s.config
      → Frames (contents s.dev) s.config s.config.start_addr es
      → base < 2 ^ 32
      → All (Young base) es
      → Rebuilt (contents s.dev) s.config base es (rebuild_index_from_flash F s).1
  rebuild_index_lem s es base r v fs b y =
      let (xs, _, unique, q) = Frames-unique_exist s r v in
      described s es base b y r v fs
        (q ∙ ap (λ l. note_all s.config l (empty_index F s.config)) (sym (unique es fs)))
