-- ===== src/Boot/Numbering.antt =====
-- Events after a start have numbers that are newer than those of all frames in the flash.
use pico_wenvironment_logger.Prelude.{
  ℕ, ◌+◌, ◌^◌, ◌<◌, ◌≤◌, Bool, true, false, ltb, lt→ltb, if◌then◌else◌, List, [], ◌∷◌, All, Option,
  none, some, if-both, if-cases, ◌≡◌, refl, sym, subst, ap, ◌∙◌, arith, u32,
}
use pico_wenvironment_logger.Memory.{Memory}
use pico_wenvironment_logger.FlashApi.{Flash, IsFlash}
use pico_wenvironment_logger.QueueApi.{QueueApi}
use pico_wenvironment_logger.Uart
use pico_wenvironment_logger.Uart.{Uart}
use pico_wenvironment_logger.Storage.{Config, is_seq_newer, is_config_valid}
use pico_wenvironment_logger.Storage.Scan.{rebuild_index_from_flash}
use pico_wenvironment_logger.Storage.State.{Storage, create}
use pico_wenvironment_logger.Storage.Init
use pico_wenvironment_logger.Storage.Frames.{IsConfig}
use pico_wenvironment_logger.Storage.Recovery.{Entry, seq, Frames, age}
use pico_wenvironment_logger.Storage.Recovery.Extremes.{newer_iff}
use pico_wenvironment_logger.Storage.Recovery.Rebuild.{Rebuilt, rebuild-dev, rebuild_index_lem}
use pico_wenvironment_logger.Storage.Recovery.Members.{all_fit, All-weaken, Member-All}
use pico_wenvironment_logger.Logger
use pico_wenvironment_logger.Logger.{Logger, set_next_seq}
use pico_wenvironment_logger.Boot.{boot, restore_seq, start_logger, log_start_addr, log_end_addr}

abbrev pub log_area : Config
log_area = record { start_addr = log_start_addr; end_addr = log_end_addr }

pub log_area-IsConfig : IsConfig log_area
log_area-IsConfig = record {
  ordered = omega arith;
  start_aligned = refl;
  end_aligned = refl;
  inside = omega arith;
}

-- The next number, when the frames `es` stand in the flash.
abbrev pub Fresh : List Entry → ℕ → Type 0
Fresh [] n = n ≡ 0
Fresh (e ∷ es) n = All (λ x. is_seq_newer n (seq x) ≡ true) (e ∷ es)

newer_than_all :
    (base newest : ℕ) (es : List Entry)
    → base < 2 ^ 32
    → newest < 2 ^ 32
    → age base newest + 1 < 2 ^ 31
    → All (λ x. seq x < 2 ^ 32) es
    → All (λ x. age base (seq x) ≤ age base newest) es
    → All (λ x. is_seq_newer (u32 (newest + 1)) (seq x) ≡ true) es
newer_than_all base newest [] b n y p q = tt
newer_than_all base newest (x ∷ es) b n y p q = (
  (newer_iff base (u32 (newest + 1)) (seq x) b (omega arith) p.0 (omega arith)
        (omega (arith, q.0))).1
      (omega (arith, q.0)),
  newer_than_all base newest es b n y p.1 q.1,
)

uart_init_ok : (u : Uart) → u.inited ≡ false → (Uart.init u).0 ≡ true
unfolding Uart.init
uart_init_ok u first =
    if-cases (λ (r : Bool × Uart). r.0 ≡ true) u.inited _ _ (λ e. absurd (cc))
      (λ _. if-both (λ (r : Bool × Uart). r.0 ≡ true) _ _ _ refl refl)

module _ (Q : QueueApi) (F : Flash) (flash : IsFlash F) where
  open flash use {contents, Ready}

  restore_seq-Fresh :
      (m : Memory) (base : ℕ) (es : List Entry) (s : Storage F) (l : Logger Q F)
      → base < 2 ^ 32
      → Frames m log_area log_start_addr es
      → All (λ e. age base (seq e) + 1 < 2 ^ 31) es
      → Rebuilt F flash m log_area base es s
      → l.seq ≡ 0
      → Fresh es (restore_seq Q F s l).seq
  unfolding restore_seq set_next_seq
  restore_seq-Fresh m base [] s l b fs y r z =
      ap (λ n. (if ltb 0 n then set_next_seq Q F (u32 (s.newest_seq + 1)) l else l).seq) r.count ∙ z
  restore_seq-Fresh m base (x ∷ es) s l b fs y r z =
      let (e, member, _, named, _, above) = r.newest in
      let fits = all_fit fs in
      let some_frames : ltb 0 s.valid_frame_count ≡ true =
        lt→ltb 0 s.valid_frame_count (omega (arith, r.count)) in
      subst (λ (k : Logger Q F). All (λ x. is_seq_newer k.seq (seq x) ≡ true) (x ∷ es))
        (sym (ap (λ k. if k then set_next_seq Q F (u32 (s.newest_seq + 1)) l else l) some_frames))
        (subst (λ n. All (λ x. is_seq_newer (u32 (n + 1)) (seq x) ≡ true) (x ∷ es)) (sym named)
          (newer_than_all base (seq e) (x ∷ es) b
            (Member-All (λ x. seq x < 2 ^ 32) (x ∷ es) e member fits)
            (Member-All (λ e. age base (seq e) + 1 < 2 ^ 31) (x ∷ es) e member y) fits above))

  -- The logger that `main` has, and its storage.
  pub record Started (base : ℕ) (es : List Entry) (r : Option (Logger Q F)) : Type 0 where
    pub logger : Logger Q F
    pub storage : Storage F
    pub result : r ≡ some logger
    pub number : Fresh es logger.seq
    pub stored : logger.flash ≡ some storage
    pub index : Rebuilt F flash (contents storage.dev) log_area base es storage

  abbrev pub first_storage : F.Dev → Storage F
  first_storage d = record {
    dev = d;
    config = log_area;
    write_addr = log_start_addr;
    oldest_addr = log_start_addr;
    newest_addr = log_start_addr;
    newest_seq = 0;
    valid_frame_count = 0;
    has_shared_io = true;
    initialized = true;
    has_mutex = true;
    maintenance_busy = false;
  }

  storage_started :
      (d : F.Dev)
      → (F.create_mutex d).0 ≡ true
      → Init.init F (create F d log_start_addr log_end_addr true)
        ≡ (true, (rebuild_index_from_flash F (first_storage (F.create_mutex d).1)).1)
  unfolding Init.init create is_config_valid
  storage_started d made = rw made refl

  -- Where the UART, the flash, both mutexes and the queue are there: on a chip that is ready, with
  -- frames in the area whose sequence numbers are less than half their range, less one, ahead of
  -- some number, `main` gets its logger; the storage's index describes those frames; and the
  -- first event gets a number that is newer than that of each of them, or 0 when there is none.
  pub boot_lem :
      (uart : Uart) (d : F.Dev) (q : Q.Queue) (es : List Entry) (base : ℕ)
      → uart.inited ≡ false
      → Ready d
      → (F.create_mutex d).0 ≡ true
      → Q.create 32 ≡ some q
      → Frames (contents d) log_area log_start_addr es
      → base < 2 ^ 32
      → All (λ e. age base (seq e) + 1 < 2 ^ 31) es
      → Started base es (boot Q F true true uart d)
  unfolding boot start_logger Logger.create Logger.init restore_seq set_next_seq
  boot_lem uart d q es base first r made queue fs b y = record {
    logger = restore_seq Q F s l;
    storage = s;
    result =
        ap
          (λ ok.
            if ok then opened (Init.init F (create F d log_start_addr log_end_addr true)) else none)
          (uart_init_ok uart first)
        ∙ ap opened (storage_started d made)
        ∙ ap (λ o. numbered (from_queue o)) queue;
    number = restore_seq-Fresh (contents d1) base es s l b fs1 y index refl;
    stored =
        if-both (λ (k : Logger Q F). k.flash ≡ some s) (ltb 0 s.valid_frame_count) _ _ refl refl;
    index =
        subst (λ x. Rebuilt F flash (contents x) log_area base es s)
          (sym (rebuild-dev F flash (first_storage d1))) index;
  }
    where
      d1 : F.Dev
      d1 = (F.create_mutex d).1

      s : Storage F
      s = (rebuild_index_from_flash F (first_storage d1)).1

      fresh : Logger Q F
      fresh = Logger.create Q F (Uart.init uart).1 (some s)

      opened : Bool × Storage F → Option (Logger Q F)
      opened r = if r.0 then start_logger Q F (Uart.init uart).1 r.1 else none

      from_queue : Option Q.Queue → Bool × Logger Q F
      from_queue o = elim o [
        | none ↦ (false, record fresh { queue = none })
        | some x ↦ (true, record fresh { queue = some x })
      ]

      numbered : Bool × Logger Q F → Option (Logger Q F)
      numbered r = if r.0 then some (restore_seq Q F s r.1) else none

      l : Logger Q F
      l = record fresh { queue = some q }

      fs1 : Frames (contents d1) log_area log_start_addr es
      fs1 = subst (λ m. Frames m log_area log_start_addr es) (sym (flash.create_mutex_lem d).0) fs

      index : Rebuilt F flash (contents d1) log_area base es s
      index =
          rebuild_index_lem F flash (first_storage d1) es base ((flash.create_mutex_lem d).1 r)
            log_area-IsConfig fs1 b (All-weaken base es y)
