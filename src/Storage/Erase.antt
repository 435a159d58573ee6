-- ===== src/Storage/Erase.antt =====
-- `eraseLogArea`: what its two results mean.
use pico_wenvironment_logger.Prelude.{
  ℕ, zero, suc, ◌+◌, ◌-◌, ◌*◌, ◌%◌, ◌/◌, ◌≤◌, ◌<◌, Bool, true, false, ltb, if◌then◌else◌, ◌≡◌, refl,
  sym, ◌∙◌, ap, subst, arith, tests, Bool-cases, if-cases, if-both, inl, inr, ltb→lt,
}
use pico_wenvironment_logger.Memory.{Memory, within, erase}
use pico_wenvironment_logger.Driver.{sector_size, sector_base}
use pico_wenvironment_logger.FlashApi.{Flash, IsFlash}
use pico_wenvironment_logger.Storage.{Config, add32}
use pico_wenvironment_logger.Storage.State.{Storage, guarded, lock_shared_io, unlock}
use pico_wenvironment_logger.Storage.Guard.{taken, guarded-runs, unlock-cases}
use pico_wenvironment_logger.Storage.Init.{
  reset_index, erase_locked, erase_sectors, erase_area, erase_log_area,
}
use pico_wenvironment_logger.Storage.Append.Pages.{lock_shared_io_lem, unlock_shared_io_lem}
use pico_wenvironment_logger.Storage.Append.Bytes.{IsErased}
use pico_wenvironment_logger.Storage.Frames.{IsConfig}
use pico_wenvironment_logger.Storage.Invariant.{IsRunning}

erased_byte :
    (m : Memory) (b x : ℕ)
    → b % sector_size ≡ 0
    → b ≤ x
    → x < b + sector_size
    → erase m (sector_base b) sector_size x ≡ 255
unfolding erase
erased_byte m b x z p q = ground arith

module _ (F : Flash) (flash : IsFlash F) where
  open flash use {contents, Ready}

  -- A sector of the area, erased with success, and in any case nothing outside it.
  erase_locked_done :
      (has : Bool) (d : F.Dev) (a : ℕ)
      → Ready d
      → (erase_locked F has d a).0 ≡ true
      → (contents (erase_locked F has d a).1 ≡ erase (contents d) (sector_base a) sector_size)
        × Ready (erase_locked F has d a).1
  unfolding erase_locked
  erase_locked_done has d a r =
      if-cases
        (λ (x : Bool × F.Dev).
          x.0 ≡ true → (contents x.1 ≡ erase (contents d) (sector_base a) sector_size) × Ready x.1)
        (lock_shared_io F has d).0 _ _
        (λ e ok.
          let d1 : F.Dev = (lock_shared_io F has d).1 in
          let post = flash.erase_lem d1 a ((lock_shared_io_lem F flash has d).1 r) ok in
          let off = unlock_shared_io_lem F flash has (F.sector_erase d1 a).1 in
          (
            off.0
                ∙ post.0
                ∙ ap (λ m. erase m (sector_base a) sector_size)
                    (lock_shared_io_lem F flash has d).0,
            off.1 post.1,
          ))
        (λ e ok. absurd (ground arith))

  erase_locked_outside :
      (has : Bool) (d : F.Dev) (a x : ℕ)
      → within (sector_base a) sector_size x ≡ false
      → contents (erase_locked F has d a).1 x ≡ contents d x
  unfolding erase_locked
  erase_locked_outside has d a x out =
      let same : contents (lock_shared_io F has d).1 x ≡ contents d x =
        ap (λ (m : Memory). m x) (lock_shared_io_lem F flash has d).0 in
      if-both (λ (r : Bool × F.Dev). contents r.1 x ≡ contents d x) (lock_shared_io F has d).0 _ _
        (ap (λ (m : Memory). m x)
            (unlock_shared_io_lem F flash has (F.sector_erase (lock_shared_io F has d).1 a).1).0
          ∙ flash.erase_outside (lock_shared_io F has d).1 a x out
          ∙ same)
        same

  -- The loop does not touch what it has passed.
  erase_sectors_before :
      (has : Bool) (c : Config) (fuel a x : ℕ) (d : F.Dev)
      → IsConfig c
      → a % sector_size ≡ 0
      → x < a
      → contents (erase_sectors F has c fuel a d).1 x ≡ contents d x
  unfolding erase_sectors
  erase_sectors_before has c zero a x d v z h = refl
  erase_sectors_before has c (suc fuel) a x d v z h = elim (Bool-cases (ltb a c.end_addr)) [
    | inr e ↦ rw (e, erase_sectors) refl
    | inl e ↦
        let lt : a < c.end_addr = ltb→lt a c.end_addr e in
        let k = erase_locked_outside has d a x (ground arith) in
        elim (Bool-cases (erase_locked F has d a).0) [
          | inr f ↦ rw (e, f, erase_sectors) k
          | inl f ↦
              rw (e, f, erase_sectors)
                (erase_sectors_before has c fuel (add32 a sector_size) x (erase_locked F has d a).1
                    v (omega (arith, lt, v.inside)) (omega (arith, lt, v.inside))
                  ∙ k)
        ]
  ]

  erase_sectors_lem :
      (has : Bool) (c : Config) (fuel a : ℕ) (d : F.Dev)
      → IsConfig c
      → Ready d
      → a % sector_size ≡ 0
      → c.end_addr ≤ a + fuel * sector_size
      → (erase_sectors F has c fuel a d).0 ≡ true
      → IsErased (contents (erase_sectors F has c fuel a d).1) a (c.end_addr - a)
        × Ready (erase_sectors F has c fuel a d).1
  unfolding erase_sectors
  erase_sectors_lem has c zero a d v r z enough = λ ok. (λ x p q. absurd (omega arith), r)
  erase_sectors_lem has c (suc fuel) a d v r z enough = elim (Bool-cases (ltb a c.end_addr)) [
    | inr e ↦ rw (e, erase_sectors) (λ ok. (λ x p q. absurd (omega (tests, e, p, q)), r))
    | inl e ↦
        let lt : a < c.end_addr = ltb→lt a c.end_addr e in
        elim (Bool-cases (erase_locked F has d a).0) [
          | inr f ↦ rw (e, f, erase_sectors) (λ ok. absurd (ground arith))
          | inl f ↦
              let d1 : F.Dev = (erase_locked F has d a).1 in
              let next : add32 a sector_size ≡ a + sector_size = omega (arith, lt, v.inside) in
              let now = erase_locked_done has d a r f in
              rw (e, f, erase_sectors)
                λ ok.
                  let rest =
                    erase_sectors_lem has c fuel (add32 a sector_size) d1 v now.1
                      (omega (arith, next)) (omega (arith, next)) ok in
                  (
                    λ x p q. elim (Bool-cases (ltb x (a + sector_size))) [
                      | inl near ↦
                          erase_sectors_before has c fuel (add32 a sector_size) x d1 v
                            (omega (arith, next)) (omega (tests, near, next))
                          ∙ ap (λ (m : Memory). m x) now.0
                          ∙ erased_byte (contents d) a x z p (ltb→lt x (a + sector_size) near)
                      | inr far ↦ rest.0 x (omega (tests, far, next)) (omega (tests, far, q, next))
                    ],
                    rest.1,
                  )
        ]
  ]

  -- What a result true of `eraseLogArea` says of the object it leaves.
  pub record IsCleared (c : Config) (t : Storage F) : Type 0 where
    pub erased : IsErased (contents t.dev) c.start_addr (c.end_addr - c.start_addr)
    pub ready : Ready t.dev
    pub same_config : t.config ≡ c
    pub write : t.write_addr ≡ c.start_addr
    pub oldest : t.oldest_addr ≡ c.start_addr
    pub newest : t.newest_addr ≡ c.start_addr
    pub newest_seq : t.newest_seq ≡ 0
    pub count : t.valid_frame_count ≡ 0
    pub free : t.maintenance_busy ≡ false

  -- Both results.
  abbrev pub Outcome : Config → Bool × Storage F → Type 0
  Outcome c r = (r.0 ≡ true → IsCleared c r.1) × (r.0 ≡ false → r.1.maintenance_busy ≡ true)

  erase_area-Outcome :
      (s : Storage F) → IsConfig s.config → Ready s.dev → Outcome s.config (erase_area F s)
  unfolding erase_area reset_index
  erase_area-Outcome s v r =
      if-cases (Outcome s.config) ran.0 _ _
        (λ e. (
          λ _. record {
            erased = (done e).0;
            ready = (done e).1;
            same_config = refl;
            write = refl;
            oldest = refl;
            newest = refl;
            newest_seq = refl;
            count = refl;
            free = refl;
          },
          λ f. absurd (ground arith),
        ))
        (λ e. (λ f. absurd (ground arith), λ _. refl))
    where
      c : Config
      c = s.config

      ran : Bool × F.Dev
      ran =
          erase_sectors F s.has_shared_io c ((c.end_addr - c.start_addr) / sector_size) c.start_addr
            s.dev

      done :
          ran.0 ≡ true
          → IsErased (contents ran.1) c.start_addr (c.end_addr - c.start_addr) × Ready ran.1
      done e =
          erase_sectors_lem s.has_shared_io c ((c.end_addr - c.start_addr) / sector_size)
            c.start_addr s.dev v r v.start_aligned
            (omega (arith, v.start_aligned, v.end_aligned, v.ordered)) e

  unlock-Outcome : (c : Config) (r : Bool × Storage F) → Outcome c r → Outcome c (r.0, unlock F r.1)
  unlock-Outcome c r p =
      unlock-cases F (λ t. Outcome c (r.0, t)) r.1 p
        (
          λ e.
              let q = p.0 e in
              record {
                erased =
                    subst (λ m. IsErased m c.start_addr (c.end_addr - c.start_addr))
                      (sym (flash.give_mutex_lem r.1.dev).0) q.erased;
                ready = (flash.give_mutex_lem r.1.dev).1 q.ready;
                same_config = q.same_config;
                write = q.write;
                oldest = q.oldest;
                newest = q.newest;
                newest_seq = q.newest_seq;
                count = q.count;
                free = q.free;
              },
          p.1,
        )

  -- On an initialised log whose mutex is had and whose chip is ready: if `eraseLogArea` returns
  -- true, every byte of the area is 0xFF, the index is that of an empty log, the chip is ready and
  -- the busy flag is clear. If it returns false, the busy flag is left set.
  pub erase_log_area-Outcome :
      (s : Storage F)
      → IsRunning s
      → s.initialized ≡ true
      → Ready s.dev
      → (F.take_mutex s.dev).0 ≡ true
      → Outcome s.config (erase_log_area F s)
  unfolding erase_log_area
  erase_log_area-Outcome s p i r m =
      subst (λ b. Outcome s.config (if b then guarded F false (erase_area F) s else (false, s)))
        (sym i)
        (guarded-runs F (Outcome s.config) false (erase_area F) s p.mutex m (
          unlock-Outcome s.config (erase_area F (taken F s))
            (erase_area-Outcome (taken F s) p.config ((flash.take_mutex_lem s.dev).1 r))))
