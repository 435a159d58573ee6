-- ===== src/Storage/Invariant/Kept.antt =====
-- Every operation keeps the invariant, whatever the device does and on every branch.
use pico_wenvironment_logger.Prelude.{
  ℕ, zero, suc, ◌≤◌, ◌<◌, Bool, ltb, List, [], ◌∷◌, length, drop, take, ◌≡◌, refl, sym, subst,
  arith, Bool-cases, if-both, inl, inr, ltb→le,
}
use pico_wenvironment_logger.FlashApi.{Flash}
use pico_wenvironment_logger.Driver.{page_size, sector_size}
use pico_wenvironment_logger.Storage.{Config, add32, is_sector_start}
use pico_wenvironment_logger.Storage.State.{Storage, guarded, lock_shared_io}
use pico_wenvironment_logger.Storage.Guard.{taken, guarded_post}
use pico_wenvironment_logger.Storage.Init.{erase_locked}
use pico_wenvironment_logger.Storage.Append.{
  Written, written, crosses_end, io_timeout, program_failed, frame_address,
  invalidate_frames_in_erased_sector, program_locked, write_pages, give_up, commit, write_frame,
  place_frame, append_guarded,
}
use pico_wenvironment_logger.Storage.Append.Pages.{
  OnWritten, OnWritten-and_then, chunk, length-chunk,
}
use pico_wenvironment_logger.Storage.Frames.{IsConfig}
use pico_wenvironment_logger.Storage.Layout.{InArea, frame_address_fits}
use pico_wenvironment_logger.Storage.Invariant.{IsRunning}
use pico_wenvironment_logger.Storage.Invariant.Index.{
  set_dev, IsRunning-dev, give_up-IsRunning, commit-IsRunning, invalidate-IsRunning,
  invalidate_same,
}

module _ (F : Flash) where
  program_locked-end :
      (has : Bool) (d : F.Dev) (a : ℕ) (bytes : List ℕ)
      → OnWritten (λ b t. b ≡ add32 a (length bytes)) (program_locked F has d a bytes)
  unfolding program_locked
  program_locked-end has d a bytes = elim (Bool-cases (lock_shared_io F has d).0) [
    | inr e ↦ rw e tt
    | inl e ↦ elim (Bool-cases (F.page_program (lock_shared_io F has d).1 a bytes).0) [
      | inr f ↦ rw (e, f) tt
      | inl f ↦ rw (e, f) refl
    ]
  ]

  -- The loop never goes back behind the start of the area.
  write_pages-from :
      (has : Bool) (c : Config) (fuel a : ℕ) (bytes : List ℕ) (d : F.Dev)
      → IsConfig c
      → c.start_addr ≤ a
      → a ≤ c.end_addr
      → OnWritten (λ b t. c.start_addr ≤ b) (write_pages F has c fuel a bytes d)
  unfolding write_pages
  write_pages-from has c zero a bytes d v from to = from
  write_pages-from has c (suc fuel) a [] d v from to = from
  write_pages-from has c (suc fuel) a (x ∷ xs) d v from to =
      elim (Bool-cases (ltb c.end_addr (add32 a (chunk a (x ∷ xs))))) [
        | inl e ↦ rw (e, OnWritten) tt
        | inr e ↦
            rw (e, OnWritten)
              (OnWritten-and_then (λ b t. b ≡ add32 a (length (take (chunk a (x ∷ xs)) (x ∷ xs))))
                (λ b t. c.start_addr ≤ b)
                (program_locked F has d a (take (chunk a (x ∷ xs)) (x ∷ xs))) _
                (program_locked-end has d a (take (chunk a (x ∷ xs)) (x ∷ xs)))
                λ b t q.
                  let small : chunk a (x ∷ xs) ≤ page_size = omega arith in
                  let room : add32 a (chunk a (x ∷ xs)) ≤ c.end_addr = ltb→le c.end_addr _ e in
                  write_pages-from has c fuel b (drop (chunk a (x ∷ xs)) (x ∷ xs)) t v
                    (omega (arith, q, length-chunk a (x ∷ xs), v.inside, from, to, small))
                    (omega (arith, q, length-chunk a (x ∷ xs), room)))
      ]

  write_frame-IsRunning :
      (old a : ℕ) (bytes : List ℕ) (s : Storage F)
      → IsRunning s
      → InArea s.config old
      → InArea s.config a
      → IsRunning (write_frame F old a bytes s).1
  unfolding write_frame
  write_frame-IsRunning old a bytes s p i j =
      ended (write_pages F s.has_shared_io s.config (length bytes) a bytes s.dev) (
        write_pages-from s.has_shared_io s.config (length bytes) a bytes s.dev p.config j.from
          (omega (arith, j.below)))
    where
      ended :
          (w : Written F.Dev)
          → OnWritten (λ b t. s.config.start_addr ≤ b) w
          → let r : Bool × Storage F = elim w [
            | written b d ↦ commit F old a b (set_dev F s d)
            | crosses_end d ↦ give_up F (record s { dev = d; write_addr = old })
            | io_timeout d ↦ give_up F (set_dev F s d)
            | program_failed d ↦ give_up F (record s { dev = d; write_addr = old })
          ] in
            IsRunning r.1
      ended (written b d) q = commit-IsRunning F old a b (set_dev F s d) (IsRunning-dev F s d p) j q
      ended (crosses_end d) q =
          give_up-IsRunning F (record s { dev = d; write_addr = old }) p.config p.mutex
      ended (io_timeout d) q = give_up-IsRunning F (set_dev F s d) p.config p.mutex
      ended (program_failed d) q =
          give_up-IsRunning F (record s { dev = d; write_addr = old }) p.config p.mutex

  place_frame-IsRunning :
      (old a : ℕ) (bytes : List ℕ) (s : Storage F)
      → IsRunning s
      → InArea s.config old
      → InArea s.config a
      → IsRunning (place_frame F old a bytes s).1
  unfolding place_frame
  place_frame-IsRunning old a bytes s p i j =
      if-both (λ (x : Bool × Storage F). IsRunning x.1) (is_sector_start a) _ _
        (if-both (λ (x : Bool × Storage F). IsRunning x.1)
          (erase_locked F s1.has_shared_io s1.dev a).0 _ _
          (write_frame-IsRunning old a bytes (set_dev F s1 d1) (IsRunning-dev F s1 d1 q)
            (subst (λ c. InArea c old) (sym same) i) (subst (λ c. InArea c a) (sym same) j))
          (give_up-IsRunning F (set_dev F s1 d1) q.config q.mutex))
        (write_frame-IsRunning old a bytes s p i j)
    where
      s1 : Storage F
      s1 = invalidate_frames_in_erased_sector F a s

      d1 : F.Dev
      d1 = (erase_locked F s1.has_shared_io s1.dev a).1

      q : IsRunning s1
      q = invalidate-IsRunning F a s p j

      same : s1.config ≡ s.config
      same = (invalidate_same F a s).1

  pub append_guarded-IsRunning :
      (bytes : List ℕ) (s : Storage F)
      → 0 < length bytes
      → IsRunning s
      → IsRunning (append_guarded F bytes s).1
  unfolding append_guarded
  append_guarded-IsRunning bytes s pos p = elim (Bool-cases (ltb sector_size (length bytes))) [
    | inl e ↦ rw (e, append_guarded) p
    | inr e ↦
        let fits =
          frame_address_fits s.config s.write_addr (length bytes) p.config p.write pos
            (ltb→le sector_size (length bytes) e) in
        rw (e, append_guarded)
          (place_frame-IsRunning s.write_addr (frame_address s.config s.write_addr (length bytes))
            bytes s p p.write record { from = fits.0; below = omega (arith, fits.1, pos) })
  ]

  -- A guard only reaches the device.
  pub guarded-IsRunning :
      {A : Type 0} (fail : A) (body : Storage F → A × Storage F) (s : Storage F)
      → ((t : Storage F) → IsRunning t → IsRunning (body t).1)
      → IsRunning s
      → IsRunning (guarded F fail body s).1
  guarded-IsRunning fail body s k p =
      guarded_post F (λ _ t. IsRunning t) fail body s
        (λ _ t. IsRunning-dev F t (F.take_mutex t.dev).1)
        (λ _ t. IsRunning-dev F t (F.give_mutex t.dev)) p
        (k (taken F s) (IsRunning-dev F s (F.take_mutex s.dev).1 p))
