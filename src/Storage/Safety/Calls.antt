-- ===== src/Storage/Safety/Calls.antt =====
-- Every call, and every sequence of calls, leaves the flash outside the area alone.
use pico_wenvironment_logger.Prelude.{
  ℕ, ◌-◌, Bool, false, ◌==◌, List, [], ◌∷◌, length, ◌≡◌, refl, ◌∙◌, ap, arith, if-both, if-cases,
}
use pico_wenvironment_logger.Memory.{Memory, within}
use pico_wenvironment_logger.FlashApi.{Flash, IsFlash}
use pico_wenvironment_logger.Storage.{Config, is_config_valid}
use pico_wenvironment_logger.Storage.State.{Storage, create, guarded}
use pico_wenvironment_logger.Storage.Guard.{taken, given, guarded_post}
use pico_wenvironment_logger.Storage.Scan.{rebuild_index_from_flash}
use pico_wenvironment_logger.Storage.Init.{
  reset_index, start_index, init, erase_area, erase_log_area, restore_write_address,
}
use pico_wenvironment_logger.Storage.Append.{append_guarded, append}
use pico_wenvironment_logger.Storage.Read.Post.{
  guarded-kept, read-kept, read_frame-kept, send_frames-kept, send_latest-kept,
}
use pico_wenvironment_logger.Storage.Invariant.{IsRunning, IsValid}
use pico_wenvironment_logger.Storage.Invariant.Index.{IsRunning-dev}
use pico_wenvironment_logger.Storage.Invariant.Reachable.{
  Call, call, calls, call_init, call_erase_log_area, call_restore_write_address, call_append,
  call_read, call_read_frame, call_send_frames_oldest_first, call_send_latest_frames, call-IsValid,
}
use pico_wenvironment_logger.Storage.Safety.{
  Kept, Kept-dev, rebuild-Kept, append_guarded-Kept, erase_area-Kept,
}

module _ (F : Flash) (flash : IsFlash F) (c : Config) (x y : ℕ)
    (out : within c.start_addr (c.end_addr - c.start_addr) x ≡ false) where
  open flash use {contents}

  abbrev K : Storage F → Type 0
  K = Kept F flash c x y out

  abbrev at : Memory → ℕ
  at m = m x

  take-Kept : (t : Storage F) → K t → K (taken F t)
  take-Kept t q =
      Kept-dev F flash c x y out t (F.take_mutex t.dev).1
        (ap at (flash.take_mutex_lem t.dev).0 ∙ q.byte) q

  give-Kept : (t : Storage F) → K t → K (given F t)
  give-Kept t q =
      Kept-dev F flash c x y out t (F.give_mutex t.dev)
        (ap at (flash.give_mutex_lem t.dev).0 ∙ q.byte) q

  guarded-running :
      {A : Type 0} (fail : A) (body : Storage F → A × Storage F) (s : Storage F)
      → ((t : Storage F) → IsRunning t → K t → K (body t).1)
      → IsRunning s
      → K s
      → K (guarded F fail body s).1
  guarded-running fail body s h p k =
      guarded_post F (λ _ t. K t) fail body s (λ _ t. take-Kept t) (λ _ t. give-Kept t) k
        (h (taken F s) (IsRunning-dev F s (F.take_mutex s.dev).1 p) (take-Kept s k))

  abbrev R : {A : Type 0} → A × Storage F → Type 0
  R r = K r.1

  init-Kept : (s : Storage F) → K s → K (init F s).1
  unfolding init start_index reset_index
  init-Kept s k =
      if-both R (is_config_valid s.config) _ _
        (if-both R s.has_mutex _ _
          (rebuild-Kept F flash c x y out _ record { byte = k.byte; config = k.config })
          (if-both R (F.create_mutex s.dev).0 _ _
            (rebuild-Kept F flash c x y out _ record { byte = made; config = k.config })
            (Kept-dev F flash c x y out s (F.create_mutex s.dev).1 made k)))
        k
    where
      made : contents (F.create_mutex s.dev).1 x ≡ y
      made = ap at (flash.create_mutex_lem s.dev).0 ∙ k.byte

  append-Kept : (bytes : List ℕ) (s : Storage F) → IsValid s → K s → K (append F bytes s).1
  unfolding append
  append-Kept bytes s p k =
      if-cases R s.initialized _ _
        (λ i.
          if-cases R (length bytes == 0) _ _ (λ _. k)
            (λ pos.
              guarded-running false (append_guarded F bytes) s
                (λ t. append_guarded-Kept F flash c x y out bytes t (ground arith)) (p i) k))
        (λ _. k)

  call-Kept : (k : Call) (s : Storage F) → IsValid s → K s → K (call F k s)
  unfolding erase_log_area restore_write_address
  call-Kept call_init s p k = init-Kept s k
  call-Kept call_erase_log_area s p k =
      if-cases R s.initialized _ _
        (λ i. guarded-running false (erase_area F) s (erase_area-Kept F flash c x y out) (p i) k)
        (λ _. k)
  call-Kept call_restore_write_address s p k =
      if-both R s.initialized _ _
        (guarded-kept F K take-Kept give-Kept false (rebuild_index_from_flash F) s
          (rebuild-Kept F flash c x y out) k)
        k
  call-Kept (call_append bytes) s p k = append-Kept bytes s p k
  call-Kept (call_read addr n) s p k = read-kept F K take-Kept give-Kept addr n s k
  call-Kept (call_read_frame addr n) s p k = read_frame-kept F K take-Kept give-Kept addr n s k
  call-Kept call_send_frames_oldest_first s p k =
      send_frames-kept F K take-Kept give-Kept (λ frame sent. frame ∷ sent) [] s k
  call-Kept (call_send_latest_frames count) s p k =
      send_latest-kept F K take-Kept give-Kept (λ frame sent. frame ∷ sent) count [] s k

  calls-Kept : (ks : List Call) (s : Storage F) → IsValid s → K s → K (calls F ks s)
  calls-Kept [] s p k = k
  calls-Kept (q ∷ qs) s p k = calls-Kept qs (call F q s) (call-IsValid F q s p) (call-Kept q s p k)

-- No sequence of calls on a new object, whatever fails, ever changes a byte of the flash outside
-- the area that the object was made for.
pub reachable_outside :
    (F : Flash) (flash : IsFlash F) (d : F.Dev) (c : Config) (shared : Bool) (ks : List Call)
    (a : ℕ)
    → within c.start_addr (c.end_addr - c.start_addr) a ≡ false
    → flash.contents (calls F ks (create F d c.start_addr c.end_addr shared)).dev a
      ≡ flash.contents d a
unfolding create
reachable_outside F flash d c shared ks a out =
    (calls-Kept F flash c a (flash.contents d a) out ks (create F d c.start_addr c.end_addr shared)
      (λ i. absurd (ground arith)) record { byte = refl; config = refl }).byte
