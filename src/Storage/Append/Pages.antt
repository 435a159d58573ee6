-- ===== src/Storage/Append/Pages.antt =====
-- The loop of `append` over the pages: it ends with every byte programmed, touches nothing else,
-- and asks the driver for one page at a time.
use pico_wenvironment_logger.Prelude.{
  ℕ, zero, suc, ◌+◌, ◌-◌, ◌%◌, ◌^◌, ◌≤◌, ◌<◌, min, Bool, true, false, ltb, List, [], ◌∷◌, take,
  drop, length, length-take, length-drop, take-append-drop, ◌≡◌, refl, sym, ap, ap₂, ◌∙◌, arith,
  Bool-cases, inl, inr,
}
use pico_wenvironment_logger.Memory.{Memory, program, within, program-append, program-nil}
use pico_wenvironment_logger.Driver.{page_size}
use pico_wenvironment_logger.FlashApi.{Flash, IsFlash}
use pico_wenvironment_logger.Storage.{Config, add32}
use pico_wenvironment_logger.Storage.State.{lock_shared_io, unlock_shared_io}
use pico_wenvironment_logger.Storage.Append.{
  Written, written, crosses_end, io_timeout, program_failed, program_locked, write_pages, and_then,
}

-- The device as the loop leaves it, however it ends.
abbrev pub device : {D : Type 0} → Written D → D
device (written a d) = d
device (crosses_end d) = d
device (io_timeout d) = d
device (program_failed d) = d

-- A postcondition of the loop where it ends with every byte programmed.
abbrev pub OnWritten {κ} : {D : Type 0} → (ℕ → D → Type κ) → Written D → Type κ
OnWritten P (written a d) = P a d
OnWritten P (crosses_end d) = Unit
OnWritten P (io_timeout d) = Unit
OnWritten P (program_failed d) = Unit

-- The bytes of one round.
abbrev pub chunk : ℕ → List ℕ → ℕ
chunk addr bytes = min (length bytes) (page_size - addr % page_size)

module _ (F : Flash) (flash : IsFlash F) where
  open flash use {contents, Ready}

  pub lock_shared_io_lem :
      (has : Bool) (d : F.Dev)
      → (contents (lock_shared_io F has d).1 ≡ contents d)
        × (Ready d → Ready (lock_shared_io F has d).1)
  unfolding lock_shared_io
  lock_shared_io_lem true d = flash.take_io_lem d
  lock_shared_io_lem false d = (refl, λ r. r)

  pub unlock_shared_io_lem :
      (has : Bool) (d : F.Dev)
      → (contents (unlock_shared_io F has d) ≡ contents d)
        × (Ready d → Ready (unlock_shared_io F has d))
  unfolding unlock_shared_io
  unlock_shared_io_lem true d = flash.give_io_lem d
  unlock_shared_io_lem false d = (refl, λ r. r)

  -- What one page request leaves behind when it succeeds.
  abbrev Programmed : F.Dev → ℕ → List ℕ → ℕ → F.Dev → Type 0
  Programmed d addr bytes a d' =
      (a ≡ add32 addr (length bytes)) × (contents d' ≡ program (contents d) addr bytes) × Ready d'

  program_locked_lem :
      (has : Bool) (d : F.Dev) (addr : ℕ) (bytes : List ℕ)
      → Ready d
      → OnWritten (Programmed d addr bytes) (program_locked F has d addr bytes)
  unfolding program_locked
  program_locked_lem has d addr bytes r = elim (Bool-cases (lock_shared_io F has d).0) [
    | inr e ↦ rw e tt
    | inl e ↦
        let d1 : F.Dev = (lock_shared_io F has d).1 in
        let same : contents d1 ≡ contents d = (lock_shared_io_lem has d).0 in
        let r1 : Ready d1 = (lock_shared_io_lem has d).1 r in
        elim (Bool-cases (F.page_program d1 addr bytes).0) [
          | inr f ↦ rw (e, f) tt
          | inl f ↦
              let post = flash.program_lem d1 addr bytes r1 f in
              let off = unlock_shared_io_lem has (F.page_program d1 addr bytes).1 in
              rw (e, f) (refl, off.0 ∙ post.0 ∙ ap (λ m. program m addr bytes) same, off.1 post.1)
        ]
  ]

  program_locked_outside :
      (has : Bool) (d : F.Dev) (addr : ℕ) (bytes : List ℕ) (a : ℕ)
      → within addr (length bytes) a ≡ false
      → contents (device (program_locked F has d addr bytes)) a ≡ contents d a
  unfolding program_locked
  program_locked_outside has d addr bytes a out = elim (Bool-cases (lock_shared_io F has d).0) [
    | inr e ↦ rw e (ap (λ (m : Memory). m a) (lock_shared_io_lem has d).0)
    | inl e ↦
        let d1 : F.Dev = (lock_shared_io F has d).1 in
        let whole =
          ap (λ (m : Memory). m a) (unlock_shared_io_lem has (F.page_program d1 addr bytes).1).0
          ∙ flash.program_outside d1 addr bytes a out
          ∙ ap (λ (m : Memory). m a) (lock_shared_io_lem has d).0 in
        elim (Bool-cases (F.page_program d1 addr bytes).0) [
          | inr f ↦ rw (e, f) whole
          | inl f ↦ rw (e, f) whole
        ]
  ]

pub OnWritten-and_then {κ ν} :
    {D : Type 0} (P : ℕ → D → Type κ) (Q : ℕ → D → Type ν) (w : Written D)
    (next : ℕ → D → Written D)
    → OnWritten P w
    → ((a : ℕ) (d : D) → P a d → OnWritten Q (next a d))
    → OnWritten Q (and_then w next)
OnWritten-and_then P Q (written a d) next h k = k a d h
OnWritten-and_then P Q (crosses_end d) next h k = tt
OnWritten-and_then P Q (io_timeout d) next h k = tt
OnWritten-and_then P Q (program_failed d) next h k = tt

device-and_then {κ} :
    {D : Type 0} (P : D → Type κ) (w : Written D) (next : ℕ → D → Written D)
    → P (device w)
    → ((a : ℕ) (d : D) → w ≡ written a d → P d → P (device (next a d)))
    → P (device (and_then w next))
device-and_then P (written a d) next h k = k a d refl h
device-and_then P (crosses_end d) next h k = h
device-and_then P (io_timeout d) next h k = h
device-and_then P (program_failed d) next h k = h

pub length-chunk :
    (addr : ℕ) (bytes : List ℕ) → length (take (chunk addr bytes) bytes) ≡ chunk addr bytes
length-chunk addr bytes = omega (arith, length-take (chunk addr bytes) bytes)

module _ (F : Flash) (flash : IsFlash F) where
  open flash use {contents, Ready}

  -- All the bytes are programmed, the address is past the last one, and the chip is ready.
  abbrev pub Stored : F.Dev → ℕ → List ℕ → ℕ → F.Dev → Type 0
  Stored d addr bytes a d' =
      (a ≡ addr + length bytes) × (contents d' ≡ program (contents d) addr bytes) × Ready d'

  Stored-step :
      (d : F.Dev) (addr : ℕ) (bytes : List ℕ) (a : ℕ) (d' : F.Dev) (b : ℕ) (e : F.Dev)
      → addr + length bytes < 2 ^ 32
      → (a ≡ add32 addr (length (take (chunk addr bytes) bytes)))
        × (contents d' ≡ program (contents d) addr (take (chunk addr bytes) bytes))
        × Ready d'
      → Stored d' a (drop (chunk addr bytes) bytes) b e
      → Stored d addr bytes b e
  Stored-step d addr bytes a d' b e small p q = (
    omega (arith, p.0, q.0, length-chunk addr bytes, length-drop (chunk addr bytes) bytes),
    q.1
        ∙ ap₂ (λ m k. program m k (drop (chunk addr bytes) bytes)) p.1 at_end
        ∙ program-append (contents d) addr (take (chunk addr bytes) bytes)
            (drop (chunk addr bytes) bytes)
        ∙ ap (program (contents d) addr) (take-append-drop (chunk addr bytes) bytes),
    q.2,
  )
    where
      at_end : a ≡ addr + length (take (chunk addr bytes) bytes)
      at_end = omega (arith, p.0, length-chunk addr bytes)

  pub OnWritten-map {κ ν} :
      (P : ℕ → F.Dev → Type κ) (Q : ℕ → F.Dev → Type ν) (w : Written F.Dev)
      → OnWritten P w
      → ((a : ℕ) (d : F.Dev) → P a d → Q a d)
      → OnWritten Q w
  OnWritten-map P Q (written a d) h k = k a d h
  OnWritten-map P Q (crosses_end d) h k = tt
  OnWritten-map P Q (io_timeout d) h k = tt
  OnWritten-map P Q (program_failed d) h k = tt

  -- A loop that ends by writing everything has programmed exactly the bytes, from the address on,
  -- and the fuel of one round for each byte is enough.
  pub write_pages_stores :
      (has : Bool) (c : Config) (fuel addr : ℕ) (bytes : List ℕ) (d : F.Dev)
      → Ready d
      → length bytes ≤ fuel
      → addr + length bytes < 2 ^ 32
      → OnWritten (Stored d addr bytes) (write_pages F has c fuel addr bytes d)
  unfolding write_pages
  write_pages_stores has c zero addr [] d r h small =
      (omega arith, sym (program-nil (contents d) addr), r)
  write_pages_stores has c zero addr (x ∷ xs) d r h small = absurd (omega arith)
  write_pages_stores has c (suc fuel) addr [] d r h small =
      (omega arith, sym (program-nil (contents d) addr), r)
  write_pages_stores has c (suc fuel) addr (x ∷ xs) d r h small =
      elim (Bool-cases (ltb c.end_addr (add32 addr (chunk addr (x ∷ xs))))) [
        | inl e ↦ rw (e, OnWritten) tt
        | inr e ↦
            rw (e, OnWritten)
              (OnWritten-and_then _ (Stored d addr (x ∷ xs))
                (program_locked F has d addr (take (chunk addr (x ∷ xs)) (x ∷ xs))) _
                (program_locked_lem F flash has d addr (take (chunk addr (x ∷ xs)) (x ∷ xs)) r)
                λ a d' p.
                  OnWritten-map (Stored d' a (drop (chunk addr (x ∷ xs)) (x ∷ xs)))
                    (Stored d addr (x ∷ xs)) _
                    (write_pages_stores has c fuel a (drop (chunk addr (x ∷ xs)) (x ∷ xs)) d' p.2
                      (omega (arith, length-drop (chunk addr (x ∷ xs)) (x ∷ xs)))
                      (omega (
                        arith,
                        p.0,
                        length-chunk addr (x ∷ xs),
                        length-drop (chunk addr (x ∷ xs)) (x ∷ xs),
                      )))
                    (λ b e q. Stored-step d addr (x ∷ xs) a d' b e small p q))
      ]

  within-take :
      (addr a : ℕ) (bytes : List ℕ)
      → within addr (length bytes) a ≡ false
      → within addr (length (take (chunk addr bytes) bytes)) a ≡ false
  within-take addr a bytes out = rw (length-chunk addr bytes) (ground arith)

  within-drop :
      (addr a : ℕ) (bytes : List ℕ)
      → within addr (length bytes) a ≡ false
      → within (addr + chunk addr bytes) (length (drop (chunk addr bytes) bytes)) a ≡ false
  within-drop addr a bytes out = rw (length-drop (chunk addr bytes) bytes) (ground arith)

  program_locked-written :
      (has : Bool) (d : F.Dev) (addr : ℕ) (bytes : List ℕ) (a : ℕ) (d' : F.Dev)
      → program_locked F has d addr bytes ≡ written a d'
      → a ≡ add32 addr (length bytes)
  unfolding program_locked
  program_locked-written has d addr bytes a d' e = ground arith

  -- However the loop ends, no byte outside the range of the frame has changed.
  pub write_pages_outside :
      (has : Bool) (c : Config) (fuel addr : ℕ) (bytes : List ℕ) (d : F.Dev) (a : ℕ)
      → addr + length bytes < 2 ^ 32
      → within addr (length bytes) a ≡ false
      → contents (device (write_pages F has c fuel addr bytes d)) a ≡ contents d a
  unfolding write_pages
  write_pages_outside has c zero addr bytes d a small out = refl
  write_pages_outside has c (suc fuel) addr [] d a small out = refl
  write_pages_outside has c (suc fuel) addr (x ∷ xs) d a small out =
      elim (Bool-cases (ltb c.end_addr (add32 addr (chunk addr (x ∷ xs))))) [
        | inl e ↦ rw (e, device)
        | inr e ↦
            rw (e, device)
              (device-and_then (λ t. contents t a ≡ contents d a)
                (program_locked F has d addr (take (chunk addr (x ∷ xs)) (x ∷ xs))) _
                (program_locked_outside F flash has d addr (take (chunk addr (x ∷ xs)) (x ∷ xs)) a
                  (within-take addr a (x ∷ xs) out))
                λ b d' eq p.
                  let at_end : b ≡ addr + chunk addr (x ∷ xs) = omega (
                    arith,
                    program_locked-written has d addr (take (chunk addr (x ∷ xs)) (x ∷ xs)) b d' eq,
                    length-chunk addr (x ∷ xs),
                  ) in
                  write_pages_outside has c fuel b (drop (chunk addr (x ∷ xs)) (x ∷ xs)) d' a
                    (omega (arith, at_end, length-drop (chunk addr (x ∷ xs)) (x ∷ xs)))
                    (rw at_end (within-drop addr a (x ∷ xs) out))
                  ∙ p)
      ]
