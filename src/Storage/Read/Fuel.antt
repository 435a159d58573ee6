-- ===== src/Storage/Read/Fuel.antt =====
-- The fuel of the walks that send frames: more of it would change nothing.
use pico_wenvironment_logger.Prelude.{
  ℕ, zero, suc, ◌+◌, ◌^◌, ◌<◌, ◌≤◌, true, ltb, leb, ◌==◌, if◌then◌else◌, List, length, Option, none,
  some, ◌≡◌, refl, sym, subst, arith, Bool-cases, Option-cases, if-both, inl, inr, ltb→lt, le→ltb,
}
use pico_wenvironment_logger.Memory.{slice, length-slice}
use pico_wenvironment_logger.Driver.{is_address_valid, flash_size}
use pico_wenvironment_logger.FlashApi.{Flash, IsFlash}
use pico_wenvironment_logger.Protocol.{max_size}
use pico_wenvironment_logger.Storage.{Config, add32, wrap_address}
use pico_wenvironment_logger.Storage.State.{Storage}
use pico_wenvironment_logger.Storage.Guard.{taken, guarded_post}
use pico_wenvironment_logger.Storage.Frames.{IsConfig}
use pico_wenvironment_logger.Storage.Frames.Decide.{is_valid_frame_at_iff}
use pico_wenvironment_logger.Storage.Scan.{is_valid_frame_at}
use pico_wenvironment_logger.Storage.Read.{read_frame, walk, area_size}
use pico_wenvironment_logger.Storage.Read.Post.{read_frame-kept}

-- A frame that was read has at least 18 bytes and at most 274.
abbrev Sized : Option (List ℕ) → Type 0
Sized o = (f : List ℕ) → o ≡ some f → (18 ≤ length f) × (length f ≤ 274)

none-Sized : Sized none
none-Sized f e = absurd (cc)

some-Sized : (xs : List ℕ) → 18 ≤ length xs → length xs ≤ 274 → Sized (some xs)
some-Sized xs p q f e =
    let same : xs ≡ f = cc in subst (λ ys. (18 ≤ length ys) × (length ys ≤ 274)) same (p, q)

wrap_address-below : (c : Config) (a b : ℕ) → IsConfig c → wrap_address c (add32 a b) < 2 ^ 32
unfolding wrap_address
wrap_address-below c a b v =
    if-both (λ x. x < 2 ^ 32) (leb c.end_addr (add32 a b)) c.start_addr (add32 a b)
      (omega (arith, v.ordered, v.inside)) (omega arith)

module _ (F : Flash) (flash : IsFlash F) where
  open flash use {contents, Ready}

  -- The device may be read, and the area is one of the chip.
  abbrev IsReadable : Storage F → Type 0
  IsReadable s = Ready s.dev × IsConfig s.config

  read-Sized : (d : F.Dev) (addr n : ℕ) → Ready d → 18 ≤ n → n ≤ 274 → Sized (F.read d addr n)
  read-Sized d addr n r p q = subst Sized (sym (flash.read_lem d addr n r)) (
      if-both Sized (is_address_valid addr n) _ _
        (some-Sized (slice (contents d) addr n) (omega (arith, length-slice (contents d) addr n))
          (omega (arith, length-slice (contents d) addr n)))
        none-Sized)

  found-Sized :
      (d : F.Dev) (c : Config) (addr out_size : ℕ)
      → Ready d
      → IsConfig c
      → addr < 2 ^ 32
      → Sized (elim (is_valid_frame_at F d c addr) [
        | none ↦ none
        | some (h, size) ↦ if ltb out_size size then none else F.read d addr size
      ])
  found-Sized d c addr out_size r v small = elim (Option-cases (is_valid_frame_at F d c addr)) [
    | inl o ↦ rw o none-Sized
    | inr ((h, size), o) ↦
        let f = (is_valid_frame_at_iff F flash d c addr h size r v small).0 o in
        rw o (
          if-both Sized (ltb out_size size) _ _ none-Sized
            (read-Sized d addr size r (omega (arith, f.size)) (omega (arith, f.size, f.short))))
  ]

  read_frame-Sized :
      (addr out_size : ℕ) (s : Storage F)
      → IsReadable s
      → addr < 2 ^ 32
      → Sized (read_frame F addr out_size s).0
  unfolding read_frame
  read_frame-Sized addr out_size s p small =
      guarded_post F (λ x _. Sized x) none _ s (λ x t q. q) (λ x t q. q) none-Sized
        (found-Sized (taken F s).dev s.config addr out_size ((flash.take_mutex_lem s.dev).1 p.0) p.1
          small)

  read_frame-IsReadable :
      (addr n : ℕ) (s : Storage F) → IsReadable s → IsReadable (read_frame F addr n s).1
  read_frame-IsReadable =
      read_frame-kept F IsReadable (λ t p. ((flash.take_mutex_lem t.dev).1 p.0, p.1))
        (λ t p. ((flash.give_mutex_lem t.dev).1 p.0, p.1))

  walk-end :
      {U : Type 0} (send : List ℕ → U → U) (size skip n addr scanned seen : ℕ) (u : U)
      (s : Storage F)
      → size ≤ scanned
      → walk F send size skip n addr scanned seen u s ≡ (true, u, s)
  unfolding walk
  walk-end send size skip zero addr scanned seen u s h = refl
  walk-end send size skip (suc n) addr scanned seen u s h = rw (le→ltb scanned size h, walk) refl

  -- Two amounts of fuel that both reach the end of the area.
  walk_fuel :
      {U : Type 0} (send : List ℕ → U → U) (size skip n m addr scanned seen : ℕ) (u : U)
      (s : Storage F)
      → size ≤ flash_size
      → IsReadable s
      → addr < 2 ^ 32
      → size ≤ scanned + n
      → size ≤ scanned + m
      → walk F send size skip n addr scanned seen u s
        ≡ walk F send size skip m addr scanned seen u s
  unfolding walk
  walk_fuel send size skip zero m addr scanned seen u s fits p small h k =
      sym (walk-end send size skip m addr scanned seen u s (omega (arith, h)))
  walk_fuel send size skip (suc n) zero addr scanned seen u s fits p small h k =
      walk-end send size skip (suc n) addr scanned seen u s (omega (arith, k))
  walk_fuel send size skip (suc n) (suc m) addr scanned seen u s fits p small h k =
      elim (Bool-cases (ltb scanned size)) [
        | inr e ↦ rw (e, walk) refl
        | inl e ↦ elim (Option-cases (is_valid_frame_at F s.dev s.config addr)) [
          | inl o ↦
              rw (e, o, walk)
                (walk_fuel send size skip n m (wrap_address s.config (add32 addr 1))
                  (add32 scanned 1) seen u s fits p (wrap_address-below s.config addr 1 p.1)
                  (omega (arith, h, ltb→lt scanned size e))
                  (omega (arith, k, ltb→lt scanned size e)))
          | inr (hn, o) ↦
              let s' : Storage F = (read_frame F addr max_size s).1 in
              let q : IsReadable s' = read_frame-IsReadable addr max_size s p in
              elim (Option-cases (read_frame F addr max_size s).0) [
                | inl g ↦ rw (e, o, g, walk) refl
                | inr (frame, g) ↦
                    let sized = read_frame-Sized addr max_size s p small frame g in
                    rw (e, o, g, walk)
                      (elim (Bool-cases (hn.0.seq == s'.newest_seq)) [
                        | inl f ↦ rw f refl
                        | inr f ↦ rw f (
                            walk_fuel send size skip n m
                              (wrap_address s'.config (add32 addr (length frame)))
                              (add32 scanned (length frame)) (add32 seen 1)
                              (if leb skip seen then send frame u else u) s' fits q
                              (wrap_address-below s'.config addr (length frame) q.1)
                              (omega (arith, h, sized, ltb→lt scanned size e))
                              (omega (arith, k, sized, ltb→lt scanned size e)))
                      ])
              ]
        ]
      ]

  -- On a device that may be read, in an area of the chip and from an address of 32 bits, a walk of
  -- either function has fuel enough with the bytes of the area: it ends the same with any more.
  pub walk_ends :
      {U : Type 0} (send : List ℕ → U → U) (skip more : ℕ) (u : U) (s : Storage F)
      → Ready s.dev
      → IsConfig s.config
      → s.oldest_addr < 2 ^ 32
      → walk F send (area_size F s) skip (area_size F s + more) s.oldest_addr 0 0 u s
        ≡ walk F send (area_size F s) skip (area_size F s) s.oldest_addr 0 0 u s
  walk_ends send skip more u s r v small =
      walk_fuel send (area_size F s) skip (area_size F s + more) (area_size F s) s.oldest_addr 0 0 u
        s (omega (arith, v.inside)) (r, v) small (omega arith) (omega arith)
