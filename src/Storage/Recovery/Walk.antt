-- ===== src/Storage/Recovery/Walk.antt =====
-- The scan of `rebuildIndexFromFlash` meets the frames of the area, all of them, in their order.
use pico_wenvironment_logger.Prelude.{
  ℕ, zero, suc, ◌+◌, ◌-◌, ◌^◌, ◌≤◌, ◌<◌, true, false, ltb, List, [], ◌∷◌, Option, none, some, ◌≡◌,
  refl, sym, ap, ap₂, subst, ◌∙◌, arith, Bool-cases, Option-cases, inl, inr, ltb→lt, ltb→le, le→ltb,
}
use pico_wenvironment_logger.Memory.{Memory}
use pico_wenvironment_logger.FlashApi.{Flash, IsFlash}
use pico_wenvironment_logger.Protocol.{LogFrameHeader}
use pico_wenvironment_logger.Frame.{frame_size}
use pico_wenvironment_logger.Storage.{Config, add32}
use pico_wenvironment_logger.Storage.Scan.{Index, note_frame, is_valid_frame_at, scan}
use pico_wenvironment_logger.Storage.Frames.{FrameAt, IsConfig}
use pico_wenvironment_logger.Storage.Frames.Complete.{FrameAt-check_at}
use pico_wenvironment_logger.Storage.Frames.Decide.{is_valid_frame_at_iff}
use pico_wenvironment_logger.Storage.Recovery.{
  Entry, size, IsEntry, NoFrame, Frames, done, skip, frame,
}
use pico_wenvironment_logger.Storage.Recovery.Extremes.{note, note_all}

some_header :
    (x y : LogFrameHeader × ℕ) → ◌≡◌ {A = Option (LogFrameHeader × ℕ)} (some x) (some y) → x.0 ≡ y.0
some_header x y e = cc

-- At one address stands one frame.
one_header :
    (m : Memory) (c : Config) (a : ℕ) (h k : LogFrameHeader) (n l : ℕ)
    → FrameAt m c a h n
    → FrameAt m c a k l
    → h ≡ k
one_header m c a h k n l f g =
    some_header (h, n) (k, l) (sym (FrameAt-check_at m c a h n f) ∙ FrameAt-check_at m c a k l g)

same_entry :
    (m : Memory) (c : Config) (a : ℕ) (e x : Entry)
    → e.addr ≡ a
    → x.addr ≡ a
    → IsEntry m c e
    → IsEntry m c x
    → e ≡ x
same_entry m c a e x p q f g =
    ap₂ (λ b (h : LogFrameHeader). let y : Entry = record { addr = b; header = h } in y) (p ∙ sym q)
      (one_header m c a e.header x.header (size e) (size x)
        (subst (λ b. FrameAt m c b e.header (size e)) p f)
        (subst (λ b. FrameAt m c b x.header (size x)) q g))

-- The list is determined by the contents.
pub Frames-unique :
    {m : Memory} {c : Config} {a : ℕ} {es xs : List Entry}
    → Frames m c a es
    → Frames m c a xs
    → es ≡ xs
Frames-unique (done h) (done k) = refl
Frames-unique (done h) (skip k _ _) = absurd (omega arith)
Frames-unique (done h) (frame _ k _ _ _) = absurd (omega arith)
Frames-unique (skip h _ _) (done k) = absurd (omega arith)
Frames-unique (skip h n r) (skip k m s) = Frames-unique r s
Frames-unique {m} {c} {a} (skip h n r) (frame x k p f s) =
    absurd (n x.header (size x) (subst (λ b. FrameAt m c b x.header (size x)) p f))
Frames-unique (frame _ h _ _ _) (done k) = absurd (omega arith)
Frames-unique {m} {c} {a} (frame e h p f r) (skip k n s) =
    absurd (n e.header (size e) (subst (λ b. FrameAt m c b e.header (size e)) p f))
Frames-unique {m} {c} {a} (frame {es = es} e h p f r) (frame {es = xs} x k q g s) =
    let w : e ≡ x = same_entry m c a e x p q f g in
    ap₂ ◌∷◌ w (Frames-unique r (subst (λ (y : Entry). Frames m c (a + size y) xs) (sym w) s))

module _ (F : Flash) (flash : IsFlash F) where
  open flash use {contents, Ready}

  scan-end :
      (d : F.Dev) (c : Config) (fuel a : ℕ) (i : Index)
      → ltb a c.end_addr ≡ false
      → scan F d c fuel a i ≡ i
  unfolding scan
  scan-end d c zero a i e = refl
  scan-end d c (suc fuel) a i e = rw (e, scan)

  scan-skip :
      (d : F.Dev) (c : Config) (fuel a : ℕ) (i : Index)
      → ltb a c.end_addr ≡ true
      → is_valid_frame_at F d c a ≡ none
      → scan F d c (suc fuel) a i ≡ scan F d c fuel (add32 a 1) i
  unfolding scan
  scan-skip d c fuel a i e o = rw (e, scan, o)

  scan-frame :
      (d : F.Dev) (c : Config) (fuel a n : ℕ) (i : Index) (h : LogFrameHeader)
      → ltb a c.end_addr ≡ true
      → is_valid_frame_at F d c a ≡ some (h, n)
      → scan F d c (suc fuel) a i ≡ scan F d c fuel (add32 a n) (note_frame c i a h n)
  unfolding scan
  scan-frame d c fuel a n i h e o = rw (e, scan, o)

  no_frame :
      (d : F.Dev) (c : Config) (a : ℕ)
      → Ready d
      → IsConfig c
      → a < 2 ^ 32
      → is_valid_frame_at F d c a ≡ none
      → NoFrame (contents d) c a
  no_frame d c a r v small o h n f =
      not_some (h, n) (sym o ∙ (is_valid_frame_at_iff F flash d c a h n r v small).1 f)
    where
      not_some : (x : LogFrameHeader × ℕ) → ◌≡◌ {A = Option (LogFrameHeader × ℕ)} none (some x) → ⊥
      not_some x e = cc

  frame_entry :
      (d : F.Dev) (c : Config) (a n : ℕ) (h : LogFrameHeader)
      → Ready d
      → IsConfig c
      → a < 2 ^ 32
      → is_valid_frame_at F d c a ≡ some (h, n)
      → (n ≡ frame_size h.length) × FrameAt (contents d) c a h (frame_size h.length)
  frame_entry d c a n h r v small o =
      let f = (is_valid_frame_at_iff F flash d c a h n r v small).0 o in
      (f.size, subst (FrameAt (contents d) c a h) f.size f)

  abbrev pub Scanned : F.Dev → Config → ℕ → ℕ → Index → Type 0
  Scanned d c fuel a i =
      (es : List Entry) × Frames (contents d) c a es × (scan F d c fuel a i ≡ note_all c es i)

  pub scan-Frames :
      (d : F.Dev) (c : Config) (fuel a : ℕ) (i : Index)
      → Ready d
      → IsConfig c
      → c.start_addr ≤ a
      → a ≤ c.end_addr
      → c.end_addr - a ≤ fuel
      → Scanned d c fuel a i
  scan-Frames d c zero a i r v from to k =
      ([], done (omega arith), scan-end d c zero a i (le→ltb a c.end_addr (omega arith)))
  scan-Frames d c (suc fuel) a i r v from to k = elim (Bool-cases (ltb a c.end_addr)) [
    | inr e ↦ ([], done (ltb→le a c.end_addr e), scan-end d c (suc fuel) a i e)
    | inl e ↦
        let lt : a < c.end_addr = ltb→lt a c.end_addr e in
        let small : a < 2 ^ 32 = omega (arith, v.inside) in
        elim (Option-cases (is_valid_frame_at F d c a)) [
          | inl o ↦
              let (es, fs, q) = scan-Frames d c fuel (suc a) i r v (omega arith) lt (omega arith) in
              (
                es,
                skip lt (no_frame d c a r v small o) fs,
                scan-skip d c fuel a i e o
                    ∙ ap (λ b. scan F d c fuel b i) {y = suc a} (omega (arith, v.inside))
                    ∙ q,
              )
          | inr ((h, n), o) ↦
              let (z, f) = frame_entry d c a n h r v small o in
              let x : Entry = record { addr = a; header = h } in
              let (es, fs, q) =
                scan-Frames d c fuel (a + size x) (note c i x) r v (omega arith) f.to
                  (omega arith) in
              (
                x ∷ es,
                frame x lt refl f fs,
                scan-frame d c fuel a n i h e o
                    ∙ ap (λ l. scan F d c fuel (add32 a l) (note_frame c i a h l)) z
                    ∙ ap (λ b. scan F d c fuel b (note c i x)) {y = a + size x}
                        (omega (arith, f.to, v.inside))
                    ∙ q,
              )
        ]
  ]
