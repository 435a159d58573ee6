-- ===== src/Storage/Recovery/Extremes.antt =====
-- The newest and the oldest of the frames that enter the index one by one.
use pico_wenvironment_logger.Prelude.{
  ℕ, ◌+◌, ◌^◌, ◌≤◌, ◌<◌, Bool, true, false, if◌then◌else◌, List, [], ◌∷◌, length, All, ◌≡◌, ◌↔◌,
  refl, subst, ◌∙◌, arith, Bool-cases, inl, inr, if-cases, if-both,
}
use pico_wenvironment_logger.Storage.{Config, add32, wrap_address, is_seq_newer}
use pico_wenvironment_logger.Storage.Scan.{Index, note_frame}
use pico_wenvironment_logger.Storage.Recovery.{Entry, size, seq, Member, age}

abbrev pub note : Config → Index → Entry → Index
note c i e = note_frame c i e.addr e.header (size e)

abbrev pub note_all : Config → List Entry → Index → Index
note_all c [] i = i
note_all c (e ∷ es) i = note_all c es (note c i e)

-- Sequence numbers less than half their range behind `base`.
abbrev pub Near : ℕ → Entry → Type 0
Near base e = (seq e < 2 ^ 32) × (age base (seq e) < 2 ^ 31)

abbrev pub IsNewest : Config → Index → Entry → Type 0
IsNewest c i e =
    (i.newest_addr ≡ e.addr)
    × (i.newest_seq ≡ seq e)
    × (i.newest_next_addr ≡ wrap_address c (add32 e.addr (size e)))

abbrev pub IsOldest : Index → Entry → Type 0
IsOldest i e = (i.oldest_addr ≡ e.addr) × (i.oldest_seq ≡ seq e)

pub newer_iff :
    (base a b : ℕ)
    → base < 2 ^ 32
    → a < 2 ^ 32
    → b < 2 ^ 32
    → age base a < 2 ^ 31
    → age base b < 2 ^ 31
    → (is_seq_newer a b ≡ true) ↔ (age base b < age base a)
unfolding is_seq_newer
newer_iff base a b h p q j k = (λ e. ground arith, λ e. ground arith)

pub note-found : (c : Config) (i : Index) (x : Entry) → (note c i x).found ≡ true
unfolding note_frame
note-found c i x = if-cases (λ (j : Index). j.found ≡ true) i.found _ _ (λ e. e) (λ e. refl)

note-count : (c : Config) (i : Index) (x : Entry) → (note c i x).count ≡ add32 i.count 1
unfolding note_frame
note-count c i x = if-both (λ (j : Index). j.count ≡ add32 i.count 1) i.found _ _ refl refl

-- The first frame is both.
pub note-first :
    (c : Config) (i : Index) (x : Entry)
    → i.found ≡ false
    → IsNewest c (note c i x) x × IsOldest (note c i x) x
unfolding note_frame
note-first c i x e =
    if-cases (λ (j : Index). IsNewest c j x × IsOldest j x) i.found _ _ (λ f. cc)
      (λ f. ((refl, refl, refl), (refl, refl)))

note-IsNewest :
    (c : Config) (i : Index) (e x : Entry)
    → i.found ≡ true
    → IsNewest c i e
    → IsNewest c (note c i x) (if is_seq_newer (seq x) (seq e) then x else e)
unfolding note_frame
note-IsNewest c i e x f p =
    subst (λ s. IsNewest c (note c i x) (if is_seq_newer (seq x) s then x else e)) p.1
      (if-cases (λ (j : Index). IsNewest c j (if is_seq_newer (seq x) i.newest_seq then x else e))
        i.found _ _
        (λ _. elim (Bool-cases (is_seq_newer (seq x) i.newest_seq)) [
          | inl t ↦ rw t (refl, refl, refl)
          | inr t ↦ rw t p
        ])
        (λ g. cc))

note-IsOldest :
    (c : Config) (i : Index) (e x : Entry)
    → i.found ≡ true
    → IsOldest i e
    → IsOldest (note c i x) (if is_seq_newer (seq e) (seq x) then x else e)
unfolding note_frame
note-IsOldest c i e x f p =
    subst (λ s. IsOldest (note c i x) (if is_seq_newer s (seq x) then x else e)) p.1
      (if-cases (λ (j : Index). IsOldest j (if is_seq_newer i.oldest_seq (seq x) then x else e))
        i.found _ _
        (λ _. elim (Bool-cases (is_seq_newer i.oldest_seq (seq x))) [
          | inl t ↦ rw t (refl, refl)
          | inr t ↦ rw t p
        ])
        (λ g. cc))

-- One frame that the index names is `R`-above all of them. `better x e` says that the index changes
-- from `e` to `x`.
pub record Extreme (R : Entry → Entry → Type 0) (Q : Index → Entry → Type 0) (i : Index)
    (es : List Entry) : Type 0 where
  pub entry : Entry
  pub member : Member entry es
  pub named : Q i entry
  pub above : All (λ x. R x entry) es

module _ (c : Config) (R : Entry → Entry → Type 0) (P : Entry → Type 0) (Q : Index → Entry → Type 0)
    (better : Entry → Entry → Bool) (R-refl : (e : Entry) → R e e)
    (R-trans : (d e f : Entry) → R d e → R e f → R d f)
    (changed : (x e : Entry) → P x → P e → better x e ≡ true → R e x)
    (kept : (x e : Entry) → P x → P e → better x e ≡ false → R x e)
    (step : (i : Index) (e x : Entry)
      → i.found ≡ true
      → Q i e
      → Q (note c i x) (if better x e then x else e)) where
  note_all-Extreme :
      (es : List Entry) (i : Index) (e : Entry)
      → i.found ≡ true
      → Q i e
      → P e
      → All P es
      → Extreme R Q (note_all c es i) (e ∷ es)
  note_all-Extreme [] i e f q p ps = record {
    entry = e;
    member = inl refl;
    named = q;
    above = (R-refl e, tt);
  }
  note_all-Extreme (x ∷ es) i e f q p ps = elim (Bool-cases (better x e)) [
    | inl t ↦
        let r =
          note_all-Extreme es (note c i x) x (note-found c i x)
            (subst (λ k. Q (note c i x) (if k then x else e)) t (step i e x f q)) ps.0 ps.1 in
        record {
          entry = r.entry;
          member = inr r.member;
          named = r.named;
          above = (R-trans e x r.entry (changed x e ps.0 p t) r.above.0, r.above);
        }
    | inr t ↦
        let r =
          note_all-Extreme es (note c i x) e (note-found c i x)
            (subst (λ k. Q (note c i x) (if k then x else e)) t (step i e x f q)) p ps.1 in
        record {
          entry = r.entry;
          member = elim r.member [ inl m ↦ inl m | inr m ↦ inr (inr m) ];
          named = r.named;
          above = (r.above.0, (R-trans x e r.entry (kept x e ps.0 p t) r.above.0, r.above.1));
        }
  ]

-- The index names one of the frames as the newest one, and none is newer.
abbrev pub Newest : Config → ℕ → Index → List Entry → Type 0
Newest c base = Extreme (λ x e. age base (seq x) ≤ age base (seq e)) (IsNewest c)

abbrev pub Oldest : ℕ → Index → List Entry → Type 0
Oldest base = Extreme (λ x e. age base (seq e) ≤ age base (seq x)) IsOldest

newer_changed :
    (base : ℕ) (x e : Entry)
    → base < 2 ^ 32
    → Near base x
    → Near base e
    → is_seq_newer (seq x) (seq e) ≡ true
    → age base (seq e) ≤ age base (seq x)
newer_changed base x e b p q t =
    omega (arith, (newer_iff base (seq x) (seq e) b p.0 q.0 p.1 q.1).0 t)

newer_kept :
    (base : ℕ) (x e : Entry)
    → base < 2 ^ 32
    → Near base x
    → Near base e
    → is_seq_newer (seq x) (seq e) ≡ false
    → age base (seq x) ≤ age base (seq e)
newer_kept base x e b p q t =
    ground (arith, t, (newer_iff base (seq x) (seq e) b p.0 q.0 p.1 q.1).1)

pub note_all-Newest :
    (c : Config) (base : ℕ) (es : List Entry) (i : Index) (e : Entry)
    → base < 2 ^ 32
    → i.found ≡ true
    → IsNewest c i e
    → Near base e
    → All (Near base) es
    → Newest c base (note_all c es i) (e ∷ es)
note_all-Newest c base es i e b =
    note_all-Extreme c (λ x y. age base (seq x) ≤ age base (seq y)) (Near base) (IsNewest c)
      (λ x y. is_seq_newer (seq x) (seq y)) (λ x. omega arith) (λ x y z p q. omega arith)
      (λ x y p q t. newer_changed base x y b p q t) (λ x y p q t. newer_kept base x y b p q t)
      (λ j x y f p. note-IsNewest c j x y f p) es i e

pub note_all-Oldest :
    (c : Config) (base : ℕ) (es : List Entry) (i : Index) (e : Entry)
    → base < 2 ^ 32
    → i.found ≡ true
    → IsOldest i e
    → Near base e
    → All (Near base) es
    → Oldest base (note_all c es i) (e ∷ es)
note_all-Oldest c base es i e b =
    note_all-Extreme c (λ x y. age base (seq y) ≤ age base (seq x)) (Near base) IsOldest
      (λ x y. is_seq_newer (seq y) (seq x)) (λ x. omega arith) (λ x y z p q. omega arith)
      (λ x y p q t. newer_changed base y x b q p t) (λ x y p q t. newer_kept base y x b q p t)
      (λ j x y f p. note-IsOldest c j x y f p) es i e

pub note_all-count :
    (c : Config) (es : List Entry) (i : Index)
    → i.count + length es < 2 ^ 32
    → (note_all c es i).count ≡ i.count + length es
note_all-count c [] i h = omega arith
note_all-count c (e ∷ es) i h =
    note_all-count c es (note c i e) (omega (arith, note-count c i e))
    ∙ omega (arith, note-count c i e)

pub note_all-found :
    (c : Config) (es : List Entry) (i : Index) → i.found ≡ true → (note_all c es i).found ≡ true
note_all-found c [] i h = h
note_all-found c (e ∷ es) i h = note_all-found c es (note c i e) (note-found c i e)
