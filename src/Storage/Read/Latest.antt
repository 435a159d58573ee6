-- ===== src/Storage/Read/Latest.antt =====
-- What `sendLatestFrames` sends is the end of what `sendFramesOldestFirst` sends.
use pico_wenvironment_logger.Prelude.{
  ℕ, zero, suc, ◌+◌, ◌-◌, ◌^◌, ◌<◌, ◌≤◌, Bool, leb→le, true, false, ltb, leb, ◌==◌, if◌then◌else◌,
  List, [], ◌∷◌, ◌++◌, length, drop, ◌≡◌, refl, sym, ap, ◌∙◌, arith, length-append, Bool-cases,
  Option-cases, inl, inr,
}
use pico_wenvironment_logger.FlashApi.{Flash}
use pico_wenvironment_logger.Protocol.{max_size}
use pico_wenvironment_logger.Storage.{add32, wrap_address}
use pico_wenvironment_logger.Storage.State.{Storage, guarded, lock, unlock}
use pico_wenvironment_logger.Storage.Guard.{taken}
use pico_wenvironment_logger.Storage.Scan.{is_valid_frame_at}
use pico_wenvironment_logger.Storage.Read.{
  read_frame, walk, as_result, area_size, send_frames_oldest_first, send_latest_frames,
}

-- The frames themselves, one behind the other.
abbrev pub collect : List ℕ → List (List ℕ) → List (List ℕ)
collect frame fs = fs ++ (frame ∷ [])

none_skipped : (fs : List (List ℕ)) → leb 0 (length fs) ≡ true
none_skipped fs = ground arith

one_longer : (fs : List (List ℕ)) (f : List ℕ) → length (collect f fs) ≡ length fs + 1
one_longer fs f = length-append fs (f ∷ [])

one_seen :
    (fs : List (List ℕ)) (f : List ℕ)
    → length fs + 1 < 2 ^ 32
    → add32 (length fs) 1 ≡ length (collect f fs)
one_seen fs f h = omega (arith, h, one_longer fs f)

-- `send` is `uart.write_buffer_blocking`, on a line of type `U`.
module _ (F : Flash) {U : Type 0} (send : List ℕ → U → U) where
  -- The frames of a list, sent one after the other.
  abbrev pub send_each : List (List ℕ) → U → U
  send_each [] u = u
  send_each (f ∷ fs) u = send_each fs (send f u)

  send_each-append :
      (fs : List (List ℕ)) (f : List ℕ) (u : U)
      → send_each (fs ++ (f ∷ [])) u ≡ send f (send_each fs u)
  send_each-append [] f u = refl
  send_each-append (x ∷ fs) f u = send_each-append fs f (send x u)

  one_more_sent :
      (skip : ℕ) (fs : List (List ℕ)) (f : List ℕ) (u : U)
      → skip ≤ length fs
      → send_each (drop skip (fs ++ (f ∷ []))) u ≡ send f (send_each (drop skip fs) u)
  one_more_sent zero fs f u h = send_each-append fs f u
  one_more_sent (suc skip) [] f u h = absurd (omega (arith, h))
  one_more_sent (suc skip) (x ∷ fs) f u h = one_more_sent skip fs f u (omega (arith, h))

  drop-nothing : (skip : ℕ) → drop {A = List ℕ} skip [] ≡ []
  drop-nothing zero = refl
  drop-nothing (suc skip) = refl

  one_more_skipped :
      (skip : ℕ) (fs : List (List ℕ)) (f : List ℕ) (u : U)
      → length fs < skip
      → send_each (drop skip (fs ++ (f ∷ []))) u ≡ send_each (drop skip fs) u
  one_more_skipped zero fs f u h = absurd (omega (arith, h))
  one_more_skipped (suc skip) [] f u h = ap (λ t. send_each t u) (drop-nothing skip)
  one_more_skipped (suc skip) (x ∷ fs) f u h = one_more_skipped skip fs f u (omega (arith, h))

  -- One frame more, behind those that are skipped or among them.
  one_more :
      (skip : ℕ) (fs : List (List ℕ)) (f : List ℕ) (u : U)
      → (if leb skip (length fs)
          then send f (send_each (drop skip fs) u)
          else send_each (drop skip fs) u)
        ≡ send_each (drop skip (fs ++ (f ∷ []))) u
  one_more skip fs f u = elim (Bool-cases (leb skip (length fs))) [
    | inl e ↦ rw e (sym (one_more_sent skip fs f u (leb→le skip (length fs) e)))
    | inr e ↦ rw e (sym (one_more_skipped skip fs f u (ground arith)))
  ]

  -- The result of a walk that sends all but the first `skip` of the frames it meets.
  abbrev pub sent_of : ℕ → U → Bool × List (List ℕ) × Storage F → Bool × U × Storage F
  sent_of skip u r = (r.0, send_each (drop skip r.1) u, r.2)

  walk_lem :
      (size skip fuel addr scanned : ℕ) (fs : List (List ℕ)) (u : U) (s : Storage F)
      → length fs + fuel < 2 ^ 32
      → walk F send size skip fuel addr scanned (length fs) (send_each (drop skip fs) u) s
        ≡ sent_of skip u (walk F collect size 0 fuel addr scanned (length fs) fs s)
  unfolding walk
  walk_lem size skip zero addr scanned fs u s h = refl
  walk_lem size skip (suc fuel) addr scanned fs u s h = elim (Bool-cases (ltb scanned size)) [
    | inr e ↦ rw (e, walk) refl
    | inl e ↦ elim (Option-cases (is_valid_frame_at F s.dev s.config addr)) [
      | inl o ↦
          rw (e, o, walk)
            (walk_lem size skip fuel (wrap_address s.config (add32 addr 1)) (add32 scanned 1) fs u s
              (omega (arith, h)))
      | inr (hn, o) ↦
          let s' : Storage F = (read_frame F addr max_size s).1 in
          elim (Option-cases (read_frame F addr max_size s).0) [
            | inl g ↦ rw (e, o, g, walk) refl
            | inr (frame, g) ↦
                rw (e, o, g, walk)
                  (elim (Bool-cases (hn.0.seq == s'.newest_seq)) [
                    | inl f ↦ rw (f, one_more skip fs frame u, none_skipped fs) refl
                    | inr f ↦
                        rw
                          (
                            f,
                            one_more skip fs frame u,
                            none_skipped fs,
                            one_seen fs frame (omega (arith, h)),
                          )
                          (walk_lem size skip fuel
                            (wrap_address s'.config (add32 addr (length frame)))
                            (add32 scanned (length frame)) (collect frame fs) u s'
                            (omega (arith, h, one_longer fs frame)))
                  ])
          ]
    ]
  ]

  not_zero : (n : ℕ) → 0 < n → (n == 0) ≡ false
  not_zero n h = ground arith

  skipped : (held n : ℕ) → held - (if ltb held n then held else n) ≡ held - n
  skipped held n = ground arith

  -- `guarded` as a function of what the mutex answers: whether it is had, and whether it is taken.
  abbrev held : {A : Type 0} → A → (Storage F → A × Storage F) → Storage F → Bool → A × Storage F
  held fail body s took =
      if took then ((body (taken F s)).0, unlock F (body (taken F s)).1) else (fail, taken F s)

  abbrev run : {A : Type 0} → A → (Storage F → A × Storage F) → Storage F → Bool → A × Storage F
  run fail body s had =
      let r : Bool × Storage F =
        (if had then ((F.take_mutex s.dev).0, taken F s) else (false, s)) in
      if r.0 then (let (x, t) = body r.1 in (x, unlock F t)) else (fail, r.1)

  -- Two bodies under the guard, of which one does what `f` says of the other's result.
  guarded-map :
      {A B : Type 0} (f : A → B) (fail_a : A) (fail_b : B) (a : Storage F → A × Storage F)
      (b : Storage F → B × Storage F) (s : Storage F)
      → fail_b ≡ f fail_a
      → b (taken F s) ≡ (f (a (taken F s)).0, (a (taken F s)).1)
      → guarded F fail_b b s ≡ (f (guarded F fail_a a s).0, (guarded F fail_a a s).1)
  unfolding guarded lock
  guarded-map f fail_a fail_b a b s failed ran =
      elim s.has_mutex as (λ m. run fail_b b s m ≡ (f (run fail_a a s m).0, (run fail_a a s m).1)) [
        | false ↦ ap (λ x. (x, s)) failed
        | true ↦
            elim (F.take_mutex s.dev).0
              as (λ k. held fail_b b s k ≡ (f (held fail_a a s k).0, (held fail_a a s k).1)) [
                | false ↦ ap (λ x. (x, taken F s)) failed
                | true ↦ ap (λ r. (r.0, unlock F r.1)) ran
              ]
      ]

  -- What is left of the frames, sent.
  abbrev pub rest_sent : ℕ → U → Bool × List (List ℕ) → Bool × U
  rest_sent skip u r = (r.0, send_each (drop skip r.1) u)

  -- The bodies of the two functions, under their guards.
  abbrev all_body : Storage F → (Bool × List (List ℕ)) × Storage F
  all_body t =
      if t.valid_frame_count == 0
      then ((true, []), t)
      else as_result F (walk F collect (area_size F t) 0 (area_size F t) t.oldest_addr 0 0 [] t)

  abbrev latest_body : ℕ → U → Storage F → (Bool × U) × Storage F
  latest_body n u t =
      if n == 0
      then ((true, u), t)
      else if t.valid_frame_count == 0
      then ((true, u), t)
      else as_result F (
          walk F send (area_size F t)
            (t.valid_frame_count - (if ltb t.valid_frame_count n then t.valid_frame_count else n))
            (area_size F t) t.oldest_addr 0 0 u t)

  nothing_sent : (skip : ℕ) (u : U) → u ≡ send_each (drop skip []) u
  nothing_sent skip u = ap (λ fs. send_each fs u) (sym (drop-nothing skip))

  walk-rest :
      (skip : ℕ) (u : U) (t : Storage F)
      → area_size F t < 2 ^ 32
      → walk F send (area_size F t) skip (area_size F t) t.oldest_addr 0 0 u t
        ≡ sent_of skip u (walk F collect (area_size F t) 0 (area_size F t) t.oldest_addr 0 0 [] t)
  walk-rest skip u t small =
      ap (λ v. walk F send (area_size F t) skip (area_size F t) t.oldest_addr 0 0 v t)
        (nothing_sent skip u)
      ∙ walk_lem (area_size F t) skip (area_size F t) t.oldest_addr 0 [] u t (omega (arith, small))

  latest_body_lem :
      (n : ℕ) (u : U) (t : Storage F)
      → 0 < n
      → area_size F t < 2 ^ 32
      → latest_body n u t ≡ (rest_sent (t.valid_frame_count - n) u (all_body t).0, (all_body t).1)
  latest_body_lem n u t pos small =
      ap (λ c. if c then ((true, u), t) else latest (t.valid_frame_count == 0) skip)
        (not_zero n pos)
      ∙ ap (latest (t.valid_frame_count == 0)) (skipped t.valid_frame_count n)
      ∙ (elim (t.valid_frame_count == 0)
          as (λ c. latest c k ≡ (rest_sent k u (all c).0, (all c).1)) [
            | true ↦ ap (λ v. ((true, v), t)) (nothing_sent k u)
            | false ↦ ap (λ r. as_result F r) (walk-rest k u t small)
          ])
    where
      k : ℕ
      k = t.valid_frame_count - n

      skip : ℕ
      skip = t.valid_frame_count - (if ltb t.valid_frame_count n then t.valid_frame_count else n)

      latest : Bool → ℕ → (Bool × U) × Storage F
      latest c m =
          if c
          then ((true, u), t)
          else as_result F (walk F send (area_size F t) m (area_size F t) t.oldest_addr 0 0 u t)

      all : Bool → (Bool × List (List ℕ)) × Storage F
      all c =
          if c
          then ((true, []), t)
          else as_result F (walk F collect (area_size F t) 0 (area_size F t) t.oldest_addr 0 0 [] t)

  -- `sendLatestFrames` of `n > 0` answers what `sendFramesOldestFirst` answers and leaves the same
  -- object and device behind; what it sends is what the latter would send, in the same order,
  -- without the first `valid_frame_count - n` frames (none of them if `n` is at least the count).
  -- It holds of every log, also where a frame cannot be read or the mutex is not had, for an area
  -- of fewer than 2^32 bytes.
  pub latest_frames_lem :
      (n : ℕ) (u : U) (s : Storage F)
      → 0 < n
      → area_size F s < 2 ^ 32
      → send_latest_frames F send n u s ≡ (
        rest_sent (s.valid_frame_count - n) u (send_frames_oldest_first F collect [] s).0,
        (send_frames_oldest_first F collect [] s).1,
      )
  unfolding send_latest_frames send_frames_oldest_first
  latest_frames_lem n u s pos small =
      elim s.initialized
        as (λ c.
          (if c then guarded F (false, u) (latest_body n u) s else ((false, u), s))
          ≡ (rest_sent k u (sent c).0, (sent c).1)) [
            | true ↦
                guarded-map (rest_sent k u) (false, []) (false, u) all_body (latest_body n u) s
                  (ap (λ v. (false, v)) (nothing_sent k u))
                  (latest_body_lem n u (taken F s) pos small)
            | false ↦ ap (λ v. ((false, v), s)) (nothing_sent k u)
          ]
    where
      k : ℕ
      k = s.valid_frame_count - n

      sent : Bool → (Bool × List (List ℕ)) × Storage F
      sent c = if c then guarded F (false, []) all_body s else ((false, []), s)
