-- ===== src/Storage/Read/Post.antt =====
-- Reading and sending frames changes nothing of the log but what the mutex does to the device: a
-- statement that does not see the mutex survives them all.
use pico_wenvironment_logger.Prelude.{
  ℕ, zero, suc, ◌-◌, false, ltb, leb, ◌==◌, if◌then◌else◌, List, length, none, Bool-cases,
  Option-cases, if-both, inl, inr,
}
use pico_wenvironment_logger.Protocol.{max_size}
use pico_wenvironment_logger.FlashApi.{Flash}
use pico_wenvironment_logger.Storage.{add32, wrap_address}
use pico_wenvironment_logger.Storage.State.{Storage, guarded, is_range_valid}
use pico_wenvironment_logger.Storage.Guard.{taken, given, guarded_post}
use pico_wenvironment_logger.Storage.Scan.{is_valid_frame_at}
use pico_wenvironment_logger.Storage.Read.{
  read, read_frame, walk, area_size, send_frames_oldest_first, send_latest_frames,
}

module _ (F : Flash) (Q : Storage F → Type 0) (take : (t : Storage F) → Q t → Q (taken F t))
    (give : (t : Storage F) → Q t → Q (given F t)) where
  abbrev pub After : {A : Type 0} → A × Storage F → Type 0
  After r = Q r.1

  pub guarded-kept :
      {A : Type 0} (fail : A) (body : Storage F → A × Storage F) (s : Storage F)
      → ((t : Storage F) → Q t → Q (body t).1)
      → Q s
      → Q (guarded F fail body s).1
  guarded-kept fail body s k q =
      guarded_post F (λ _ t. Q t) fail body s (λ _ t. take t) (λ _ t. give t) q
        (k (taken F s) (take s q))

  pub read-kept : (addr n : ℕ) (s : Storage F) → Q s → Q (read F addr n s).1
  unfolding read
  read-kept addr n s q =
      if-both After (is_range_valid F s addr n) _ _ (guarded-kept none _ s (λ t p. p) q) q

  pub read_frame-kept : (addr n : ℕ) (s : Storage F) → Q s → Q (read_frame F addr n s).1
  unfolding read_frame
  read_frame-kept addr n s q = guarded-kept none _ s (λ t p. p) q

  walk-kept :
      {U : Type 0} (send : List ℕ → U → U) (size skip fuel addr scanned seen : ℕ) (u : U)
      (s : Storage F)
      → Q s
      → Q (walk F send size skip fuel addr scanned seen u s).2
  unfolding walk
  walk-kept send size skip zero addr scanned seen u s q = q
  walk-kept send size skip (suc fuel) addr scanned seen u s q =
      elim (Bool-cases (ltb scanned size)) [
        | inr e ↦ rw (e, walk) q
        | inl e ↦ elim (Option-cases (is_valid_frame_at F s.dev s.config addr)) [
          | inl o ↦
              rw (e, o, walk)
                (walk-kept send size skip fuel (wrap_address s.config (add32 addr 1))
                  (add32 scanned 1) seen u s q)
          | inr (hn, o) ↦
              let s' : Storage F = (read_frame F addr max_size s).1 in
              let q' : Q s' = read_frame-kept addr max_size s q in
              elim (Option-cases (read_frame F addr max_size s).0) [
                | inl g ↦ rw (e, o, g, walk) q'
                | inr (frame, g) ↦
                    rw (e, o, g, walk)
                      (elim (Bool-cases (hn.0.seq == s'.newest_seq)) [
                        | inl f ↦ rw f q'
                        | inr f ↦ rw f (
                            walk-kept send size skip fuel
                              (wrap_address s'.config (add32 addr (length frame)))
                              (add32 scanned (length frame)) (add32 seen 1)
                              (if leb skip seen then send frame u else u) s' q')
                      ])
              ]
        ]
      ]

  pub send_frames-kept :
      {U : Type 0} (send : List ℕ → U → U) (u : U) (s : Storage F)
      → Q s
      → Q (send_frames_oldest_first F send u s).1
  unfolding send_frames_oldest_first
  send_frames-kept send u s q =
      if-both After s.initialized _ _
        (guarded-kept (false, u) _ s
          (λ t p.
            if-both After (t.valid_frame_count == 0) _ _ p
              (walk-kept send (area_size F t) 0 (area_size F t) t.oldest_addr 0 0 u t p))
          q)
        q

  pub send_latest-kept :
      {U : Type 0} (send : List ℕ → U → U) (count : ℕ) (u : U) (s : Storage F)
      → Q s
      → Q (send_latest_frames F send count u s).1
  unfolding send_latest_frames
  send_latest-kept send count u s q =
      if-both After s.initialized _ _
        (guarded-kept (false, u) _ s
          (λ t p. if-both After (count == 0) _ _ p (
            if-both After (t.valid_frame_count == 0) _ _ p (
              walk-kept send (area_size F t) (skip_count t count) (area_size F t) t.oldest_addr 0 0
                u t p)))
          q)
        q
    where
      skip_count : Storage F → ℕ → ℕ
      skip_count t k =
          t.valid_frame_count - (if ltb t.valid_frame_count k then t.valid_frame_count else k)
