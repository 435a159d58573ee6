-- ===== src/Storage/Guard.antt =====
-- What survives `MutexGuard`: a statement that taking and giving the mutex leaves alone holds
-- after a guarded operation if it holds after its body.
use pico_wenvironment_logger.Prelude.{Bool, true, false, if◌then◌else◌, ◌≡◌, sym, subst}
use pico_wenvironment_logger.FlashApi.{Flash}
use pico_wenvironment_logger.Storage.State.{Storage, guarded, lock, unlock}

module _ (F : Flash) where
  -- The object after a call that only reaches the mutex.
  abbrev pub taken : Storage F → Storage F
  taken s = record s { dev = (F.take_mutex s.dev).1 }

  abbrev pub given : Storage F → Storage F
  given s = record s { dev = F.give_mutex s.dev }

  pub unlock-cases {κ} :
      (P : Storage F → Type κ) (t : Storage F) → P t → P (given t) → P (unlock F t)
  unfolding unlock
  unlock-cases P t p q = elim t.has_mutex as (λ b. P (if b then given t else t)) [
    | true ↦ q
    | false ↦ p
  ]

  -- With the mutex had, the body runs on the object as locked.
  pub guarded-runs {κ} :
      {A : Type 0} (Q : A × Storage F → Type κ) (fail : A) (body : Storage F → A × Storage F)
      (s : Storage F)
      → s.has_mutex ≡ true
      → (F.take_mutex s.dev).0 ≡ true
      → Q ((body (taken s)).0, unlock F (body (taken s)).1)
      → Q (guarded F fail body s)
  unfolding guarded lock
  guarded-runs {A = A} Q fail body s m e q =
      subst (λ b. Q (run b)) (sym m) (subst (λ b. Q (if b then ran else (fail, taken s))) (sym e) q)
    where
      ran : A × Storage F
      ran = ((body (taken s)).0, unlock F (body (taken s)).1)

      run : Bool → A × Storage F
      run b =
          let r : Bool × Storage F =
            (if b then ((F.take_mutex s.dev).0, taken s) else (false, s)) in
          if r.0 then (let (a, t) = body r.1 in (a, unlock F t)) else (fail, r.1)

  -- A statement that neither sees what the mutex does.
  pub guarded_post {κ} :
      {A : Type 0} (Q : A → Storage F → Type κ) (fail : A) (body : Storage F → A × Storage F)
      (s : Storage F)
      → ((a : A) (t : Storage F) → Q a t → Q a (taken t))
      → ((a : A) (t : Storage F) → Q a t → Q a (given t))
      → Q fail s
      → Q (body (taken s)).0 (body (taken s)).1
      → Q (guarded F fail body s).0 (guarded F fail body s).1
  unfolding guarded lock
  guarded_post {A = A} Q fail body s take give none_lem done =
      elim s.has_mutex as (λ b. Q (run b).0 (run b).1) [
        | false ↦ none_lem
        | true ↦ elim (F.take_mutex s.dev).0 as (λ b. Q (held b).0 (held b).1) [
          | false ↦ take fail s none_lem
          | true ↦
              unlock-cases (Q (body (taken s)).0) (body (taken s)).1 done
                (give (body (taken s)).0 (body (taken s)).1 done)
        ]
      ]
    where
      held : Bool → A × Storage F
      held b = if b then ((body (taken s)).0, unlock F (body (taken s)).1) else (fail, taken s)

      run : Bool → A × Storage F
      run b =
          let r : Bool × Storage F =
            (if b then ((F.take_mutex s.dev).0, taken s) else (false, s)) in
          if r.0 then (let (a, t) = body r.1 in (a, unlock F t)) else (fail, r.1)
