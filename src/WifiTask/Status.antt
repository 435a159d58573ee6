-- ===== src/WifiTask/Status.antt =====
-- The published status agrees with where the task stands.
use pico_wenvironment_logger.Prelude.{
  ℕ, ◌≤◌, List, [], ◌∷◌, length, take, length-take, Option, ◌≡◌, refl, if-both, arith,
}
use pico_wenvironment_logger.Prelude.Int.{ℤ, pos, negsuc, eq_ℤ}
use pico_wenvironment_logger.WifiTask.{
  connecting, got_ip, error, init, WifiStatus, no_ip, Phase, starting, joining, watching, retrying,
  ended, WifiTask, Answer, wifi_step, wifi_task, wifi_steps, wifi_status_set, copy_current_ip,
}

-- What a reader of the status may see in each phase.
abbrev pub Published : Phase → WifiStatus → Type 0
Published starting s = (s.state ≡ init) × (s.ip ≡ no_ip) × (s.last_error ≡ pos 0)
Published joining s = (s.state ≡ connecting) × (s.ip ≡ no_ip) × (s.last_error ≡ pos 0)
Published watching s = (s.state ≡ got_ip) × (length s.ip ≤ 15) × (s.last_error ≡ pos 0)
Published retrying s = (s.state ≡ error) × (s.ip ≡ no_ip)
Published ended s = (s.state ≡ error) × (s.ip ≡ no_ip) × (s.last_error ≡ negsuc 99)

abbrev Agrees : WifiTask → Type 0
Agrees t = Published t.phase t.status

short : (n : ℕ) (xs : List ℕ) → n ≤ 15 → length (take n xs) ≤ 15
short n xs h = omega (arith, length-take {0} n xs)

copied : (netif : Option (List ℕ)) → length (take 15 (copy_current_ip 16 netif)) ≤ 15
copied netif = short 15 (copy_current_ip 16 netif) (omega arith)

module _ (link_up : ℤ) where
  abbrev standing : Phase → WifiStatus → ℕ → WifiTask
  standing phase status n = record { phase = phase; status = status; server_inits = n }

  wifi_step-Agrees :
      (a : Answer) (phase : Phase) (s : WifiStatus) (n : ℕ)
      → Published phase s
      → Agrees (wifi_step link_up a (standing phase s n))
  unfolding wifi_step wifi_status_set
  wifi_step-Agrees a starting s n p =
      if-both Agrees (eq_ℤ a.result (pos 0)) _ _ (refl, refl, refl) (refl, refl, refl)
  wifi_step-Agrees a joining s n p =
      if-both Agrees (eq_ℤ a.result (pos 0)) _ _ (refl, copied a.netif, refl) (refl, refl)
  wifi_step-Agrees a watching s n p = if-both Agrees (eq_ℤ a.result link_up) _ _ p (refl, refl)
  wifi_step-Agrees a retrying s n p = (refl, refl, refl)
  wifi_step-Agrees a ended s n p = p

  wifi_steps-Agrees :
      (answers : List Answer) (t : WifiTask) → Agrees t → Agrees (wifi_steps link_up answers t)
  wifi_steps-Agrees [] t p = p
  wifi_steps-Agrees (a ∷ answers) t p =
      wifi_steps-Agrees answers (wifi_step link_up a t)
        (wifi_step-Agrees a t.phase t.status t.server_inits p)

  -- Whatever the driver answers, and in whatever order, the published status agrees at each step
  -- with where the task stands: INIT before the driver is initialised, CONNECTING in the call that
  -- connects, GOT_IP with an address of at most fifteen characters while the link is watched, ERROR
  -- before the next try, and ERROR with -100 once the task has ended; outside GOT_IP the address is
  -- 0.0.0.0, and the last error is 0 in INIT, CONNECTING and GOT_IP.
  pub wifi_steps-Published :
      (answers : List Answer) (s : WifiStatus)
      → let t = wifi_steps link_up answers (wifi_task link_up s) in Published t.phase t.status
  unfolding wifi_status_set
  wifi_steps-Published answers s =
      wifi_steps-Agrees answers (wifi_task link_up s) (refl, refl, refl)
