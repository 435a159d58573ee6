-- ===== src/WifiTask.antt =====
-- src/WifiTask.cpp and include/WifiStatus.h: the connection to the network and its published
-- status. What the cyw43 driver and lwIP answer are the inputs of the steps.
pub mod Status
use pico_wenvironment_logger.Prelude.{
  ℕ, suc, ◌-◌, Bool, true, false, List, [], ◌∷◌, take, Option, none, some, if◌then◌else◌,
}
use pico_wenvironment_logger.Prelude.Int.{ℤ, pos, negsuc, eq_ℤ}
use pico_wenvironment_logger.Http.Page.{codes}

pub data WifiState : Type 0 where
  idle init connecting got_ip error : WifiState

pub record WifiStatus : Type 0 where
  pub state : WifiState
  pub ip : List ℕ
  pub last_error : ℤ

abbrev pub no_ip : List ℕ
no_ip = codes "0.0.0.0"

-- `g_wifi_status` before the task starts.
abbrev pub first_status : WifiStatus
first_status = record { state = idle; ip = no_ip; last_error = pos 0 }

-- `strncpy` into the 16 bytes of `ip`, with a NUL at the end; `none` is the null pointer.
unfoldable pub wifi_status_set : WifiState → Option (List ℕ) → ℤ → WifiStatus → WifiStatus
wifi_status_set state ip err s = record {
  state = state;
  ip = elim ip [ none ↦ s.ip | some text ↦ take 15 text ];
  last_error = err;
}

-- The address of `netif_default`, if there is one, as text.
unfoldable pub copy_current_ip : ℕ → Option (List ℕ) → List ℕ
copy_current_ip len netif = elim netif [
  | none ↦ take (len - 1) no_ip
  | some text ↦ take (len - 1) text
]

-- Where the task stands: before cyw43_arch_init, in the call that connects, in the loop that
-- watches the link, before the next try, and ended.
pub data Phase : Type 0 where
  starting joining watching retrying ended : Phase

pub record WifiTask : Type 0 where
  pub phase : Phase
  pub status : WifiStatus
  pub server_inits : ℕ  -- calls of http_server_init

pub record Answer : Type 0 where
  pub result : ℤ  -- of cyw43_arch_init, of the connection, or the link status
  pub netif : Option (List ℕ)

abbrev at : Phase → WifiState → List ℕ → ℤ → WifiTask → WifiTask
at phase state ip err t = record t {
  phase = phase;
  status = wifi_status_set state (some ip) err t.status;
}

module _ (link_up : ℤ) where
  -- From one call of the driver, or from the end of the loop's body, to the next.
  unfoldable pub wifi_step : Answer → WifiTask → WifiTask
  unfolding wifi_status_set copy_current_ip
  wifi_step a t = elim t.phase [
    | starting ↦
        if eq_ℤ a.result (pos 0)
        then at joining connecting no_ip (pos 0) t
        else at ended error no_ip (negsuc 99) t
    | joining ↦
        if eq_ℤ a.result (pos 0)
        then (let t' = at watching got_ip (copy_current_ip 16 a.netif) (pos 0) t in
            record t' { server_inits = suc t.server_inits })
        else at retrying error no_ip a.result t
    | watching ↦ if eq_ℤ a.result link_up then t else at retrying error no_ip a.result t
    | retrying ↦ at joining connecting no_ip (pos 0) t
    | ended ↦ t
  ]

  -- `wifi_task` up to the first call of the driver.
  abbrev pub wifi_task : WifiStatus → WifiTask
  wifi_task s =
      at starting init no_ip (pos 0) (record { phase = ended; status = s; server_inits = 0 })

  abbrev pub wifi_steps : List Answer → WifiTask → WifiTask
  wifi_steps [] t = t
  wifi_steps (a ∷ answers) t = wifi_steps answers (wifi_step a t)
