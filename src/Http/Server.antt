-- ===== src/Http/Server.antt =====
-- src/HttpServer.cpp: `http_accept_callback` and `http_server_init`. lwIP's answers are arguments,
-- and the calls to it are listed in the order in which they are made.
use pico_wenvironment_logger.Prelude.{ℕ, Bool, true, false, List, [], ◌∷◌, ◌++◌, if◌then◌else◌}
use pico_wenvironment_logger.Prelude.Int.{ℤ, eq_ℤ}

pub data SetupCall : Type 0 where
  lwip_begin lwip_end tcp_new tcp_listen tcp_accept tcp_close : SetupCall
  tcp_bind : ℕ → SetupCall

module _ (err_ok err_val : ℤ) where
  -- The result, and whether `http_recv_callback` is set on the connection.
  unfoldable pub http_accept_callback : ℤ → Bool → ℤ × Bool
  http_accept_callback err has_pcb =
      if eq_ℤ err err_ok
      then (if has_pcb then (err_ok, true) else (err_val, false))
      else (err_val, false)

  -- `started` is g_http_server_started.
  unfoldable pub http_server_init : Bool → Bool → ℤ → Bool → Bool × List SetupCall
  http_server_init started new_ok bound listening =
      let begun = lwip_begin ∷ (tcp_new ∷ []) in
      let bind = begun ++ (tcp_bind 80 ∷ []) in
      if started
      then (true, [])
      else if new_ok
      then (if eq_ℤ bound err_ok
          then (if listening
              then (true, bind ++ (tcp_listen ∷ (tcp_accept ∷ (lwip_end ∷ []))))
              else (false, bind ++ (tcp_listen ∷ (lwip_end ∷ []))))
          else (false, bind ++ (tcp_close ∷ (lwip_end ∷ []))))
      else (false, begun ++ (lwip_end ∷ []))
