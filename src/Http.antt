-- ===== src/Http.antt =====
-- src/HttpServer.cpp. What lwIP answers to `tcp_write` and `tcp_close` is an argument, and the calls
-- to it are listed in the order in which they are made.
pub mod Page
pub mod Reply
pub mod Server
use pico_wenvironment_logger.Prelude.{
  ℕ, zero, suc, ◌+◌, ◌-◌, ◌/◌, ◌%◌, Bool, true, false, ◌||◌, ◌==◌, ltb, leb, if◌then◌else◌, List,
  [], ◌∷◌, ◌++◌, length, take, Option, none, some,
}
use pico_wenvironment_logger.Prelude.Int.{ℤ, eq_ℤ}
use pico_wenvironment_logger.EnvironmentData.{EnvironmentData}
use pico_wenvironment_logger.Console.{c_string}
use pico_wenvironment_logger.Http.Page.{codes, html_page}

abbrev pub http_body_size : ℕ
http_body_size = 2048

abbrev pub http_response_size : ℕ
http_response_size = 3072

abbrev pub json_type : List ℕ
json_type = codes "application/json; charset=UTF-8"

abbrev pub html_type : List ℕ
html_type = codes "text/html; charset=UTF-8"

-- `%u`: the decimal digits, on a fuel of more than their number.
unfoldable pub digits_on : ℕ → ℕ → List ℕ → List ℕ
digits_on zero n rest = rest
digits_on (suc fuel) n rest =
    let here = (b'0' + n % 10) ∷ rest in
    elim (n / 10 == 0) [ true ↦ here | false ↦ digits_on fuel (n / 10) here ]

abbrev pub decimal_digits : ℕ → List ℕ
decimal_digits n = digits_on (suc n) n []

-- What `snprintf` leaves in a buffer of `size` characters, for a text that it makes.
abbrev pub printed : ℕ → List ℕ → List ℕ
printed size text = take (size - 1) text

abbrev pub head_text : List ℕ → List ℕ → List ℕ
head_text content_type body =
    codes "HTTP/1.1 200 OK\r\nContent-Type: "
    ++ (content_type
        ++ (codes "\r\nConnection: close\r\nCache-Control: no-store\r\nContent-Length: "
            ++ (decimal_digits (length body) ++ codes "\r\n\r\n")))

-- A response that does not fit the buffer becomes the empty string.
unfoldable pub make_http_response : ℕ → List ℕ → List ℕ → Bool × List ℕ
make_http_response size content_type body =
    let text = head_text content_type body ++ body in
    if leb size (length text) then (false, []) else (true, text)

-- `strncmp(req, text, strlen(text)) == 0`
unfoldable pub starts_with : List ℕ → List ℕ → Bool
starts_with [] req = true
starts_with (c ∷ text) [] = false
starts_with (c ∷ text) (x ∷ req) = let rest = starts_with text req in if x == c then rest else false

-- The first 95 bytes of the request.
unfoldable pub http_request_is_api : List ℕ → Bool
unfolding starts_with
http_request_is_api payload =
    let req = c_string (take 95 payload) in
    starts_with (codes "GET /api ") req
    || (starts_with (codes "GET /api?") req
        || (starts_with (codes "GET /api/env ") req || starts_with (codes "GET /api/env?") req))

unfoldable pub make_html_body : ℕ → List ℕ
make_html_body size = printed size html_page

pub data Call : Type 0 where
  tcp_recved : ℕ → Call
  tcp_write : List ℕ → Call
  tcp_output tcp_close tcp_abort pbuf_free : Call

-- `format` is what `%.2f` makes of a number; it has no NUL, so `strlen` is the length of each text.
module _ (Float : Type 0) (format : Float → List ℕ) where
  abbrev pub json_text : EnvironmentData Float → List ℕ
  json_text env =
      if env.valid
      then codes "{\"valid\":true,\"temperature\":"
        ++ (format env.temperature
            ++ (codes ",\"humidity\":"
                ++ (format env.humidity
                    ++ (codes ",\"pressure\":" ++ (format env.pressure ++ codes "}")))))
      else codes "{\"valid\":false}"

  unfoldable pub make_json_body : ℕ → EnvironmentData Float → List ℕ
  make_json_body size env = printed size (json_text env)

  -- The response to a request.
  unfoldable pub response_to : EnvironmentData Float → List ℕ → List ℕ
  unfolding make_http_response make_json_body make_html_body http_request_is_api
  response_to env payload =
      if http_request_is_api payload
      then (make_http_response http_response_size json_type (make_json_body http_body_size env)).1
      else (make_http_response http_response_size html_type (make_html_body http_body_size)).1

-- `err_ok` and `err_abrt` are lwIP's codes.
module _ (Float : Type 0) (format : Float → List ℕ) (err_ok err_abrt : ℤ) where
  -- `http_recv_callback`: `payload` is that of the pbuf, `none` the null pointer.
  unfoldable pub http_recv_callback :
      EnvironmentData Float → Option (List ℕ) → ℤ → ℤ → ℤ → ℤ × List Call
  unfolding response_to
  http_recv_callback env none err wr_err close_err = (err_ok, tcp_close ∷ [])
  http_recv_callback env (some payload) err wr_err close_err =
      if eq_ℤ err err_ok
      then (let response = response_to Float format env payload in
          let begun = tcp_recved (length payload) ∷ (tcp_write response ∷ []) in
          if eq_ℤ wr_err err_ok
          then (if eq_ℤ close_err err_ok
              then (err_ok, begun ++ (tcp_output ∷ (pbuf_free ∷ (tcp_close ∷ []))))
              else (err_abrt, begun ++ (tcp_output ∷ (pbuf_free ∷ (tcp_close ∷ (tcp_abort ∷ []))))))
          else (err_abrt, begun ++ (pbuf_free ∷ (tcp_abort ∷ []))))
      else (err, pbuf_free ∷ (tcp_close ∷ []))
