-- ===== src/Http/Reply.antt =====
-- What a connection receives, and what becomes of the connection and the buffers.
use pico_wenvironment_logger.Prelude.{
  ℕ, zero, suc, ◌+◌, ◌-◌, ◌/◌, ◌%◌, ◌≤◌, Bool, true, false, if◌then◌else◌, List, [], ◌∷◌, ◌++◌,
  length, take-all, if-related, Option, none, some, ◌≡◌, refl, sym, ap, ap₂, ◌∙◌, arith,
  length-append, lt→leb, if-both,
}
use pico_wenvironment_logger.Prelude.Int.{ℤ, eq_ℤ}
use pico_wenvironment_logger.EnvironmentData.{EnvironmentData}
use pico_wenvironment_logger.Http.Page.{codes, html_page}
use pico_wenvironment_logger.Http.{
  Call, tcp_write, tcp_close, tcp_abort, pbuf_free, digits_on, decimal_digits, head_text, json_type,
  html_type, make_http_response, make_json_body, make_html_body, json_text, http_request_is_api,
  response_to, http_recv_callback, http_body_size, http_response_size,
}

length-digits_on :
    (fuel n : ℕ) (rest : List ℕ) → length (digits_on fuel n rest) ≤ fuel + length rest
unfolding digits_on
length-digits_on zero n rest = omega arith
length-digits_on (suc fuel) n rest =
    let here : List ℕ = (b'0' + n % 10) ∷ rest in
    let deeper = length-digits_on fuel (n / 10) here in ground (arith, deeper)

length-head_text :
    (content_type body : List ℕ)
    → length (head_text content_type body) ≤ 98 + (length content_type + length body)
length-head_text content_type body =
    let before = codes "HTTP/1.1 200 OK\r\nContent-Type: " in
    let between = codes "\r\nConnection: close\r\nCache-Control: no-store\r\nContent-Length: " in
    let digits = decimal_digits (length body) in
    let end = codes "\r\n\r\n" in
    let b : length before ≡ 31 = refl in
    let w : length between ≡ 62 = refl in
    let e : length end ≡ 4 = refl in
    omega (
      arith,
      b,
      w,
      e,
      length-append before (content_type ++ (between ++ (digits ++ end))),
      length-append content_type (between ++ (digits ++ end)),
      length-append between (digits ++ end),
      length-append digits end,
      length-digits_on (suc (length body)) (length body) [],
    )

json_type-length : length json_type ≡ 31
json_type-length = refl

html_type-length : length html_type ≡ 24
html_type-length = refl

html_page-length : length html_page ≡ 1104
unfolding html_page
html_page-length = refl

-- A body of at most 1400 bytes fits the response buffer.
make_http_response-fits :
    (content_type body : List ℕ)
    → length content_type ≤ 100
    → length body ≤ 1400
    → (make_http_response http_response_size content_type body).1
      ≡ head_text content_type body ++ body
unfolding make_http_response
make_http_response-fits content_type body short fits =
    ap
      (λ b.
        (if◌then◌else◌ {A = Bool × List ℕ} b (false, [])
          (true, head_text content_type body ++ body)).1)
      (lt→leb (length (head_text content_type body ++ body)) http_response_size (
        omega (
          arith,
          length-append (head_text content_type body) body,
          length-head_text content_type body,
        )))

-- What is written, whether the connection is closed or aborted at the end, and the buffers freed.
abbrev pub written : List Call → Option (List ℕ)
written [] = none
written (tcp_write bytes ∷ calls) = some bytes
written (_ ∷ calls) = written calls

abbrev pub is_aborted : List Call → Bool
is_aborted [] = false
is_aborted (tcp_abort ∷ calls) = true
is_aborted (_ ∷ calls) = is_aborted calls

abbrev pub ends_connection : List Call → Bool
ends_connection [] = false
ends_connection (tcp_close ∷ []) = true
ends_connection (tcp_abort ∷ []) = true
ends_connection (_ ∷ calls) = ends_connection calls

abbrev pub pbufs_freed : List Call → ℕ
pbufs_freed [] = 0
pbufs_freed (pbuf_free ∷ calls) = suc (pbufs_freed calls)
pbufs_freed (_ ∷ calls) = pbufs_freed calls

module _ (Float : Type 0) (format : Float → List ℕ) where
  -- The response without any buffer.
  abbrev pub whole_response : EnvironmentData Float → List ℕ → List ℕ
  whole_response env payload =
      if http_request_is_api payload
      then head_text json_type (json_text Float format env) ++ json_text Float format env
      else head_text html_type html_page ++ html_page

  length-json_text :
      ((x : Float) → length (format x) ≤ 50)
      → (env : EnvironmentData Float) → length (json_text Float format env) ≤ 300
  length-json_text short env =
      let a = codes "{\"valid\":true,\"temperature\":" in
      let b = codes ",\"humidity\":" in
      let c = codes ",\"pressure\":" in
      let d = codes "}" in
      let la : length a ≡ 28 = refl in
      let lb : length b ≡ 12 = refl in
      let lc : length c ≡ 12 = refl in
      let ld : length d ≡ 1 = refl in
      let ls : length (codes "{\"valid\":false}") ≡ 15 = refl in
      let t = format env.temperature in
      let h = format env.humidity in
      let p = format env.pressure in
      if-both (λ text. length text ≤ 300) env.valid _ (codes "{\"valid\":false}")
        (omega (
          arith,
          la,
          lb,
          lc,
          ld,
          short env.temperature,
          short env.humidity,
          short env.pressure,
          length-append a (t ++ (b ++ (h ++ (c ++ (p ++ d))))),
          length-append t (b ++ (h ++ (c ++ (p ++ d)))),
          length-append b (h ++ (c ++ (p ++ d))),
          length-append h (c ++ (p ++ d)),
          length-append c (p ++ d),
          length-append p d,
        ))
        (omega (arith, ls))

  response_to-whole :
      ((x : Float) → length (format x) ≤ 50)
      → (env : EnvironmentData Float) (payload : List ℕ)
      → response_to Float format env payload ≡ whole_response env payload
  unfolding response_to make_json_body make_html_body
  response_to-whole short env payload =
      let body = json_text Float format env in
      let small = length-json_text short env in
      let j =
        make_http_response-fits json_type body (omega (arith, json_type-length))
          (omega (arith, small)) in
      let h =
        make_http_response-fits html_type html_page (omega (arith, html_type-length))
          (omega (arith, html_page-length)) in
      let fits = take-all (http_body_size - 1) body (omega (arith, small)) in
      let page = take-all (http_body_size - 1) html_page (omega (arith, html_page-length)) in
      ap₂ (λ x y. if http_request_is_api payload then x else y)
        (ap (λ text. (make_http_response http_response_size json_type text).1) fits ∙ j)
        (ap (λ text. (make_http_response http_response_size html_type text).1) page ∙ h)

module _ (Float : Type 0) (format : Float → List ℕ) (err_ok err_abrt : ℤ) where
  abbrev pub expected : EnvironmentData Float → Option (List ℕ) → ℤ → Option (List ℕ)
  expected env none err = none
  expected env (some payload) err =
      if eq_ℤ err err_ok then some (whole_response Float format env payload) else none

  abbrev pub pbufs : Option (List ℕ) → ℕ
  pbufs none = 0
  pbufs (some payload) = 1

  -- What the callback owes its connection.
  pub record IsAnswer (p : Option (List ℕ)) (sent : Option (List ℕ)) (r : ℤ × List Call)
      : Type 0 where
    pub written : written r.1 ≡ sent
    pub freed : pbufs_freed r.1 ≡ pbufs p
    pub ends : ends_connection r.1 ≡ true
    pub aborted : is_aborted r.1 ≡ eq_ℤ r.0 err_abrt

  -- With numbers of at most 50 characters, and lwIP neither calling back with ERR_ABRT nor using it
  -- for ERR_OK: for each pointer, error and answer of lwIP, the callback writes the whole response to
  -- the request, JSON or page, when there is a buffer and no error, which neither static buffer cuts
  -- short, and otherwise nothing; it frees the buffer once; its last call closes or aborts the
  -- connection; and it returns ERR_ABRT exactly when it has aborted it.
  pub http_recv_callback_lem :
      eq_ℤ err_ok err_abrt ≡ false
      → ((x : Float) → length (format x) ≤ 50)
      → (env : EnvironmentData Float) (p : Option (List ℕ)) (err wr_err close_err : ℤ)
      → eq_ℤ err err_abrt ≡ false
      → IsAnswer p
          (expected env p err)
          (http_recv_callback Float format err_ok err_abrt env p err wr_err close_err)
  unfolding http_recv_callback
  http_recv_callback_lem apart short env none err wr_err close_err other = record {
    written = refl;
    freed = refl;
    ends = refl;
    aborted = sym apart;
  }
  http_recv_callback_lem apart short env (some payload) err wr_err close_err other =
      let sent : Option (List ℕ) = some (whole_response Float format env payload) in
      let same : true ≡ eq_ℤ err_abrt err_abrt = ground arith in
      let w = ap some (response_to-whole Float format short env payload) in
      if-related {A = ℤ × List Call} (λ r s. IsAnswer (some payload) s r) (eq_ℤ err err_ok) _ _ sent
        none
        (if-both (IsAnswer (some payload) sent) (eq_ℤ wr_err err_ok) _ _
          (if-both (IsAnswer (some payload) sent) (eq_ℤ close_err err_ok) _ _
            record { written = w; freed = refl; ends = refl; aborted = sym apart }
            record { written = w; freed = refl; ends = refl; aborted = same })
          record { written = w; freed = refl; ends = refl; aborted = same })
        record { written = refl; freed = refl; ends = refl; aborted = sym other }
