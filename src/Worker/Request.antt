-- ===== src/Worker/Request.antt =====
-- lib/backend/backend_worker.cpp: `performRequest`, and whether a network can be reached.
use gathra_gateway.Prelude.{
  ℕ, ℤ, pos, negsuc, Bool, true, false, not, ◌&&◌, List, [], ◌++◌, ltb, if◌then◌else◌,
}
use gathra_gateway.Text.{strncpy, codes, starts_with}
use gathra_gateway.Worker.Types.{RuntimeConfig, HttpMethod, HttpRequest, Platform}
use gathra_gateway.Worker.Status.{starts_tls}

-- The status, the response and the error of a request.
pub record Answer : Type 0 where
  pub http_status : ℤ
  pub response : List ℕ
  pub error : List ℕ

abbrev pub is_positive : ℤ → Bool
is_positive (pos n) = ltb 0 n
is_positive (negsuc n) = false

-- The buffer of the error has 128 bytes.
abbrev pub refused : List ℕ → Answer
refused error = record { http_status = pos 0; response = []; error = strncpy error 127 }

abbrev pub request_of : RuntimeConfig → HttpMethod → List ℕ → List ℕ → HttpRequest
unfolding starts_tls
request_of c method path body = record {
  method = method;
  url = c.base_url ++ path;
  bearer = c.token;
  body = body;
  timeout_ms = c.timeout_ms;
  tls = starts_tls c.base_url;
}

module _ {E Q : Type 0} (p : Platform E Q) where
  unfoldable pub network_available : E → RuntimeConfig → E × Bool
  network_available e c =
      let (e', connected) = p.wifi_connected e in
      let (e'', active) = p.ap_active e' in
      let (last, stations) = p.ap_stations e'' in
      let plain = starts_with c.base_url (codes "http://") in
      if connected
      then (e', true)
      else if not (plain && active)
      then (e'', false)
      else (last, ltb 0 stations)

  -- The client was set up.
  unfoldable pub exchange : E → HttpRequest → E × Answer
  exchange e request =
      let (e', status, response, error) = p.send e request in
      if is_positive status
      then (e', record { http_status = status; response = response; error = [] })
      else (
        e',
        record {
          http_status = status;
          response = [];
          error = strncpy (codes "transport error " ++ error) 127;
        },
      )

  unfoldable pub connect : E → HttpRequest → E × Answer
  unfolding exchange
  connect e request =
      let (e', begun) = p.begin e request in
      if begun
      then exchange e' request
      else (e', refused (codes "HTTP client initialization failed"))

  unfoldable pub perform_request :
      E → RuntimeConfig → HttpMethod → List ℕ → List ℕ → Bool → E × Answer
  unfolding network_available connect request_of
  perform_request e c method path body require_trusted_time =
      let (e', available) = network_available e c in
      let (e'', time) = p.now e' in
      let request = request_of c method path body in
      if not available
      then (e', refused (codes "Wi-Fi disconnected"))
      else if not (request.tls && require_trusted_time)
      then connect e' request
      else if not time.trusted
      then (e'', refused (codes "TLS requires trusted time"))
      else connect e'' request
