-- ===== src/Forward/Relay/Asking.antt =====
-- The first half of a pass: the request of the client, its credentials, and the handshake.
use mathlib.Core.Option
use bev_search.Common.{
  ℕ, Bool, true, false, not, ◌&&◌, ◌||◌, Option, none, some, List, [], ◌∷◌, ltb, ◌==◌,
  if◌then◌else◌,
}
use bev_search.CString.{Bytes, codes, same_nocase}
use bev_search.CString.Number.{ℤ}
use bev_search.Hlist.{Hlist}
use bev_search.RrData.{RrData, new_rr_data, reset_rr_data, dup_rr_data}
use bev_search.Auth.{Auth, ◌>>=◌}
use bev_search.Ntlm.Keys.{Crypto}
use bev_search.Http.Basic.{Basic, absent, invalid, given, http_parse_basic}
use bev_search.Http.Receive.{Received, headers_recv}
use bev_search.Forward.{Handshake, proxy_authenticate}
use bev_search.Forward.Relay.Headers.{client_headers}
use bev_search.Forward.Relay.Answering.{
  probed, preceded, Turn, State, Event, Pass, request, login_page, minus_one, returned, bails,
  bailed, send_body, send_head, answer_half,
}

-- A message is read if the structure is empty; `none` inside is that it could not be read.
unfoldable pub read_empty : List Received → RrData → Option (Option RrData)
read_empty lines d =
    let received =
      headers_recv lines d >>= λ got. some (if got.rc == 0 then none else some got.message) in
    if d.empty then received else some (some d)

-- The request is with the proxy, or not; then its answer is read.
unfoldable pub answer_read : Turn → State → List Event → RrData → Option RrData → Option Pass
answer_read turn s events data0 none = some (bailed s events minus_one)
answer_read turn s events data0 (some data1) = answer_half turn s events data0 data1

unfoldable pub request_sent : Turn → State → List Event → RrData → RrData → Bool → Option Pass
request_sent turn s events data0 data1 false = some (bailed s events minus_one)
request_sent turn s events data0 data1 true =
    read_empty turn.answer data1 >>= answer_read turn s events data0

-- The request goes to the proxy, with its body.
unfoldable pub send_request : Turn → State → RrData → RrData → Option Pass
send_request turn s data0 data1 = send_head turn.to_proxy data0 >>= λ good.
    let sent = request data0 ∷ [] in
    let body = send_body turn.to_proxy data0 data1 >>= request_sent turn s sent data0 data1 in
    if good then body else some (bailed s sent minus_one)

-- The proxy has answered the first message: with 407, or so that its answer is passed on.
unfoldable pub handshake_answer : Turn → State → RrData → Option RrData → Option Pass
handshake_answer turn s data0 none = none
handshake_answer turn s data0 (some data1) =
    let continued = send_request turn s data0 (reset_rr_data data1) in
    let known = record s { noauth = s.noauth || ltb data1.code 400 } in
    if data1.code == 407 then continued else answer_half turn known [] data0 data1

-- The variables as a handshake leaves them.
unfoldable pub handed_over : State → Handshake → State
handed_over s h = record s { pool = h.pool; tcreds = h.credentials; sd = h.sd }

unfoldable pub authenticated : Turn → State → Handshake → Option Pass
authenticated turn s h =
    let onward = handshake_answer turn (handed_over s h) h.request h.response in
    Option.map (preceded (probed s.tcreds h.probe h.response))
      (if h.rc then onward else some (bailed (handed_over s h) [] minus_one))

-- The credentials for the request, or that the client is asked for some.
unfoldable pub credentials_for : State → Basic → Option State
credentials_for s (given tcreds) = some (record s { tcreds = tcreds })
credentials_for s absent = if s.pool.ntlmbasic then none else some s
credentials_for s invalid = if s.pool.ntlmbasic then none else some s

-- Another server than that of the requests before.
unfoldable pub differs : Option Bytes → Option Bytes → Bool
differs (some hostname) (some other) = not (same_nocase hostname other)
differs hostname other = false

module _ (crypto : Crypto) (ntlm_response : Bytes → Auth → Option Bytes)
    (resolve : ℕ → Bytes → Option ℕ) (connect : ℕ → ℕ → ℕ → ℤ) where
  -- The connection is authenticated first, unless it is already, or needs not be.
  unfoldable pub authenticate_first : Turn → RrData → State → Option Pass
  authenticate_first turn data0 s =
      let handshake =
        proxy_authenticate ntlm_response resolve connect turn.exchange s.pool s.sd data0
          (some new_rr_data) s.tcreds
        >>= authenticated turn s in
      if not s.authok && not s.noauth then handshake else send_request turn s data0 new_rr_data

  unfoldable pub prepared : Turn → Hlist → RrData → State → Option State → Option Pass
  prepared turn header_list data0 s none = some (bailed s (login_page ∷ []) minus_one)
  prepared turn header_list data0 s (some known) =
      authenticate_first turn (record data0 { headers = client_headers header_list data0.headers })
        known

  unfoldable pub request_half : Turn → Hlist → State → RrData → Option Pass
  request_half turn header_list s data0 =
      let client =
        http_parse_basic crypto data0.headers (codes "Proxy-Authorization") s.tcreds >>= λ basic.
        prepared turn header_list data0 s (credentials_for s basic) in
      if data0.req then client else send_request turn s data0 new_rr_data

  unfoldable pub request_read : Turn → Hlist → State → Option RrData → Option Pass
  request_read turn header_list s none = some (bailed s [] minus_one)
  request_read turn header_list s (some data0) =
      let onward = request_half turn header_list s data0 in
      if differs s.hostname data0.hostname
      then some
          (record { state = s; events = []; end = bails (returned (dup_rr_data data0)) s.authok })
      else onward

  -- A pass of the loop for a structure that holds a request, or is empty.
  unfoldable pub pass : Turn → Hlist → State → RrData → Option Pass
  pass turn header_list s data0 = read_empty turn.client data0 >>= request_read turn header_list s
