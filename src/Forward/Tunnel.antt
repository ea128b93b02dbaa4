-- ===== src/Forward/Tunnel.antt =====
-- A connection through the proxy: `prepare_http_connect` of cntlm-0.92.3/forward.c.
pub mod Grant
use bev_search.Common.{
  ℕ, Bool, true, false, ◌||◌, Option, none, some, List, [], ◌∷◌, ◌==◌, if◌then◌else◌, length,
}
use bev_search.CString.{Bytes, codes}
use bev_search.CString.Number.{ℤ}
use bev_search.Hlist
use bev_search.Hlist.{Hlist}
use bev_search.RrData.{RrData, new_rr_data, reset_rr_data}
use bev_search.Auth.{Auth, ◌>>=◌}
use bev_search.Http.Header
use bev_search.Http.Header.{headers_send}
use bev_search.Http.Body.{is_zero}
use bev_search.Http.Receive.{Result, headers_recv}
use bev_search.Forward.{Exchange, Pool, Handshake, proxy_authenticate}

-- Each header of the configuration replaces the one of its name.
unfoldable pub replace_headers : Hlist → Hlist → Hlist
replace_headers headers [] = headers
replace_headers headers (t ∷ tl) = replace_headers (Hlist.modify headers t.key t.value true) tl

unfoldable pub connect_request : Hlist → Bytes → RrData
connect_request header_list thost = record new_rr_data {
  req = true;
  method = some (codes "CONNECT");
  url = some thost;
  http = some (codes "HTTP/1.1");
  headers =
      replace_headers (Hlist.modify [] (codes "Proxy-Connection") (codes "keep-alive") true)
        header_list;
}

-- The answer that decides, if there is one.
abbrev pub Answer : Type 0
Answer = Option RrData

-- The request with the final message, and its answer.
unfoldable pub final_answer : Exchange → RrData → RrData → Option Answer
final_answer y data1 data2 = headers_send y.shut y.write data1 >>= λ s.
    let answer = headers_recv y.lines (reset_rr_data data2) >>= λ got.
    some (if got.rc == 0 then none else some got.message) in
    if Header.Sent.rc s == 0 then some none else answer

unfoldable pub decide : Exchange → RrData → Option RrData → Option Answer
decide y data1 none = none
decide y data1 (some data2) =
    let answer = final_answer y data1 data2 in
    if data2.code == 407 then answer else some (some data2)

-- `data2->code == 200`
unfoldable pub is_granted : Answer → Bool
is_granted none = false
is_granted (some data2) = data2.code == 200

-- The result, and the connection on which the last answer came. The caller has only its own copy of the
-- descriptor.
pub record Prepared : Type 0 where
  pub rc : Bool
  pub local_sd : ℤ
  pub pool : Pool

module _ (ntlm_response : Bytes → Auth → Option Bytes) (resolve : ℕ → Bytes → Option ℕ)
    (connect : ℕ → ℕ → ℕ → ℤ) where
  unfoldable pub after_handshake : Exchange → Handshake → Option Prepared
  after_handshake y h =
      let decided = decide y h.request h.response >>= λ answer.
      some (record { rc = is_granted answer; local_sd = h.sd; pool = h.pool }) in
      if h.rc then decided else some (record { rc = false; local_sd = h.sd; pool = h.pool })

  unfoldable pub prepare_http_connect :
      Exchange → Exchange → Pool → Hlist → ℤ → Auth → Bytes → Option Prepared
  prepare_http_connect x y pool header_list sd credentials thost =
      let handshake =
        proxy_authenticate ntlm_response resolve connect x pool sd
          (connect_request header_list thost) (some new_rr_data) credentials
        >>= after_handshake y in
      if is_zero sd || length thost == 0
      then some (record { rc = false; local_sd = sd; pool = pool })
      else handshake
