-- ===== src/Direct.antt =====
-- Connections without a parent proxy: `www_authenticate` of cntlm-0.92.3/direct.c. What the server does and the final message of NTLM are parameters; `none` is
-- an access outside of memory.
pub mod Probing
pub mod Web
use mathlib.Core.Option
use bev_search.Common.{
  ℕ, Bool, true, false, not, ◌&&◌, Option, none, some, ltb, ◌==◌, if◌then◌else◌, length, take, drop,
  ◌-◌,
}
use bev_search.CString.{Bytes, codes, strchr}
use bev_search.CString.Number.{ℤ, atoi, is_pos}
use bev_search.Hlist
use bev_search.RrData.{RrData, reset_rr_data, copy_rr_data, dup_rr_data}
use bev_search.Base64.{from_base64}
use bev_search.Auth.{Auth, ◌>>=◌}
use bev_search.Http.Header
use bev_search.Http.Header.{headers_send, behind_first}
use bev_search.Http.Receive.{Result, headers_recv}
use bev_search.Socks.Service.{host_connect}
use bev_search.Forward.{Exchange, ntlm_header, first_header, drop_body}

-- The request without its body, with the first message of NTLM.
unfoldable pub web_probe : Bytes → RrData → RrData
web_probe header data0 =
    let auth = dup_rr_data data0 in
    let alive = Hlist.modify auth.headers (codes "Connection") (codes "keep-alive") true in
    let authorised = Hlist.modify alive (codes "Authorization") header true in
    let bodiless = Hlist.modify authorised (codes "Content-Length") (codes "0") true in
    record auth { headers = Hlist.del bodiless (codes "Transfer-Encoding") }

-- What the function leaves of the caller's structures, and its result.
pub record WebAuth : Type 0 where
  pub request : RrData
  pub response : RrData
  pub rc : Bool

abbrev pub gives_up : RrData → RrData → WebAuth
gives_up data0 response = record { request = data0; response = response; rc = false }

abbrev pub with_error : RrData → Bytes → RrData
with_error response text = record response { errmsg = some text }

-- The final answer has been read, or not.
unfoldable pub final_read : RrData → RrData → Result → WebAuth
final_read data0 response got =
    if got.rc == 0
    then gives_up data0 response
    else record { request = data0; response = copy_rr_data response got.message; rc = true }

-- The request with the final message.
unfoldable pub web_final : Exchange → RrData → RrData → RrData → Option WebAuth
web_final y data0 response auth = headers_send y.shut y.write data0 >>= λ s.
    let answer =
      headers_recv y.lines (reset_rr_data auth) >>= λ got. some (final_read data0 response got) in
    if Header.Sent.rc s == 0 then some (gives_up data0 response) else answer

module _ (ntlm_response : Bytes → Auth → Option Bytes) where
  -- The header for a decoded challenge, if that is valid, long enough, and has an answer.
  unfoldable pub web_header : Auth → Bytes → Option Bytes
  web_header creds tmp =
      let d = from_base64 (drop 5 tmp) in
      if d.good && ltb 24 (length d.out)
      then Option.map ntlm_header (ntlm_response d.out creds)
      else none

  unfoldable pub web_answer : Exchange → RrData → RrData → RrData → Option Bytes → Option WebAuth
  web_answer y data0 response auth none =
      some (gives_up data0 (with_error response (codes "Invalid NTLM challenge from web server")))
  web_answer y data0 response auth (some buf) =
      web_final y
        (record data0 { headers = Hlist.modify data0.headers (codes "Authorization") buf true })
        response auth

  -- `tmp && strlen(tmp) > 6 + 8`
  unfoldable pub web_challenge :
      Exchange → Auth → RrData → RrData → RrData → Option Bytes → Option WebAuth
  web_challenge y creds data0 response auth none =
      some (gives_up data0 (with_error response (codes "Web server reply missing NTLM challenge")))
  web_challenge y creds data0 response auth (some tmp) =
      let onward = web_answer y data0 response auth (web_header creds tmp) in
      if ltb 14 (length tmp)
      then onward
      else some
          (gives_up data0 (with_error response (codes "Web server reply missing NTLM challenge")))

  unfoldable pub web_required :
      Exchange → Exchange → Auth → RrData → RrData → RrData → Option WebAuth
  web_required x y creds data0 response auth = drop_body x auth >>= λ dropped.
      let onward =
        web_challenge y creds data0 response auth
          (Hlist.get auth.headers (codes "WWW-Authenticate")) in
      if dropped then onward else some (gives_up data0 response)

  unfoldable pub web_received :
      Exchange → Exchange → Auth → RrData → RrData → Result → Option WebAuth
  web_received x y creds data0 response got =
      let required = web_required x y creds data0 response got.message in
      if not (got.rc == 0) && got.message.code == 401
      then required
      else some (gives_up data0 response)

  unfoldable pub web_sent :
      Exchange → Exchange → Auth → RrData → RrData → RrData → Header.Sent → Option WebAuth
  web_sent x y creds data0 response auth s =
      let onward =
        headers_recv x.lines (reset_rr_data auth) >>= web_received x y creds data0 response in
      if Header.Sent.rc s == 0 then some (gives_up data0 response) else onward

  -- The body of the first response, the exchange of the first message, and that of the final one.
  unfoldable pub www_authenticate :
      Exchange → Exchange → Exchange → RrData → RrData → Auth → Option WebAuth
  www_authenticate w x y data0 response creds = first_header creds >>= λ header.
      drop_body w response >>= λ dropped.
      let onward =
        headers_send x.shut x.write (web_probe header data0)
        >>= web_sent x y creds data0 response (web_probe header data0) in
      if dropped then onward else some (gives_up data0 response)
