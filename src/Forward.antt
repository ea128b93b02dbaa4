-- ===== src/Forward.antt =====
-- The handshake with a parent proxy: `proxy_authenticate` of cntlm-0.92.3/forward.c. What the proxy
-- answers and when it closes the connection is a parameter, and so is the final message of NTLM. `none`
-- is an access through NULL, or outside of memory.
mod Parts
unfoldable pub use Parts.*
pub mod Probing
pub mod Answers
pub mod Authenticate
pub mod Challenge
pub mod Tunnel
pub mod Relay
use mathlib.Core.Option
use bev_search.Common.{
  ℕ, ◌-◌, Bool, true, false, ◌&&◌, Option, none, some, ltb, ◌==◌, if◌then◌else◌, length, drop,
}
use bev_search.CString.{Bytes, codes}
use bev_search.CString.Number.{ℤ}
use bev_search.Socket.{so_closed}
use bev_search.Hlist
use bev_search.RrData.{RrData, reset_rr_data}
use bev_search.Base64.{from_base64}
use bev_search.Auth.{Auth, ◌>>=◌}
use bev_search.Http.Header
use bev_search.Http.Header.{headers_send}
use bev_search.Http.Receive.{Result, headers_recv}
use bev_search.Parents.{proxy_connect}

module _ (ntlm_response : Bytes → Auth → Option Bytes) (resolve : ℕ → Bytes → Option ℕ)
    (connect : ℕ → ℕ → ℕ → ℤ) where
  -- The final header for the value of Proxy-Authenticate, which is read from its sixth byte on; or
  -- nothing for a challenge that is invalid or too short, or that has no answer.
  unfoldable pub final_header : Auth → Bytes → Option (Option Bytes)
  final_header credentials tmp =
      let d = from_base64 (drop 5 tmp) in
      let answer = Option.map ntlm_header (ntlm_response d.out credentials) in
      if ltb (length tmp) 5
      then none
      else some (if d.good && ltb 24 (length d.out) then answer else none)

  -- The request with the final header, and whether the handshake goes on.
  unfoldable pub authorise : Auth → RrData → Option Bytes → Option (RrData × Bool)
  authorise credentials request none = some (request, true)
  authorise credentials request (some tmp) = final_header credentials tmp >>= λ header.
      elim header [
        | none ↦ some (request, false)
        | some buf ↦ some (
          record request {
            headers = Hlist.modify request.headers (codes "Proxy-Authorization") buf true;
          },
          true,
        )
      ]

  -- The proxy requires authentication.
  unfoldable pub after_407 : Exchange → Auth → RrData → RrData → Option Answered
  after_407 x credentials request auth = drop_body x auth >>= λ dropped.
      let final =
        authorise credentials request (Hlist.get auth.headers (codes "Proxy-Authenticate")) in
      if dropped
      then (final >>= λ f. some (answered auth f.0 true f.1))
      else some (answered auth request false false)

  -- What follows the answer.
  unfoldable pub after_answer :
      Exchange → Auth → RrData → Option RrData → Bool → RrData → Option Answered
  after_answer x credentials request response pretend407 auth =
      let required = after_407 x credentials request auth in
      let forced = after_probe x request (with_code response auth) in
      if auth.code == 407
      then required
      else if pretend407
      then forced
      else some (answered auth request true true)

  unfoldable pub again : Pool → Auth → Option Connection
  again pool credentials =
      proxy_connect resolve connect pool.parents pool.cache pool.g_creds pool.ntlmbasic
        (some credentials)
      >>= renewed pool

  -- The connection for the caller: a new one, if the proxy has closed this one.
  unfoldable pub reconnect : Exchange → Pool → Auth → ℤ → Option Connection
  reconnect x pool credentials sd =
      let kept : Connection = record {
        sd = sd;
        credentials = credentials;
        pool = pool;
        good = true;
      } in
      let anew = again pool credentials in
      if so_closed x.recvtest (bits sd) then anew else some kept

  unfoldable pub settle :
      Exchange → Pool → Auth → ℤ → Option RrData → RrData → Answered → Option Handshake
  settle x pool credentials sd response sent a =
      let bailed = ended pool credentials sd response sent a.auth a.request a.rc in
      let onward = reconnect x pool credentials sd >>= λ c. some (moved bailed a.rc c) in
      if a.goes_on then onward else some bailed

  -- The answer has been received, or not.
  unfoldable pub after_recv :
      Exchange
      → Pool
      → Auth
      → ℤ
      → RrData
      → Option RrData
      → Bool
      → RrData
      → Result
      → Option Handshake
  after_recv x pool credentials sd request response pretend407 sent got =
      let onward =
        after_answer x credentials request response pretend407 got.message
        >>= settle x pool credentials sd response sent in
      if got.rc == 0
      then some (ended pool credentials sd response sent got.message request false)
      else onward

  -- The answer is received into the caller's structure, or into that of the probe.
  unfoldable pub exchanged :
      Exchange → Pool → Auth → ℤ → RrData → Option RrData → Bool → RrData → Option Handshake
  exchanged x pool credentials sd request response pretend407 sent =
      headers_recv x.lines (reset_rr_data (elim response [ none ↦ sent | some d ↦ d ]))
      >>= after_recv x pool credentials sd request response pretend407 sent

  unfoldable pub after_send :
      Exchange
      → Pool
      → ℤ
      → RrData
      → Option RrData
      → Auth
      → Bool
      → RrData
      → Header.Sent
      → Option Handshake
  after_send x pool sd request response credentials pretend407 sent s =
      let onward = exchanged x pool credentials sd request response pretend407 sent in
      let failed : Handshake = record {
        probe = sent;
        sd = sd;
        request = request;
        response = response;
        credentials = credentials;
        pool = pool;
        rc = false;
      } in
      if Header.Sent.rc s == 0 then some failed else onward

  -- The first message is there.
  unfoldable pub after_request :
      Exchange → Pool → ℤ → RrData → Option RrData → Auth → Bytes → Option Handshake
  after_request x pool sd request response credentials header =
      pretends request response >>= λ pretend407.
      headers_send x.shut x.write (probe header request)
      >>= after_send x pool sd request response credentials pretend407 (probe header request)

  unfoldable pub proxy_authenticate :
      Exchange → Pool → ℤ → RrData → Option RrData → Auth → Option Handshake
  proxy_authenticate x pool sd request response credentials =
      first_header credentials >>= after_request x pool sd request response credentials
