-- ===== src/Forward/Parts.antt =====
-- What a handshake consists of: the exchange with the proxy, the messages, and the records of its
-- stages.
use mathlib.Core.Option
use bev_search.Common.{
  ℕ, ◌-◌, ◌^◌, Bool, true, false, not, ◌&&◌, Option, none, some, List, ◌++◌, if◌then◌else◌, take,
}
use bev_search.CString.{Bytes, codes}
use bev_search.CString.Number.{ℤ, pos, negsuc}
use bev_search.Socket
use bev_search.Socket.{Read, int_of}
use bev_search.Hlist
use bev_search.RrData.{RrData, dup_rr_data}
use bev_search.Base64.{to_base64}
use bev_search.Auth.{Auth, ◌>>=◌}
use bev_search.Ntlm.Request.{ntlm_request}
use bev_search.Http.Receive.{Received}
use bev_search.Http.Body.{is_head, is_zero, http_has_body, http_body_drop}
use bev_search.Http.Transfer
use bev_search.Http.Transfer.{Channel}
use bev_search.Http.Chunked.{forward_body}
use bev_search.Parents.{Parents, Cache, Connected}

-- What the proxy does in a handshake: it has closed the connection before the message or takes it, gives
-- the lines of its answer and the body behind them, and has closed the connection after that.
pub record Exchange : Type 0 where
  pub shut : Bool
  pub write : Bytes → ℤ
  pub lines : List Received
  pub body : List Read
  pub available : List Read → ℕ
  pub recvtest : ℕ → Socket.Probe

-- The state that the threads share.
pub record Pool : Type 0 where
  pub parents : Parents
  pub cache : Cache
  pub g_creds : Auth
  pub ntlmbasic : Bool

-- What a handshake leaves: the message that it made, sent or not, the descriptor, the caller's
-- structures, and the result.
pub record Handshake : Type 0 where
  pub probe : RrData
  pub sd : ℤ
  pub request : RrData
  pub response : Option RrData
  pub credentials : Auth
  pub pool : Pool
  pub rc : Bool

-- The answer as it is left, the request, the result, and whether the handshake goes on.
pub record Answered : Type 0 where
  pub auth : RrData
  pub request : RrData
  pub rc : Bool
  pub goes_on : Bool

-- The descriptor for the caller, and whether there is one.
pub record Connection : Type 0 where
  pub sd : ℤ
  pub credentials : Auth
  pub pool : Pool
  pub good : Bool

-- `strcpy(buf, "NTLM ")`, and the message behind it in the buffer of BUFSIZE bytes.
unfoldable pub ntlm_header : Bytes → Bytes
ntlm_header message = codes "NTLM " ++ to_base64 message (4096 - 5)

unfoldable pub first_header : Auth → Option Bytes
first_header credentials = ntlm_request credentials >>= λ m. elim m.buf [
  | none ↦ some (codes "NTLM ")
  | some tmp ↦ some (ntlm_header (take m.len tmp))
]

-- The request without its body, with the first message of NTLM.
unfoldable pub probe : Bytes → RrData → RrData
probe header request =
    let auth = dup_rr_data request in
    let authorised = Hlist.modify auth.headers (codes "Proxy-Authorization") header true in
    let bodiless = Hlist.modify authorised (codes "Content-Length") (codes "0") true in
    record auth {
      headers = Hlist.del bodiless (codes "Transfer-Encoding");
      method = if is_head (some request) then some (codes "GET") else auth.method;
    }

-- `HEAD(request) || http_has_body(request, response) != 0`
unfoldable pub pretends : RrData → Option RrData → Option Bool
pretends request response =
    let has_body = Option.map (λ len. not (is_zero len)) (http_has_body (some request) response) in
    if is_head (some request) then some true else has_body

-- No destination (`dst` is -1).
abbrev pub discarding : (List Read → ℕ) → Channel
discarding available = record {
  has_dst = false;
  available = available;
  closed = λ _. false;
  wrote = λ _ _. pos 0;
}

-- The body of the answer is read and thrown away.
unfoldable pub drop_body : Exchange → RrData → Option Bool
drop_body x auth = http_body_drop auth >>= λ way.
    forward_body (discarding x.available) x.body way >>= λ sent. some (Transfer.Sent.rc sent)

abbrev pub answered : RrData → RrData → Bool → Bool → Answered
answered auth request rc goes_on = record {
  auth = auth;
  request = request;
  rc = rc;
  goes_on = goes_on;
}

-- The bit pattern of a descriptor.
unfoldable pub bits : ℤ → ℕ
bits (pos n) = int_of n
bits (negsuc n) = 2 ^ 32 - 1 - int_of n

-- `*sd < 0`
unfoldable pub is_negative : ℤ → Bool
is_negative (pos n) = false
is_negative (negsuc n) = true

-- `if (response) response->code = 407`, where the response is the answer.
unfoldable pub with_code : Option RrData → RrData → RrData
with_code none auth = auth
with_code (some response) auth = record auth { code = 407 }

-- The caller is to send the request again, with its body.
unfoldable pub after_probe : Exchange → RrData → RrData → Option Answered
after_probe x request auth =
    drop_body x auth >>= λ dropped. some (answered auth request dropped dropped)

-- What the caller is left with, when nothing was connected anew; it gets the answer if it wants one.
unfoldable pub ended : Pool → Auth → ℤ → Option RrData → RrData → RrData → RrData → Bool → Handshake
ended pool credentials sd response sent auth request rc = record {
  probe = sent;
  sd = sd;
  request = request;
  response = Option.map (λ _. auth) response;
  credentials = credentials;
  pool = pool;
  rc = rc;
}

-- The same, with the connection that there is afterwards.
unfoldable pub moved : Handshake → Bool → Connection → Handshake
moved r rc c = record r { sd = c.sd; credentials = c.credentials; pool = c.pool; rc = rc && c.good }

-- A connection that `proxy_connect` made, or did not make, with the credentials that it filled.
abbrev pub connected : Pool → Connected → Auth → Connection
connected pool r filled = record {
  sd = r.conn;
  credentials = filled;
  pool = record pool { parents = r.parents; cache = r.cache };
  good = not (is_negative r.conn);
}

unfoldable pub renewed : Pool → Connected → Option Connection
renewed pool r = r.credentials >>= λ filled. some (connected pool r filled)
