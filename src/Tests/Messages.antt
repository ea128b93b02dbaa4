-- ===== src/Tests/Messages.antt =====
-- Messages of HTTP and NTLM at concrete inputs: cntlm-0.92.3/http.c, auth.c, ntlm.c.
use bev_search.Common.{
  ◌↔◌, List, length, ℕ, ◌+◌, ◌≤◌, ◌<◌, true, false, none, some, [], ◌∷◌, ◌++◌, ◌≡◌, refl, arith,
  replicate, if◌then◌else◌,
}
use bev_search.CString.{Bytes, codes, same_nocase, strstr}
use bev_search.CString.Number.{ℤ, pos, atoll}
use bev_search.Hlist.{HNode, Hlist, node}
use bev_search.Hlist
use bev_search.RrData.{RrData}
use bev_search.Http.Body.{is_head, http_body_send, nothing, chunked, response_nobody, is_zero}
use bev_search.Http.Body.Rules.{http_body_send-chunked}
use bev_search.Http.Header.{
  is_http_header, get_http_header_name, get_http_header_value, print_code, digits, crlf,
  headers_room, message_room, first_line, Sent, headers_send,
}
use bev_search.Http.Header.Lines.{get_http_header-line}
use bev_search.Http.Header.Send.{headers_send-text}
use bev_search.Http.Header.Room.{headers_text}
use bev_search.Http.Receive.{Received, Result, headers_recv}
use bev_search.Http.Receive.Complete.{IsComplete, headers_recv-IsComplete}
use bev_search.Strings.{c_str}
use bev_search.Auth.{Auth, zeroed, copy_auth, dup_auth}
use bev_search.Auth.Copies.{IsText, IsAuth, IsCopy, copy_auth-IsCopy}
use bev_search.Ntlm.Request.{request_flags, Message, ntlm_request}
use bev_search.Ntlm.Request.Layout.{IsRequest, ntlm_request-IsRequest}
use bev_search.Ntlm.Target.{TargetInfo, target_info, walk, round, pair_of, val16, closed}
use bev_search.Ntlm.Target.Bounds.{target_info_within}

abbrev blank : RrData
blank = record {
  req = false;
  headers = [];
  code = 200;
  skip_http = false;
  body_len = 0;
  empty = false;
  port = 0;
  method = none;
  url = none;
  rel_url = none;
  hostname = none;
  http = some (codes "HTTP/1.1");
  msg = some (codes "OK");
  body = none;
  errmsg = none;
}

abbrev chunky : RrData
chunky = record blank { headers = node (codes "Transfer-Encoding") (codes "Chunked") ∷ [] }

abbrev unchanged : RrData
unchanged = record chunky { code = 304 }

abbrev asked : RrData
asked = record blank { req = true; method = some (codes "get"); url = some (codes "http://a/") }

abbrev no_answer : RrData
no_answer = record blank { empty = true }

chunky_body : response_nobody (some asked) chunky ≡ false
unfolding response_nobody is_head same_nocase
chunky_body = refl

chunky_has : Hlist.has chunky.headers (codes "Transfer-Encoding") ≡ true
unfolding Hlist.has same_nocase
chunky_has = refl

chunky_subcmp : Hlist.subcmp chunky.headers (codes "Transfer-Encoding") (codes "chunked") ≡ true
unfolding Hlist.subcmp Hlist.get same_nocase strstr
chunky_subcmp = refl

http_body_send-chunked_example :
    (Hlist.get chunky.headers (codes "Content-Length") ≡ none
      → http_body_send asked chunky ≡ some chunked)
    × ((text : Bytes)
        → Hlist.get chunky.headers (codes "Content-Length") ≡ some text
        → http_body_send asked chunky ≡ some (if is_zero (atoll text) then nothing else chunked))
http_body_send-chunked_example =
    http_body_send-chunked asked chunky refl chunky_body chunky_has chunky_subcmp

-- A buffer of 50 bytes that holds a short text.
abbrev alice : Bytes
alice = codes "alice" ++ replicate 45 0

abbrev creds : Auth
creds = record {
  user = alice;
  domain = alice;
  workstation = alice;
  passlm = zeroed;
  passnt = alice;
  passntlm2 = zeroed;
  hashntlm2 = 0;
  hashnt = 1;
  hashlm = 0;
  flags = 0;
}

alice-IsText : IsText alice
unfolding c_str
alice-IsText = (refl, omega arith)

creds-IsAuth : IsAuth creds
creds-IsAuth = record { user = alice-IsText; domain = alice-IsText; workstation = alice-IsText }

copy_auth-IsCopy_example :
    ((a : Auth) × (copy_auth creds creds false ≡ some a) × IsCopy creds false a)
    × ((a : Auth) × (dup_auth creds false ≡ some a) × IsCopy creds false a)
copy_auth-IsCopy_example = copy_auth-IsCopy creds creds false creds-IsAuth creds-IsAuth

creds_flags : request_flags creds ≡ some 0xb205
unfolding request_flags
creds_flags = refl

ntlm_request-IsRequest_example :
    ((flags : ℕ)
      → request_flags creds ≡ some flags
      → (m : Message) × (ntlm_request creds ≡ some m) × IsRequest creds flags m)
    × ((creds.flags ≡ 0) × (creds.hashntlm2 ≡ 0) × (creds.hashnt ≡ 0) × (creds.hashlm ≡ 0)
        → ntlm_request creds ≡ some (record { buf = none; len = 0 }))
ntlm_request-IsRequest_example = ntlm_request-IsRequest creds creds-IsAuth

-- A challenge whose target information, one pair and the end, begins at 48.
abbrev challenge : Bytes
challenge = replicate 44 0 ++ 48 ∷ 0 ∷ 0 ∷ 0 ∷ 2 ∷ 0 ∷ 2 ∷ 0 ∷ b'D' ∷ 0 ∷ 0 ∷ 0 ∷ 0 ∷ 0 ∷ []

target_info_run : target_info challenge 58 ≡ some (record { tbofs = 48; tblen = 10; ttype = 0 })
unfolding target_info walk round pair_of val16 closed
target_info_run = refl

target_info_within_example :
    (t : TargetInfo) × (target_info challenge 58 ≡ some t) × (0 < t.tblen → t.tbofs + t.tblen ≤ 58)
target_info_within_example =
    target_info_within challenge 58 (omega arith) (omega arith) (omega arith)

get_http_header-line_example :
    (is_http_header (codes "Host: example:80") ≡ true)
    × (get_http_header_name (codes "Host: example:80") ≡ some (some (codes "Host")))
    × (get_http_header_value (codes "Host: example:80") ≡ some (codes "example:80"))
get_http_header-line_example =
    get_http_header-line (codes "Host") (codes "xample:80") b'e' (omega arith) (omega arith)
      (omega arith) (omega arith) (omega arith)

-- A peer that takes everything.
abbrev write_all : Bytes → ℤ
write_all text = pos (length text)

chunky_room : message_room chunky ≡ some 74
unfolding message_room headers_room
chunky_room = refl

chunky_line : first_line chunky ≡ some (codes "HTTP/1.1 200 OK" ++ crlf)
unfolding first_line print_code digits
chunky_line = refl

headers_send-text_example :
    let text = ((codes "HTTP/1.1 200 OK" ++ crlf) ++ headers_text chunky.headers) ++ crlf in
    (s : Sent) × (headers_send false write_all chunky ≡ some s)
    × (false ≡ true → (s.bytes ≡ none) × (s.rc ≡ 0))
    × (false ≡ false → (s.bytes ≡ some text) × ((s.rc ≡ 1) ↔ (write_all text ≡ pos (length text))))
headers_send-text_example =
    headers_send-text false write_all chunky 74 (codes "HTTP/1.1 200 OK" ++ crlf) chunky_room
      chunky_line (omega arith) (omega arith)

abbrev request_lines : List Received
request_lines =
    (record { text = codes "GET http://a.example:8080/x HTTP/1.0" ++ crlf; good = true })
    ∷ (record { text = codes "Accept: */*" ++ crlf; good = true })
    ∷ (record { text = crlf; good = true })
    ∷ []

headers_recv-IsComplete_example :
    (r : Result) × (headers_recv request_lines no_answer ≡ some r) × IsComplete r
headers_recv-IsComplete_example = headers_recv-IsComplete request_lines no_answer
