-- ===== src/Http/Receive.antt =====
-- `headers_recv`: the lines that `so_recvln` receives become a message.
pub mod Runs
pub mod Complete
use bev_search.Common.{
  ℕ, zero, suc, ◌+◌, ◌-◌, Bool, true, false, not, ◌&&◌, ◌||◌, Option, none, some, List, [], ◌∷◌,
  ◌++◌, ltb, ◌==◌, if◌then◌else◌, length, take, drop,
}
use bev_search.CString.{Bytes, codes, begins_nocase, strstr, strchr, is_some}
use bev_search.CString.Number.{atoi}
use mathlib.Core.Option
use bev_search.Strings.{substr, trimr}
use bev_search.Hlist
use bev_search.Hlist.{Hlist}
use bev_search.RrData.{RrData}
use bev_search.Http.Header.{
  ◌>>=◌, is_http_header, get_http_header_name, skip_spaces, behind_first, get_http_header_value,
}

-- What `so_recvln` leaves in the buffer, and whether its result is positive. Where the list of them
-- ends the stream has ended: the text is empty and the result is 0.
pub record Received : Type 0 where
  pub text : Bytes
  pub good : Bool

-- A token of `strtok_r(…, " ", …)`, and the text behind the delimiter that ends it.
pub record Token : Type 0 where
  pub token : Bytes
  pub rest : Bytes

word : Bytes → Token
word [] = record { token = []; rest = [] }
word (c ∷ s) =
    let t = word s in
    if c == 32 then record { token = []; rest = s } else record t { token = c ∷ t.token }

-- `none` is NULL: there are only spaces left.
unfoldable pub strtok : Bytes → Option Token
unfolding word
strtok s = elim (skip_spaces s) [ [] ↦ none | (c ∷ t) ↦ some (word (c ∷ t)) ]

-- The result of a reading: what is known of the message and of its host, and whether an error ends it.
pub record Head : Type 0 where
  pub message : RrData
  pub host : Option Bytes
  pub failed : Bool

-- `!ccode || strlen(ccode) != 3 || (data->code = atoi(ccode)) == 0`
unfoldable pub response_code : RrData → Option Bytes → Head
response_code d none = record { message = d; host = none; failed = true }
response_code d (some ccode) =
    if length ccode == 3
    then record { message = record d { code = atoi ccode }; host = none; failed = atoi ccode == 0 }
    else record { message = d; host = none; failed = true }

-- The first line of a response: protocol, code, and the rest of the line.
unfoldable pub response_line : RrData → Token → Head
response_line d tok =
    let second = strtok tok.rest in
    response_code
      (record d {
        req = false;
        empty = false;
        http = some tok.token;
        msg = some (elim second [ none ↦ [] | some t ↦ t.rest ]);
      })
      (Option.map (λ t. t.token) second)

-- The text behind `://`, or all of it.
unfoldable pub behind_scheme : Bytes → Bytes
behind_scheme url = elim (strstr url (codes "://")) [ none ↦ url | some tok ↦ drop 3 tok ]

-- The host and the path of a URL; `none` is an access outside of the text.
abbrev pub split_at : Bytes → Option Bytes → Option (Bytes × Bytes)
split_at tok none = Option.map (λ host. (host, codes "/")) (substr tok 0 (length tok))
split_at tok (some s3) = Option.map (λ host. (host, s3)) (substr tok 0 (length tok - length s3))

unfoldable pub split_url : Bytes → Option (Bytes × Bytes)
split_url url = let tok = behind_scheme url in split_at tok (strchr tok b'/')

unfoldable pub request_url : RrData → Option Bytes → Option Bytes → Option Head
request_url d (some url) (some http) = split_url url >>= λ parts. some (record {
  message = record d { url = some url; http = some http; rel_url = some parts.1 };
  host = some parts.0;
  failed = false;
})
request_url d url http =
    some (record { message = record d { url = url; http = http }; host = none; failed = true })

-- The first line of a request: method, URL and protocol.
unfoldable pub request_line : RrData → Token → Option Head
request_line d tok =
    let second = strtok tok.rest in
    let third = second >>= λ t. strtok t.rest in
    request_url
      (record d {
        req = true;
        empty = false;
        method = some tok.token;
        url = none;
        rel_url = none;
        http = none;
        hostname = none;
      })
      (Option.map (λ t. t.token) second) (Option.map (λ t. t.token) third)

-- The kind of a first line, which has its trailing white space cut off.
abbrev pub head_kind : RrData → Bytes → Option Token → Option Head
head_kind d buf none = some (record { message = d; host = none; failed = true })
head_kind d buf (some tok) =
    if begins_nocase buf (codes "HTTP/") || begins_nocase tok.token (codes "ICY")
    then some (response_line d tok)
    else if is_some (strstr buf (codes " HTTP/"))
    then request_line d tok
    else some (record { message = d; host = none; failed = true })

unfoldable pub head_line : RrData → Bytes → Option Head
head_line d buf = head_kind d buf (strtok buf)

-- The loop over the headers: their list, and whether the last result was positive.
unfoldable pub read_headers : List Received → Hlist → Option (Hlist × Bool)
read_headers [] headers = some (headers, false)
read_headers (r ∷ lines) headers =
    let buf = trimr r.text in
    let add_header =
      if r.good && is_http_header buf
      then Option.map (λ name. Hlist.add headers name (get_http_header_value buf))
          (get_http_header_name buf)
      else some headers in
    add_header >>= λ new_headers.
    let later = read_headers lines new_headers in
    if not (length buf == 0) && r.good then later else some (new_headers, r.good)

-- The port of a request, and its host name without it; the last argument is `strchr(host, ':')`.
abbrev pub port_at : RrData → Bytes → Option Bytes → RrData
port_at d host (some tok) = record d {
  hostname = some (take (length host - length tok) host);
  port = atoi (behind_first tok);
}
port_at d host none = record d {
  hostname = some host;
  port = elim d.url [
    | none ↦ d.port
    | some url ↦ if begins_nocase url (codes "https") then 443 else 80
  ];
}

unfoldable pub split_port : RrData → Bytes → RrData
split_port d host = port_at d host (strchr host b':')

unfoldable pub is_named : Option Bytes → Bool
is_named none = false
is_named (some host) = not (length host == 0)

-- The header is added if it is missing.
unfoldable pub with_host : RrData → Bytes → RrData
with_host d host =
    if is_some (Hlist.get d.headers (codes "Host"))
    then d
    else record d { headers = Hlist.add d.headers (some (codes "Host")) (some host) }

-- The host of a request. The flag is an error.
unfoldable pub request_host : RrData → Option Bytes → RrData × Bool
request_host d none = (d, true)
request_host d (some host) =
    let done = split_port (with_host d host) host in
    if length host == 0 then (d, true) else (done, not (is_named done.hostname) || done.port == 0)

-- The message, and the result 1 or 0.
pub record Result : Type 0 where
  pub message : RrData
  pub rc : ℕ

unfoldable pub finish : RrData → Option Bytes → Hlist × Bool → Result
finish d host (headers, good) =
    let all = record d { headers = headers } in
    let fixed = request_host all host in
    if d.req
    then record { message = fixed.0; rc = if fixed.1 then 0 else if good then 1 else 0 }
    else record { message = all; rc = if good then 1 else 0 }

-- The first line has been read.
unfoldable pub receive_rest : List Received → Head → Option Result
receive_rest lines head =
    let headers = read_headers lines head.message.headers in
    if head.failed
    then some (record { message = head.message; rc = 0 })
    else Option.map (finish head.message head.host) headers

unfoldable pub headers_recv : List Received → RrData → Option Result
headers_recv [] d = some (record { message = d; rc = 0 })
headers_recv (r ∷ lines) d =
    if r.good
    then (head_line d (trimr r.text) >>= λ head. receive_rest lines head)
    else some (record { message = d; rc = 0 })
