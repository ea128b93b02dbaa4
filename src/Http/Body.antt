-- ===== src/Http/Body.antt =====
-- `http_has_body`, and the choice that `http_body_send` and `http_body_drop` make.
pub mod Rules
use bev_search.Common.{
  ℕ, Bool, true, false, not, ◌&&◌, ◌||◌, Option, none, some, List, [], ◌∷◌, ltb, leb, ◌==◌,
  if◌then◌else◌,
}
use bev_search.CString.{Bytes, codes, same_nocase, is_some}
use bev_search.CString.Number.{ℤ, pos, negsuc, atoll}
use mathlib.Core.Option
use bev_search.Hlist
use bev_search.RrData.{RrData}

-- `!strcasecmp(name, data->method)`; a request has a method.
unfoldable pub has_method : Bytes → Option Bytes → Bool
has_method name none = false
has_method name (some m) = same_nocase name m

-- The macros HEAD and GET.
unfoldable pub is_head : Option RrData → Bool
unfolding has_method
is_head none = false
is_head (some d) = d.req && has_method (codes "HEAD") d.method

unfoldable pub is_get : Option RrData → Bool
unfolding has_method
is_get none = false
is_get (some d) = d.req && has_method (codes "GET") d.method

-- No body comes with a response to HEAD, or of class 1xx, 204 or 304.
unfoldable pub response_nobody : Option RrData → RrData → Bool
response_nobody request response =
    is_head request
    || (leb 100 response.code && ltb response.code 200)
    || response.code == 204
    || response.code == 304

unfoldable pub request_nobody : Option RrData → Bool
request_nobody request = is_get request || is_head request

-- The length by the headers: -1 is a body until the end of the stream, 1 stands for a chunked one.
unfoldable pub body_length : RrData → Bool → ℤ
body_length current nobody =
    let tmp = Hlist.get current.headers (codes "Content-Length") in
    if not nobody
      && not (is_some tmp)
      && (Hlist.has current.headers (codes "Content-Type")
          || Hlist.has current.headers (codes "Transfer-Encoding")
          || Hlist.subcmp current.headers (codes "Connection") (codes "close"))
    then (if Hlist.has current.headers (codes "Transfer-Encoding")
          && Hlist.subcmp current.headers (codes "Transfer-Encoding") (codes "chunked")
        then pos 1
        else negsuc 0)
    else elim tmp [ none ↦ pos 0 | some text ↦ if nobody then pos 0 else atoll text ]

-- `current == request && length == -1`
unfoldable pub no_stream : ℤ → ℤ
no_stream (pos n) = pos n
no_stream (negsuc n) = if n == 0 then pos 0 else negsuc n

-- The body of a request: there is no response, or an empty one.
request_body : Option RrData → Option ℤ
request_body none = none
request_body (some request) = some (no_stream (body_length request (request_nobody (some request))))

-- `none` is an access through a NULL pointer: neither structure is there to be read.
unfoldable pub http_has_body : Option RrData → Option RrData → Option ℤ
unfolding request_body
http_has_body request none = request_body request
http_has_body request (some response) =
    if response.empty
    then request_body request
    else some (body_length response (response_nobody request response))

-- What `http_body_send` and `http_body_drop` do for a message: nothing, pass a chunked body on, or pass
-- on a number of bytes (all, for -1).
pub data Forwarding : Type 0 where
  nothing : Forwarding
  chunked : Forwarding
  plain : ℤ → Forwarding

unfoldable pub is_zero : ℤ → Bool
is_zero (pos n) = n == 0
is_zero (negsuc n) = false

unfoldable pub forwarding : RrData → ℤ → Forwarding
unfolding is_zero
forwarding current bodylen =
    if is_zero bodylen
    then nothing
    else if Hlist.subcmp current.headers (codes "Transfer-Encoding") (codes "chunked")
    then chunked
    else plain bodylen

unfoldable pub http_body_send : RrData → RrData → Option Forwarding
http_body_send request response =
    let current = if response.empty then request else response in
    Option.map (forwarding current) (http_has_body (some request) (some response))

unfoldable pub http_body_drop : RrData → Option Forwarding
http_body_drop response = Option.map (forwarding response) (http_has_body none (some response))
