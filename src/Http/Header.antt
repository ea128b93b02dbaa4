-- ===== src/Http/Header.antt =====
-- The lines of headers, and `headers_send`, which prints a message into a buffer of the size that it
-- has computed before.
pub mod Lines
pub mod Room
pub mod Send
use bev_search.Common.{
  ℕ, zero, suc, ◌+◌, ◌-◌, ◌^◌, ◌/◌, ◌%◌, Bool, true, false, not, Option, none, some, List, [], ◌∷◌,
  ◌++◌, ltb, ◌==◌, if◌then◌else◌, length, replicate, take, ◌&&◌,
}
use bev_search.CString.{Bytes, codes, strcspn, strchr}
use bev_search.CString.Number.{ℤ, pos, negsuc}
use mathlib.Core.Option
use bev_search.Strings.{c_str, substr}
use bev_search.Hlist.{HNode, Hlist}
use bev_search.RrData.{RrData}
use bev_search.Ntlm.Buffer.{put}

infixl 5 ◌>>=◌
abbrev pub ◌>>=◌ : {A B : Type 0} → Option A → (A → Option B) → Option B
none >>= f = none
some a >>= f = f a

unfoldable pub is_http_header : Bytes → Bool
is_http_header src = not (strcspn src b':' == length src)

-- The outer option is an access outside of the text, the inner one NULL.
unfoldable pub get_http_header_name : Bytes → Option (Option Bytes)
get_http_header_name src =
    let i = strcspn src b':' in
    if not (i == length src) then Option.map some (substr src 0 i) else some none

-- `while (*sub == ' ') sub++`
unfoldable pub skip_spaces : Bytes → Bytes
skip_spaces [] = []
skip_spaces (c ∷ sub) = let rest = skip_spaces sub in if c == 32 then rest else c ∷ sub

-- `sub++`, behind the byte that was found.
abbrev pub behind_first : Bytes → Bytes
behind_first [] = []
behind_first (c ∷ sub) = sub

unfoldable pub get_http_header_value : Bytes → Option Bytes
get_http_header_value src = Option.map (λ sub. skip_spaces (behind_first sub)) (strchr src b':')

-- Decimal digits, for numbers of at most `fuel` digits.
unfoldable pub digits : ℕ → ℕ → Bytes
digits zero n = []
digits (suc fuel) n =
    let higher = digits fuel (n / 10) in
    if ltb n 10 then (b'0' + n) ∷ [] else higher ++ (b'0' + n % 10) ∷ []

-- `%03d` for the bit pattern of a 32-bit int.
unfoldable pub print_code : ℕ → Bytes
print_code n =
    let short = if ltb n 10 then codes "00" else if ltb n 100 then codes "0" else [] in
    let m = 2 ^ 32 - n in
    if ltb n (2 ^ 31)
    then short ++ digits 10 n
    else b'-' ∷ (if ltb m 10 then codes "0" else []) ++ digits 10 m

abbrev pub crlf : Bytes
crlf = 13 ∷ 10 ∷ []

-- The room for the headers, and for the message; `none` is `strlen` of NULL.
unfoldable pub headers_room : Hlist → ℕ
headers_room [] = 0
headers_room (t ∷ ts) = 20 + length t.key + length t.value + headers_room ts

unfoldable pub message_room : RrData → Option ℕ
unfolding headers_room
message_room message =
    if message.req
    then (message.method >>= λ method. message.url >>= λ url. message.http >>= λ http.
        some (20 + length method + length url + length http + headers_room message.headers))
    else message.http >>= λ http.
        message.msg >>= λ msg. some (20 + length http + length msg + headers_room message.headers)

-- The first line.
unfoldable pub first_line : RrData → Option Bytes
first_line message =
    if message.req
    then (message.method >>= λ method. message.url >>= λ url.
        message.http >>= λ http. some (method ++ 32 ∷ url ++ 32 ∷ http ++ crlf))
    else if not message.skip_http
    then (message.http >>= λ http.
        message.msg >>= λ msg. some (http ++ 32 ∷ print_code message.code ++ 32 ∷ msg ++ crlf))
    else some []

abbrev pub header_line : HNode → Bytes
header_line t = t.key ++ b':' ∷ 32 ∷ t.value ++ crlf

-- `sprintf(buf + at, …)` writes a text and its terminator; `none` is a write behind the buffer.
unfoldable pub print_at : ℕ → Bytes → Bytes → Option Bytes
print_at at s buf = put at (s ++ 0 ∷ []) buf

-- The loop over the headers: the length so far and the buffer.
unfoldable pub print_headers : Hlist → ℕ → Bytes → Option (ℕ × Bytes)
unfolding print_at
print_headers [] len buf = some (len, buf)
print_headers (t ∷ ts) len buf =
    print_at len (header_line t) buf >>= λ buf. print_headers ts (len + length (header_line t)) buf

-- What is handed to `write`, and the result.
pub record Sent : Type 0 where
  pub bytes : Option Bytes
  pub rc : ℕ

-- `i <= 0 || i != len+2`
unfoldable pub wrote_all : ℤ → ℕ → Bool
wrote_all (pos i) len = not (i == 0) && i == len + 2
wrote_all (negsuc i) len = false

-- The first line in the buffer; a response of HTTP/0.9 has none.
unfoldable pub print_first : RrData → Bytes → Option (ℕ × Bytes)
unfolding print_at first_line
print_first message buf =
    if not message.req && message.skip_http
    then some (0, buf)
    else (first_line message >>= λ line. print_at 0 line buf >>= λ buf. some (length line, buf))

-- `strcat(buf, "\r\n")`
unfoldable pub print_end : Bytes → Option Bytes
unfolding print_at
print_end buf = print_at (length (c_str buf)) crlf buf

unfoldable pub send_buffer : Bool → (Bytes → ℤ) → ℕ → Bytes → Sent
send_buffer closed write len buf =
    let bytes = take (len + 2) buf in
    if closed
    then record { bytes = none; rc = 0 }
    else record { bytes = some bytes; rc = if wrote_all (write bytes) len then 1 else 0 }

-- The tests of the descriptor and `write` are parameters; `new` gives a buffer of zeros.
unfoldable pub headers_send : Bool → (Bytes → ℤ) → RrData → Option Sent
headers_send closed write message = message_room message >>= λ room.
    print_first message (replicate room 0) >>= λ first.
    print_headers message.headers first.0 first.1 >>= λ all.
    print_end all.1 >>= λ buf. some (send_buffer closed write all.0 buf)
