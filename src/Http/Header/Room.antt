-- ===== src/Http/Header/Room.antt =====
-- The room that `headers_send` computes for a message.
use bev_search.Common.{
  ℕ, zero, suc, ◌+◌, ◌-◌, ◌/◌, ◌%◌, ◌^◌, ◌≤◌, Bool, true, false, Option, none, some, [], ◌∷◌, ◌++◌,
  ◌≡◌, ap, arith, length, length-append,
}
use mathlib.Core.Option.{some-injective}
use bev_search.CString.{Bytes}
use bev_search.Hlist.{HNode, Hlist}
use bev_search.RrData.{RrData}
use bev_search.Http.Header.{
  digits, print_code, crlf, headers_room, message_room, first_line, header_line,
}

-- The lines of the headers.
abbrev pub headers_text : Hlist → Bytes
headers_text [] = []
headers_text (t ∷ ts) = header_line t ++ headers_text ts

length-digits : (fuel n : ℕ) → length (digits fuel n) ≤ fuel
unfolding digits
length-digits zero n = omega arith
length-digits (suc fuel) n =
    let ih = length-digits fuel (n / 10) in
    let joined = length-append (digits fuel (n / 10)) ((b'0' + n % 10) ∷ []) in
    ground (arith, ih, joined)

length-print_code : (n : ℕ) → length (print_code n) ≤ 12
unfolding print_code
length-print_code n = ground (arith, length-digits 10 n, length-digits 10 (2 ^ 32 - n))

length-header_line : (t : HNode) → length (header_line t) ≡ length t.key + length t.value + 4
length-header_line t =
    let start = t.key ++ b':' ∷ 32 ∷ t.value in
    let all : length (header_line t) ≡ length start + 2 = length-append start crlf in
    omega (arith, all, length-append t.key (b':' ∷ 32 ∷ t.value))

pub length-headers_text : (hs : Hlist) → length (headers_text hs) ≤ headers_room hs
unfolding headers_room
length-headers_text [] = omega arith
length-headers_text (t ∷ ts) =
    let line = header_line t in
    let text = headers_text ts in
    let joined : length (line ++ text) ≡ length line + length text = length-append line text in
    let size : length line ≡ length t.key + length t.value + 4 = length-header_line t in
    omega (arith, length-headers_text ts, joined, size)

-- A message with the members that the first line and its room are made of.
abbrev with_members :
    RrData → Bool → Bool → Option Bytes → Option Bytes → Option Bytes → Option Bytes → RrData
with_members m req skip_http method url http msg = record m {
  req = req;
  skip_http = skip_http;
  method = method;
  url = url;
  http = http;
  msg = msg;
}

words_length :
    (a b c : Bytes) → length (a ++ 32 ∷ b ++ 32 ∷ c ++ crlf) ≡ length a + length b + length c + 4
words_length a b c =
    let two = a ++ 32 ∷ b in
    let three = two ++ 32 ∷ c in
    let e1 : length (three ++ crlf) ≡ length three + 2 = length-append three crlf in
    let e2 : length three ≡ length two + suc (length c) = length-append two (32 ∷ c) in
    let e3 : length two ≡ length a + suc (length b) = length-append a (32 ∷ b) in
    omega (arith, e1, e2, e3)

members_fit :
    (m : RrData) (req skip_http : Bool) (method url http msg : Option Bytes) (room : ℕ)
    (line : Bytes)
    → message_room (with_members m req skip_http method url http msg) ≡ some room
    → first_line (with_members m req skip_http method url http msg) ≡ some line
    → length line + headers_room m.headers + 4 ≤ room
unfolding message_room first_line
members_fit m true skip none url http msg room line enough there = cc
members_fit m true skip (some a) none http msg room line enough there = cc
members_fit m true skip (some a) (some b) none msg room line enough there = cc
members_fit m true skip (some a) (some b) (some c) msg room line enough there =
    let e = words_length a b c in
    let l = ap length (some-injective _ _ there) in omega (arith, some-injective _ _ enough, e, l)
members_fit m false skip method url none msg room line enough there = cc
members_fit m false skip method url (some c) none room line enough there = cc
members_fit m false true method url (some c) (some d) room line enough there =
    omega (arith, some-injective _ _ enough, ap length (some-injective _ _ there))
members_fit m false false method url (some c) (some d) room line enough there =
    let e = words_length c (print_code m.code) d in
    let l = ap length (some-injective _ _ there) in
    omega (arith, some-injective _ _ enough, e, l, length-print_code m.code)

-- The room that is computed is enough for the first line, the headers and what ends them.
pub line_fits :
    (message : RrData) (room : ℕ) (line : Bytes)
    → message_room message ≡ some room
    → first_line message ≡ some line
    → length line + headers_room message.headers + 4 ≤ room
line_fits message room line =
    members_fit message message.req message.skip_http message.method message.url message.http
      message.msg room line
