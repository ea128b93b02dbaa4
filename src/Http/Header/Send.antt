-- ===== src/Http/Header/Send.antt =====
-- `headers_send` stays inside of the buffer whose size it has computed, and writes the message.
use bev_search.Common.{
  ℕ, suc, ◌+◌, ◌-◌, Bool, true, false, not, ◌&&◌, Option, none, some, [], ◌∷◌, ◌++◌, if◌then◌else◌,
  ◌≡◌, ◌≢◌, ◌↔◌, refl, sym, subst, ap, ap₂, ◌∙◌, arith, All, All-append, length, replicate, take,
  length-append, take-append, append_assoc, append-nil, Bool-cases, inl, inr,
}
use mathlib.Core.Option.{some-injective}
use native.Mathlib.Nat.{zero-add}
use bev_search.CString.{Bytes}
use bev_search.CString.Number.{ℤ, pos, negsuc}
use bev_search.Strings.{c_str}
use bev_search.Strings.Copy.{NulFree, c_str-append}
use bev_search.Hlist.{Hlist}
use bev_search.RrData.{RrData}
use bev_search.Ntlm.Buffer.{overwrite, overwrite-zeros, put-append}
use bev_search.Http.Header.{
  ◌>>=◌, crlf, message_room, first_line, header_line, print_at, print_headers, Sent, wrote_all,
  print_first, print_end, send_buffer, headers_send,
}
use bev_search.Http.Header.Room.{headers_text, length-headers_text, line_fits}

print_at-append :
    (w s : Bytes) (n : ℕ)
    → print_at (length w) s (w ++ replicate (length s + suc n) 0)
      ≡ some ((w ++ s) ++ replicate (suc n) 0)
unfolding print_at
print_at-append w s n =
    let over = overwrite-zeros (s ++ 0 ∷ []) n in
    let room : length (s ++ 0 ∷ []) + n ≡ length s + suc n =
      omega (arith, length-append s (0 ∷ [])) in
    put-append w (s ++ 0 ∷ []) (replicate (length s + suc n) 0) (s ++ replicate (suc n) 0) (
      subst (λ m. overwrite (s ++ 0 ∷ []) (replicate m 0) ≡ some (s ++ replicate (suc n) 0)) room
        (over ∙ ap some (append_assoc s (0 ∷ []) (replicate n 0))))
    ∙ ap some (sym (append_assoc w s (replicate (suc n) 0)))

print_headers_all :
    (hs : Hlist) (w : Bytes) (n : ℕ)
    → print_headers hs (length w) (w ++ replicate (length (headers_text hs) + suc n) 0)
      ≡ some (length w + length (headers_text hs), (w ++ headers_text hs) ++ replicate (suc n) 0)
unfolding print_headers
print_headers_all [] w n =
    let e1 : length w ≡ length w + 0 = omega arith in
    let e2 : w ++ replicate (0 + suc n) 0 ≡ (w ++ []) ++ replicate (suc n) 0 =
      rw (zero-add, append-nil) in
    ap₂ (λ m b. some (m, b)) e1 e2
print_headers_all (t ∷ ts) w n =
    let line = header_line t in
    let text = headers_text ts in
    let k = length text + n in
    let room : length line + suc k ≡ length (line ++ text) + suc n =
      omega (arith, length-append line text) in
    let left : suc k ≡ length text + suc n = omega arith in
    let sum : length (w ++ line) + length text ≡ length w + length (line ++ text) =
      omega (arith, length-append line text, length-append w line) in
    let here : print_at (length w) line (w ++ replicate (length (line ++ text) + suc n) 0)
        ≡ some ((w ++ line) ++ replicate (length text + suc n) 0) =
      ap (λ m. print_at (length w) line (w ++ replicate m 0)) (sym room)
      ∙ print_at-append w line k
      ∙ ap (λ m. some ((w ++ line) ++ replicate m 0)) left in
    ap (λ b. b >>= λ buf. print_headers ts (length w + length line) buf) here
    ∙ ap (λ m. print_headers ts m ((w ++ line) ++ replicate (length text + suc n) 0))
        (sym (length-append w line))
    ∙ print_headers_all ts (w ++ line) n
    ∙ ap₂ (λ m b. some (m, b ++ replicate (suc n) 0)) sum (append_assoc w line text)

first_line-skipped :
    (message : RrData)
    → (not message.req && message.skip_http) ≡ true
    → first_line message ≡ some []
unfolding first_line
first_line-skipped message h = ground arith

print_first_line :
    (message : RrData) (line : Bytes) (n : ℕ)
    → first_line message ≡ some line
    → print_first message (replicate (length line + suc n) 0)
      ≡ some (length line, line ++ replicate (suc n) 0)
unfolding print_first
print_first_line message line n there = elim (Bool-cases (not message.req && message.skip_http)) [
  | inl skip ↦
      (let none_printed : line ≡ [] =
          some-injective _ _ (sym there ∙ first_line-skipped message skip) in
        rw skip (
          subst
            (λ l.
              ◌≡◌ {A = Option (ℕ × Bytes)} (some (0, replicate (length l + suc n) 0))
                (some (length l, l ++ replicate (suc n) 0)))
            (sym none_printed) (rw zero-add)))
  | inr printed ↦ rw (printed, there, print_at-append [] line n)
]

headers_text-NulFree :
    (hs : Hlist) → All (λ t. NulFree t.key × NulFree t.value) hs → NulFree (headers_text hs)
headers_text-NulFree [] h = tt
headers_text-NulFree (t ∷ ts) ((key, value), rest) =
    let colon : NulFree (b':' ∷ 32 ∷ t.value) =
      ((λ e. omega (arith, e)), ((λ e. omega (arith, e)), value)) in
    let end : NulFree crlf = omega arith in
    All-append (λ c. c ≢ 0) (header_line t) (headers_text ts)
      (All-append (λ c. c ≢ 0) (t.key ++ b':' ∷ 32 ∷ t.value) crlf
        (All-append (λ c. c ≢ 0) t.key (b':' ∷ 32 ∷ t.value) key colon) end)
      (headers_text-NulFree ts rest)

print_end-append :
    (w : Bytes) (k : ℕ)
    → NulFree w
    → print_end (w ++ replicate (2 + suc k) 0) ≡ some ((w ++ crlf) ++ replicate (suc k) 0)
unfolding print_end
print_end-append w k free =
    let e : 2 + suc k ≡ suc (2 + k) = omega arith in
    let place : c_str (w ++ replicate (2 + suc k) 0) ≡ w =
      ap (λ m. c_str (w ++ replicate m 0)) e ∙ c_str-append w (replicate (2 + k) 0) free in
    ap (λ s. print_at (length s) crlf (w ++ replicate (2 + suc k) 0)) place
    ∙ print_at-append w crlf k

module _ (closed : Bool) (write : Bytes → ℤ) (message : RrData) (room : ℕ) (line : Bytes)
    (enough : message_room message ≡ some room) (there : first_line message ≡ some line)
    (line_free : NulFree line)
    (headers_free : All (λ t. NulFree t.key × NulFree t.value) message.headers) where
  buffer_printed :
      (k : ℕ) × (headers_send closed write message
        ≡ some (
            send_buffer closed write
              (length line + length (headers_text message.headers))
              (((line ++ headers_text message.headers) ++ crlf) ++ replicate (suc k) 0)))
  unfolding headers_send
  buffer_printed =
      let text = headers_text message.headers in
      let fits = line_fits message room line enough there in
      let size = length-headers_text message.headers in
      let k = room - (length line + length text + 3) in
      let n = length text + (2 + k) in
      let e0 : room ≡ length line + suc n = omega (arith, fits, size) in
      let e1 : suc n ≡ length text + suc (2 + k) = omega arith in
      let e2 : suc (2 + k) ≡ 2 + suc k = omega arith in
      let free =
        All-append (λ c. c ≢ 0) line text line_free
          (headers_text-NulFree message.headers headers_free) in
      let first : print_first message (replicate room 0)
          ≡ some (length line, line ++ replicate (length text + suc (2 + k)) 0) =
        ap (λ m. print_first message (replicate m 0)) e0
        ∙ print_first_line message line n there
        ∙ ap (λ m. some (length line, line ++ replicate m 0)) e1 in
      let last : print_end ((line ++ text) ++ replicate (suc (2 + k)) 0)
          ≡ some (((line ++ text) ++ crlf) ++ replicate (suc k) 0) =
        ap (λ m. print_end ((line ++ text) ++ replicate m 0)) e2
        ∙ print_end-append (line ++ text) k free in
      (k, rw (enough, first, print_headers_all message.headers line (2 + k), last))

abbrev number : ℤ → ℕ
number (pos n) = n
number (negsuc n) = 0

wrote_all_iff : (r : ℤ) (len : ℕ) → (wrote_all r len ≡ true) ↔ (r ≡ pos (len + 2))
unfolding wrote_all
wrote_all_iff (pos i) len = (λ h. ap pos (ground (arith, h)), λ e. ground (arith, ap number e))
wrote_all_iff (negsuc i) len = (λ h. cc, λ e. cc)

abbrev one_or_zero : Bool → ℕ
one_or_zero b = if b then 1 else 0

one_iff : (b : Bool) → (one_or_zero b ≡ 1) ↔ (b ≡ true)
one_iff true = (λ _. refl, λ _. refl)
one_iff false = (λ e. absurd (omega (arith, e)), λ e. cc)

-- What is handed to `write` from a buffer that begins with the text, and what its result means.
buffer_sent :
    (closed : Bool) (write : Bytes → ℤ) (len : ℕ) (text rest : Bytes)
    → length text ≡ len + 2
    → let s = send_buffer closed write len (text ++ rest) in
      (closed ≡ true → (s.bytes ≡ none) × (s.rc ≡ 0))
      × (closed ≡ false → (s.bytes ≡ some text) × ((s.rc ≡ 1) ↔ (write text ≡ pos (length text))))
unfolding send_buffer
buffer_sent true write len text rest size = (λ _. (refl, refl), λ e. cc)
buffer_sent false write len text rest size =
    let all : take (len + 2) (text ++ rest) ≡ text = take-append (len + 2) text rest size in
    let full = wrote_all_iff (write text) len in
    let one = one_iff (wrote_all (write text) len) in
    (
      λ e. cc,
      λ _. (
        ap some all,
        subst (λ b. (one_or_zero (wrote_all (write b) len) ≡ 1) ↔ (write text ≡ pos (length text)))
            (sym all)
            (λ e. full.0 (one.0 e) ∙ ap pos (sym size), λ e. one.1 (full.1 (e ∙ ap pos size))),
      ),
    )

-- For a message whose printed members are there and hold no terminator, `headers_send` stays inside of
-- the buffer that it has made. To an open connection it hands the first line, the lines of the headers
-- in their order and an empty line, once, and returns 1 exactly if all of that was written; to a
-- closed one it writes nothing and returns 0.
pub headers_send-text :
    (closed : Bool) (write : Bytes → ℤ) (message : RrData) (room : ℕ) (line : Bytes)
    → message_room message ≡ some room
    → first_line message ≡ some line
    → NulFree line
    → All (λ t. NulFree t.key × NulFree t.value) message.headers
    → let text = (line ++ headers_text message.headers) ++ crlf in
      (s : Sent) × (headers_send closed write message ≡ some s)
      × (closed ≡ true → (s.bytes ≡ none) × (s.rc ≡ 0))
      × (closed ≡ false → (s.bytes ≡ some text) × ((s.rc ≡ 1) ↔ (write text ≡ pos (length text))))
headers_send-text closed write message room line enough there line_free headers_free =
    let (k, printed) =
      buffer_printed closed write message room line enough there line_free headers_free in
    let text = line ++ headers_text message.headers in
    let size : length (text ++ crlf) ≡ length line + length (headers_text message.headers) + 2 =
      omega (arith, length-append text crlf, length-append line (headers_text message.headers)) in
    let sent =
      buffer_sent closed write (length line + length (headers_text message.headers)) (text ++ crlf)
        (replicate (suc k) 0) size in
    (_, printed, sent.0, sent.1)
