-- ===== src/Http/Chunked.antt =====
-- `chunked_data_send` of cntlm-0.92.3/http.c: the lines with the sizes, the chunks, and the trailer.
pub mod Grammar
pub mod Lines
pub mod Forward
use bev_search.Common.{
  ℕ, zero, suc, ◌+◌, ◌^◌, Bool, true, false, not, ◌&&◌, ◌||◌, Option, none, some, List, [], ◌∷◌,
  ◌++◌, ltb, ◌==◌, if◌then◌else◌, length, drop, get_or,
}
use bev_search.CString.{Bytes, is_space}
use bev_search.CString.Number.{ℤ, pos, negsuc, is_pos, Long, strtol16, int_of_long, signed}
use bev_search.Strings.{c_str}
use bev_search.Socket.{Read, Line, so_recvln}
use bev_search.Auth.{◌>>=◌}
use bev_search.Http.Body.{Forwarding, nothing, chunked, plain}
use bev_search.Http.Transfer.{Channel, Sent, stop, add_out, data_send}

-- What `so_recvln` leaves of the source: it took the bytes of the line, and the end if there was no line.
unfoldable pub behind_line : Line → List Read → List Read
behind_line l reads = drop (length l.text + (if is_pos l.r then 0 else 1)) reads

unfoldable pub recv_line : List Read → ℕ → Option (Line × List Read)
recv_line reads size = so_recvln reads size >>= λ l. some (l, behind_line l reads)

-- `isspace(*err) || *err == ';'`
unfoldable pub is_delimited : Bytes → Bool
is_delimited err = is_space (get_or err 0 0) || get_or err 0 0 == b';'

-- `csize` of a line, or none for a format error.
unfoldable pub chunk_size : Bytes → Option ℤ
chunk_size line =
    let l = strtol16 line in if is_delimited l.rest then some (signed (int_of_long l)) else none

-- `csize+2`; `none` is a value that an int does not hold.
unfoldable pub with_crlf : ℤ → Option ℤ
with_crlf (pos n) = if ltb (n + 2) (2 ^ 31) then some (pos (n + 2)) else none
with_crlf (negsuc zero) = some (pos 1)
with_crlf (negsuc (suc zero)) = some (pos 0)
with_crlf (negsuc (suc (suc n))) = some (negsuc n)

-- `if (dst >= 0) write(dst, buf, strlen(buf))`
unfoldable pub passed : Channel → Bytes → Bytes
passed k line = if k.has_dst then c_str line else []

-- `buf[0] == '\r' || buf[0] == '\n'`
unfoldable pub is_blank : Bytes → Bool
is_blank line = get_or line 0 0 == 13 || get_or line 0 0 == 10

-- The lines of the trailer, up to a blank one or the end.
unfoldable pub trailer_loop : Channel → ℕ → ℕ → List Read → Option Sent
trailer_loop k zero size reads = none
trailer_loop k (suc rounds) size reads = recv_line reads size >>= λ r.
    let later = trailer_loop k rounds r.0.size r.1 in
    if not (is_pos r.0.r)
    then stop r.1 [] true
    else add_out (passed k r.0.text) (if is_blank r.0.text then stop r.1 [] true else later)

-- The chunk behind its size.
unfoldable pub send_chunk : Channel → ℤ → List Read → (List Read → Option Sent) → Option Sent
send_chunk k csize reads next = with_crlf csize >>= λ len. data_send k reads len >>= λ d.
    let later = next d.rest in add_out d.out (if d.rc then later else stop d.rest [] false)

-- What follows a line, from its size.
unfoldable pub after_size :
    Channel
    → Line
    → List Read
    → Option ℤ
    → (List Read → Option Sent)
    → (List Read → Option Sent)
    → Option Sent
after_size k l rest none next trailer = stop rest [] false
after_size k l rest (some (pos zero)) next trailer = add_out (passed k l.text) (trailer rest)
after_size k l rest (some (pos (suc n))) next trailer =
    add_out (passed k l.text) (send_chunk k (pos (suc n)) rest next)
after_size k l rest (some (negsuc n)) next trailer =
    add_out (passed k l.text) (send_chunk k (negsuc n) rest next)

-- A round takes a line at least, or is the last.
unfoldable pub chunk_loop : Channel → ℕ → ℕ → List Read → Option Sent
chunk_loop k zero size reads = none
chunk_loop k (suc rounds) size reads = recv_line reads size >>= λ r.
    let later =
      after_size k r.0 r.1 (chunk_size (c_str r.0.text)) (chunk_loop k rounds r.0.size)
        (λ rest. trailer_loop k (length rest + 1) r.0.size rest) in
    if is_pos r.0.r then later else stop r.1 [] false

-- The buffer has BUFSIZE bytes.
unfoldable pub chunked_data_send : Channel → List Read → Option Sent
chunked_data_send k reads = chunk_loop k (length reads + 1) 4096 reads

-- What `http_body_send` and `http_body_drop` do for a message whose body is of that kind.
unfoldable pub forward_body : Channel → List Read → Forwarding → Option Sent
forward_body k reads nothing = stop reads [] true
forward_body k reads chunked = chunked_data_send k reads
forward_body k reads (plain bodylen) = data_send k reads bodylen
