-- ===== src/Socket.antt =====
-- The test for a closed connection and the reading of a line in cntlm-0.92.3/socket.c. What `recv`
-- with MSG_PEEK and `read` find is the kernel's: it is a parameter, with the outcomes that the code
-- tells apart.
pub mod Lines
use bev_search.Common.{
  ℕ, Bool, true, false, not, Option, none, some, List, [], ◌∷◌, ltb, ◌+◌, ◌*◌, ◌-◌, ◌%◌, ◌^◌, ◌==◌,
  if◌then◌else◌,
}
use bev_search.CString.{Bytes}
use bev_search.CString.Number.{ℤ, pos, negsuc}

-- The values of `errno` that `so_closed` tells apart.
pub data Errno : Type 0 where
  eagain enoent other_errno : Errno

-- What `so_recvtest` returns: a byte is there, the end of the stream, or -1 with `errno`.
pub data Probe : Type 0 where
  ready eof : Probe
  failed : Errno → Probe

-- A descriptor is the bit pattern of a 32-bit int; the cast from `unsigned long` keeps 32 bits.
abbrev pub int_of : ℕ → ℕ
int_of k = k % 2 ^ 32

abbrev pub minus_one : ℕ
minus_one = 2 ^ 32 - 1

probe_closed : Probe → Bool
probe_closed ready = false
probe_closed eof = true
probe_closed (failed eagain) = false
probe_closed (failed enoent) = false
probe_closed (failed other_errno) = true

unfoldable pub so_closed : (ℕ → Probe) → ℕ → Bool
unfolding probe_closed
so_closed recvtest fd = if fd == minus_one then true else probe_closed (recvtest fd)

-- What `read(fd, &c, 1)` gives: a byte, the end of the stream, or an error. The stream has ended where
-- the list of them ends.
pub data Read : Type 0 where
  byte : ℕ → Read
  no_more failure : Read

-- What `so_recvln` leaves: the bytes before the terminator, the size of the buffer, and the result.
pub record Line : Type 0 where
  pub text : Bytes
  pub size : ℕ
  pub r : ℤ

-- `(*buf)[len] = 0`; `none` is a write behind the buffer.
unfoldable pub end_line : ℕ → ℕ → ℤ → Option Line
end_line size len r = if ltb len size then some (record { text = []; size = size; r = r }) else none

abbrev pub push_byte : ℕ → Option Line → Option Line
push_byte c none = none
push_byte c (some l) = some (record l { text = c ∷ l.text })

-- The loop, from `len` bytes in a buffer of `size`. `none` is a write behind the buffer, or a size that
-- an int does not hold.
unfoldable pub recv_loop : List Read → ℕ → ℕ → Option Line
unfolding end_line
recv_loop [] size len =
    if ltb len (size - 1) then end_line size len (pos 0) else end_line size len (pos 1)
recv_loop (no_more ∷ reads) size len =
    if ltb len (size - 1) then end_line size len (pos 0) else end_line size len (pos 1)
recv_loop (failure ∷ reads) size len =
    if ltb len (size - 1) then end_line size len (negsuc 0) else end_line size len (pos 1)
recv_loop (byte c ∷ reads) size len =
    let larger = recv_loop reads (size * 2) (len + 1) in
    let same_size = recv_loop reads size (len + 1) in
    if not (ltb len (size - 1))
    then end_line size len (pos 1)
    else if not (ltb len size)
    then none
    else if c == 10
    then push_byte c (end_line size (len + 1) (pos 1))
    else if not (len + 1 == size - 1)
    then push_byte c same_size
    else if ltb (size * 2) (2 ^ 31)
    then push_byte c larger
    else none

-- `realloc` finds memory.
unfoldable pub so_recvln : List Read → ℕ → Option Line
so_recvln reads size = recv_loop reads size 0
