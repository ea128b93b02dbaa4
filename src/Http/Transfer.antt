-- ===== src/Http/Transfer.antt =====
-- `data_send` of cntlm-0.92.3/http.c. What the source gives is a stream of outcomes of `read`; how many
-- of the bytes that are there one `read` takes, whether the destination is closed and what `write`
-- returns are the kernel's, and may depend on what the source still has.
pub mod Amount
pub mod Rounds
pub mod Complete
use bev_search.Common.{
  ℕ, zero, suc, ◌+◌, ◌-◌, ◌^◌, Bool, true, false, not, ◌&&◌, Option, none, some, List, [], ◌∷◌,
  ◌++◌, ltb, ◌==◌, if◌then◌else◌, length,
}
use bev_search.CString.{Bytes}
use bev_search.CString.Number.{ℤ, pos, negsuc, is_pos}
use bev_search.Socket.{Read, byte, no_more, failure}
use bev_search.Auth.{◌>>=◌}

-- The destination (`dst >= 0`, or none) and the kernel.
pub record Channel : Type 0 where
  pub has_dst : Bool
  pub available : List Read → ℕ
  pub closed : List Read → Bool
  pub wrote : List Read → Bytes → ℤ

-- What is left of the source, what was handed to `write`, and the result.
pub record Sent : Type 0 where
  pub rest : List Read
  pub out : Bytes
  pub rc : Bool

-- One `read`: some bytes, the end of the stream, or an error.
pub data Got : Type 0 where
  got : Bytes → List Read → Got
  at_end broken : List Read → Got

-- At most so many of the bytes that are there.
unfoldable pub grab : ℕ → List Read → Bytes × List Read
grab zero reads = ([], reads)
grab (suc k) [] = ([], [])
grab (suc k) (byte c ∷ reads) = let r = grab k reads in (c ∷ r.0, r.1)
grab (suc k) (no_more ∷ reads) = ([], no_more ∷ reads)
grab (suc k) (failure ∷ reads) = ([], failure ∷ reads)

-- A `read` takes a byte if one is there, and as many more as are available and fit.
unfoldable pub read_block : (List Read → ℕ) → ℕ → List Read → Got
read_block available n [] = at_end []
read_block available n (no_more ∷ reads) = at_end reads
read_block available n (failure ∷ reads) = broken reads
read_block available n (byte c ∷ reads) =
    let k = available reads in
    let r = grab (if ltb k (n - 1) then k else n - 1) reads in got (c ∷ r.0) r.1

-- `len == -1 || len-c > BLOCK ? BLOCK : len-c`; a negative size reads behind the buffer.
unfoldable pub block_size : ℤ → ℕ → Option ℕ
block_size (pos len) c = some (if ltb 2048 (len - c) then 2048 else len - c)
block_size (negsuc zero) c = some 2048
block_size (negsuc (suc n)) c = none

-- `len == -1 || c < len`
unfoldable pub goes_on : ℤ → ℕ → Bool
goes_on (pos len) c = ltb c len
goes_on (negsuc n) c = n == 0

-- `len == -1 || c == len`
unfoldable pub is_whole : ℤ → ℕ → Bool
is_whole (pos len) c = c == len
is_whole (negsuc n) c = n == 0

abbrev pub stop : List Read → Bytes → Bool → Option Sent
stop rest out rc = some (record { rest = rest; out = out; rc = rc })

abbrev pub add_out : Bytes → Option Sent → Option Sent
add_out b none = none
add_out b (some r) = some (record r { out = b ++ r.out })

-- What follows a `read`, with the rounds that may come. `none` is a count that an int does not hold.
unfoldable pub send_round : Channel → ℤ → ℕ → Got → (ℕ → List Read → Option Sent) → Option Sent
send_round k len c (at_end rest) next =
    stop rest [] (not (k.has_dst && k.closed rest) && is_whole len c)
send_round k len c (broken rest) next = stop rest [] false
send_round k len c (got b rest) next =
    let count = c + length b in
    let later = next count rest in
    if not (ltb count (2 ^ 31))
    then none
    else if k.has_dst && k.closed rest
    then stop rest [] false
    else if k.has_dst && not (is_pos (k.wrote rest b))
    then stop rest b false
    else add_out (if k.has_dst then b else [])
        (if goes_on len count then later else stop rest [] true)

-- The loop after `c` bytes.
unfoldable pub send_loop : Channel → ℤ → ℕ → ℕ → List Read → Option Sent
send_loop k len zero c reads = none
send_loop k len (suc rounds) c reads = block_size len c >>= λ block.
    send_round k len c (read_block k.available block reads) (send_loop k len rounds)

-- A round takes something from the source, or is the last.
unfoldable pub data_send : Channel → List Read → ℤ → Option Sent
data_send k reads (pos zero) = stop reads [] true
data_send k reads (pos (suc n)) = send_loop k (pos (suc n)) (length reads + 1) 0 reads
data_send k reads (negsuc n) = send_loop k (negsuc n) (length reads + 1) 0 reads
