-- ===== src/Strings.antt =====
-- The string helpers of cntlm-0.92.3/utils.c. A buffer is the list of all its bytes, a string
-- is the list of the bytes before its terminator, and `none` is an access outside of a buffer.
pub mod Copy
pub mod Trim
pub mod Url
use bev_search.Common.{
  ℕ, zero, suc, ◌+◌, ◌-◌, ◌*◌, ◌/◌, ◌%◌, ◌^◌, min, Bool, true, false, ◌&&◌, ◌||◌, Option, none,
  some, List, [], ◌∷◌, ◌++◌, map, ltb, leb, ◌==◌, if◌then◌else◌, length, take, drop, replicate,
  get_or,
}
use bev_search.CString.{Bytes, to_lower, to_upper, is_space, is_digit}
use mathlib.Core.Option

-- The string that a buffer holds.
unfoldable pub c_str : Bytes → Bytes
c_str [] = []
c_str (zero ∷ s) = []
c_str (suc c ∷ s) = suc c ∷ c_str s

abbrev push : ℕ → Option Bytes → Option Bytes
push c = Option.map (λ s. c ∷ s)

-- `*d = '\0'`
terminate : Bytes → Option Bytes
terminate [] = none
terminate (x ∷ dst) = some (0 ∷ dst)

-- The bytes that fit into the given room, and the terminator behind them.
unfoldable pub copy : ℕ → Bytes → Bytes → Option Bytes
unfolding terminate
copy zero dst src = terminate dst
copy (suc n) dst [] = terminate dst
copy (suc n) [] (c ∷ src) = none
copy (suc n) (x ∷ dst) (c ∷ src) = push c (copy n dst src)

-- The new destination and the length that the copy tried to make.
unfoldable pub strlcpy : Bytes → Bytes → ℕ → Option (Bytes × ℕ)
unfolding copy
strlcpy dst src zero = some (dst, length src)
strlcpy dst src (suc n) = Option.map (λ d. (d, length src)) (copy n dst src)

-- The walk to the end of `dst`, but for at most `siz` bytes, and the copy behind it.
cat : ℕ → Bytes → Bytes → Option (Bytes × ℕ)
unfolding copy
cat zero dst src = some (dst, length src)
cat (suc n) [] src = none
cat (suc n) (zero ∷ dst) src = Option.map (λ d. (d, length src)) (copy n (zero ∷ dst) src)
cat (suc n) (suc c ∷ dst) src = Option.map (λ r. (suc c ∷ r.0, suc r.1)) (cat n dst src)

unfoldable pub strlcat : Bytes → Bytes → ℕ → Option (Bytes × ℕ)
unfolding cat
strlcat dst src siz = cat siz dst src

-- `strlen(src)-pos` is computed in `size_t`. The result is the string in the new buffer.
unfoldable pub substr : Bytes → ℕ → ℕ → Option Bytes
unfolding strlcpy c_str
substr src pos len =
    let wanted = if len == 0 then length src else len in
    let behind = (length src + 2 ^ 64 - pos) % 2 ^ 64 in
    let l = if ltb wanted behind then wanted else behind in
    if l == 0
    then some []
    else if leb pos (length src)
    then Option.map (λ r. c_str r.0) (strlcpy (replicate (l + 1) 0) (drop pos src) (l + 1))
    else none

-- The loop of `trimr` from the last byte; the result is `i + 1`.
trim_end : ℕ → Bytes → ℕ
trim_end zero buf = 0
trim_end (suc i) buf =
    let left = trim_end i buf in if is_space (get_or buf i 0) then left else suc i

unfoldable pub trimr : Bytes → Bytes
unfolding trim_end is_space
trimr buf = take (trim_end (length buf) buf) buf

abbrev pub lowercase : Bytes → Bytes
lowercase = map to_lower

abbrev pub uppercase : Bytes → Bytes
uppercase = map to_upper

unfoldable pub widen : ℕ → Bytes → Bytes
widen zero src = []
widen (suc l) [] = []
widen (suc l) (c ∷ src) = c ∷ 0 ∷ widen l src

-- The buffer and its length, for a text that is not NULL.
unfoldable pub unicode : Bytes → Bytes × ℕ
unfolding widen
unicode src = let l = min 64 (length src) in (widen l src, 2 * l)

unreserved : ℕ → Bool
unfolding is_digit to_lower
unreserved c =
    is_digit c
    || (leb b'a' (to_lower c) && leb (to_lower c) b'z')
    || c == b'.'
    || c == b'-'
    || c == b'_'
    || c == b'~'

-- `hextab`, whose digits `%X` prints too.
unfoldable pub hex_digit : ℕ → ℕ
hex_digit d = if ltb d 10 then b'0' + d else b'A' + (d - 10)

-- What a byte puts into the zeroed buffer: `%X` prints one digit below 16, but `pos` moves on by 3.
url_piece : ℕ → Bytes
unfolding unreserved hex_digit
url_piece c =
    if unreserved c
    then c ∷ []
    else if ltb c 16
    then b'%' ∷ hex_digit c ∷ 0 ∷ []
    else b'%' ∷ hex_digit (c / 16) ∷ hex_digit (c % 16) ∷ []

url_pieces : Bytes → Bytes
unfolding url_piece
url_pieces [] = []
url_pieces (c ∷ s) = url_piece c ++ url_pieces s

unfoldable pub urlencode : Bytes → Bytes
unfolding url_pieces c_str
urlencode s = c_str (url_pieces s)
