-- ===== src/Base64.antt =====
-- The Base64 coder of cntlm-0.92.3/utils.c, over bytes below 256. The encoder is given the room in
-- its output; the decoder reports its bytes and whether it reached the end.
pub mod Fields
pub mod RoundTrip
pub mod Room
use bev_search.Common.{
  ℕ, zero, suc, ◌+◌, ◌-◌, ◌*◌, ◌/◌, ◌%◌, Bool, true, false, not, ◌&&◌, ◌||◌, Option, none, some,
  List, [], ◌∷◌, ◌++◌, ltb, leb, ◌==◌, if◌then◌else◌, bit_and, bit_or,
}
use mathlib.Core.Option
use bev_search.CString.{Bytes}

-- `base64[d]`, for a digit below 64.
unfoldable pub base64 : ℕ → ℕ
base64 d =
    if ltb d 26
    then b'A' + d
    else if ltb d 52
    then b'a' + (d - 26)
    else if ltb d 62
    then b'0' + (d - 52)
    else if d == 62
    then b'+'
    else b'/'

-- `index64[c]`, for a byte below 128; `none` is BAD.
unfoldable pub index64 : ℕ → Option ℕ
index64 c =
    if leb b'A' c && leb c b'Z'
    then some (c - b'A')
    else if leb b'a' c && leb c b'z'
    then some (c - b'a' + 26)
    else if leb b'0' c && leb c b'9'
    then some (c - b'0' + 52)
    else if c == b'+'
    then some 62
    else if c == b'/'
    then some 63
    else none

-- The digits of three bytes.
pub digit1 : ℕ → ℕ
digit1 a = a / 4

pub digit2 : ℕ → ℕ → ℕ
digit2 a b = bit_or (bit_and (a * 16) 0x30) (b / 16)

pub digit3 : ℕ → ℕ → ℕ
digit3 b c = bit_or (bit_and (b * 4) 0x3c) (c / 64)

pub digit4 : ℕ → ℕ
digit4 c = bit_and c 0x3f

-- `to_base64`: the text that stands before the terminator in the output. The full groups stop at
-- `olen <= 10`, and the remainder is dropped at `olen <= 4`.
pub remainder : Bytes → ℕ → Bytes
unfolding base64 digit1 digit3
remainder [] olen = []
remainder (a ∷ []) olen =
    if ltb 4 olen then base64 (digit1 a) ∷ base64 (bit_and (a * 16) 0x30) ∷ b'=' ∷ b'=' ∷ [] else []
remainder (a ∷ b ∷ rest) olen =
    if ltb 4 olen
    then base64 (digit1 a)
      ∷ base64 (bit_or (bit_and (a * 16) 0x30) (b / 16))
      ∷ base64 (bit_and (b * 4) 0x3c)
      ∷ b'='
      ∷ []
    else []

unfoldable pub to_base64 : Bytes → ℕ → Bytes
unfolding remainder digit2 digit4
to_base64 (a ∷ b ∷ c ∷ rest) olen =
    let short = remainder (a ∷ b ∷ c ∷ rest) olen in
    let group =
      base64 (digit1 a)
      ∷ base64 (digit2 a b)
      ∷ base64 (digit3 b c)
      ∷ base64 (digit4 c)
      ∷ to_base64 rest (olen - 4) in
    if ltb 10 olen then group else short
to_base64 rest olen = remainder rest olen

-- What `from_base64` has written when it returns: the whole text, or the bytes before a bad digit.
pub record Decoded : Type 0 where
  pub out : Bytes
  pub good : Bool

abbrev bad : Decoded
bad = record { out = []; good = false }

abbrev behind : Bytes → Decoded → Decoded
behind s r = record r { out = s ++ r.out }

-- A digit: BAD from 128 on; `=` is BAD as a digit and is told apart by its byte.
pub value : ℕ → Option ℕ
unfolding index64
value c = if leb 128 c then none else index64 c

-- The third and fourth digit may be `=`, for which the inner option is `none`.
pub value_or_pad : ℕ → Option (Option ℕ)
unfolding value
value_or_pad c =
    if leb 128 c then none else if c == b'=' then some none else Option.map some (value c)

pub byte1 : ℕ → ℕ → ℕ
byte1 u v = bit_or (u * 4) (v / 16) % 256

pub byte2 : ℕ → ℕ → ℕ
byte2 v w = bit_or (bit_and (v * 16) 0xf0) (w / 4) % 256

pub byte3 : ℕ → ℕ → ℕ
byte3 w x = bit_or (bit_and (w * 64) 0xc0) x % 256

pub group : ℕ → ℕ → Option ℕ → Option ℕ → Bytes
unfolding byte1 byte2 byte3
group u v none fourth = byte1 u v ∷ []
group u v (some w) none = byte1 u v ∷ byte2 v w ∷ []
group u v (some w) (some x) = byte1 u v ∷ byte2 v w ∷ byte3 w x ∷ []

infixl 5 ◌>>=◌
abbrev ◌>>=◌ : {A B : Type 0} → Option A → (A → Option B) → Option B
none >>= f = none
some a >>= f = f a

-- The checks of the four digits, each before the next is read, and the bytes that they stand for.
pub quad : ℕ → ℕ → ℕ → ℕ → Option Bytes
unfolding value value_or_pad group
quad a b c d = do
  u ← value a
  v ← value b
  w ← value_or_pad c
  x ← value_or_pad d
  some (group u v w x)

-- The test at the end of a round: the text has ended, or the last digit was `=`.
pub continue : ℕ → Bytes → Decoded → Decoded
continue d [] later = record { out = []; good = true }
continue d (x ∷ rest) later = if d == b'=' then record { out = []; good = true } else later

unfoldable pub from_base64 : Bytes → Decoded
unfolding quad continue
from_base64 (a ∷ b ∷ c ∷ d ∷ rest) =
    let later = from_base64 rest in
    elim (quad a b c d) [ none ↦ bad | some s ↦ behind s (continue d rest later) ]
from_base64 rest = bad
