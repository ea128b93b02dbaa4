-- ===== src/CString/Number.antt =====
-- The numbers of the C library: `strtol` in base 10, `atoll`, and signed results.
use bev_search.Common.{
  ltb, leb, ◌&&◌, ◌||◌, Option, none, some, ℕ, zero, suc, ◌+◌, ◌-◌, ◌*◌, ◌^◌, ◌%◌, min, Bool, true,
  false, [], ◌∷◌, ◌==◌, if◌then◌else◌,
}
use bev_search.CString.{Bytes, is_space, is_digit}

-- `negsuc n` is -(n + 1).
pub data ℤ : Type 0 where
  pos : ℕ → ℤ
  negsuc : ℕ → ℤ

-- `0 < i`
unfoldable pub is_pos : ℤ → Bool
is_pos (pos n) = ltb 0 n
is_pos (negsuc n) = false

-- -n
unfoldable pub negate : ℕ → ℤ
negate zero = pos 0
negate (suc n) = negsuc n

-- What `strtol(s, &tmp, 10)` reads: a sign, a magnitude, and the rest that it leaves.
pub record Long : Type 0 where
  pub negative : Bool
  pub magnitude : ℕ
  pub rest : Bytes

digits_of : ℕ → Bytes → ℕ × Bytes
unfolding is_digit
digits_of n [] = (n, [])
digits_of n (c ∷ s) = if is_digit c then digits_of (n * 10 + (c - b'0')) s else (n, c ∷ s)

starts_with_digit : Bytes → Bool
unfolding is_digit
starts_with_digit [] = false
starts_with_digit (c ∷ s) = is_digit c

-- Without a digit nothing is read: the rest is the whole text.
signed_digits : Bytes → Bool → Bytes → Long
unfolding digits_of starts_with_digit
signed_digits whole negative s =
    let (n, rest) = digits_of 0 s in
    if starts_with_digit s
    then record { negative = negative; magnitude = n; rest = rest }
    else record { negative = false; magnitude = 0; rest = whole }

-- White space and a sign, in front of the digits that `read` takes.
after_space : (Bytes → Bool → Bytes → Long) → Bytes → Bytes → Long
unfolding is_space
after_space read whole [] = read whole false []
after_space read whole (c ∷ s) =
    if is_space c
    then after_space read whole s
    else if c == b'-'
    then read whole true s
    else if c == b'+'
    then read whole false s
    else read whole false (c ∷ s)

unfoldable pub strtol10 : Bytes → Long
unfolding after_space signed_digits
strtol10 s = after_space signed_digits s s

-- The value of a hexadecimal digit.
unfoldable pub hex_value : ℕ → Option ℕ
unfolding is_digit
hex_value c =
    if is_digit c
    then some (c - b'0')
    else if leb b'a' c && leb c b'f'
    then some (c - b'a' + 10)
    else if leb b'A' c && leb c b'F'
    then some (c - b'A' + 10)
    else none

hex_digits_of : ℕ → Bytes → ℕ × Bytes
unfolding hex_value
hex_digits_of n [] = (n, [])
hex_digits_of n (c ∷ s) = elim (hex_value c) [
  | none ↦ (n, c ∷ s)
  | some v ↦ hex_digits_of (n * 16 + v) s
]

starts_with_hex : Bytes → Bool
unfolding hex_value
starts_with_hex [] = false
starts_with_hex (c ∷ s) = elim (hex_value c) [ none ↦ false | some v ↦ true ]

-- `0x` may stand in front of a digit.
without_prefix : Bytes → Bytes
unfolding starts_with_hex
without_prefix (c ∷ d ∷ s) =
    if c == b'0' && (d == b'x' || d == b'X') && starts_with_hex s then s else c ∷ d ∷ s
without_prefix s = s

signed_hex : Bytes → Bool → Bytes → Long
unfolding hex_digits_of starts_with_hex without_prefix
signed_hex whole negative s =
    let (n, rest) = hex_digits_of 0 (without_prefix s) in
    if starts_with_hex s
    then record { negative = negative; magnitude = n; rest = rest }
    else record { negative = false; magnitude = 0; rest = whole }

-- `strtol(s, &tmp, 16)`
unfoldable pub strtol16 : Bytes → Long
unfolding after_space signed_hex
strtol16 s = after_space signed_hex s s

-- `atoll(s)`, held at the limits of its type.
unfoldable pub atoll : Bytes → ℤ
unfolding strtol10 negate
atoll s =
    let l = strtol10 s in
    if l.negative then negate (min l.magnitude (2 ^ 63)) else pos (min l.magnitude (2 ^ 63 - 1))

-- The cast to `int` of a `long` that is held at its limits, as a bit pattern.
unfoldable pub int_of_long : Long → ℕ
int_of_long l =
    if l.negative
    then (2 ^ 32 - min l.magnitude (2 ^ 63) % 2 ^ 32) % 2 ^ 32
    else min l.magnitude (2 ^ 63 - 1) % 2 ^ 32

-- The value of an `int` with the bit pattern.
unfoldable pub signed : ℕ → ℤ
signed n = if ltb n (2 ^ 31) then pos n else negsuc (2 ^ 32 - 1 - n)

-- `atoi`, as a bit pattern.
unfoldable pub atoi : Bytes → ℕ
unfolding int_of_long strtol10
atoi s = int_of_long (strtol10 s)
