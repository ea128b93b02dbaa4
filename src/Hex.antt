-- ===== src/Hex.antt =====
-- `printmem` and `scanmem` of cntlm-0.92.3/utils.c: memory as hexadecimal text, under a mask.
pub mod RoundTrip
use bev_search.Common.{
  ℕ, zero, suc, ◌+◌, ◌-◌, ◌*◌, ◌/◌, ◌%◌, Bool, true, false, ◌&&◌, Option, none, some, List, [], ◌∷◌,
  leb, ◌==◌, if◌then◌else◌, length, bit_and, bit_xor,
}
use bev_search.CString.{Bytes}
use bev_search.Strings.{hex_digit}

-- `(uint8_t)(7-bitwidth)`, for a bit width that is not negative.
abbrev pub mask : ℕ → ℕ
mask bitwidth = (7 + 256 - bitwidth % 256) % 256

unfoldable pub printmem : Bytes → ℕ → Bytes
unfolding hex_digit
printmem [] bitwidth = []
printmem (c ∷ src) bitwidth =
    hex_digit (bit_xor c (mask bitwidth) / 16)
    ∷ hex_digit (bit_and (bit_xor c (mask bitwidth)) 0x0f)
    ∷ printmem src bitwidth

-- `hexindex[c]`; `none` is the -1 of a byte that is no digit.
unfoldable pub hexindex : ℕ → Option ℕ
hexindex c =
    if leb b'0' c && leb c b'9'
    then some (c - b'0')
    else if leb b'A' c && leb c b'F'
    then some (c - b'A' + 10)
    else if leb b'a' c && leb c b'f'
    then some (c - b'a' + 10)
    else none

-- What `scanmem` does: it returns NULL or a buffer, or it reads outside of `hexindex`, which has 128
-- entries and whose index is a signed char.
pub data Scanned : Type 0 where
  null : Scanned
  memory : Bytes → Scanned
  fault : Scanned

abbrev prepend : ℕ → Scanned → Scanned
prepend c null = null
prepend c (memory s) = memory (c ∷ s)
prepend c fault = fault

-- One round of the loop, and the rounds behind it.
scan_pair : ℕ → ℕ → ℕ → Scanned → Scanned
scan_pair a b bitwidth later =
    if leb 128 a then fault else if leb 128 b then fault else elim (hexindex a) [
      | none ↦ null
      | some h ↦ elim (hexindex b) [
        | none ↦ null
        | some l ↦ prepend (bit_xor (h * 16 + l) (mask bitwidth)) later
      ]
    ]

scan_pairs : Bytes → ℕ → Scanned
unfolding scan_pair hexindex
scan_pairs [] bitwidth = memory []
scan_pairs (a ∷ []) bitwidth = memory []
scan_pairs (a ∷ b ∷ src) bitwidth = scan_pair a b bitwidth (scan_pairs src bitwidth)

unfoldable pub scanmem : Bytes → ℕ → Scanned
unfolding scan_pairs
scanmem src bitwidth = if length src % 2 == 1 then null else scan_pairs src bitwidth
