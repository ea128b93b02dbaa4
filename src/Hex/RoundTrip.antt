-- ===== src/Hex/RoundTrip.antt =====
-- `scanmem` reads back what `printmem` prints, and stays within `hexindex` on ASCII text.
use bev_search.Common.{
  ℕ, ◌+◌, ◌*◌, ◌/◌, ◌%◌, ◌≤◌, ◌<◌, false, some, [], ◌∷◌, ◌++◌, ◌==◌, ◌≡◌, ◌⊎◌, refl, sym, ap, ◌∙◌,
  arith, Bool-cases, Option-cases, inl, inr, length, All, append-nil, length-append, bit_and,
  bit_xor,
}
use bev_search.Common.Bits.{bit_and_mask, bit_xor_twice, bit_xor-lt}
use mathlib.Core.List.{foldr}
use bev_search.CString.{Bytes}
use bev_search.Strings.{hex_digit}
use bev_search.Hex.{
  mask, printmem, hexindex, Scanned, null, memory, fault, prepend, scan_pair, scan_pairs, scanmem,
}

abbrev pub Octets : Bytes → Type 0
Octets = All (λ c. c < 256)

hexindex-hex_digit : (d : ℕ) → d < 16 → (hexindex (hex_digit d) ≡ some d) × (hex_digit d < 128)
unfolding hexindex hex_digit
hexindex-hex_digit d h = (ground arith, ground arith)

length-printmem : (s : Bytes) (w : ℕ) → length (printmem s w) ≡ 2 * length s
unfolding printmem
length-printmem [] w = refl
length-printmem (c ∷ s) w = omega (arith, length-printmem s w)

scan_pair-digits :
    (h l w : ℕ) (later : Scanned)
    → h < 16
    → l < 16
    → scan_pair (hex_digit h) (hex_digit l) w later ≡ prepend (bit_xor (h * 16 + l) (mask w)) later
unfolding scan_pair
scan_pair-digits h l w later hh hl =
    let high = hexindex-hex_digit h hh in
    let low = hexindex-hex_digit l hl in ground (arith, high.0, high.1, low.0, low.1)

mask-lt : (w : ℕ) → mask w < 256
mask-lt w = omega arith

-- The two digits of a byte are its value under the mask, which the reader takes off again.
scan_pair-byte :
    (c w : ℕ) (later : Scanned)
    → c < 256
    → let x = bit_xor c (mask w) in
      scan_pair (hex_digit (x / 16)) (hex_digit (bit_and x 0x0f)) w later ≡ prepend c later
scan_pair-byte c w later lt =
    let x = bit_xor c (mask w) in
    let x_lt : x < 256 = bit_xor-lt 8 c (mask w) lt (mask-lt w) in
    let low : bit_and x 0x0f ≡ x % 16 = bit_and_mask 4 x in
    let joined : x / 16 * 16 + x % 16 ≡ x = omega arith in
    rw (low, scan_pair-digits (x / 16) (x % 16) w later (omega arith) (omega arith), joined)
      (ap (λ d. prepend d later) (bit_xor_twice c (mask w)))

scan_pairs-printmem :
    (s rest : Bytes) (w : ℕ)
    → Octets s
    → scan_pairs (printmem s w ++ rest) w ≡ foldr prepend (scan_pairs rest w) s
unfolding printmem scan_pairs
scan_pairs-printmem [] rest w h = refl
scan_pairs-printmem (c ∷ s) rest w (lt, h) =
    scan_pair-byte c w (scan_pairs (printmem s w ++ rest) w) lt
    ∙ ap (prepend c) (scan_pairs-printmem s rest w h)

foldr-memory : (s : Bytes) → foldr prepend (memory []) s ≡ memory s
foldr-memory [] = refl
foldr-memory (c ∷ s) = ap (prepend c) (foldr-memory s)

foldr-fault : (s : Bytes) → foldr prepend fault s ≡ fault
foldr-fault [] = refl
foldr-fault (c ∷ s) = ap (prepend c) (foldr-fault s)

-- Whatever the bit width, `scanmem` reads the text that `printmem` prints as the memory it printed.
pub scanmem-printmem : (s : Bytes) (w : ℕ) → Octets s → scanmem (printmem s w) w ≡ memory s
unfolding scanmem
scanmem-printmem s w h =
    let even : (length (printmem s w) % 2 == 1) ≡ false = ground (arith, length-printmem s w) in
    rw even (
      sym (ap (λ t. scan_pairs t w) (append-nil (printmem s w)))
      ∙ scan_pairs-printmem s [] w h
      ∙ foldr-memory s)

abbrev Half : Bytes → Scanned → Type 0
Half s r = (r ≡ null) ⊎ ((m : Bytes) × (r ≡ memory m) × (length s ≡ 2 * length m))

Half-pair :
    (a b w : ℕ) (s : Bytes) (r : Scanned)
    → a < 128
    → b < 128
    → Half s r
    → Half (a ∷ b ∷ s) (scan_pair a b w r)
unfolding scan_pair
Half-pair a b w s r ha hb (inl e) = inl (ground arith)
Half-pair a b w s r ha hb (inr (m, e, len)) = elim (Option-cases (hexindex a)) [
  | inl no_high ↦ inl (ground arith)
  | inr (h, high) ↦ elim (Option-cases (hexindex b)) [
    | inl no_low ↦ inl (ground arith)
    | inr (l, low) ↦ inr (bit_xor (h * 16 + l) (mask w) ∷ m, ground arith, omega arith)
  ]
]

Half-scan_pairs :
    (s : Bytes) (w : ℕ) → All (λ c. c < 128) s → length s % 2 ≡ 0 → Half s (scan_pairs s w)
unfolding scan_pairs
Half-scan_pairs [] w h even = inr ([], refl, refl)
Half-scan_pairs (a ∷ []) w h even = absurd (omega arith)
Half-scan_pairs (a ∷ b ∷ s) w (ha, (hb, h)) even =
    Half-pair a b w s (scan_pairs s w) ha hb (Half-scan_pairs s w h (omega arith))

-- On ASCII text `scanmem` does not read outside of its table: it returns a buffer of half the
-- length, or NULL.
pub scanmem_ascii :
    (s : Bytes) (w : ℕ)
    → All (λ c. c < 128) s
    → (scanmem s w ≡ null) ⊎ ((m : Bytes) × (scanmem s w ≡ memory m) × (length s ≡ 2 * length m))
unfolding scanmem
scanmem_ascii s w h = elim (Bool-cases (length s % 2 == 1)) [
  | inl odd ↦ rw odd (inl refl)
  | inr even ↦ rw even (Half-scan_pairs s w h (ground arith))
]

-- A byte from 128 on, behind the digits of whole bytes in a text of even length, makes `scanmem`
-- read outside of its table.
pub scanmem_fault :
    (s rest : Bytes) (w a b : ℕ)
    → Octets s
    → 128 ≤ a
    → length rest % 2 ≡ 0
    → scanmem (printmem s w ++ a ∷ b ∷ rest) w ≡ fault
unfolding scanmem
scanmem_fault s rest w a b h big even =
    let even : (length (printmem s w ++ a ∷ b ∷ rest) % 2 == 1) ≡ false =
      ground (arith, length-append (printmem s w) (a ∷ b ∷ rest), length-printmem s w) in
    let bad : scan_pair a b w (scan_pairs rest w) ≡ fault = unfold scan_pair in ground arith in
    rw even (
      scan_pairs-printmem s (a ∷ b ∷ rest) w h
      ∙ ap (λ r. foldr prepend r s) (unfold scan_pairs in bad)
      ∙ foldr-fault s)
