-- ===== src/Strings/Url.antt =====
-- `urlencode` against a decoder, and where it loses text.
use bev_search.Common.{
  ℕ, zero, suc, ◌+◌, ◌-◌, ◌*◌, ◌/◌, ◌%◌, ◌≤◌, ◌<◌, true, false, [], ◌∷◌, ◌++◌, ltb, leb, ◌==◌,
  if◌then◌else◌, ◌≡◌, ◌≢◌, refl, sym, ap, ap₂, ◌∙◌, arith, Bool-cases, inl, inr, All, append_assoc,
}
use bev_search.CString.{Bytes, to_lower}
use bev_search.Strings.{c_str, hex_digit, unreserved, url_piece, url_pieces, urlencode}

-- The value of a digit that `%X` prints.
abbrev digit_value : ℕ → ℕ
digit_value d = if leb d b'9' then d - b'0' else d - b'A' + 10

-- The decoder that a server applies: `%` and two digits are a byte.
pub url_decode : Bytes → Bytes
url_decode [] = []
url_decode (c ∷ []) = c ∷ []
url_decode (c ∷ d ∷ []) = c ∷ d ∷ []
url_decode (c ∷ d ∷ e ∷ s) =
    let escaped = (digit_value d * 16 + digit_value e) ∷ url_decode s in
    let plain = c ∷ url_decode (d ∷ e ∷ s) in if c == b'%' then escaped else plain

-- Bytes from 16 on, for which `%X` prints two digits.
abbrev pub TwoDigits : Bytes → Type 0
TwoDigits = All (λ c. (16 ≤ c) × (c < 256))

abbrev Printed : Bytes → Type 0
Printed = All (λ c. c ≢ 0)

url_decode-plain : (c : ℕ) (s : Bytes) → c ≢ b'%' → url_decode (c ∷ s) ≡ c ∷ url_decode s
unfolding url_decode
url_decode-plain c [] h = refl
url_decode-plain c (d ∷ []) h = refl
url_decode-plain c (d ∷ e ∷ s) h = ground arith

unreserved-ne-percent : (c : ℕ) → unreserved c ≡ true → (c ≢ b'%') × (c ≢ 0)
unfolding unreserved to_lower
unreserved-ne-percent c h = (λ e. ground arith, λ e. ground arith)

url_piece-plain : (c : ℕ) → unreserved c ≡ true → url_piece c ≡ c ∷ []
unfolding url_piece
url_piece-plain c h = rw h

url_piece-escaped :
    (c : ℕ)
    → unreserved c ≡ false
    → 16 ≤ c
    → url_piece c ≡ b'%' ∷ hex_digit (c / 16) ∷ hex_digit (c % 16) ∷ []
unfolding url_piece
url_piece-escaped c h lo = let big : ltb c 16 ≡ false = ground arith in rw (h, big)

url_piece-short : (c : ℕ) → c < 16 → url_piece c ≡ b'%' ∷ hex_digit c ∷ 0 ∷ []
unfolding url_piece to_lower
url_piece-short c h =
    let control : unreserved c ≡ false = ground arith in
    let small : ltb c 16 ≡ true = ground arith in rw (control, small)

hex_digit_value : (d : ℕ) → d < 16 → (digit_value (hex_digit d) ≡ d) × (hex_digit d ≢ 0)
unfolding hex_digit
hex_digit_value d h = (ground arith, λ e. ground arith)

url_decode-escaped :
    (d e : ℕ) (s : Bytes)
    → d < 16
    → e < 16
    → url_decode (b'%' ∷ hex_digit d ∷ hex_digit e ∷ s) ≡ (d * 16 + e) ∷ url_decode s
unfolding url_decode
url_decode-escaped d e s hd he =
    ap₂ (λ x y. (x * 16 + y) ∷ url_decode s) (hex_digit_value d hd).0 (hex_digit_value e he).0

url_decode-piece :
    (c : ℕ) (s : Bytes) → 16 ≤ c → c < 256 → url_decode (url_piece c ++ s) ≡ c ∷ url_decode s
url_decode-piece c s lo hi = elim (Bool-cases (unreserved c)) [
  | inl plain ↦
      rw (url_piece-plain c plain) (url_decode-plain c s (unreserved-ne-percent c plain).0)
  | inr escaped ↦ rw (url_piece-escaped c escaped lo) (
      url_decode-escaped (c / 16) (c % 16) s (omega arith) (omega arith)
      ∙ ap (λ x. x ∷ url_decode s) (omega arith))
]

c_str-append : (p s : Bytes) → Printed p → c_str (p ++ s) ≡ p ++ c_str s
unfolding c_str
c_str-append [] s h = refl
c_str-append (zero ∷ p) s h = absurd (h.0 refl)
c_str-append (suc c ∷ p) s h = ap (λ t. suc c ∷ t) (c_str-append p s h.1)

c_str-piece :
    (c : ℕ) (s : Bytes) → 16 ≤ c → c < 256 → c_str (url_piece c ++ s) ≡ url_piece c ++ c_str s
c_str-piece c s lo hi = elim (Bool-cases (unreserved c)) [
  | inl plain ↦
      rw (url_piece-plain c plain) (c_str-append (c ∷ []) s ((unreserved-ne-percent c plain).1, tt))
  | inr escaped ↦
      let high = hex_digit_value (c / 16) (omega arith) in
      let low = hex_digit_value (c % 16) (omega arith) in
      rw (url_piece-escaped c escaped lo) (
        c_str-append (b'%' ∷ hex_digit (c / 16) ∷ hex_digit (c % 16) ∷ []) s
          (omega arith, (high.1, (low.1, tt))))
]

urlencode-cons :
    (c : ℕ) (s : Bytes) → 16 ≤ c → c < 256 → urlencode (c ∷ s) ≡ url_piece c ++ urlencode s
unfolding urlencode
urlencode-cons c s lo hi = c_str-piece c (url_pieces s) lo hi

-- Every text of bytes from 16 on is read back from its encoding.
pub url_decode-urlencode : (s : Bytes) → TwoDigits s → url_decode (urlencode s) ≡ s
url_decode-urlencode [] h = unfold urlencode url_decode in refl
url_decode-urlencode (c ∷ s) ((lo, hi), h) =
    rw (urlencode-cons c s lo hi)
      (url_decode-piece c (urlencode s) lo hi ∙ ap (λ t. c ∷ t) (url_decode-urlencode s h))

urlencode-short : (c : ℕ) (rest : Bytes) → c < 16 → urlencode (c ∷ rest) ≡ b'%' ∷ hex_digit c ∷ []
unfolding urlencode
urlencode-short c rest hi = rw (url_piece-short c hi) (
    c_str-append (b'%' ∷ hex_digit c ∷ []) (0 ∷ url_pieces rest)
      (omega arith, ((hex_digit_value c hi).1, tt)))

-- A byte below 16, behind bytes that are all 16 or more, is encoded with one digit and cuts the
-- encoding off there: whatever follows it is lost.
pub urlencode_cut :
    (s rest : Bytes) (c : ℕ)
    → TwoDigits s
    → c < 16
    → urlencode (s ++ c ∷ rest) ≡ urlencode s ++ b'%' ∷ hex_digit c ∷ []
urlencode_cut [] rest c h hi = unfold urlencode in urlencode-short c rest hi
urlencode_cut (d ∷ s) rest c ((lo, top), h) hi =
    rw (urlencode-cons d (s ++ c ∷ rest) lo top, urlencode-cons d s lo top)
      (ap (λ t. url_piece d ++ t) (urlencode_cut s rest c h hi)
        ∙ sym (append_assoc (url_piece d) (urlencode s) (b'%' ∷ hex_digit c ∷ [])))
