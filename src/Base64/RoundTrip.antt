-- ===== src/Base64/RoundTrip.antt =====
-- The decoder reads back what the encoder writes, given room for it.
use bev_search.Common.{
  ℕ, ◌+◌, ◌-◌, ◌*◌, ◌/◌, ◌%◌, ◌≤◌, ◌<◌, true, some, [], ◌∷◌, lt→ltb, ◌≡◌, ◌≢◌, refl, ap, ◌∙◌, arith,
  length, All, bit_and,
}
use bev_search.CString.{Bytes}
use bev_search.Base64.{
  base64, digit1, digit2, digit3, digit4, value_or_pad, group, quad, to_base64, Decoded, behind,
  continue, from_base64,
}
use bev_search.Base64.Fields.{digits_as_sums, bytes_as_sums, value-base64, low_two, low_four}

abbrev pub Octets : Bytes → Type 0
Octets = All (λ c. c < 256)

abbrev done : Bytes → Decoded
done s = record { out = s; good = true }

quad-full :
    (u v w x : ℕ)
    → u < 64
    → v < 64
    → w < 64
    → x < 64
    → quad (base64 u) (base64 v) (base64 w) (base64 x)
      ≡ some ((u * 4 + v / 16) ∷ (v % 16 * 16 + w / 4) ∷ (w % 4 * 64 + x) ∷ [])
unfolding quad group
quad-full u v w x hu hv hw hx =
    let (b1, b2, b3) = bytes_as_sums u v w x hu hv hw hx in
    rw (
      (value-base64 u hu).0,
      (value-base64 v hv).0,
      (value-base64 w hw).1,
      (value-base64 x hx).1,
      b1,
      b2,
      b3,
    )

quad-full_bytes :
    (a b c : ℕ)
    → a < 256
    → b < 256
    → c < 256
    → quad (base64 (digit1 a)) (base64 (digit2 a b)) (base64 (digit3 b c)) (base64 (digit4 c))
      ≡ some (a ∷ b ∷ c ∷ [])
quad-full_bytes a b c ha hb hc =
    let (d1, d2, d3, d4) = digits_as_sums a b c ha hb hc in
    rw (d1, d2, d3, d4)
      (quad-full (a / 4) (a % 4 * 16 + b / 16) (b % 16 * 4 + c / 64) (c % 64) (omega arith)
          (omega arith) (omega arith) (omega arith)
        ∙ ground arith)

quad-two_bytes :
    (a b : ℕ)
    → a < 256
    → b < 256
    → quad (base64 (digit1 a)) (base64 (digit2 a b)) (base64 (bit_and (b * 4) 0x3c)) b'='
      ≡ some (a ∷ b ∷ [])
unfolding quad group value_or_pad
quad-two_bytes a b ha hb =
    let (d1, d2, d3, d4) = digits_as_sums a b 0 ha hb (omega arith) in
    let u = a / 4 in
    let v = a % 4 * 16 + b / 16 in
    let w = b % 16 * 4 in
    let (b1, b2, b3) =
      bytes_as_sums u v w 0 (omega arith) (omega arith) (omega arith) (omega arith) in
    rw
      (
        d1,
        d2,
        low_four b hb,
        (value-base64 u (omega arith)).0,
        (value-base64 v (omega arith)).0,
        (value-base64 w (omega arith)).1,
        b1,
        b2,
      )
      (ground arith)

quad-one_byte :
    (a : ℕ)
    → a < 256
    → quad (base64 (digit1 a)) (base64 (bit_and (a * 16) 0x30)) b'=' b'=' ≡ some (a ∷ [])
unfolding quad group value_or_pad
quad-one_byte a ha =
    let (d1, d2, d3, d4) = digits_as_sums a 0 0 ha (omega arith) (omega arith) in
    let u = a / 4 in
    let v = a % 4 * 16 in
    let (b1, b2, b3) =
      bytes_as_sums u v 0 0 (omega arith) (omega arith) (omega arith) (omega arith) in
    rw (d1, low_two a ha, (value-base64 u (omega arith)).0, (value-base64 v (omega arith)).0, b1)
      (ground arith)

continue-nil : (d : ℕ) (later : Decoded) → continue d [] later ≡ done []
unfolding continue
continue-nil d later = refl

continue-cons :
    (d : ℕ) (t : Bytes) (later : Decoded) → d ≢ b'=' → t ≢ [] → continue d t later ≡ later
unfolding continue
continue-cons d [] later h k = absurd (k refl)
continue-cons d (x ∷ t) later h k = ground arith

to_base64-ne-nil :
    (s : Bytes) (olen : ℕ) → s ≢ [] → 4 * (length s / 3) + 7 ≤ olen → to_base64 s olen ≢ []
unfolding to_base64
to_base64-ne-nil [] olen h room = absurd (h refl)
to_base64-ne-nil (a ∷ []) olen h room = ground arith
to_base64-ne-nil (a ∷ b ∷ []) olen h room = ground arith
to_base64-ne-nil (a ∷ b ∷ c ∷ s) olen h room = ground arith

-- One round of the decoder on a group that it accepts.
from_base64-group :
    (c1 c2 c3 c4 : ℕ) (rest : Bytes) (s : Bytes)
    → quad c1 c2 c3 c4 ≡ some s
    → from_base64 (c1 ∷ c2 ∷ c3 ∷ c4 ∷ rest) ≡ behind s (continue c4 rest (from_base64 rest))
unfolding from_base64
from_base64-group c1 c2 c3 c4 rest s h = rw (h, from_base64)

pub to_base64-group :
    (a b c : ℕ) (rest : Bytes) (olen : ℕ)
    → 10 < olen
    → to_base64 (a ∷ b ∷ c ∷ rest) olen
      ≡ base64 (digit1 a)
        ∷ base64 (digit2 a b)
        ∷ base64 (digit3 b c)
        ∷ base64 (digit4 c)
        ∷ to_base64 rest (olen - 4)
unfolding to_base64
to_base64-group a b c rest olen h = ground arith

pub to_base64-one :
    (a olen : ℕ)
    → 4 < olen
    → to_base64 (a ∷ []) olen
      ≡ base64 (digit1 a) ∷ base64 (bit_and (a * 16) 0x30) ∷ b'=' ∷ b'=' ∷ []
unfolding to_base64
to_base64-one a olen h = rw (lt→ltb 4 olen h)

pub to_base64-two :
    (a b olen : ℕ)
    → 4 < olen
    → to_base64 (a ∷ b ∷ []) olen
      ≡ base64 (digit1 a) ∷ base64 (digit2 a b) ∷ base64 (bit_and (b * 4) 0x3c) ∷ b'=' ∷ []
unfolding to_base64
to_base64-two a b olen h = rw (lt→ltb 4 olen h)

-- With room for the text and seven bytes more, decoding what `to_base64` made of some bytes gives
-- exactly these bytes, and the decoder reaches the end.
pub from_base64-to_base64 :
    (s : Bytes) (olen : ℕ)
    → s ≢ []
    → Octets s
    → 4 * (length s / 3) + 7 ≤ olen
    → from_base64 (to_base64 s olen) ≡ record { out = s; good = true }
from_base64-to_base64 [] olen h octets room = absurd (h refl)
from_base64-to_base64 (a ∷ []) olen h (ha, _) room = rw (to_base64-one a olen (omega arith)) (
    from_base64-group _ _ b'=' b'=' [] (a ∷ []) (quad-one_byte a ha)
    ∙ ap (behind (a ∷ [])) (continue-nil b'=' (from_base64 [])))
from_base64-to_base64 (a ∷ b ∷ []) olen h (ha, (hb, _)) room =
    rw (to_base64-two a b olen (omega arith)) (
      from_base64-group _ _ _ b'=' [] (a ∷ b ∷ []) (quad-two_bytes a b ha hb)
      ∙ ap (behind (a ∷ b ∷ [])) (continue-nil b'=' (from_base64 [])))
from_base64-to_base64 (a ∷ b ∷ c ∷ []) olen h (ha, (hb, (hc, _))) room =
    rw (to_base64-group a b c [] olen (omega arith)) (
      from_base64-group _ _ _ _ (to_base64 [] (olen - 4)) (a ∷ b ∷ c ∷ [])
        (quad-full_bytes a b c ha hb hc)
      ∙ ap (behind (a ∷ b ∷ c ∷ []))
          (unfold to_base64 in continue-nil (base64 (digit4 c)) (from_base64 [])))
from_base64-to_base64 (a ∷ b ∷ c ∷ d ∷ s) olen h (ha, (hb, (hc, rest))) room =
    let fits : 4 * (length (d ∷ s) / 3) + 7 ≤ olen - 4 = omega arith in
    let text = to_base64 (d ∷ s) (olen - 4) in
    let digit : base64 (digit4 c) ≢ b'=' =
      rw (digits_as_sums a b c ha hb hc).3 (value-base64 (c % 64) (omega arith)).2 in
    rw (to_base64-group a b c (d ∷ s) olen (omega arith)) (
      from_base64-group _ _ _ _ text (a ∷ b ∷ c ∷ []) (quad-full_bytes a b c ha hb hc)
      ∙ ap (behind (a ∷ b ∷ c ∷ [])) (
          continue-cons (base64 (digit4 c)) text (from_base64 text) digit
            (to_base64-ne-nil (d ∷ s) (olen - 4) (cc) fits)
          ∙ from_base64-to_base64 (d ∷ s) (olen - 4) (cc) rest fits))
