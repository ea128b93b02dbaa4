-- ===== src/Swap/Laws.antt =====
-- `swap32` turns the four bytes of a word round, so it is its own inverse and commutes with `&`.
use bev_search.Common.{
  ℕ, ◌+◌, ◌*◌, ◌/◌, ◌%◌, ◌^◌, ◌<◌, ◌≡◌, sym, ap, ap₂, ◌∙◌, arith, bit_and, bit_or,
}
use bev_search.Common.Bits.{bit_and_mask, bit_and_field, bit_or_fields, bit_and_split, bit_and-lt}
use bev_search.Swap.{swap32}

-- A word by its bytes, the highest first.
abbrev pub word : ℕ → ℕ → ℕ → ℕ → ℕ
word a b c d = ((a * 2 ^ 8 + b) * 2 ^ 8 + c) * 2 ^ 8 + d

abbrev byte : ℕ → ℕ → ℕ
byte k x = x / 2 ^ k % 2 ^ 8

bytes_of : (x : ℕ) → x < 2 ^ 32 → x ≡ word (byte 24 x) (byte 16 x) (byte 8 x) (byte 0 x)
bytes_of x h = omega arith

masks_as_bytes :
    (w : ℕ)
    → w < 2 ^ 32
    → (bit_and w 0xff ≡ byte 0 w)
      × (bit_and w 0xff00 ≡ byte 8 w * 2 ^ 8)
      × (bit_and w 0xff0000 ≡ byte 16 w * 2 ^ 16)
      × (bit_and w 0xff000000 ≡ byte 24 w * 2 ^ 24)
masks_as_bytes w h = (
  omega (arith, bit_and_mask 8 w),
  omega (arith, bit_and_field 8 w 0xff, bit_and_mask 8 (w / 2 ^ 8)),
  omega (arith, bit_and_field 16 w 0xff, bit_and_mask 8 (w / 2 ^ 16)),
  omega (arith, bit_and_field 24 w 0xff, bit_and_mask 8 (w / 2 ^ 24)),
)

or_of_bytes :
    (a b c d : ℕ)
    → a < 256
    → b < 256
    → c < 256
    → d < 256
    → bit_or (bit_or (bit_or (d * 2 ^ 24) (c * 2 ^ 16)) (b * 2 ^ 8)) a ≡ word d c b a
or_of_bytes a b c d ha hb hc hd =
    let two : d * 2 ^ 24 + c * 2 ^ 16 ≡ (d * 256 + c) * 2 ^ 16 = omega arith in
    let three : (d * 256 + c) * 2 ^ 16 + b * 2 ^ 8 ≡ ((d * 256 + c) * 256 + b) * 2 ^ 8 =
      omega arith in
    rw (
      bit_or_fields 24 d (c * 2 ^ 16) (omega arith),
      two,
      bit_or_fields 16 (d * 256 + c) (b * 2 ^ 8) (omega arith),
      three,
      bit_or_fields 8 ((d * 256 + c) * 256 + b) a (omega arith),
    )

or4 : ℕ → ℕ → ℕ → ℕ → ℕ
or4 x y z t = bit_or (bit_or (bit_or x y) z) t

or4_eq :
    {x y z t x' y' z' t' : ℕ} → x ≡ x' → y ≡ y' → z ≡ z' → t ≡ t' → or4 x y z t ≡ or4 x' y' z' t'
or4_eq p q r s = λ i. or4 (p i) (q i) (r i) (s i)

pub swap32-word :
    (a b c d : ℕ) → a < 256 → b < 256 → c < 256 → d < 256 → swap32 (word a b c d) ≡ word d c b a
unfolding swap32 or4
swap32-word a b c d ha hb hc hd =
    let w = word a b c d in
    let small : w % 2 ^ 32 ≡ w = omega arith in
    let (m1, m2, m3, m4) = masks_as_bytes w (omega arith) in
    rw (small, m1, m2, m3, m4)
      (or4_eq (omega arith) (omega arith) (omega arith) (omega arith)
        ∙ or_of_bytes a b c d ha hb hc hd)

-- Any word, with its bytes named.
abbrev OnBytes : (ℕ → ℕ) → ℕ → Type 0
OnBytes f x = f x ≡ word (byte 0 x) (byte 8 x) (byte 16 x) (byte 24 x)

swap32_bytes : (x : ℕ) → x < 2 ^ 32 → OnBytes swap32 x
swap32_bytes x h =
    ap swap32 (bytes_of x h)
    ∙ swap32-word (byte 24 x) (byte 16 x) (byte 8 x) (byte 0 x) (omega arith) (omega arith)
        (omega arith) (omega arith)

pub swap32-lt : (x : ℕ) → x < 2 ^ 32 → swap32 x < 2 ^ 32
swap32-lt x h = omega (arith, swap32_bytes x h)

-- Turning the bytes of a word round twice gives the word back.
pub swap32_twice : (x : ℕ) → x < 2 ^ 32 → swap32 (swap32 x) ≡ x
swap32_twice x h = rw (swap32_bytes x h) (
    swap32-word (byte 0 x) (byte 8 x) (byte 16 x) (byte 24 x) (omega arith) (omega arith)
      (omega arith) (omega arith)
    ∙ sym (bytes_of x h))

bit_and-word :
    (a b c d a' b' c' d' : ℕ)
    → (b < 256) × (c < 256) × (d < 256)
    → (b' < 256) × (c' < 256) × (d' < 256)
    → bit_and (word a b c d) (word a' b' c' d')
      ≡ word (bit_and a a') (bit_and b b') (bit_and c c') (bit_and d d')
bit_and-word a b c d a' b' c' d' (hb, hc, hd) (hb', hc', hd') = rw (
  bit_and_split 8 ((a * 2 ^ 8 + b) * 2 ^ 8 + c) d ((a' * 2 ^ 8 + b') * 2 ^ 8 + c') d' hd hd',
  bit_and_split 8 (a * 2 ^ 8 + b) c (a' * 2 ^ 8 + b') c' hc hc',
  bit_and_split 8 a b a' b' hb hb',
)

-- The mask may be applied before or after the bytes are turned round.
pub swap32-bit_and :
    (x y : ℕ) → x < 2 ^ 32 → y < 2 ^ 32 → swap32 (bit_and x y) ≡ bit_and (swap32 x) (swap32 y)
swap32-bit_and x y hx hy =
    let lt = λ (k : ℕ). bit_and-lt 8 (byte k x) (byte k y) (omega arith) in
    ap swap32 (
      ap₂ bit_and (bytes_of x hx) (bytes_of y hy)
      ∙ bit_and-word (byte 24 x) (byte 16 x) (byte 8 x) (byte 0 x) (byte 24 y) (byte 16 y)
          (byte 8 y) (byte 0 y) (omega arith, omega arith, omega arith)
          (omega arith, omega arith, omega arith))
    ∙ swap32-word (bit_and (byte 24 x) (byte 24 y)) (bit_and (byte 16 x) (byte 16 y))
        (bit_and (byte 8 x) (byte 8 y)) (bit_and (byte 0 x) (byte 0 y)) (lt 24) (lt 16) (lt 8)
        (lt 0)
    ∙ sym (
        ap₂ bit_and (swap32_bytes x hx) (swap32_bytes y hy)
        ∙ bit_and-word (byte 0 x) (byte 8 x) (byte 16 x) (byte 24 x) (byte 0 y) (byte 8 y)
            (byte 16 y) (byte 24 y) (omega arith, omega arith, omega arith)
            (omega arith, omega arith, omega arith))

-- Only the low 32 bits of the operand count.
pub swap32-mod : (x : ℕ) → swap32 x ≡ swap32 (x % 2 ^ 32)
unfolding swap32
swap32-mod x = let same : x % 2 ^ 32 % 2 ^ 32 ≡ x % 2 ^ 32 = omega arith in rw same
