-- ===== src/Base64/Fields.antt =====
-- The bit fields of the coder as arithmetic.
use bev_search.Common.{
  ℕ, ◌+◌, ◌*◌, ◌/◌, ◌%◌, ◌<◌, true, some, ◌==◌, ==_iff, ◌≡◌, ◌≢◌, refl, arith, bit_and,
}
use bev_search.Common.Bits.{passes_below, passes_below_at, bit_or_fields, bit_and_mask}
use bev_search.Base64.{
  base64, value, value_or_pad, digit1, digit2, digit3, digit4, byte1, byte2, byte3,
}

-- A mask checked at every byte.
masked_table :
    (n : ℕ) (f g : ℕ → ℕ) → passes_below (λ x. f x == g x) n ≡ true → (x : ℕ) → x < n → f x ≡ g x
masked_table n f g table x h =
    (==_iff (f x) (g x)).0 (passes_below_at (λ x. f x == g x) n x h table)

pub low_two : (a : ℕ) → a < 256 → bit_and (a * 16) 0x30 ≡ a % 4 * 16
low_two =
    unfold passes_below in masked_table 256 (λ a. bit_and (a * 16) 0x30) (λ a. a % 4 * 16) refl

pub low_four : (b : ℕ) → b < 256 → bit_and (b * 4) 0x3c ≡ b % 16 * 4
low_four =
    unfold passes_below in masked_table 256 (λ b. bit_and (b * 4) 0x3c) (λ b. b % 16 * 4) refl

high_four : (v : ℕ) → v < 64 → bit_and (v * 16) 0xf0 ≡ v % 16 * 16
high_four =
    unfold passes_below in masked_table 64 (λ v. bit_and (v * 16) 0xf0) (λ v. v % 16 * 16) refl

high_two : (w : ℕ) → w < 64 → bit_and (w * 64) 0xc0 ≡ w % 4 * 64
high_two =
    unfold passes_below in masked_table 64 (λ w. bit_and (w * 64) 0xc0) (λ w. w % 4 * 64) refl

pub digits_as_sums :
    (a b c : ℕ)
    → a < 256
    → b < 256
    → c < 256
    → (digit1 a ≡ a / 4)
      × (digit2 a b ≡ a % 4 * 16 + b / 16)
      × (digit3 b c ≡ b % 16 * 4 + c / 64)
      × (digit4 c ≡ c % 64)
unfolding digit1 digit2 digit3 digit4
digits_as_sums a b c ha hb hc = (
  refl,
  rw (low_two a ha) (bit_or_fields 4 (a % 4) (b / 16) (omega arith)),
  rw (low_four b hb) (bit_or_fields 2 (b % 16) (c / 64) (omega arith)),
  bit_and_mask 6 c,
)

pub bytes_as_sums :
    (u v w x : ℕ)
    → u < 64
    → v < 64
    → w < 64
    → x < 64
    → (byte1 u v ≡ u * 4 + v / 16)
      × (byte2 v w ≡ v % 16 * 16 + w / 4)
      × (byte3 w x ≡ w % 4 * 64 + x)
unfolding byte1 byte2 byte3
bytes_as_sums u v w x hu hv hw hx = (
  rw (bit_or_fields 2 u (v / 16) (omega arith)) (omega arith),
  rw (high_four v hv, bit_or_fields 4 (v % 16) (w / 4) (omega arith)) (omega arith),
  rw (high_two w hw, bit_or_fields 6 (w % 4) x (omega arith)) (omega arith),
)

pub value-base64 :
    (d : ℕ)
    → d < 64
    → (value (base64 d) ≡ some d)
      × (value_or_pad (base64 d) ≡ some (some d))
      × (base64 d ≢ b'=')
      × (base64 d ≢ 0)
unfolding value value_or_pad base64
value-base64 d h = (ground arith, ground arith, λ e. ground arith, λ e. ground arith)
