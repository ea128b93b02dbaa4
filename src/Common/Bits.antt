-- ===== src/Common/Bits.antt =====
-- Laws of the native bit operations at variables, from the recursion on binary digits that they
-- stand for, and a check of every value in a small range.
use Prim.Native.Nat.{
  ℕ, zero, suc, ◌+◌, ◌-◌, ◌*◌, ◌/◌, ◌%◌, ◌^◌, ◌≤◌, ◌<◌, min, max, digits, bitwise, bit_and, bit_or,
  bit_xor, differ, bit_and-bitwise, bit_or-bitwise, bit_xor-bitwise,
}
use mathlib.Core.Path.{◌≡◌, refl, sym, ap, ◌∙◌}
use mathlib.Core.Bool.{Bool, true, ◌&&◌}
use native.Mathlib.Nat.{le_refl, pow-suc, one-le-pow, mul_comm, zero-add, suc-add}
use native.Mathlib.Omega.{arith}

-- Whether a test passes at each number below a bound.
unfoldable pub passes_below : (ℕ → Bool) → ℕ → Bool
passes_below test zero = true
passes_below test (suc bound) = passes_below test bound && test bound

pub passes_below_at :
    (test : ℕ → Bool) (bound at : ℕ) → at < bound → passes_below test bound ≡ true → test at ≡ true
unfolding passes_below
passes_below_at test zero at within passes = absurd (omega arith)
passes_below_at test (suc bound) at within passes = ground (arith, passes_below_at test bound at)

-- A recursion on binary digits with any result `stop` at the end and any operation on digits.
module _ (stop : ℕ → ℕ) (op : ℕ → ℕ → ℕ) where
  -- Once there is a digit to spare for each of the first number, one more changes nothing.
  one_to_spare :
      (count x y : ℕ) → x ≤ count → digits stop op (suc count) x y ≡ digits stop op count x y
  one_to_spare zero zero y fits = refl
  one_to_spare (suc count) zero y fits = refl
  one_to_spare zero (suc x) y fits = absurd (omega arith)
  one_to_spare (suc count) (suc x) y fits =
      ap (λ high. high * 2 + op (suc x % 2) (y % 2))
        (one_to_spare count (suc x / 2) (y / 2) (omega arith))

  to_spare :
      (extra count x y : ℕ)
      → x ≤ count
      → digits stop op (extra + count) x y ≡ digits stop op count x y
  to_spare zero count x y fits = rw zero-add
  to_spare (suc extra) count x y fits =
      rw suc-add (one_to_spare (extra + count) x y (omega arith) ∙ to_spare extra count x y fits)

  -- The lowest digit, and the rest.
  lowest_digit :
      (x y : ℕ)
      → bitwise stop op (suc x) y ≡ bitwise stop op (suc x / 2) (y / 2) * 2 + op (suc x % 2) (y % 2)
  lowest_digit x y =
      let half = suc x / 2 in
      let split : x - half + half ≡ x = omega arith in
      ap (λ high. high * 2 + op (suc x % 2) (y % 2))
        (sym (ap (λ count. digits stop op count half (y / 2)) split)
          ∙ to_spare (x - half) half half (y / 2) (le_refl half))

pub bit_and_step : (x y : ℕ) → bit_and x y ≡ bit_and (x / 2) (y / 2) * 2 + min (x % 2) (y % 2)
bit_and_step zero y = rw (bit_and-bitwise 0 y, bit_and-bitwise 0 (y / 2)) (omega arith)
bit_and_step (suc x) y =
    rw (bit_and-bitwise (suc x) y, bit_and-bitwise (suc x / 2) (y / 2))
      (lowest_digit (λ rest. zero) min x y)

pub bit_or_step : (x y : ℕ) → bit_or x y ≡ bit_or (x / 2) (y / 2) * 2 + max (x % 2) (y % 2)
bit_or_step zero y = rw (bit_or-bitwise 0 y, bit_or-bitwise 0 (y / 2)) (omega arith)
bit_or_step (suc x) y =
    rw (bit_or-bitwise (suc x) y, bit_or-bitwise (suc x / 2) (y / 2))
      (lowest_digit (λ rest. rest) max x y)

xor_zero_digit : (b : ℕ) → b ≡ b / 2 * 2 + differ 0 (b % 2)
xor_zero_digit b = omega arith

pub bit_xor_step : (x y : ℕ) → bit_xor x y ≡ bit_xor (x / 2) (y / 2) * 2 + differ (x % 2) (y % 2)
bit_xor_step zero y = rw (bit_xor-bitwise 0 y, bit_xor-bitwise 0 (y / 2)) (xor_zero_digit y)
bit_xor_step (suc x) y =
    rw (bit_xor-bitwise (suc x) y, bit_xor-bitwise (suc x / 2) (y / 2))
      (lowest_digit (λ rest. rest) differ x y)

-- With nothing on the right side. The induction is on a bound, since a step halves.
and_nothing : (bound x : ℕ) → x ≤ bound → bit_and x 0 ≡ 0
and_nothing bound zero fits = refl
and_nothing zero (suc x) fits = absurd (omega arith)
and_nothing (suc bound) (suc x) fits =
    let rest = and_nothing bound (suc x / 2) (omega arith) in
    omega (arith, rest, bit_and_step (suc x) 0)

or_nothing : (bound x : ℕ) → x ≤ bound → bit_or x 0 ≡ x
or_nothing bound zero fits = refl
or_nothing zero (suc x) fits = absurd (omega arith)
or_nothing (suc bound) (suc x) fits =
    let rest = or_nothing bound (suc x / 2) (omega arith) in
    omega (arith, rest, bit_or_step (suc x) 0)

pub bit_and-zero : (x : ℕ) → bit_and x 0 ≡ 0
bit_and-zero x = and_nothing x x (le_refl x)

pub zero-bit_and : (y : ℕ) → bit_and 0 y ≡ 0
zero-bit_and y = simp bit_and-bitwise

pub bit_or-zero : (x : ℕ) → bit_or x 0 ≡ x
bit_or-zero x = or_nothing x x (le_refl x)

shifted_once : (x w : ℕ) → x * 2 ^ suc w ≡ 2 * (x * 2 ^ w)
shifted_once x w = let power = pow-suc 2 w in rw power (omega arith)

-- `&` works on the digits above and below bit `k` apart.
pub bit_and_split :
    (k a b c d : ℕ)
    → b < 2 ^ k
    → d < 2 ^ k
    → bit_and (a * 2 ^ k + b) (c * 2 ^ k + d) ≡ bit_and a c * 2 ^ k + bit_and b d
bit_and_split zero a b c d hb hd = ground (arith, bit_and-zero 0)
bit_and_split (suc k) a b c d hb hd = ground (
  arith,
  bit_and_step (a * 2 ^ suc k + b) (c * 2 ^ suc k + d),
  bit_and_step b d,
  shifted_once a k,
  shifted_once c k,
  shifted_once (bit_and a c) k,
  pow-suc 2 k,
  bit_and_split k a (b / 2) c (d / 2) (omega (arith, pow-suc 2 k)) (omega (arith, pow-suc 2 k)),
)

-- `(q << k) | r` is a sum when `r` fits `k` bits.
pub bit_or_fields : (w high low : ℕ) → low < 2 ^ w → bit_or (high * 2 ^ w) low ≡ high * 2 ^ w + low
bit_or_fields zero high low small = ground (arith, bit_or-zero high)
bit_or_fields (suc w) high low small =
    let rest = bit_or_fields w high (low / 2) (omega (arith, pow-suc 2 w)) in
    ground (arith, rest, shifted_once high w, bit_or_step (high * 2 ^ suc w) low)

low_ones : (w x : ℕ) → x < 2 ^ w → bit_and x (2 ^ w - 1) ≡ x
low_ones zero x small = let nothing = bit_and-zero x in ground (arith, nothing)
low_ones (suc w) x small =
    let power = pow-suc 2 w in
    let some_ones = one-le-pow w 2 (omega arith) in
    let rest = low_ones w (x / 2) (omega arith) in
    ground (arith, rest, power, some_ones, bit_and_step x (2 ^ suc w - 1))

-- A mask of low ones is the remainder by the next power of two.
pub bit_and_mask : (w x : ℕ) → bit_and x (2 ^ w - 1) ≡ x % 2 ^ w
bit_and_mask w x =
    let positive = one-le-pow w 2 (omega arith) in
    let low = low_ones w (x % 2 ^ w) (omega arith) in
    let apart = bit_and_split w (x / 2 ^ w) (x % 2 ^ w) 0 (2 ^ w - 1) in
    ground (arith, positive, low, apart, bit_and-zero (x / 2 ^ w))

differ_twice : (x y : ℕ) → x < 2 → y < 2 → (differ x y < 2) × (differ (differ x y) y ≡ x)
differ_twice zero zero hx hy = (omega arith, refl)
differ_twice zero (suc zero) hx hy = (omega arith, refl)
differ_twice (suc zero) zero hx hy = (omega arith, refl)
differ_twice (suc zero) (suc zero) hx hy = (omega arith, refl)
differ_twice x (suc (suc y)) hx hy = absurd (omega arith)
differ_twice (suc (suc x)) y hx hy = absurd (omega arith)

xor_half :
    (a b : ℕ)
    → (bit_xor a b / 2 ≡ bit_xor (a / 2) (b / 2)) × (bit_xor a b % 2 ≡ differ (a % 2) (b % 2))
xor_half a b =
    let small = differ_twice (a % 2) (b % 2) (omega arith) (omega arith) in
    (omega (arith, bit_xor_step a b), omega (arith, bit_xor_step a b))

-- `^` with the same mask twice gives the value back.
xor_twice_below : (n a b : ℕ) → a ≤ n → b ≤ n → bit_xor (bit_xor a b) b ≡ a
xor_twice_below zero zero zero h k = refl
xor_twice_below zero (suc a) b h k = absurd (omega arith)
xor_twice_below zero a (suc b) h k = absurd (omega arith)
xor_twice_below (suc n) a b h k =
    let half = xor_half a b in
    let digit = differ_twice (a % 2) (b % 2) (omega arith) (omega arith) in
    bit_xor_step (bit_xor a b) b
    ∙ rw (half.0, half.1, xor_twice_below n (a / 2) (b / 2) (omega arith) (omega arith), digit.1)
        (omega arith)

pub bit_xor_twice : (a b : ℕ) → bit_xor (bit_xor a b) b ≡ a
bit_xor_twice a b = xor_twice_below (a + b) a b (omega arith) (omega arith)

-- A result of `^` stays within the bits of its operands.
pub bit_xor-lt : (k a b : ℕ) → a < 2 ^ k → b < 2 ^ k → bit_xor a b < 2 ^ k
bit_xor-lt zero zero zero ha hb = omega arith
bit_xor-lt zero (suc a) b ha hb = absurd (omega arith)
bit_xor-lt zero a (suc b) ha hb = absurd (omega arith)
bit_xor-lt (suc k) a b ha hb =
    let digit = differ_twice (a % 2) (b % 2) (omega arith) (omega arith) in
    omega (
      arith,
      bit_xor_step a b,
      pow-suc 2 k,
      bit_xor-lt k (a / 2) (b / 2) (omega (arith, pow-suc 2 k)) (omega (arith, pow-suc 2 k)),
    )

pub bit_and-lt : (k a b : ℕ) → a < 2 ^ k → bit_and a b < 2 ^ k
bit_and-lt zero zero b h = omega (arith, zero-bit_and b)
bit_and-lt zero (suc a) b h = absurd (omega arith)
bit_and-lt (suc k) a b h = omega (
  arith,
  bit_and_step a b,
  pow-suc 2 k,
  bit_and-lt k (a / 2) (b / 2) (omega (arith, pow-suc 2 k)),
)

-- A mask whose low `k` bits are 0.
pub bit_and_field : (k a m : ℕ) → bit_and a (m * 2 ^ k) ≡ bit_and (a / 2 ^ k) m * 2 ^ k
bit_and_field k a m =
    ground
      (arith, one-le-pow k 2, bit_and_split k (a / 2 ^ k) (a % 2 ^ k) m 0, bit_and-zero (a % 2 ^ k))

pub pow-add : (m k : ℕ) → 2 ^ (m + k) ≡ 2 ^ m * 2 ^ k
pow-add zero k = rw zero-add (omega arith)
pow-add (suc m) k = rw suc-add (
    omega (
      arith,
      pow-suc 2 (m + k),
      pow-add m k,
      shifted_once (2 ^ k) m,
      mul_comm (2 ^ k) (2 ^ suc m),
      mul_comm (2 ^ k) (2 ^ m),
    ))
