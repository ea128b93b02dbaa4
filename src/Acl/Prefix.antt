-- ===== src/Acl/Prefix.antt =====
-- A rule matches the addresses that agree with its own in the first bits.
use bev_search.Common.{
  ℕ, zero, suc, ◌+◌, ◌-◌, ◌*◌, ◌/◌, ◌%◌, ◌^◌, ◌≤◌, ◌<◌, true, ==_iff, ◌≡◌, ◌↔◌, sym, ap, ◌∙◌, arith,
  bit_and,
}
use bev_search.Common.Bits.{bit_and_mask, bit_and_field, bit_and-lt, pow-add}
use bev_search.Swap.{swap32}
use bev_search.Swap.Laws.{swap32-lt, swap32_twice, swap32-bit_and, swap32-mod}
use bev_search.Acl.{Network, net_mask, matches}
use native.Mathlib.Nat.{one-le-pow, mod-eq_of_lt, mul-div_cancel, div-lt_iff_lt-mul}

-- The first `m` bits of an address, as the dotted form writes them.
abbrev pub prefix : ℕ → ℕ → ℕ
prefix m addr = swap32 addr / 2 ^ (32 - m)

abbrev ones : ℕ → ℕ → ℕ
ones m k = (2 ^ m - 1) * 2 ^ k

pred_mul : (p q : ℕ) → 1 ≤ p → (p - 1) * q + q ≡ p * q
pred_mul zero q h = absurd (omega arith)
pred_mul (suc p) q h = let e : suc p - 1 ≡ p = omega arith in rw e (omega arith)

ones-eq : (m k : ℕ) → m + k ≡ 32 → ones m k + 2 ^ k ≡ 2 ^ 32
ones-eq m k h =
    let whole : 2 ^ 32 ≡ 2 ^ m * 2 ^ k = ap (λ n. 2 ^ n) (sym h) ∙ pow-add m k in
    pred_mul (2 ^ m) (2 ^ k) (one-le-pow m 2 (omega arith)) ∙ sym whole

bit_and-ones : (n m k : ℕ) → m + k ≡ 32 → n < 2 ^ 32 → bit_and n (ones m k) ≡ n / 2 ^ k * 2 ^ k
bit_and-ones n m k h lt =
    let whole : 2 ^ 32 ≡ 2 ^ m * 2 ^ k = ap (λ n. 2 ^ n) (sym h) ∙ pow-add m k in
    let small : n / 2 ^ k < 2 ^ m =
      (div-lt_iff_lt-mul (one-le-pow k 2 (omega arith))).1 (rw whole at lt) in
    rw (bit_and_field k n (2 ^ m - 1), bit_and_mask m (n / 2 ^ k), mod-eq_of_lt small)

net_mask-ones : (m k : ℕ) → m + k ≡ 32 → net_mask m ≡ swap32 (ones m k)
unfolding net_mask
net_mask-ones m k h =
    let shift : 32 - m ≡ k = omega arith in
    let low : (2 ^ 64 - 1 - (2 ^ k - 1)) % 2 ^ 32 ≡ ones m k =
      omega (arith, ones-eq m k h, one-le-pow k 2 (omega arith)) in
    rw (shift, swap32-mod (2 ^ 64 - 1 - (2 ^ k - 1)), low)

ones-lt : (m k : ℕ) → m + k ≡ 32 → ones m k < 2 ^ 32
ones-lt m k h = omega (arith, ones-eq m k h, one-le-pow k 2 (omega arith))

-- What is left of an address under the mask, its bytes turned round.
swap32-masked :
    (m a : ℕ) → m ≤ 32 → a < 2 ^ 32 → swap32 (bit_and a (net_mask m)) ≡ prefix m a * 2 ^ (32 - m)
swap32-masked m a h lt =
    let k = 32 - m in
    let split : m + k ≡ 32 = omega arith in
    let small = ones-lt m k split in
    rw
      (
        net_mask-ones m k split,
        swap32-bit_and a (swap32 (ones m k)) lt (swap32-lt (ones m k) small),
        swap32_twice (ones m k) small,
      )
      (bit_and-ones (swap32 a) m k split (swap32-lt a lt))

cancel_pow : (k p q : ℕ) → p * 2 ^ k ≡ q * 2 ^ k → p ≡ q
cancel_pow k p q h =
    sym (mul-div_cancel p (one-le-pow k 2 (omega arith)))
    ∙ ap (λ n. n / 2 ^ k) h
    ∙ mul-div_cancel q (one-le-pow k 2 (omega arith))

-- A rule with a mask of at most 32 bits matches exactly the addresses that agree with its own in that
-- many bits, counted from the first of the dotted form.
pub matches_iff :
    (net : Network) (naddr : ℕ)
    → net.mask ≤ 32
    → net.ip < 2 ^ 32
    → naddr < 2 ^ 32
    → (matches net naddr ≡ true) ↔ (prefix net.mask naddr ≡ prefix net.mask net.ip)
unfolding matches
matches_iff net naddr h ip_lt lt =
    let k = 32 - net.mask in
    let here = bit_and naddr (net_mask net.mask) in
    let there = bit_and net.ip (net_mask net.mask) in
    let swapped = swap32-masked net.mask naddr h lt in
    let swapped_ip = swap32-masked net.mask net.ip h ip_lt in
    (
      λ e.
          cancel_pow k (prefix net.mask naddr) (prefix net.mask net.ip)
            (sym swapped ∙ ap swap32 ((==_iff here there).0 e) ∙ swapped_ip),
      λ e. (==_iff here there).1 (
          sym (swap32_twice here (bit_and-lt 32 naddr (net_mask net.mask) lt))
          ∙ ap swap32 (swapped ∙ ap (λ n. n * 2 ^ k) e ∙ sym swapped_ip)
          ∙ swap32_twice there (bit_and-lt 32 net.ip (net_mask net.mask) ip_lt)),
    )
