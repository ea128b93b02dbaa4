-- ===== src/Swap.antt =====
-- `swap32` of cntlm-0.92.3/swap.h, on words of 32 bits.
pub mod Laws
use bev_search.Common.{ℕ, ◌*◌, ◌/◌, ◌%◌, ◌^◌, bit_and, bit_or}

unfoldable pub swap32 : ℕ → ℕ
swap32 x =
    let w = x % 2 ^ 32 in
    bit_or
      (bit_or (bit_or (bit_and w 0xff * 2 ^ 24 % 2 ^ 32) (bit_and w 0xff00 * 2 ^ 8 % 2 ^ 32))
        (bit_and w 0xff0000 / 2 ^ 8))
      (bit_and w 0xff000000 / 2 ^ 24)
