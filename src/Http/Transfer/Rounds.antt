-- ===== src/Http/Transfer/Rounds.antt =====
-- One round of `data_send`.
use bev_search.Common.{
  true_ne, ℕ, zero, suc, ◌+◌, ◌-◌, ◌≤◌, ◌<◌, true, false, some, List, [], ◌++◌, map, append-nil,
  ltb, if◌then◌else◌, ◌≡◌, refl, sym, ap, ◌∙◌, arith, length, take, drop, length-append,
  take-append, drop-append,
}
use bev_search.CString.{Bytes}
use bev_search.CString.Number.{ℤ, pos, negsuc}
use bev_search.Socket.{Read, byte}
use bev_search.Http.Transfer.{Channel, Sent, block_size, goes_on}
use bev_search.Http.Transfer.Amount.{
  leading, forwarded, quota, behind, Enough, IsOpen, IsSent, leading_bytes, ends_well_bytes,
  length_bytes, take_more, drop_more, forwarded-append,
}

-- The size of a block is positive, and no more than what is left of a length.
pub block_fits :
    (len : ℤ) (c : ℕ)
    → goes_on len c ≡ true
    → (n : ℕ) × (block_size len c ≡ some n)
      × (0 < n)
      × ((b : Bytes) (rest : List Read)
          → length b ≤ n
          → length b ≤ quota len c (map byte b ++ rest))
unfolding block_size goes_on
block_fits (pos len) c h =
    (if ltb 2048 (len - c) then 2048 else len - c, refl, ground arith, λ b rest fits. ground arith)
block_fits (negsuc zero) c h = (
  2048,
  refl,
  omega arith,
  λ b rest fits. omega (arith, ap length (leading_bytes b rest) ∙ length-append b (leading rest)),
)
block_fits (negsuc (suc n)) c h = absurd (ground arith)

pub quota_more :
    (len : ℤ) (c : ℕ) (b : Bytes) (rest : List Read)
    → goes_on len (c + length b) ≡ true
    → quota len c (map byte b ++ rest) ≡ length b + quota len (c + length b) rest
unfolding goes_on
quota_more (pos len) c b rest h = ground arith
quota_more (negsuc n) c b rest h = ap length (leading_bytes b rest) ∙ length-append b (leading rest)

pub more-Enough :
    (len : ℤ) (c : ℕ) (b : Bytes) (rest : List Read)
    → goes_on len (c + length b) ≡ true
    → (Enough len (c + length b) rest → Enough len c (map byte b ++ rest))
      × (Enough len c (map byte b ++ rest) → Enough len (c + length b) rest)
unfolding goes_on
more-Enough (pos len) c b rest h =
    let both = ap length (leading_bytes b rest) ∙ length-append b (leading rest) in
    (λ e. ground (arith, both, e), λ e. ground (arith, both, e))
more-Enough (negsuc n) c b rest h =
    (λ e. ends_well_bytes b rest ∙ e, λ e. sym (ends_well_bytes b rest) ∙ e)

module _ (k : Channel) (len : ℤ) (c : ℕ) (b : Bytes) (rest : List Read) where
  -- The body goes on behind the bytes.
  pub round_more :
      (r : Sent)
      → goes_on len (c + length b) ≡ true
      → IsSent k len (c + length b) rest r
      → IsSent k len c (map byte b ++ rest) (record r { out = forwarded k b ++ r.out })
  round_more r h s =
      let more = quota_more len c b rest h in
      let same = more-Enough len c b rest h in
      let joined : (j : ℕ)
          → r.out ≡ forwarded k (take j (leading rest))
          → forwarded k b ++ r.out
            ≡ forwarded k (take (length b + j) (leading (map byte b ++ rest))) =
        λ j e.
          ap (λ o. forwarded k b ++ o) e
          ∙ forwarded-append k b (take j (leading rest))
          ∙ ap (forwarded k) (sym (take_more b (leading rest) j))
          ∙ ap (λ s. forwarded k (take (length b + j) s)) (sym (leading_bytes b rest)) in
      record {
        amount = length b + s.amount;
        bounded = omega (arith, more, s.bounded);
        in_order = joined s.amount s.in_order;
        whole = λ done.
            let (enough, out, left) = s.whole done in
            (
              same.0 enough,
              joined (quota len (c + length b) rest) out
                  ∙ ap (λ j. forwarded k (take j (leading (map byte b ++ rest)))) (sym more),
              left
                  ∙ sym (drop_more b rest (quota len (c + length b) rest + behind len))
                  ∙ ap (λ j. drop j (map byte b ++ rest)) (omega (arith, more)),
            );
        complete = λ good enough. s.complete good (same.1 enough);
      }

  pub whole_bytes : take (length b) (leading (map byte b ++ rest)) ≡ b
  whole_bytes =
      ap (take (length b)) (leading_bytes b rest) ∙ take-append (length b) b (leading rest) refl

  -- The channel does not take all of it.
  pub round_cut :
      (j : ℕ) (out : Bytes)
      → j ≤ quota len c (map byte b ++ rest)
      → out ≡ forwarded k (take j (leading (map byte b ++ rest)))
      → (IsOpen k → true ≡ false)
      → IsSent k len c (map byte b ++ rest) (record { rest = rest; out = out; rc = false })
  round_cut j out fits e bad = record {
    amount = j;
    bounded = fits;
    in_order = e;
    whole = λ done. absurd (true_ne (sym done));
    complete = λ good enough. absurd (true_ne (bad good));
  }

-- The bytes are the last ones of the length.
pub round_last :
    (k : Channel) (len : ℤ) (c : ℕ) (b : Bytes) (rest : List Read)
    → goes_on len c ≡ true
    → goes_on len (c + length b) ≡ false
    → length b ≤ quota len c (map byte b ++ rest)
    → IsSent k len c
        (map byte b ++ rest)
        (record { rest = rest; out = forwarded k b ++ []; rc = true })
unfolding goes_on
round_last k (negsuc n) c b rest h last fits = absurd (true_ne (sym h ∙ last))
round_last k (pos len) c b rest h last fits =
    let m : len - c ≡ length b = ground arith in
    let out : forwarded k b ++ [] ≡ forwarded k (take (length b) (leading (map byte b ++ rest))) =
      append-nil (forwarded k b) ∙ ap (forwarded k) (sym (whole_bytes k (pos len) c b rest)) in
    record {
      amount = length b;
      bounded = fits;
      in_order = out;
      whole = λ _. (
        omega (arith, m, ap length (leading_bytes b rest) ∙ length-append b (leading rest)),
        out ∙ ap (λ j. forwarded k (take j (leading (map byte b ++ rest)))) (sym m),
        sym (drop-append (length b) (map byte b) rest (length_bytes b))
            ∙ ap (λ j. drop j (map byte b ++ rest)) (omega (arith, m)),
      );
      complete = λ _ _. refl;
    }
