-- ===== src/Http/Transfer/Complete.antt =====
-- `data_send` ends, and passes on what it is asked for.
use bev_search.Common.{
  true_ne, and_both, ℕ, zero, suc, ◌+◌, ◌^◌, ◌≤◌, ◌<◌, true, false, not, ◌&&◌, Option, some, List,
  [], ◌++◌, map, ltb, ◌==◌, ◌≡◌, inl, inr, refl, sym, ap, subst, ◌∙◌, arith, length, take, drop,
  Bool-cases, lt→ltb, length-append,
}
use bev_search.CString.{Bytes}
use bev_search.CString.Number.{ℤ, pos, negsuc, is_pos}
use bev_search.Socket.{Read, byte}
use bev_search.Http.Transfer.{
  Channel, Sent, Got, got, at_end, broken, read_block, goes_on, is_whole, send_round, send_loop,
  data_send,
}
use bev_search.Http.Transfer.Amount.{
  leading, ends_well, forwarded, quota, Enough, IsSent, length_bytes, IsGot, read_block-IsGot,
}
use bev_search.Http.Transfer.Rounds.{block_fits, round_more, whole_bytes, round_cut, round_last}

forwarded_nothing : (k : Channel) → forwarded k [] ≡ []
forwarded_nothing k = elim (Bool-cases k.has_dst) [
  | inl there ↦ rw there refl
  | inr nowhere ↦ rw nowhere refl
]

-- The source ends, or fails.
round_end :
    (k : Channel) (len : ℤ) (c : ℕ) (reads rest : List Read)
    → goes_on len c ≡ true
    → leading reads ≡ []
    → ends_well reads ≡ true
    → rest ≡ drop 1 reads
    → IsSent k len c reads
        (record { rest = rest; out = []; rc = not (k.has_dst && k.closed rest) && is_whole len c })
unfolding goes_on is_whole
round_end k (pos len) c reads rest h none_left ends e =
    let part : (c == len) ≡ false = ground arith in
    record {
      amount = 0;
      bounded = omega arith;
      in_order = sym (forwarded_nothing k);
      whole = λ done. absurd (true_ne (sym (and_both _ _ done).1 ∙ part));
      complete = λ good enough. absurd (ground (arith, ap length none_left, enough));
    }
round_end k (negsuc n) c reads rest h none_left ends e = record {
  amount = 0;
  bounded = omega arith;
  in_order = sym (forwarded_nothing k);
  whole = λ _. (
    ends,
    sym (forwarded_nothing k) ∙ ap (λ s. forwarded k (take (length {A = ℕ} s) s)) (sym none_left),
    e ∙ ap (λ (s : Bytes). drop (length s + 1) reads) (sym none_left),
  );
  complete = λ good enough. ground (arith, good.open_end rest, h);
}

fails_early :
    (len : ℤ) (c : ℕ) (reads : List Read)
    → goes_on len c ≡ true
    → leading reads ≡ []
    → ends_well reads ≡ false
    → Enough len c reads
    → false ≡ true
unfolding goes_on
fails_early (pos len) c reads h none_left broke enough =
    absurd (ground (arith, ap length none_left, enough))
fails_early (negsuc n) c reads h none_left broke enough = sym broke ∙ enough

round_broken :
    (k : Channel) (len : ℤ) (c : ℕ) (reads rest : List Read)
    → goes_on len c ≡ true
    → leading reads ≡ []
    → ends_well reads ≡ false
    → IsSent k len c reads (record { rest = rest; out = []; rc = false })
round_broken k len c reads rest h none_left broke = record {
  amount = 0;
  bounded = omega arith;
  in_order = sym (forwarded_nothing k);
  whole = λ done. absurd (true_ne (sym done));
  complete = λ good enough. fails_early len c reads h none_left broke enough;
}

round_got :
    (k : Channel) (len : ℤ) (c : ℕ) (b : Bytes) (rest : List Read)
    (next : ℕ → List Read → Option Sent)
    → goes_on len c ≡ true
    → length b ≤ quota len c (map byte b ++ rest)
    → c + length b < 2 ^ 31
    → (goes_on len (c + length b) ≡ true
        → (r : Sent) × (next (c + length b) rest ≡ some r) × IsSent k len (c + length b) rest r)
    → (r : Sent) × (send_round k len c (got b rest) next ≡ some r)
      × IsSent k len c (map byte b ++ rest) r
unfolding send_round
round_got k len c b rest next h fits small later =
    let counted : ltb (c + length b) (2 ^ 31) ≡ true = lt→ltb (c + length b) (2 ^ 31) small in
    elim (Bool-cases (k.has_dst && k.closed rest)) [
      | inl shut ↦ (
        record { rest = rest; out = []; rc = false },
        rw (counted, shut),
        round_cut k len c b rest 0 [] (omega arith) (sym (forwarded_nothing k))
            (λ good. sym (and_both _ _ shut).1 ∙ good.open_end rest),
      )
      | inr reachable ↦ elim (Bool-cases (k.has_dst && not (is_pos (k.wrote rest b)))) [
        | inl refused ↦
            (let (there, bad) = and_both k.has_dst (not (is_pos (k.wrote rest b))) refused in
              (
                record { rest = rest; out = b; rc = false },
                rw (counted, reachable, refused),
                round_cut k len c b rest (length b) b fits
                    (rw there (sym (whole_bytes k len c b rest)))
                    (λ good. sym bad ∙ ap not (good.takes rest b)),
              ))
        | inr taken ↦ elim (Bool-cases (goes_on len (c + length b))) [
          | inl more ↦
              (let (r, run, s) = later more in
                (
                  record r { out = forwarded k b ++ r.out },
                  rw (counted, reachable, taken, more, run),
                  round_more k len c b rest r more s,
                ))
          | inr last ↦ (
            record { rest = rest; out = forwarded k b ++ []; rc = true },
            rw (counted, reachable, taken, last),
            round_last k len c b rest h last fits,
          )
        ]
      ]
    ]

round_any :
    (k : Channel) (len : ℤ) (c n : ℕ) (reads : List Read) (g : Got)
    (next : ℕ → List Read → Option Sent)
    → goes_on len c ≡ true
    → ((b : Bytes) (rest : List Read) → length b ≤ n → length b ≤ quota len c (map byte b ++ rest))
    → c + length reads < 2 ^ 31
    → IsGot n reads g
    → ((m : ℕ) (rest : List Read)
        → length rest < length reads
        → m + length rest ≡ c + length reads
        → goes_on len m ≡ true
        → (r : Sent) × (next m rest ≡ some r) × IsSent k len m rest r)
    → (r : Sent) × (send_round k len c g next ≡ some r) × IsSent k len c reads r
unfolding send_round
round_any k len c n reads (at_end rest) next h fits small (none_left, ends, e) later =
    (_, refl, round_end k len c reads rest h none_left ends e)
round_any k len c n reads (broken rest) next h fits small (none_left, broke) later =
    (_, refl, round_broken k len c reads rest h none_left broke)
round_any k len c n reads (got b rest) next h fits small (some_byte, grabbed) later =
    let size : length reads ≡ length b + length rest =
      ap length grabbed.split
      ∙ length-append (map byte b) rest
      ∙ ap (λ m. m + length rest) (length_bytes b) in
    let (r, run, s) =
      round_got k len c b rest next h (fits b rest grabbed.bound) (omega (arith, size))
        (later (c + length b) rest (omega (arith, size, some_byte)) (omega (arith, size))) in
    (r, run, subst (λ s. IsSent k len c s r) (sym grabbed.split) s)

loop-IsSent :
    (k : Channel) (len : ℤ) (rounds c : ℕ) (reads : List Read)
    → length reads < rounds
    → c + length reads < 2 ^ 31
    → goes_on len c ≡ true
    → (r : Sent) × (send_loop k len rounds c reads ≡ some r) × IsSent k len c reads r
unfolding send_loop
loop-IsSent k len zero c reads enough small h = absurd (omega arith)
loop-IsSent k len (suc rounds) c reads enough small h =
    let (n, block, room, fits) = block_fits len c h in
    let (r, run, s) =
      round_any k len c n reads (read_block k.available n reads) (send_loop k len rounds) h fits
        small (read_block-IsGot k.available n reads room)
        (λ m rest fewer same more.
          loop-IsSent k len rounds m rest (omega (arith, fewer, enough))
            (omega (arith, same, small)) more) in
    (r, rw block run, s)

-- A length that a body can have, or -1 for all that comes.
abbrev pub IsLength : ℤ → Type 0
IsLength (pos n) = Unit
IsLength (negsuc n) = n ≡ 0

-- With a length, or -1 for all of the source, and less than 2 GiB in the source, `data_send` ends and
-- stays inside of its buffer, however the reads are cut. What it hands to `write` is a part of the source
-- from its start, in order, and no more than the length, or nothing without a destination. If it
-- reports success, the source had the whole length, or ended without an error for -1; exactly that much
-- was handed on, and the source is left behind it. It reports success whenever the source has that
-- much and the destination stays open and takes what it is given.
pub data_send-IsSent :
    (k : Channel) (reads : List Read) (len : ℤ)
    → IsLength len
    → length reads < 2 ^ 31
    → (r : Sent) × (data_send k reads len ≡ some r) × IsSent k len 0 reads r
unfolding data_send goes_on
data_send-IsSent k reads (pos zero) valid small = (
  record { rest = reads; out = []; rc = true },
  refl,
  record {
    amount = 0;
    bounded = omega arith;
    in_order = sym (forwarded_nothing k);
    whole = λ _. (omega arith, sym (forwarded_nothing k), refl);
    complete = λ _ _. refl;
  },
)
data_send-IsSent k reads (pos (suc n)) valid small =
    loop-IsSent k (pos (suc n)) (length reads + 1) 0 reads (omega arith) (omega arith)
      (ground arith)
data_send-IsSent k reads (negsuc n) valid small =
    loop-IsSent k (negsuc n) (length reads + 1) 0 reads (omega arith) (omega arith) (ground arith)
