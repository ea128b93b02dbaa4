-- ===== src/Ntlm/Buffer.antt =====
-- Writes of fields into a zeroed buffer, on a machine with the low byte first.
use bev_search.Common.{
  ℕ, zero, suc, ◌+◌, ◌/◌, ◌%◌, ◌^◌, Option, none, some, List, [], ◌∷◌, ◌++◌, ◌≤◌, ◌≡◌, ap, sym, ◌∙◌,
  arith, leb, if◌then◌else◌, take, drop, length, replicate, length-append, append_assoc, append-nil,
  subst, drop-append, take-append, Option-cases, inl, inr,
}
use bev_search.CString.{Bytes}
use mathlib.Core.Option
use mathlib.Core.Option.{some-injective, none-ne-some}
use native.Mathlib.Nat.{zero-add, suc-add}

-- `VAL(buf, uint16_t, …) = U16LE(n)` and its kin store these bytes.
abbrev pub le16 : ℕ → Bytes
le16 n = (n % 2 ^ 8) ∷ (n / 2 ^ 8 % 2 ^ 8) ∷ []

abbrev pub le32 : ℕ → Bytes
le32 n = (n % 2 ^ 8) ∷ (n / 2 ^ 8 % 2 ^ 8) ∷ (n / 2 ^ 16 % 2 ^ 8) ∷ (n / 2 ^ 24 % 2 ^ 8) ∷ []

abbrev pub le64 : ℕ → Bytes
le64 n = le32 n ++ le32 (n / 2 ^ 32)

-- `n` bytes of a memory; `none` is a read outside of it.
unfoldable pub slice : Bytes → ℕ → ℕ → Option Bytes
slice mem at n = if leb (at + n) (length mem) then some (take n (drop at mem)) else none

pub slice_within :
    (mem : Bytes) (at n : ℕ) → at + n ≤ length mem → slice mem at n ≡ some (take n (drop at mem))
unfolding slice
slice_within mem at n h = ground arith

-- Bytes over the beginning of a buffer; `none` is a write behind its end.
unfoldable pub overwrite : Bytes → Bytes → Option Bytes
overwrite [] buf = some buf
overwrite (c ∷ s) [] = none
overwrite (c ∷ s) (x ∷ buf) = Option.map (λ b. c ∷ b) (overwrite s buf)

-- `memcpy(buf + at, s, …)`
unfoldable pub put : ℕ → Bytes → Bytes → Option Bytes
unfolding overwrite
put zero s buf = overwrite s buf
put (suc at) s [] = none
put (suc at) s (x ∷ buf) = Option.map (λ b. x ∷ b) (put at s buf)

-- Straight-line code: writes in their order.
unfoldable pub put_all : List (ℕ × Bytes) → Bytes → Option Bytes
unfolding put
put_all [] buf = some buf
put_all ((at, s) ∷ fields) buf = elim (put at s buf) [ none ↦ none | some b ↦ put_all fields b ]

abbrev pub contents : List (ℕ × Bytes) → Bytes
contents [] = []
contents ((at, s) ∷ fields) = s ++ contents fields

-- Each field begins where the one before it ends.
abbrev pub InOrder : ℕ → List (ℕ × Bytes) → Type 0
InOrder n [] = Unit
InOrder n ((at, s) ∷ fields) = (at ≡ n) × InOrder (n + length s) fields

abbrev zeros : ℕ → Bytes
zeros k = replicate k 0

pub overwrite-zeros : (s : Bytes) (k : ℕ) → overwrite s (zeros (length s + k)) ≡ some (s ++ zeros k)
unfolding overwrite
overwrite-zeros [] k = rw zero-add
overwrite-zeros (c ∷ s) k = rw (suc-add, overwrite-zeros s k)

pub put-append :
    (w s buf b : Bytes) → overwrite s buf ≡ some b → put (length w) s (w ++ buf) ≡ some (w ++ b)
unfolding put
put-append [] s buf b h = h
put-append (x ∷ w) s buf b h = rw (put-append w s buf b h)

abbrev pub then_fields : List (ℕ × Bytes) → Option Bytes → Option Bytes
unfolding put_all
then_fields fields none = none
then_fields fields (some b) = put_all fields b

-- Fields in order leave what was written, themselves and the zeros behind them.
pub put_all-InOrder :
    (w : Bytes) (fields : List (ℕ × Bytes)) (k : ℕ)
    → InOrder (length w) fields
    → put_all fields (w ++ replicate (length (contents fields) + k) 0)
      ≡ some ((w ++ contents fields) ++ replicate k 0)
unfolding put_all
put_all-InOrder w [] k h = rw (zero-add, append-nil)
put_all-InOrder w ((at, s) ∷ fields) k (here, rest) =
    let room : length (s ++ contents fields) + k ≡ length s + (length (contents fields) + k) =
      omega (arith, length-append s (contents fields)) in
    let n = length (contents fields) + k in
    let first : put at s (w ++ zeros (length s + n)) ≡ some (w ++ (s ++ zeros n)) =
      subst (λ m. put m s (w ++ zeros (length s + n)) ≡ some (w ++ (s ++ zeros n))) (sym here)
        (put-append w s (zeros (length s + n)) (s ++ zeros n) (overwrite-zeros s n)) in
    let later =
      put_all-InOrder (w ++ s) fields k
        (subst (λ m. InOrder m fields) (sym (length-append w s)) rest) in
    subst
      (λ m.
        put_all ((at, s) ∷ fields) (w ++ zeros m)
        ≡ some ((w ++ contents ((at, s) ∷ fields)) ++ zeros k))
      (sym room)
      (ap (then_fields fields) first
        ∙ ap (put_all fields) (sym (append_assoc w s (zeros n)))
        ∙ later
        ∙ ap (λ b. some (b ++ zeros k)) (append_assoc w s (contents fields)))

-- The bytes at a place that is known.
pub slice-append :
    (w s rest : Bytes) (at n : ℕ)
    → at ≡ length w
    → n ≡ length s
    → slice (w ++ (s ++ rest)) at n ≡ some s
slice-append w s rest at n place size =
    let here : drop at (w ++ (s ++ rest)) ≡ s ++ rest = drop-append at w (s ++ rest) (sym place) in
    slice_within (w ++ (s ++ rest)) at n
      (omega (arith, place, size, length-append w (s ++ rest), length-append s rest))
    ∙ ap (λ b. some (take n b)) here
    ∙ ap (λ b. some b) (take-append n s rest (sym size))

pub put_all-append :
    (fields more : List (ℕ × Bytes)) (buf b : Bytes)
    → put_all fields buf ≡ some b
    → put_all (fields ++ more) buf ≡ put_all more b
unfolding put_all
put_all-append [] more buf b h = ap (put_all more) (some-injective buf b h)
put_all-append ((at, s) ∷ fields) more buf b h = elim (Option-cases (put at s buf)) [
  | inl failed ↦ absurd (none-ne-some b (sym (ap (then_fields fields) failed) ∙ h))
  | inr (next, done) ↦
      ap (then_fields (fields ++ more)) done
      ∙ put_all-append fields more next b (sym (ap (then_fields fields) done) ∙ h)
]
