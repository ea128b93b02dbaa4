-- ===== src/Strings/Copy.antt =====
-- Bounded copies: nothing is written outside of the destination, and what it holds afterwards.
use bev_search.Common.{
  ℕ, zero, suc, ◌+◌, ◌-◌, ◌%◌, ◌^◌, ◌≤◌, ◌<◌, min, some, [], ◌∷◌, ◌++◌, ◌==◌, if◌then◌else◌, ◌≡◌,
  ◌≢◌, refl, sym, ap, ◌∙◌, arith, length, take, drop, replicate, All, take_all, leb→le, All-drop,
  All-take, All-append, length-replicate, length-drop, append_assoc,
}
use Prim.Native.Nat.add
use mathlib.Core.Option
use native.Mathlib.Numerals.{add-one}
use bev_search.CString.{Bytes}
use bev_search.Strings.{c_str, copy, cat, strlcpy, strlcat, substr}

-- A C string: no byte of it is the terminator.
abbrev pub NulFree : Bytes → Type 0
NulFree = All (λ c. c ≢ 0)

-- What a copy of `src` with room for `n` bytes and the terminator makes of `dst`.
abbrev pub copied : ℕ → Bytes → Bytes → Bytes
copied n dst src = take n src ++ 0 ∷ drop (suc (min n (length src))) dst

pub copy_fits :
    (n : ℕ) (dst src : Bytes) → n < length dst → copy n dst src ≡ some (copied n dst src)
unfolding copy
copy_fits zero [] src h = absurd (omega arith)
copy_fits zero (x ∷ dst) src h = ground arith
copy_fits (suc n) [] src h = absurd (omega arith)
copy_fits (suc n) (x ∷ dst) [] h = ground arith
copy_fits (suc n) (x ∷ dst) (c ∷ src) h =
    let step : min (suc n) (suc (length src)) ≡ suc (min n (length src)) = omega arith in
    rw (copy_fits n dst src (omega arith), step)

pub c_str-append : (s rest : Bytes) → NulFree s → c_str (s ++ 0 ∷ rest) ≡ s
unfolding c_str
c_str-append [] rest h = refl
c_str-append (zero ∷ s) rest h = absurd (h.0 refl)
c_str-append (suc c ∷ s) rest h = ap (λ t. suc c ∷ t) (c_str-append s rest h.1)

pub c_str-whole : (s : Bytes) → NulFree s → c_str s ≡ s
unfolding c_str
c_str-whole [] h = refl
c_str-whole (zero ∷ s) (h, hs) = absurd (h refl)
c_str-whole (suc c ∷ s) (h, hs) = ap (λ s. suc c ∷ s) (c_str-whole s hs)

-- With a buffer of at least `siz` bytes `strlcpy` writes inside of it only: the first `siz - 1` bytes
-- of the source at most, a terminator, and the rest of the buffer as it was. The buffer then holds
-- that part of the source as a string, and the length of the whole source is returned.
pub strlcpy_fits :
    (dst src : Bytes) (n : ℕ)
    → n < length dst
    → NulFree src
    → (strlcpy dst src (suc n) ≡ some (copied n dst src, length src))
      × (c_str (copied n dst src) ≡ take n src)
unfolding strlcpy
strlcpy_fits dst src n h free = (
  rw (copy_fits n dst src h),
  c_str-append (take n src) (drop (suc (min n (length src))) dst)
      (All-take (λ c. c ≢ 0) n src free),
)

cat-append :
    (s tail src : Bytes) (n : ℕ)
    → NulFree s
    → n < length (0 ∷ tail)
    → cat (length s + suc n) (s ++ 0 ∷ tail) src
      ≡ some (s ++ copied n (0 ∷ tail) src, length s + length src)
unfolding cat
cat-append [] tail src n h room = rw (add.zero, add.zero, copy_fits n (0 ∷ tail) src room)
cat-append (zero ∷ s) tail src n h room = absurd (h.0 refl)
cat-append (suc c ∷ s) tail src n h room =
    rw (
      add.suc (length s) (suc n),
      add.suc (length s) (length src),
      cat-append s tail src n h.1 room,
    )

-- With a buffer that holds the string `s`, and a size that is larger than its length and within the
-- buffer, `strlcat` writes inside of the buffer only: as much of the source behind `s` as fits the
-- size, and a terminator. It returns the sum of the two lengths.
pub strlcat_fits :
    (s tail src : Bytes) (n : ℕ)
    → NulFree s
    → NulFree src
    → n < length (0 ∷ tail)
    → (strlcat (s ++ 0 ∷ tail) src (length s + suc n)
        ≡ some (s ++ copied n (0 ∷ tail) src, length s + length src))
      × (c_str (s ++ copied n (0 ∷ tail) src) ≡ s ++ take n src)
unfolding strlcat
strlcat_fits s tail src n hs hsrc room = (
  cat-append s tail src n hs room,
  ap c_str (sym (append_assoc s (take n src) (0 ∷ drop (suc (min n (length src))) (0 ∷ tail))))
      ∙ c_str-append (s ++ take n src) (drop (suc (min n (length src))) (0 ∷ tail))
          (All-append (λ c. c ≢ 0) s (take n src) hs (All-take (λ c. c ≢ 0) n src hsrc)),
)

-- The window that `substr` copies, for a count of bytes that are there.
window_copied :
    (src : Bytes) (pos l : ℕ)
    → NulFree src
    → Option.map (λ r. c_str r.0) (strlcpy (replicate (l + 1) 0) (drop pos src) (l + 1))
      ≡ some (take l (drop pos src))
window_copied src pos l free =
    let room : l < length (replicate (suc l) 0) =
      omega (arith, length-replicate {0} {A = ℕ} (suc l) 0) in
    let fits =
      strlcpy_fits (replicate (suc l) 0) (drop pos src) l room
        (All-drop (λ c. c ≢ 0) pos src free) in
    rw (add-one l, fits.0, fits.1)

take_enough : (l w : ℕ) (s : Bytes) → length s ≤ l → length s ≤ w → take l s ≡ take w s
take_enough l w s h k = take_all l s h ∙ sym (take_all w s k)

-- For a position within the string `substr` reads inside of the source and returns the bytes from
-- there: as many as were asked for, or as there are. A length of 0 asks for all of them.
pub substr_within :
    (src : Bytes) (pos len : ℕ)
    → NulFree src
    → length src < 2 ^ 31
    → pos ≤ length src
    → substr src pos len ≡ some (take (if len == 0 then length src else len) (drop pos src))
unfolding substr
substr_within src pos len free small h =
    let w = if len == 0 then length src else len in
    let behind : (length src + 2 ^ 64 - pos) % 2 ^ 64 ≡ length src - pos = omega arith in
    let rest : length (drop pos src) ≡ length src - pos = length-drop pos src in
    rw behind (
      ground (
        arith,
        leb→le pos (length src),
        window_copied src pos w free,
        window_copied src pos (length src - pos) free,
        take_enough (length src - pos) w (drop pos src),
      ))
