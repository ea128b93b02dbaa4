-- ===== src/Http/Chunked/Lines.antt =====
-- The lines of a chunked body.
use bev_search.Common.{
  eq_other, ℕ, zero, suc, ◌+◌, ◌-◌, ◌^◌, ◌<◌, some, List, [], ◌∷◌, ◌++◌, map, if◌then◌else◌, ◌≡◌,
  refl, ap, ap₂, ◌∙◌, arith, length, drop, length-append, drop-append,
}
use bev_search.CString.{Bytes}
use bev_search.CString.Number.{pos, is_pos}
use bev_search.Strings.{c_str}
use bev_search.Socket.{Read, byte, Line}
use bev_search.Socket.Lines.{line_text, line_result, so_recvln-IsLine}
use bev_search.Http.Transfer.{Channel}
use bev_search.Http.Transfer.Amount.{forwarded, length_bytes}
use bev_search.Http.Chunked.{behind_line, recv_line, passed}
use bev_search.Http.Chunked.Grammar.{line, Inline}

pub c_str-line : (s : Bytes) → Inline s → c_str (line s) ≡ line s
unfolding c_str
c_str-line [] h = refl
c_str-line (zero ∷ s) (h, hs) = absurd (h.1 refl)
c_str-line (suc c ∷ s) (h, hs) = ap (λ s. suc c ∷ s) (c_str-line s hs)

pub line_text-line :
    (s : Bytes) (rest : List Read)
    → Inline s
    → (line_text (map byte (line s) ++ rest) ≡ line s)
      × (line_result (map byte (line s) ++ rest) ≡ pos 1)
unfolding line_text line_result
line_text-line [] rest h = (refl, refl)
line_text-line (c ∷ s) rest (h, hs) =
    let inner = eq_other c 10 h.0 in
    let ih = line_text-line s rest hs in (rw inner (ap (λ s. c ∷ s) ih.0), rw inner ih.1)

pub length-line :
    (s : Bytes) (rest : List Read) → length (map byte (line s) ++ rest) ≡ length s + 1 + length rest
length-line s rest = omega (
  arith,
  length-append (map byte (line s)) rest,
  length_bytes (line s),
  length-append s (10 ∷ []),
)

-- A line that is received, in a buffer that may have grown.
pub record IsReceived (s : Bytes) (rest : List Read) (got : Line × List Read) : Type 0 where
  pub text : got.0.text ≡ line s
  pub r : got.0.r ≡ pos 1
  pub left : got.1 ≡ rest
  pub roomy : 1 < got.0.size
  pub small : got.0.size < 2 ^ 31

pub recv_line-IsReceived :
    (s : Bytes) (rest : List Read) (size : ℕ)
    → Inline s
    → 1 < size
    → size < 2 ^ 31
    → length (map byte (line s) ++ rest) < 2 ^ 30 - 1
    → (r : Line × List Read) × (recv_line (map byte (line s) ++ rest) size ≡ some r)
      × IsReceived s rest r
unfolding recv_line behind_line is_pos
recv_line-IsReceived s rest size h roomy small short =
    let (same, good) = line_text-line s rest h in
    let shorter : length (line_text (map byte (line s) ++ rest)) < 2 ^ 30 - 1 =
      omega (arith, ap length same, length-line s rest, length-append s (10 ∷ []), short) in
    let (l, run, is_line) = so_recvln-IsLine (map byte (line s) ++ rest) size roomy small shorter in
    let text = is_line.text ∙ same in
    let r = is_line.r ∙ good in
    (
      (l, behind_line l (map byte (line s) ++ rest)),
      rw run refl,
      record {
        text = text;
        r = r;
        left =
            ap₂
              (λ t r.
                drop (length {A = ℕ} t + (if is_pos r then 0 else 1)) (map byte (line s) ++ rest))
              text r
            ∙ drop-append (length (line s) + 0) (map byte (line s)) rest
                (omega (arith, length_bytes (line s)));
        roomy = omega (arith, is_line.grown);
        small = is_line.small;
      },
    )

pub passed-line :
    (k : Channel) (s : Bytes) (l : Bytes)
    → Inline s
    → l ≡ line s
    → passed k l ≡ forwarded k (line s)
unfolding passed
passed-line k s l h e = ap (forwarded k) (ap c_str e ∙ c_str-line s h)
