-- ===== src/Http/Chunked/Forward.antt =====
-- `chunked_data_send` passes a chunked body on as it is.
use bev_search.Common.{
  ℕ, zero, suc, ◌+◌, ◌-◌, ◌^◌, ◌<◌, Bool, true, false, Option, some, List, [], ◌∷◌, ◌++◌, map,
  append-nil, ltb, ◌≡◌, refl, sym, ap, ap₂, subst, ◌∙◌, arith, length, take, All, lt→ltb,
  length-append, take-append, drop-append,
}
use bev_search.CString.{Bytes}
use bev_search.CString.Number.{pos, is_pos}
use bev_search.Strings.{c_str}
use bev_search.Socket.{Read, byte, Line}
use bev_search.Http.Transfer.{Channel, Sent, stop, add_out, data_send}
use bev_search.Http.Transfer.Amount.{
  leading, forwarded, IsOpen, leading_bytes, length_bytes, forwarded-append,
}
use bev_search.Http.Transfer.Complete.{data_send-IsSent}
use bev_search.Http.Chunked.{
  chunk_size, with_crlf, passed, is_blank, trailer_loop, send_chunk, after_size, chunk_loop,
  chunked_data_send,
}
use bev_search.Http.Chunked.Grammar.{
  Chunk, Chunks, line, print_lines, print_chunks, print_body, Inline, IsChunk, IsBody, lines_then,
  chunks_then, body_stream,
}
use bev_search.Http.Chunked.Lines.{c_str-line, recv_line-IsReceived, length-line, passed-line}

same_sent :
    (r : Sent) (rest : List Read) (out : Bytes)
    → r.rest ≡ rest
    → r.out ≡ out
    → r.rc ≡ true
    → r ≡ record { rest = rest; out = out; rc = true }
same_sent r rest out e f g =
    let sent : List Read → Bytes → Bool → Sent = λ a b c. record { rest = a; out = b; rc = c } in
    ap₂ (λ a b. sent a b r.rc) e f ∙ ap (sent rest out) g

data_send_all :
    (k : Channel) (b : Bytes) (rest : List Read)
    → IsOpen k
    → length (map byte b ++ rest) < 2 ^ 31
    → data_send k (map byte b ++ rest) (pos (length b))
      ≡ some (record { rest = rest; out = forwarded k b; rc = true })
data_send_all k b rest good small =
    let (r, run, s) = data_send-IsSent k (map byte b ++ rest) (pos (length b)) tt small in
    let all = leading_bytes b rest in
    let done = s.complete good (omega (arith, ap length all ∙ length-append b (leading rest))) in
    let (_, out, left) = s.whole done in
    let size : length b - 0 ≡ length b = omega arith in
    run
    ∙ ap some (
        same_sent r rest (forwarded k b)
          (left ∙ drop-append (length b - 0 + 0) (map byte b) rest (omega (arith, length_bytes b)))
          (out
            ∙ ap₂ (λ n s. forwarded k (take n s)) size all
            ∙ ap (forwarded k) (take-append (length b) b (leading rest) refl))
          done)

add_out-forwarded :
    (k : Channel) (a b : Bytes) (rest : List Read) (c : Bool)
    → add_out (forwarded k a) (some (record { rest = rest; out = forwarded k b; rc = c }))
      ≡ some (record { rest = rest; out = forwarded k (a ++ b); rc = c })
add_out-forwarded k a b rest c = ap (λ o. stop rest o c) (forwarded-append k a b)

trailer_sent :
    (k : Channel) (trailer : List Bytes) (blank : Bytes) (rest : List Read) (rounds size : ℕ)
    → All (λ t. Inline t × (is_blank (line t) ≡ false)) trailer
    → Inline blank
    → is_blank (line blank) ≡ true
    → 1 < size
    → size < 2 ^ 31
    → length (lines_then trailer (map byte (line blank) ++ rest)) < rounds
    → rounds < 2 ^ 30
    → trailer_loop k rounds size (lines_then trailer (map byte (line blank) ++ rest))
      ≡ some
          (record { rest = rest; out = forwarded k (print_lines trailer (line blank)); rc = true })
unfolding trailer_loop is_pos
trailer_sent k trailer blank rest zero size h hb ends roomy small enough short =
    absurd (omega arith)
trailer_sent k [] blank rest (suc rounds) size h hb ends roomy small enough short =
    let (r, run, got) = recv_line-IsReceived blank rest size hb roomy small (omega arith) in
    let blank_line : is_blank r.0.text ≡ true = ap is_blank got.text ∙ ends in
    rw (run, got.r, blank_line, passed-line k blank r.0.text hb got.text, got.left)
      (ap (λ o. stop rest o true) (append-nil (forwarded k (line blank))))
trailer_sent k (t ∷ trailer) blank rest (suc rounds) size (ht, h) hb ends roomy small enough short =
    let tail = lines_then trailer (map byte (line blank) ++ rest) in
    let (r, run, got) = recv_line-IsReceived t tail size ht.0 roomy small (omega arith) in
    let more : is_blank r.0.text ≡ false = ap is_blank got.text ∙ ht.1 in
    let ih =
      trailer_sent k trailer blank rest rounds r.0.size h hb ends got.roomy got.small
        (omega (arith, length-line t tail)) (omega arith) in
    rw (run, got.r, more, passed-line k t r.0.text ht.0 got.text, got.left, ih)
      (add_out-forwarded k (line t) (print_lines trailer (line blank)) rest true)

size_of :
    (s l : Bytes) (n : ℕ)
    → Inline s
    → l ≡ line s
    → chunk_size (line s) ≡ some (pos n)
    → chunk_size (c_str l) ≡ some (pos n)
size_of s l n h e size = ap (λ l. chunk_size (c_str l)) e ∙ ap chunk_size (c_str-line s h) ∙ size

some_chunk :
    (k : Channel) (l : Line) (rest : List Read) (n : ℕ) (next trailer : List Read → Option Sent)
    → 0 < n
    → after_size k l rest (some (pos n)) next trailer
      ≡ add_out (passed k l.text) (send_chunk k (pos n) rest next)
unfolding after_size
some_chunk k l rest zero next trailer h = absurd (omega arith)
some_chunk k l rest (suc n) next trailer h = refl

send_chunk_all :
    (k : Channel) (body : Bytes) (n : ℕ) (tail : List Read) (next : List Read → Option Sent)
    → IsOpen k
    → n + 2 < 2 ^ 31
    → length body ≡ n + 2
    → length (map byte body ++ tail) < 2 ^ 31
    → send_chunk k (pos n) (map byte body ++ tail) next ≡ add_out (forwarded k body) (next tail)
unfolding send_chunk with_crlf
send_chunk_all k body n tail next good fits size small =
    let crlf : ltb (n + 2) (2 ^ 31) ≡ true = lt→ltb (n + 2) (2 ^ 31) fits in
    rw (crlf, sym size, data_send_all k body tail good small) refl

module _ (k : Channel) (m : Chunks) (rest : List Read) (good : IsOpen k) (h : IsBody m) where
  trail : List Read
  trail = lines_then m.trailer (map byte (line m.blank) ++ rest)

  ending : Bytes
  ending = print_lines m.trailer (line m.blank)

  chunks_sent :
      (cs : List Chunk) (rounds size : ℕ)
      → All IsChunk cs
      → 1 < size
      → size < 2 ^ 31
      → length (chunks_then cs (map byte (line m.last) ++ trail)) < rounds
      → rounds < 2 ^ 30
      → chunk_loop k rounds size (chunks_then cs (map byte (line m.last) ++ trail))
        ≡ some (record {
          rest = rest;
          out = forwarded k (print_chunks cs (line m.last ++ ending));
          rc = true;
        })
  unfolding chunk_loop is_pos after_size trail ending
  chunks_sent cs zero size hs roomy small enough short = absurd (omega arith)
  chunks_sent [] (suc rounds) size hs roomy small enough short =
      let (r, run, got) =
        recv_line-IsReceived m.last trail size h.last.0 roomy small (omega arith) in
      let done =
        trailer_sent k m.trailer m.blank rest (length trail + 1) r.0.size h.trailer h.blank.0
          h.blank.1 got.roomy got.small (omega arith) (omega (arith, length-line m.last trail)) in
      rw
        (
          run,
          got.r,
          size_of m.last r.0.text 0 h.last.0 got.text h.last.1,
          passed-line k m.last r.0.text h.last.0 got.text,
          got.left,
          done,
        )
        (add_out-forwarded k (line m.last) ending rest true)
  chunks_sent (c ∷ cs) (suc rounds) size (hc, hs) roomy small enough short =
      let tail = chunks_then cs (map byte (line m.last) ++ trail) in
      let behind = map byte c.body ++ tail in
      let total = length-line c.head behind in
      let (r, run, got) =
        recv_line-IsReceived c.head behind size hc.inline roomy small (omega arith) in
      let ih =
        chunks_sent cs rounds r.0.size hs got.roomy got.small
          (omega (arith, total, length-append (map byte c.body) tail)) (omega arith) in
      rw
        (
          run,
          got.r,
          size_of c.head r.0.text hc.size hc.inline got.text hc.reads,
          some_chunk k r.0 r.1 hc.size _ _ hc.some_data,
          passed-line k c.head r.0.text hc.inline got.text,
          got.left,
          send_chunk_all k c.body hc.size tail _ good hc.fits hc.data_size (omega (arith, total)),
          ih,
        )
        (ap (add_out (forwarded k (line c.head)))
            (add_out-forwarded k c.body (print_chunks cs (line m.last ++ ending)) rest true)
          ∙ add_out-forwarded k (line c.head) (c.body ++ print_chunks cs (line m.last ++ ending))
              rest true)

-- For a source that begins with a chunked body, and a destination that stays open and takes what it is
-- given, `chunked_data_send` ends with success: it has handed exactly that body on, with the sizes and
-- the trailer as they were, or nothing without a destination, and has left the source behind it. The
-- body has chunks with their sizes, of any number below 2 GiB, a line with the size 0, and a trailer of
-- any lines; the source is smaller than 1 GiB.
pub chunked_data_send-forwards :
    (k : Channel) (m : Chunks) (rest : List Read)
    → IsOpen k
    → IsBody m
    → length (map byte (print_body m) ++ rest) < 2 ^ 30 - 2
    → chunked_data_send k (map byte (print_body m) ++ rest)
      ≡ some (record { rest = rest; out = forwarded k (print_body m); rc = true })
unfolding chunked_data_send trail ending
chunked_data_send-forwards k m rest good h short =
    let stream = body_stream m rest in
    subst
      (λ s.
        chunk_loop k (length {A = Read} (map byte (print_body m) ++ rest) + 1) 4096 s
        ≡ some (record { rest = rest; out = forwarded k (print_body m); rc = true }))
      (sym stream)
      (chunks_sent k m rest good h m.chunks (length (map byte (print_body m) ++ rest) + 1) 4096
        h.chunks (omega arith) (omega arith) (omega (arith, ap length stream)) (omega arith))
