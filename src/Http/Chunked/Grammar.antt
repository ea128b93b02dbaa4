-- ===== src/Http/Chunked/Grammar.antt =====
-- Chunked bodies, and the streams that they make.
use bev_search.Common.{
  ℕ, ◌+◌, ◌^◌, ◌<◌, true, false, some, List, [], ◌∷◌, ◌++◌, map, ◌≡◌, ◌≢◌, refl, ap, ◌∙◌, length,
  All,
}
use bev_search.CString.{Bytes}
use bev_search.CString.Number.{pos}
use bev_search.Socket.{Read, byte}
use bev_search.Http.Chunked.{chunk_size, is_blank}

-- A chunk: the line with its size, without the end, and its data with the line end behind them.
pub record Chunk : Type 0 where
  pub head : Bytes
  pub body : Bytes

-- A chunked body: chunks, the line of the last one, the lines of the trailer, and a blank line.
pub record Chunks : Type 0 where
  pub chunks : List Chunk
  pub last : Bytes
  pub trailer : List Bytes
  pub blank : Bytes

abbrev pub line : Bytes → Bytes
line text = text ++ 10 ∷ []

abbrev pub print_lines : List Bytes → Bytes → Bytes
print_lines [] tail = tail
print_lines (l ∷ ls) tail = line l ++ print_lines ls tail

abbrev pub print_chunks : List Chunk → Bytes → Bytes
print_chunks [] tail = tail
print_chunks (c ∷ cs) tail = line c.head ++ (c.body ++ print_chunks cs tail)

abbrev pub print_body : Chunks → Bytes
print_body m = print_chunks m.chunks (line m.last ++ print_lines m.trailer (line m.blank))

abbrev pub Inline : Bytes → Type 0
Inline s = All (λ c. (c ≢ 10) × (c ≢ 0)) s

-- The line reads as the size of the data, which is not 0; two bytes more are the line end.
pub record IsChunk (c : Chunk) : Type 0 where
  pub inline : Inline c.head
  pub size : ℕ
  pub some_data : 0 < size
  pub reads : chunk_size (line c.head) ≡ some (pos size)
  pub fits : size + 2 < 2 ^ 31
  pub data_size : length c.body ≡ size + 2

pub record IsBody (m : Chunks) : Type 0 where
  pub chunks : All IsChunk m.chunks
  pub last : Inline m.last × (chunk_size (line m.last) ≡ some (pos 0))
  pub trailer : All (λ t. Inline t × (is_blank (line t) ≡ false)) m.trailer
  pub blank : Inline m.blank × (is_blank (line m.blank) ≡ true)

-- The stream of the lines of a trailer.
abbrev pub lines_then : List Bytes → List Read → List Read
lines_then [] tail = tail
lines_then (l ∷ ls) tail = map byte (line l) ++ lines_then ls tail

-- The stream of chunks.
abbrev pub chunks_then : List Chunk → List Read → List Read
chunks_then [] tail = tail
chunks_then (c ∷ cs) tail = map byte (line c.head) ++ (map byte c.body ++ chunks_then cs tail)

pub bytes-append :
    (a b : Bytes) (rest : List Read)
    → map byte (a ++ b) ++ rest ≡ map byte a ++ (map byte b ++ rest)
bytes-append [] b rest = refl
bytes-append (c ∷ a) b rest = ap (λ s. byte c ∷ s) (bytes-append a b rest)

pub lines_stream :
    (ls : List Bytes) (tail : Bytes) (rest : List Read)
    → map byte (print_lines ls tail) ++ rest ≡ lines_then ls (map byte tail ++ rest)
lines_stream [] tail rest = refl
lines_stream (l ∷ ls) tail rest =
    bytes-append (line l) (print_lines ls tail) rest
    ∙ ap (λ s. map byte (line l) ++ s) (lines_stream ls tail rest)

pub chunks_stream :
    (cs : List Chunk) (tail : Bytes) (rest : List Read)
    → map byte (print_chunks cs tail) ++ rest ≡ chunks_then cs (map byte tail ++ rest)
chunks_stream [] tail rest = refl
chunks_stream (c ∷ cs) tail rest =
    bytes-append (line c.head) (c.body ++ print_chunks cs tail) rest
    ∙ ap (λ s. map byte (line c.head) ++ s)
        (bytes-append c.body (print_chunks cs tail) rest
          ∙ ap (λ s. map byte c.body ++ s) (chunks_stream cs tail rest))

pub body_stream :
    (m : Chunks) (rest : List Read)
    → map byte (print_body m) ++ rest
      ≡ chunks_then m.chunks
          (map byte (line m.last) ++ lines_then m.trailer (map byte (line m.blank) ++ rest))
body_stream m rest =
    chunks_stream m.chunks (line m.last ++ print_lines m.trailer (line m.blank)) rest
    ∙ ap (chunks_then m.chunks) (
        bytes-append (line m.last) (print_lines m.trailer (line m.blank)) rest
        ∙ ap (λ s. map byte (line m.last) ++ s) (lines_stream m.trailer (line m.blank) rest))
