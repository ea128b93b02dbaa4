-- ===== src/Socket/Lines.antt =====
-- `so_recvln` stays inside of its buffer, which grows with the line.
use bev_search.Common.{
  test_ne, ℕ, ◌+◌, ◌*◌, ◌-◌, ◌^◌, ◌<◌, ◌≤◌, true, false, some, List, [], ◌∷◌, ltb, ◌==◌,
  if◌then◌else◌, ◌≡◌, ◌≢◌, refl, ap, arith, length, Bool-cases, inl, inr, lt→ltb,
}
use bev_search.CString.{Bytes}
use bev_search.CString.Number.{ℤ, pos, negsuc}
use bev_search.Socket.{Read, byte, no_more, failure, Line, end_line, recv_loop, so_recvln}

-- The bytes of a line: up to its end, which belongs to it, or as many as come.
unfoldable pub line_text : List Read → Bytes
line_text [] = []
line_text (no_more ∷ reads) = []
line_text (failure ∷ reads) = []
line_text (byte c ∷ reads) = c ∷ (let rest = line_text reads in if c == 10 then [] else rest)

-- The last result of `read`.
unfoldable pub line_result : List Read → ℤ
line_result [] = pos 0
line_result (no_more ∷ reads) = pos 0
line_result (failure ∷ reads) = negsuc 0
line_result (byte c ∷ reads) = let rest = line_result reads in if c == 10 then pos 1 else rest

pub record IsLine (reads : List Read) (size len : ℕ) (l : Line) : Type 0 where
  pub text : l.text ≡ line_text reads
  pub room : len + length l.text < l.size
  pub r : l.r ≡ line_result reads
  pub grown : size ≤ l.size
  pub small : l.size < 2 ^ 31

line_ended :
    (len size : ℕ) (r : ℤ)
    → ltb len size ≡ true
    → end_line size len r ≡ some (record { text = []; size = size; r = r })
unfolding end_line
line_ended len size r h = rw h

-- Behind a byte that does not end the line.
line_left :
    (c len : ℕ) (reads : List Read)
    → (c == 10) ≡ false
    → len + length (line_text (byte c ∷ reads)) < 2 ^ 30 - 1
    → len + 1 + length (line_text reads) < 2 ^ 30 - 1
unfolding line_text
line_left c len reads inner short =
    let split : length (line_text (byte c ∷ reads)) ≡ length (line_text reads) + 1 =
      rw inner (omega arith) in
    omega (arith, short, split)

doubled_room :
    (size len n : ℕ)
    → len + 1 ≡ size - 1
    → len + 1 + n < 2 ^ 30 - 1
    → (len + 1 + 1 < size * 2) × (size * 2 < 2 ^ 31)
doubled_room size len n full short = omega arith

room_left : (size len : ℕ) → len + 1 < size → len + 1 ≢ size - 1 → len + 1 + 1 < size
room_left size len room apart = omega (arith, apart)

loop-IsLine :
    (reads : List Read) (size len : ℕ)
    → len + 1 < size
    → size < 2 ^ 31
    → len + length (line_text reads) < 2 ^ 30 - 1
    → (l : Line) × (recv_loop reads size len ≡ some l) × IsLine reads size len l
unfolding recv_loop line_text line_result
loop-IsLine [] size len room small short = (
  record { text = []; size = size; r = pos 0 },
  ground arith,
  record { text = refl; room = omega arith; r = refl; grown = omega arith; small = small },
)
loop-IsLine (no_more ∷ reads) size len room small short = (
  record { text = []; size = size; r = pos 0 },
  ground arith,
  record { text = refl; room = omega arith; r = refl; grown = omega arith; small = small },
)
loop-IsLine (failure ∷ reads) size len room small short = (
  record { text = []; size = size; r = negsuc 0 },
  ground arith,
  record { text = refl; room = omega arith; r = refl; grown = omega arith; small = small },
)
loop-IsLine (byte c ∷ reads) size len room small short =
    let more : ltb len (size - 1) ≡ true = lt→ltb len (size - 1) (omega arith) in
    let inside : ltb len size ≡ true = lt→ltb len size (omega arith) in
    elim (Bool-cases (c == 10)) [
      | inl eol ↦
          (let ends : ltb (len + 1) size ≡ true = lt→ltb (len + 1) size room in
            (
              record { text = c ∷ []; size = size; r = pos 1 },
              rw (more, inside, eol, line_ended (len + 1) size (pos 1) ends),
              record {
                text = rw eol;
                room = omega arith;
                r = rw eol;
                grown = omega arith;
                small = small;
              },
            ))
      | inr inner ↦
          (let left = line_left c len reads inner short in
            elim (Bool-cases (len + 1 == size - 1)) [
              | inl full ↦
                  (let filled : len + 1 ≡ size - 1 = ground (arith, full) in
                    let doubled = doubled_room size len (length (line_text reads)) filled left in
                    let doubles : ltb (size * 2) (2 ^ 31) ≡ true =
                      lt→ltb (size * 2) (2 ^ 31) doubled.1 in
                    let later = loop-IsLine reads (size * 2) (len + 1) doubled.0 doubled.1 left in
                    let l = later.2 in
                    (
                      record later.0 { text = c ∷ later.0.text },
                      rw (more, inside, inner, full, doubles, later.1),
                      record {
                        text = rw inner (ap (λ t. c ∷ t) l.text);
                        room = omega (arith, l.room);
                        r = rw inner l.r;
                        grown = omega (arith, l.grown);
                        small = l.small;
                      },
                    ))
              | inr space ↦
                  (let apart : len + 1 ≢ size - 1 = test_ne (len + 1) (size - 1) space in
                    let later =
                      loop-IsLine reads size (len + 1) (room_left size len room apart) small left in
                    let l = later.2 in
                    (
                      record later.0 { text = c ∷ later.0.text },
                      rw (more, inside, inner, space, later.1),
                      record {
                        text = rw inner (ap (λ t. c ∷ t) l.text);
                        room = omega (arith, l.room);
                        r = rw inner l.r;
                        grown = omega (arith, l.grown);
                        small = l.small;
                      },
                    ))
            ])
    ]

-- With a buffer of two bytes or more, and a line of less than 1 GiB, `so_recvln` stays inside of its
-- buffer, which it doubles when it is full. It leaves the bytes up to the end of the line, which
-- belongs to them, or as many as come, in a buffer with room for the terminator, and returns the last
-- result of `read`: 1, 0 at the end of the stream, or -1. The buffer does not shrink, and stays smaller
-- than 2 GiB.
pub so_recvln-IsLine :
    (reads : List Read) (size : ℕ)
    → 1 < size
    → size < 2 ^ 31
    → length (line_text reads) < 2 ^ 30 - 1
    → (l : Line) × (so_recvln reads size ≡ some l) × IsLine reads size 0 l
unfolding so_recvln
so_recvln-IsLine reads size room small short =
    loop-IsLine reads size 0 (omega arith) small (omega arith)
