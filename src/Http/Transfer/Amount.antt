-- ===== src/Http/Transfer/Amount.antt =====
-- How much `data_send` passes on.
use bev_search.Common.{
  ℕ, zero, suc, ◌+◌, ◌-◌, ◌≤◌, ◌<◌, Bool, true, false, List, [], ◌∷◌, ◌++◌, map, ltb, if◌then◌else◌,
  ◌≡◌, inl, inr, refl, ap, ◌∙◌, arith, length, take, drop, Bool-cases, drop-append, drop-add,
}
use bev_search.CString.{Bytes}
use bev_search.CString.Number.{ℤ, pos, negsuc, is_pos}
use bev_search.Socket.{Read, byte, no_more, failure}
use bev_search.Http.Transfer.{Channel, Sent, Got, got, at_end, broken, grab, read_block}

-- The bytes that come before the end of a stream, or before an error.
unfoldable pub leading : List Read → Bytes
leading [] = []
leading (no_more ∷ reads) = []
leading (failure ∷ reads) = []
leading (byte c ∷ reads) = c ∷ leading reads

-- The stream ends without an error.
unfoldable pub ends_well : List Read → Bool
ends_well [] = true
ends_well (no_more ∷ reads) = true
ends_well (failure ∷ reads) = false
ends_well (byte c ∷ reads) = ends_well reads

-- The bytes that reach the destination, if there is one.
abbrev pub forwarded : Channel → Bytes → Bytes
forwarded k b = if k.has_dst then b else []

-- What is to be passed on: the rest of the length, or everything for -1.
abbrev pub quota : ℤ → ℕ → List Read → ℕ
quota (pos len) c reads = len - c
quota (negsuc n) c reads = length (leading reads)

-- What is read behind the body: its end is, if the length is -1.
abbrev pub behind : ℤ → ℕ
behind (pos len) = 0
behind (negsuc n) = 1

-- The source has the whole body.
abbrev pub Enough : ℤ → ℕ → List Read → Type 0
Enough (pos len) c reads = len - c ≤ length (leading reads)
Enough (negsuc n) c reads = ends_well reads ≡ true

-- A destination that stays open and takes what it is given.
pub record IsOpen (k : Channel) : Type 0 where
  pub open_end : (s : List Read) → k.closed s ≡ false
  pub takes : (s : List Read) (b : Bytes) → is_pos (k.wrote s b) ≡ true

pub record IsSent (k : Channel) (len : ℤ) (c : ℕ) (reads : List Read) (r : Sent) : Type 0 where
  pub amount : ℕ
  pub bounded : amount ≤ quota len c reads
  pub in_order : r.out ≡ forwarded k (take amount (leading reads))
  pub whole :
      r.rc ≡ true
      → Enough len c reads
        × (r.out ≡ forwarded k (take (quota len c reads) (leading reads)))
        × (r.rest ≡ drop (quota len c reads + behind len) reads)
  pub complete : IsOpen k → Enough len c reads → r.rc ≡ true

pub leading_bytes :
    (b : Bytes) (rest : List Read) → leading (map byte b ++ rest) ≡ b ++ leading rest
unfolding leading
leading_bytes [] rest = refl
leading_bytes (c ∷ b) rest = ap (λ s. c ∷ s) (leading_bytes b rest)

pub ends_well_bytes :
    (b : Bytes) (rest : List Read) → ends_well (map byte b ++ rest) ≡ ends_well rest
unfolding ends_well
ends_well_bytes [] rest = refl
ends_well_bytes (c ∷ b) rest = ends_well_bytes b rest

pub length_bytes : (b : Bytes) → length (map byte b) ≡ length b
length_bytes [] = refl
length_bytes (c ∷ b) = ap suc (length_bytes b)

pub take_more : (b x : Bytes) (k : ℕ) → take (length b + k) (b ++ x) ≡ b ++ take k x
take_more [] x k = ap (λ n. take n x) (omega arith)
take_more (c ∷ b) x k =
    ap (λ n. take n (c ∷ (b ++ x))) {x = length (c ∷ b) + k} {y = suc (length b + k)} (omega arith)
    ∙ ap (λ s. c ∷ s) (take_more b x k)

pub drop_more :
    (b : Bytes) (rest : List Read) (k : ℕ) → drop (length b + k) (map byte b ++ rest) ≡ drop k rest
drop_more b rest k =
    drop-add (length b) k (map byte b ++ rest)
    ∙ ap (drop k) (drop-append (length b) (map byte b) rest (length_bytes b))

pub forwarded-append :
    (k : Channel) (b x : Bytes) → forwarded k b ++ forwarded k x ≡ forwarded k (b ++ x)
forwarded-append k b x = elim (Bool-cases k.has_dst) [
  | inl there ↦ rw there refl
  | inr nowhere ↦ rw nowhere refl
]

pub record IsGrab (n : ℕ) (reads : List Read) (b : Bytes) (rest : List Read) : Type 0 where
  pub bound : length b ≤ n
  pub split : reads ≡ map byte b ++ rest

grab-IsGrab : (n : ℕ) (reads : List Read) → IsGrab n reads (grab n reads).0 (grab n reads).1
unfolding grab
grab-IsGrab zero reads = record { bound = omega arith; split = refl }
grab-IsGrab (suc n) [] = record { bound = omega arith; split = refl }
grab-IsGrab (suc n) (no_more ∷ reads) = record { bound = omega arith; split = refl }
grab-IsGrab (suc n) (failure ∷ reads) = record { bound = omega arith; split = refl }
grab-IsGrab (suc n) (byte c ∷ reads) =
    let ih = grab-IsGrab n reads in
    record { bound = omega (arith, ih.bound); split = ap (λ s. byte c ∷ s) ih.split }

-- What one `read` finds.
abbrev pub IsGot : ℕ → List Read → Got → Type 0
IsGot n reads (got b rest) = (0 < length b) × IsGrab n reads b rest
IsGot n reads (at_end rest) =
    (leading reads ≡ []) × (ends_well reads ≡ true) × (rest ≡ drop 1 reads)
IsGot n reads (broken rest) = (leading reads ≡ []) × (ends_well reads ≡ false)

pub read_block-IsGot :
    (available : List Read → ℕ) (n : ℕ) (reads : List Read)
    → 0 < n
    → IsGot n reads (read_block available n reads)
unfolding read_block leading ends_well
read_block-IsGot available n [] h = (refl, refl, refl)
read_block-IsGot available n (no_more ∷ reads) h = (refl, refl, refl)
read_block-IsGot available n (failure ∷ reads) h = (refl, refl)
read_block-IsGot available n (byte c ∷ reads) h =
    let k = if ltb (available reads) (n - 1) then available reads else n - 1 in
    let small : k ≤ n - 1 = ground arith in
    let g = grab-IsGrab k reads in
    (
      omega arith,
      record { bound = omega (arith, g.bound, small); split = ap (λ s. byte c ∷ s) g.split },
    )
