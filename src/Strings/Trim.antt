-- ===== src/Strings/Trim.antt =====
-- `trimr` cuts exactly the white space at the end; `unicode` keeps the text.
use bev_search.Common.{
  ℕ, zero, suc, ◌*◌, ◌/◌, ◌≤◌, ◌<◌, min, true, false, [], ◌∷◌, ◌++◌, ◌≡◌, ◌⊎◌, refl, sym, ap, arith,
  Bool-cases, inl, inr, length, take, drop, get_or, All, take-append-drop, take-min,
}
use native.Mathlib.Decide.{ℕ_discrete}
use bev_search.CString.{Bytes, is_space}
use bev_search.Strings.{trim_end, trimr, widen, unicode}

abbrev pub Spaces : Bytes → Type 0
Spaces = All (λ c. is_space c ≡ true)

-- What holds of a prefix length at which the loop stops.
abbrev Stops : ℕ → ℕ → Bytes → Type 0
Stops i n s =
    (i ≤ n)
    × ((i ≡ 0) ⊎ ((j : ℕ) × (i ≡ suc j) × (is_space (get_or s j 0) ≡ false)))
    × ((j : ℕ) → i ≤ j → j < n → is_space (get_or s j 0) ≡ true)

blank_from :
    (n i : ℕ) (s : Bytes)
    → is_space (get_or s n 0) ≡ true
    → ((j : ℕ) → i ≤ j → j < n → is_space (get_or s j 0) ≡ true)
    → (j : ℕ) → i ≤ j
    → j < suc n
    → is_space (get_or s j 0) ≡ true
blank_from n i s blank below j h k = elim (ℕ_discrete j n) [
  | yes e ↦ rw e blank
  | no ne ↦ below j h (omega arith)
]

trim_end-Stops : (n : ℕ) (s : Bytes) → Stops (trim_end n s) n s
unfolding trim_end
trim_end-Stops zero s = (omega arith, inl refl, λ j h k. absurd (omega arith))
trim_end-Stops (suc n) s = elim (Bool-cases (is_space (get_or s n 0))) [
  | inl blank ↦
      let (le, last, below) = trim_end-Stops n s in
      rw blank (omega arith, last, blank_from n (trim_end n s) s blank below)
  | inr solid ↦ rw solid (omega arith, inr (n, refl, solid), λ j h k. absurd (omega arith))
]

Spaces-drop :
    (i : ℕ) (s : Bytes)
    → ((j : ℕ) → i ≤ j → j < length s → is_space (get_or s j 0) ≡ true)
    → Spaces (drop i s)
Spaces-drop zero [] h = tt
Spaces-drop zero (c ∷ s) h = (
  h 0 (omega arith) (omega arith),
  Spaces-drop zero s (λ j p q. h (suc j) (omega arith) (omega arith)),
)
Spaces-drop (suc i) [] h = tt
Spaces-drop (suc i) (c ∷ s) h = Spaces-drop i s (λ j p q. h (suc j) (omega arith) (omega arith))

take-suc : (j : ℕ) (s : Bytes) → j < length s → take (suc j) s ≡ take j s ++ get_or s j 0 ∷ []
take-suc zero [] h = absurd (omega arith)
take-suc zero (c ∷ s) h = refl
take-suc (suc j) [] h = absurd (omega arith)
take-suc (suc j) (c ∷ s) h = ap (λ t. c ∷ t) (take-suc j s (omega arith))

-- The text is its trimmed form and white space behind it, and the trimmed form is empty or ends in
-- a byte that is no white space.
pub trimr_cut :
    (s : Bytes)
    → (tail : Bytes) × (s ≡ trimr s ++ tail)
      × Spaces tail
      × ((trimr s ≡ [])
          ⊎ ((init : Bytes) × (c : ℕ) × (trimr s ≡ init ++ c ∷ []) × (is_space c ≡ false)))
unfolding trimr
trimr_cut s =
    let e = trim_end (length s) s in
    let (le, last, below) = trim_end-Stops (length s) s in
    (
      drop e s,
      sym (take-append-drop e s),
      Spaces-drop e s below,
      elim last [
        | inl nothing ↦ inl (rw nothing)
        | inr (j, at, solid) ↦
            inr (take j s, get_or s j 0, rw at (take-suc j s (omega arith)), solid)
      ],
    )

-- `printuc` of ntlm.c reads every other byte.
pub every_other : ℕ → Bytes → Bytes
every_other zero s = []
every_other (suc n) [] = []
every_other (suc n) (c ∷ []) = c ∷ []
every_other (suc n) (c ∷ d ∷ s) = c ∷ every_other n s

length-widen : (l : ℕ) (s : Bytes) → l ≤ length s → length (widen l s) ≡ 2 * l
unfolding widen
length-widen zero s h = refl
length-widen (suc l) [] h = absurd (omega arith)
length-widen (suc l) (c ∷ s) h = omega (arith, length-widen l s (omega arith))

every_other-widen : (l : ℕ) (s : Bytes) → every_other l (widen l s) ≡ take l s
unfolding widen every_other
every_other-widen zero s = refl
every_other-widen (suc l) [] = refl
every_other-widen (suc l) (c ∷ s) = ap (λ t. c ∷ t) (every_other-widen l s)

-- `unicode` returns the length of its buffer, which is twice the number of bytes that it converts,
-- at most 64; every other byte of the buffer gives the text back, up to there.
pub every_other-unicode :
    (s : Bytes)
    → let (buf, len) = unicode s in
      (length buf ≡ len) × (len ≡ 2 * min 64 (length s)) × (every_other (len / 2) buf ≡ take 64 s)
unfolding unicode
every_other-unicode s =
    let l = min 64 (length s) in
    (length-widen l s (omega arith), refl, rw (half l, every_other-widen l s) (take-min 64 s))
  where
    half : (l : ℕ) → 2 * l / 2 ≡ l
    half l = omega arith
