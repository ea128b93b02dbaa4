-- ===== src/Base64/Room.antt =====
-- The encoder stays within the room that it is given.
use bev_search.Common.{
  ℕ, ◌+◌, ◌-◌, ◌*◌, ◌/◌, ◌≤◌, [], ◌∷◌, ltb, ◌≡◌, refl, arith, length, Bool-cases, inl, inr,
}
use bev_search.CString.{Bytes}
use bev_search.Base64.{remainder, to_base64}

length-remainder : (s : Bytes) (olen : ℕ) → 1 ≤ olen → length (remainder s olen) + 1 ≤ olen
unfolding remainder
length-remainder [] olen h = omega arith
length-remainder (a ∷ []) olen h = ground arith
length-remainder (a ∷ b ∷ s) olen h = ground arith

-- The text and its terminator fit into `olen` bytes, for every input and any room for at least the
-- terminator; and given room, the text has four digits for each three bytes begun.
pub length-to_base64 :
    (s : Bytes) (olen : ℕ)
    → 1 ≤ olen
    → (length (to_base64 s olen) + 1 ≤ olen)
      × (4 * (length s / 3) + 7 ≤ olen → length (to_base64 s olen) ≡ 4 * ((length s + 2) / 3))
unfolding to_base64
length-to_base64 [] olen h = (length-remainder [] olen h, λ room. refl)
length-to_base64 (a ∷ []) olen h = (length-remainder (a ∷ []) olen h, λ room. ground arith)
length-to_base64 (a ∷ b ∷ []) olen h = (length-remainder (a ∷ b ∷ []) olen h, λ room. ground arith)
length-to_base64 (a ∷ b ∷ c ∷ s) olen h = elim (Bool-cases (ltb 10 olen)) [
  | inl more ↦
      let ih = length-to_base64 s (olen - 4) (ground arith) in
      (ground (arith, ih.0), λ room. ground (arith, ih.1 (omega arith)))
  | inr less ↦ (rw less (length-remainder (a ∷ b ∷ c ∷ s) olen h), λ room. absurd (ground arith))
]
