-- ===== src/Ntlm/Keys/Fields.antt =====
-- The bits of a key of DES.
use bev_search.Common.{
  ℕ, ◌+◌, ◌-◌, ◌*◌, ◌/◌, ◌%◌, ◌^◌, ◌<◌, ◌≤◌, some, [], ◌∷◌, ◌≡◌, refl, arith, take, drop, length,
  map, All-drop, length-drop, length-take, All-take,
}
use bev_search.Common.Bits.{bit_or_fields, bit_and_mask}
use bev_search.CString.{Bytes}
use bev_search.Ntlm.Keys.{key_byte, key_of, ntlm_set_key}
use bev_search.Ntlm.Buffer.{slice_within}
use bev_search.Ntlm.Target.Bounds.{AreBytes}

-- The number that digits to a base stand for, the highest first.
abbrev pub number : ℕ → ℕ → Bytes → ℕ
number base acc [] = acc
number base acc (c ∷ s) = number base (acc * base + c) s

-- The lower bits of one byte above the upper bits of the next.
two_fields :
    (k a b high : ℕ)
    → a * 2 ^ (8 - k) % 2 ^ 8 ≡ high * 2 ^ (8 - k)
    → b / 2 ^ k < 2 ^ (8 - k)
    → key_byte k a b ≡ high * 2 ^ (8 - k) + b / 2 ^ k
unfolding key_byte
two_fields k a b high cut fits =
    rw (bit_and_mask 8 (a * 2 ^ (8 - k)), cut) (bit_or_fields (8 - k) high (b / 2 ^ k) fits)

-- What the eight bytes of a key have of seven bytes of a source.
pub record IsKeyOf (src key : Bytes) : Type 0 where
  pub size : length key ≡ 8
  pub bytes : AreBytes key
  pub bits : number (2 ^ 7) 0 (map (λ c. c / 2) key) ≡ number (2 ^ 8) 0 src

spread :
    (a b c d e f g : ℕ)
    → let src = a ∷ b ∷ c ∷ d ∷ e ∷ f ∷ g ∷ [] in
      AreBytes src → (key : Bytes) × (key_of src ≡ some key) × IsKeyOf src key
unfolding key_of
spread a b c d e f g (ha, (hb, (hc, (hd, (he, (hf, (hg, _))))))) =
    let k1 = two_fields 1 a b (a % 2) (omega arith) (omega arith) in
    let k2 = two_fields 2 b c (b % 4) (omega arith) (omega arith) in
    let k3 = two_fields 3 c d (c % 8) (omega arith) (omega arith) in
    let k4 = two_fields 4 d e (d % 16) (omega arith) (omega arith) in
    let k5 = two_fields 5 e f (e % 32) (omega arith) (omega arith) in
    let k6 = two_fields 6 f g (f % 64) (omega arith) (omega arith) in
    let k7 = bit_and_mask 8 (g * 2) in
    (
      a
          ∷ (a % 2 * 128 + b / 2)
          ∷ (b % 4 * 64 + c / 4)
          ∷ (c % 8 * 32 + d / 8)
          ∷ (d % 16 * 16 + e / 16)
          ∷ (e % 32 * 8 + f / 32)
          ∷ (f % 64 * 4 + g / 64)
          ∷ (g * 2 % 256)
          ∷ [],
      rw (k1, k2, k3, k4, k5, k6, k7) refl,
      record { size = refl; bytes = omega arith; bits = omega arith },
    )

key_of_seven :
    (src : Bytes)
    → length src ≡ 7
    → AreBytes src
    → (key : Bytes) × (key_of src ≡ some key) × IsKeyOf src key
key_of_seven (a ∷ b ∷ c ∷ d ∷ e ∷ f ∷ g ∷ []) h bytes = spread a b c d e f g bytes
key_of_seven [] h bytes = absurd (omega (arith, h))
key_of_seven (a ∷ []) h bytes = absurd (omega (arith, h))
key_of_seven (a ∷ b ∷ []) h bytes = absurd (omega (arith, h))
key_of_seven (a ∷ b ∷ c ∷ []) h bytes = absurd (omega (arith, h))
key_of_seven (a ∷ b ∷ c ∷ d ∷ []) h bytes = absurd (omega (arith, h))
key_of_seven (a ∷ b ∷ c ∷ d ∷ e ∷ []) h bytes = absurd (omega (arith, h))
key_of_seven (a ∷ b ∷ c ∷ d ∷ e ∷ f ∷ []) h bytes = absurd (omega (arith, h))
key_of_seven (a ∷ b ∷ c ∷ d ∷ e ∷ f ∷ g ∷ x ∷ s) h bytes = absurd (omega (arith, h))

-- Seven bytes that are inside of the source give a key of eight bytes. The upper seven bits of the
-- bytes of the key, one after the other, are the 56 bits of the source.
pub ntlm_set_key-IsKeyOf :
    (src : Bytes) (at : ℕ)
    → AreBytes src
    → at + 7 ≤ length src
    → (key : Bytes) × (ntlm_set_key src at ≡ some key) × IsKeyOf (take 7 (drop at src)) key
unfolding ntlm_set_key
ntlm_set_key-IsKeyOf src at bytes within =
    let size : length (take 7 (drop at src)) ≡ 7 =
      omega (arith, length-take 7 (drop at src), length-drop at src) in
    let r =
      key_of_seven (take 7 (drop at src)) size
        (All-take _ 7 (drop at src) (All-drop _ at src bytes)) in
    (r.0, rw (slice_within src at 7 within) (r.1), r.2)
