-- ===== src/Ntlm/Response/Overflow.antt =====
-- Writes behind the end of the buffer.
use bev_search.Common.{
  ℕ, zero, suc, ◌+◌, ◌<◌, ◌≡◌, refl, sym, ap, ◌∙◌, arith, some, none, List, [], ◌∷◌, ◌++◌, length,
  inl, inr, Option-cases, replicate, length-replicate,
}
use mathlib.Core.Option
use mathlib.Core.Option.{some-injective, none-ne-some}
use bev_search.CString.{Bytes}
use bev_search.Ntlm.Buffer.{overwrite, put, put_all, then_fields}
use bev_search.Ntlm.Keys.{Hashes}
use bev_search.Ntlm.Request.{Message, ntlm_bufsize}
use bev_search.Ntlm.Response.{Names, names_end, total, head_fields, tail_fields, message_of}

overwrite-length : (s buf b : Bytes) → overwrite s buf ≡ some b → length b ≡ length buf
unfolding overwrite
overwrite-length [] buf b h = ap length (sym (some-injective buf b h))
overwrite-length (c ∷ s) [] b h = absurd (none-ne-some b h)
overwrite-length (c ∷ s) (x ∷ buf) b h = elim (Option-cases (overwrite s buf)) [
  | inl failed ↦ absurd (none-ne-some b (sym (ap (Option.map (λ t. c ∷ t)) failed) ∙ h))
  | inr (next, done) ↦
      (let e = some-injective (c ∷ next) b (sym (ap (Option.map (λ t. c ∷ t)) done) ∙ h) in
        sym (ap length e) ∙ ap suc (overwrite-length s buf next done))
]

put-length : (at : ℕ) (s buf b : Bytes) → put at s buf ≡ some b → length b ≡ length buf
unfolding put
put-length zero s buf b h = overwrite-length s buf b h
put-length (suc at) s [] b h = absurd (none-ne-some b h)
put-length (suc at) s (x ∷ buf) b h = elim (Option-cases (put at s buf)) [
  | inl failed ↦ absurd (none-ne-some b (sym (ap (Option.map (λ t. x ∷ t)) failed) ∙ h))
  | inr (next, done) ↦
      (let e = some-injective (x ∷ next) b (sym (ap (Option.map (λ t. x ∷ t)) done) ∙ h) in
        sym (ap length e) ∙ ap suc (put-length at s buf next done))
]

overwrite_beyond : (s buf : Bytes) → length buf < length s → overwrite s buf ≡ none
unfolding overwrite
overwrite_beyond [] buf h = absurd (omega arith)
overwrite_beyond (c ∷ s) [] h = refl
overwrite_beyond (c ∷ s) (x ∷ buf) h =
    ap (Option.map (λ t. c ∷ t)) (overwrite_beyond s buf (omega arith))

put_beyond :
    (at : ℕ) (s buf : Bytes) → 0 < length s → length buf < at + length s → put at s buf ≡ none
unfolding put
put_beyond zero s buf some_bytes h = overwrite_beyond s buf (omega arith)
put_beyond (suc at) s [] some_bytes h = refl
put_beyond (suc at) s (x ∷ buf) some_bytes h =
    ap (Option.map (λ t. x ∷ t)) (put_beyond at s buf some_bytes (omega arith))

put_all_beyond :
    (fields : List (ℕ × Bytes)) (at : ℕ) (s buf : Bytes)
    → 0 < length s
    → length buf < at + length s
    → put_all (fields ++ (at, s) ∷ []) buf ≡ none
unfolding put_all
put_all_beyond [] at s buf some_bytes h = ap (then_fields []) (put_beyond at s buf some_bytes h)
put_all_beyond ((to, text) ∷ fields) at s buf some_bytes h = elim (Option-cases (put to text buf)) [
  | inl failed ↦ ap (then_fields (fields ++ (at, s) ∷ [])) failed
  | inr (next, done) ↦
      ap (then_fields (fields ++ (at, s) ∷ [])) done
      ∙ put_all_beyond fields at s next some_bytes
          (omega (arith, h, put-length to text buf next done))
]

pub message_of_beyond :
    (n : Names) (hashes : Hashes) (sent : Bytes)
    → 0 < length hashes.nthash
    → ntlm_bufsize < names_end n + 24 + length hashes.nthash
    → message_of n hashes sent ≡ none
unfolding message_of
message_of_beyond n hashes sent some_bytes beyond =
    let made : Bytes → Message = λ buf. record { buf = some buf; len = total n hashes } in
    ap (Option.map made) (
      put_all_beyond (head_fields n hashes ++ tail_fields n hashes sent) (names_end n + 24)
        hashes.nthash (replicate ntlm_bufsize 0) some_bytes
        (omega (arith, beyond, length-replicate {A = ℕ} ntlm_bufsize 0)))
