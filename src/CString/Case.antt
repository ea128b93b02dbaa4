-- ===== src/CString/Case.antt =====
-- `strcasecmp` decides equality up to the case of letters.
use bev_search.Common.{
  ℕ, Bool, true, ◌&&◌, [], ◌∷◌, map, ◌≡◌, ◌↔◌, refl, sym, ap, ap₂, arith, ◌∙◌, Bool_ext,
}
use mathlib.Core.List.{tail}
use bev_search.CString.{Bytes, to_lower, same_nocase}

&&-true : (a b : Bool) → (a && b) ≡ true → (a ≡ true) × (b ≡ true)
&&-true a b h = ground arith

first : ℕ → Bytes → ℕ
first d [] = d
first d (c ∷ s) = c

cons_first : {c d : ℕ} {s t : Bytes} → c ∷ s ≡ d ∷ t → c ≡ d
unfolding first
cons_first h = ap (first 0) h

cons_rest : {c d : ℕ} {s t : Bytes} → c ∷ s ≡ d ∷ t → s ≡ t
cons_rest h = ap tail h

pub same_nocase-lower : (s t : Bytes) → (same_nocase s t ≡ true) ↔ (map to_lower s ≡ map to_lower t)
unfolding same_nocase
same_nocase-lower [] [] = (λ _. refl, λ _. refl)
same_nocase-lower [] (d ∷ t) = (λ h. cc, λ h. cc)
same_nocase-lower (c ∷ s) [] = (λ h. cc, λ h. cc)
same_nocase-lower (c ∷ s) (d ∷ t) =
    let ih = same_nocase-lower s t in
    (
      λ h. let both = &&-true _ (same_nocase s t) h in ap₂ ◌∷◌ (ground arith) (ih.0 both.1),
      λ h. rw (ih.1 (cons_rest h)) (ground (arith, cons_first h)),
    )

pub same_nocase_refl : (s : Bytes) → same_nocase s s ≡ true
same_nocase_refl s = (same_nocase-lower s s).1 refl

pub same_nocase_symm : (s t : Bytes) → same_nocase s t ≡ same_nocase t s
same_nocase_symm s t =
    Bool_ext (same_nocase s t) (same_nocase t s)
      (λ h. (same_nocase-lower t s).1 (sym ((same_nocase-lower s t).0 h)))
      (λ h. (same_nocase-lower s t).1 (sym ((same_nocase-lower t s).0 h)))

pub same_nocase_trans : (s t u : Bytes) → same_nocase s t ≡ true → same_nocase s u ≡ same_nocase t u
same_nocase_trans s t u h =
    let e = (same_nocase-lower s t).0 h in
    Bool_ext (same_nocase s u) (same_nocase t u)
      (λ k. (same_nocase-lower t u).1 (sym e ∙ (same_nocase-lower s u).0 k))
      (λ k. (same_nocase-lower s u).1 (e ∙ (same_nocase-lower t u).0 k))
