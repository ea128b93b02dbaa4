-- ===== src/Forward/Relay/Stripped.antt =====
-- No header of a name is left, and the others stay.
use bev_search.Common.{
  ℕ, zero, suc, ◌-◌, ◌≤◌, ◌≡◌, refl, sym, ◌∙◌, arith, false, none, [], ◌∷◌, inl, inr, Bool-cases,
  Option-cases,
}
use mathlib.Core.Option.{none-ne-some}
use bev_search.CString.{Bytes, same_nocase}
use bev_search.Hlist.{Hlist, del, get, count}
use bev_search.Hlist.Occurrences.{occurrences, occurrences-del, get-del_other}
use bev_search.Forward.Relay.Headers.{del_while, strip}

occurrences-le-count : (l : Hlist) (k : Bytes) → occurrences l k ≤ count l
unfolding count
occurrences-le-count [] k = omega arith
occurrences-le-count (t ∷ ts) k = elim (Bool-cases (same_nocase t.key k)) [
  | inl here ↦ rw here (omega (arith, occurrences-le-count ts k))
  | inr later ↦ rw later (omega (arith, occurrences-le-count ts k))
]

get_nothing : (l : Hlist) (k : Bytes) → get l k ≡ none → occurrences l k ≡ 0
unfolding get
get_nothing [] k h = refl
get_nothing (t ∷ ts) k h = elim (Bool-cases (same_nocase t.key k)) [
  | inl here ↦ absurd (none-ne-some t.value (sym h ∙ rw here refl))
  | inr later ↦ rw later (omega (arith, get_nothing ts k (sym (rw later refl) ∙ h)))
]

nothing_gets : (l : Hlist) (k : Bytes) → occurrences l k ≡ 0 → get l k ≡ none
unfolding get
nothing_gets [] k h = refl
nothing_gets (t ∷ ts) k h = elim (Bool-cases (same_nocase t.key k)) [
  | inl here ↦
      (let one : suc (occurrences ts k) ≡ 0 = (ground (arith, here, h)) in
        absurd (omega (arith, one)))
  | inr later ↦ rw later (nothing_gets ts k (ground (arith, later, h)))
]

occurrences-del_while :
    (n : ℕ) (l : Hlist) (k : Bytes) → occurrences (del_while n l k) k ≡ occurrences l k - n
unfolding del_while
occurrences-del_while zero l k = omega arith
occurrences-del_while (suc n) l k = elim (Option-cases (get l k)) [
  | inl e ↦ rw e (omega (arith, get_nothing l k e))
  | inr (v, e) ↦ rw e (omega (arith, occurrences-del_while n (del l k) k, occurrences-del l k))
]

-- All headers of a name are taken out.
pub get-strip : (l : Hlist) (k : Bytes) → get (strip l k) k ≡ none
unfolding strip
get-strip l k =
    nothing_gets (del_while (count l) l k) k
      (omega (arith, occurrences-del_while (count l) l k, occurrences-le-count l k))

get-del_while_other :
    (n : ℕ) (l : Hlist) (k j : Bytes) → same_nocase k j ≡ false → get (del_while n l k) j ≡ get l j
unfolding del_while
get-del_while_other zero l k j h = refl
get-del_while_other (suc n) l k j h = elim (Option-cases (get l k)) [
  | inl e ↦ rw e refl
  | inr (v, e) ↦ rw e (get-del_while_other n (del l k) k j h ∙ get-del_other l k j h)
]

pub get-strip_other :
    (l : Hlist) (k j : Bytes) → same_nocase k j ≡ false → get (strip l k) j ≡ get l j
unfolding strip
get-strip_other l k j h = get-del_while_other (count l) l k j h

-- The loop that takes out the headers of a name, with as many rounds as there are headers, ends with
-- none of them left; the first header of any other name is what it was.
pub get-strip-all :
    (l : Hlist) (k : Bytes)
    → (get (strip l k) k ≡ none)
      × ((j : Bytes) → same_nocase k j ≡ false → get (strip l k) j ≡ get l j)
get-strip-all l k = (get-strip l k, get-strip_other l k)
