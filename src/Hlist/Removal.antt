-- ===== src/Hlist/Removal.antt =====
-- `hlist_del`, and the search in the values of headers.
use bev_search.Common.{
  Bool, true, false, none, some, [], ◌∷◌, ◌++◌, ◌≡◌, ◌⊎◌, inl, inr, refl, ap, subst, arith,
  Bool-cases, Option-cases,
}
use bev_search.CString.{Bytes, same_nocase}
use bev_search.Hlist.{HNode, Hlist, del, has, get, subcmp, subcmp_all, subcmp_loop, contains_nocase}

-- A list cut at the first node of a key, or the fact that there is none.
abbrev pub Deleted : Hlist → Bytes → Hlist → Type 0
Deleted l k r =
    ((pre : Hlist) × (t : HNode) × (post : Hlist) × (l ≡ pre ++ t ∷ post)
      × (same_nocase t.key k ≡ true)
      × (has pre k ≡ false)
      × (get l k ≡ some t.value)
      × (r ≡ pre ++ post))
    ⊎ ((has l k ≡ false) × (get l k ≡ none) × (r ≡ l))

Deleted-cons :
    (t : HNode) (ts : Hlist) (k : Bytes) (r : Hlist)
    → same_nocase t.key k ≡ false
    → Deleted ts k r
    → Deleted (t ∷ ts) k (t ∷ r)
unfolding has get
Deleted-cons t ts k r ne (inl (pre, u, post, e, same_key, absent, found, left)) =
    inl (
      t ∷ pre,
      u,
      post,
      ap (λ x. t ∷ x) e,
      same_key,
      rw ne absent,
      rw ne found,
      ap (λ x. t ∷ x) left,
    )
Deleted-cons t ts k r ne (inr (absent, missing, e)) =
    inr (rw ne absent, rw ne missing, ap (λ x. t ∷ x) e)

-- `hlist_del` takes out the header that `hlist_get` finds, which is the first whose key is the same
-- but for the case of letters, and no other. Without such a header nothing is found or changed.
pub del_first_header : (l : Hlist) (k : Bytes) → Deleted l k (del l k)
unfolding del has get
del_first_header [] k = inr (refl, refl, refl)
del_first_header (t ∷ ts) k = elim (Bool-cases (same_nocase t.key k)) [
  | inl e ↦ inl ([], t, ts, refl, e, refl, ground arith, ground arith)
  | inr ne ↦
      let skip : t ∷ del ts k ≡ del (t ∷ ts) k = ground arith in
      subst (Deleted (t ∷ ts) k) skip (Deleted-cons t ts k (del ts k) ne (del_first_header ts k))
]

subcmp_loop-true : (l : Hlist) (k p : Bytes) → subcmp_loop true l k p ≡ true
unfolding subcmp_loop
subcmp_loop-true [] k p = refl
subcmp_loop-true (t ∷ ts) k p = ground (arith, subcmp_loop-true ts k p)

-- A header of the list has the key, and a value that contains the text.
abbrev pub Header : Hlist → Bytes → Bytes → Type 0
Header l k p =
    (pre : Hlist) × (t : HNode) × (post : Hlist) × (l ≡ pre ++ t ∷ post)
    × (same_nocase t.key k ≡ true)
    × (contains_nocase t.value p ≡ true)

Header-cons : (t : HNode) (ts : Hlist) (k p : Bytes) → Header ts k p → Header (t ∷ ts) k p
Header-cons t ts k p (pre, u, post, e, same_key, inside) =
    (t ∷ pre, u, post, ap (λ x. t ∷ x) e, same_key, inside)

subcmp_loop_sound : (l : Hlist) (k p : Bytes) → subcmp_loop false l k p ≡ true → Header l k p
unfolding subcmp_loop
subcmp_loop_sound [] k p h = cc
subcmp_loop_sound (t ∷ ts) k p h = elim (Bool-cases (same_nocase t.key k)) [
  | inl same_key ↦ elim (Bool-cases (contains_nocase t.value p)) [
    | inl inside ↦ ([], t, ts, refl, same_key, inside)
    | inr outside ↦ Header-cons t ts k p (subcmp_loop_sound ts k p (ground arith))
  ]
  | inr other ↦ Header-cons t ts k p (subcmp_loop_sound ts k p (ground arith))
]

subcmp_loop_complete :
    (pre : Hlist) (t : HNode) (post : Hlist) (k p : Bytes)
    → same_nocase t.key k ≡ true
    → contains_nocase t.value p ≡ true
    → (found : Bool) → subcmp_loop found (pre ++ t ∷ post) k p ≡ true
unfolding subcmp_loop
subcmp_loop_complete [] t post k p same_key inside found = ground (arith, subcmp_loop-true post k p)
subcmp_loop_complete (u ∷ pre) t post k p same_key inside found =
    subcmp_loop_complete pre t post k p same_key inside _

subcmp_loop-get :
    (l : Hlist) (k p : Bytes) (v : Bytes)
    → get l k ≡ some v
    → contains_nocase v p ≡ true
    → subcmp_loop false l k p ≡ true
unfolding subcmp_loop get
subcmp_loop-get [] k p v h inside = cc
subcmp_loop-get (t ∷ ts) k p v h inside =
    ground (arith, subcmp_loop-get ts k p v, subcmp_loop-true ts k p)

-- `hlist_subcmp_all` is true exactly if some header of the list, not only the first of its key,
-- has a value with the text in it; and wherever `hlist_subcmp`, which reads the first, is true.
pub subcmp_all_iff :
    (l : Hlist) (k p : Bytes)
    → (subcmp_all l k p ≡ true → Header l k p)
      × (Header l k p → subcmp_all l k p ≡ true)
      × (subcmp l k p ≡ true → subcmp_all l k p ≡ true)
unfolding subcmp_all subcmp
subcmp_all_iff l k p = (
  subcmp_loop_sound l k p,
  λ (pre, t, post, e, same_key, inside).
      rw e (subcmp_loop_complete pre t post k p same_key inside false),
  λ h. elim (Option-cases (get l k)) [
    | inl absent ↦ absurd (ground arith)
    | inr (v, found) ↦ subcmp_loop-get l k p v found (ground arith)
  ],
)
