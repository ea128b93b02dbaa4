-- ===== src/Hlist/Occurrences.antt =====
-- How many headers of a name there are, and what operations on other names leave.
use bev_search.Common.{
  ℕ, ◌+◌, ◌-◌, Bool, true, false, some, [], ◌∷◌, map, if◌then◌else◌, ◌≡◌, refl, ap, ◌∙◌, arith,
  Bool-cases, inl, inr,
}
use bev_search.CString.{Bytes, same_nocase}
use bev_search.CString.Case.{same_nocase_trans}
use bev_search.Hlist.{Hlist, node, add, add_last, del, set_value, modify, get}
use bev_search.Hlist.Laws.{copy_of}

abbrev pub occurrences : Hlist → Bytes → ℕ
occurrences [] k = 0
occurrences (t ∷ ts) k = (if same_nocase t.key k then 1 else 0) + occurrences ts k

occurrences-add_last :
    (l : Hlist) (k v j : Bytes)
    → same_nocase k j ≡ false
    → occurrences (add_last l (node k v)) j ≡ occurrences l j
unfolding add_last
occurrences-add_last [] k v j h = rw h refl
occurrences-add_last (t ∷ ts) k v j h =
    ap (λ n. (if same_nocase t.key j then 1 else 0) + n) (occurrences-add_last ts k v j h)

occurrences-set_value :
    (l : Hlist) (k v j : Bytes) → occurrences (set_value l k v) j ≡ occurrences l j
unfolding set_value
occurrences-set_value [] k v j = refl
occurrences-set_value (t ∷ ts) k v j = elim (Bool-cases (same_nocase t.key k)) [
  | inl here ↦ rw here refl
  | inr later ↦
      rw later
        (ap (λ n. (if same_nocase t.key j then 1 else 0) + n) (occurrences-set_value ts k v j))
]

pub occurrences-modify :
    (l : Hlist) (k v j : Bytes) (or_add : Bool)
    → same_nocase k j ≡ false
    → occurrences (modify l k v or_add) j ≡ occurrences l j
unfolding modify add
occurrences-modify l k v j or_add h =
    ground (arith, occurrences-set_value l k v j, occurrences-add_last l k v j h)

pub occurrences-del : (l : Hlist) (k : Bytes) → occurrences (del l k) k ≡ occurrences l k - 1
unfolding del
occurrences-del [] k = refl
occurrences-del (t ∷ ts) k = elim (Bool-cases (same_nocase t.key k)) [
  | inl here ↦ rw here (omega arith)
  | inr later ↦ rw (later, later) (omega (arith, occurrences-del ts k))
]

pub get-del_other : (l : Hlist) (k j : Bytes) → same_nocase k j ≡ false → get (del l k) j ≡ get l j
unfolding del get
get-del_other [] k j h = refl
get-del_other (t ∷ ts) k j h = elim (Bool-cases (same_nocase t.key k)) [
  | inl here ↦
      (let different : same_nocase t.key j ≡ false = same_nocase_trans t.key k j here ∙ h in
        rw (here, different) refl)
  | inr later ↦
      rw later (ap (λ r. if same_nocase t.key j then some t.value else r) (get-del_other ts k j h))
]

pub occurrences-copies : (l : Hlist) (k : Bytes) → occurrences (map copy_of l) k ≡ occurrences l k
occurrences-copies [] k = refl
occurrences-copies (t ∷ ts) k =
    ap (λ n. (if same_nocase t.key k then 1 else 0) + n) (occurrences-copies ts k)

-- The headers whose names do not stand in a group of names, in their order.
abbrev pub others : (Bytes → Bool) → Hlist → Hlist
others grouped [] = []
others grouped (t ∷ ts) = if grouped t.key then others grouped ts else t ∷ others grouped ts

pub others-copies :
    (grouped : Bytes → Bool) (l : Hlist)
    → others grouped (map copy_of l) ≡ map copy_of (others grouped l)
others-copies grouped [] = refl
others-copies grouped (t ∷ ts) = elim (Bool-cases (grouped t.key)) [
  | inl inside ↦ rw inside (others-copies grouped ts)
  | inr outside ↦ rw outside (ap (λ l. copy_of t ∷ l) (others-copies grouped ts))
]

-- Operations on a name of the group leave the others.
module _ (grouped : Bytes → Bool) (k : Bytes)
    (member : (j : Bytes) → same_nocase j k ≡ true → grouped j ≡ true) where
  pub others-del : (l : Hlist) → others grouped (del l k) ≡ others grouped l
  unfolding del
  others-del [] = refl
  others-del (t ∷ ts) = elim (Bool-cases (same_nocase t.key k)) [
    | inl here ↦ rw (here, member t.key here) refl
    | inr later ↦ rw later (ap (λ l. if grouped t.key then l else t ∷ l) (others-del ts))
  ]

  others-set_value : (l : Hlist) (v : Bytes) → others grouped (set_value l k v) ≡ others grouped l
  unfolding set_value
  others-set_value [] v = refl
  others-set_value (t ∷ ts) v = elim (Bool-cases (same_nocase t.key k)) [
    | inl here ↦ rw (here, member t.key here) refl
    | inr later ↦ rw later (ap (λ l. if grouped t.key then l else t ∷ l) (others-set_value ts v))
  ]

  others-add_last :
      (l : Hlist) (v : Bytes)
      → grouped k ≡ true
      → others grouped (add_last l (node k v)) ≡ others grouped l
  unfolding add_last
  others-add_last [] v h = rw h refl
  others-add_last (t ∷ ts) v h =
      ap (λ l. if grouped t.key then l else t ∷ l) (others-add_last ts v h)

  pub others-modify :
      (l : Hlist) (v : Bytes) (or_add : Bool)
      → same_nocase k k ≡ true
      → others grouped (modify l k v or_add) ≡ others grouped l
  unfolding modify add
  others-modify l v or_add self =
      ground (arith, others-set_value l v, others-add_last l v (member k self))
