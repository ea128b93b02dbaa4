-- ===== src/Plist/Laws.antt =====
-- What insertion and deletion do to a list of keys, and what lookup finds afterwards.
use bev_search.Common.{
  ℕ, ◌+◌, ◌-◌, false, not, Option, none, [], ◌∷◌, ◌++◌, ◌==◌, if◌then◌else◌, ◌≡◌, ◌⊎◌, inl, inr,
  refl, ap, subst, arith, Bool-cases, ==_iff,
}
use bev_search.Plist.{PNode, Plist, ulong_of, add, del, has, get, find_aux, count}

module _ {ℓ} {A : Type ℓ} where
  -- How often a key stands in a list.
  pub occurrences : Plist A → ℕ → ℕ
  occurrences [] k = 0
  occurrences (t ∷ ts) k = (if t.key == k then 1 else 0) + occurrences ts k

  pub add-append :
      (l : Plist A) (k : ℕ) (a : Option A) → add l k a ≡ l ++ (record { key = k; aux = a }) ∷ []
  unfolding add
  add-append [] k a = refl
  add-append (t ∷ ts) k a = ap (λ x. t ∷ x) (add-append ts k a)

  find_aux-add :
      (l : Plist A) (k j : ℕ) (a : Option A)
      → find_aux (add l k a) j ≡ (if has l j then find_aux l j else if k == j then a else none)
  unfolding find_aux add has
  find_aux-add [] k j a = refl
  find_aux-add (t ∷ ts) k j a = ground (arith, find_aux-add ts k j a)

  count-add : (l : Plist A) (k : ℕ) (a : Option A) → count (add l k a) ≡ count l + 1
  unfolding count add
  count-add [] k a = omega arith
  count-add (t ∷ ts) k a = omega (arith, count-add ts k a)

  -- After `plist_add` a lookup finds what it found before if its key was in the list already, and
  -- otherwise the new pointer under the new key and nothing under any other; one node is added.
  pub get-add :
      (l : Plist A) (k key : ℕ) (a : Option A)
      → (get (add l k a) key
          ≡ (if has l (ulong_of key) then get l key else if k == ulong_of key then a else none))
        × (count (add l k a) ≡ count l + 1)
  unfolding get
  get-add l k key a = (find_aux-add l k (ulong_of key) a, count-add l k a)

  -- A list cut at the first node of a key, or the fact that there is none.
  abbrev pub Deleted : Plist A → ℕ → Plist A → Type ℓ
  Deleted l k r =
      ((pre : Plist A) × (t : PNode A) × (post : Plist A) × (l ≡ pre ++ t ∷ post)
        × (t.key ≡ k)
        × (has pre k ≡ false)
        × (r ≡ pre ++ post))
      ⊎ ((has l k ≡ false) × (r ≡ l))

  Deleted-cons :
      (t : PNode A) (ts : Plist A) (k : ℕ) (r : Plist A)
      → (t.key == k) ≡ false
      → Deleted ts k r
      → Deleted (t ∷ ts) k (t ∷ r)
  unfolding has
  Deleted-cons t ts k r ne (inl (pre, u, post, e, same_key, absent, left)) =
      inl (t ∷ pre, u, post, ap (λ x. t ∷ x) e, same_key, rw ne absent, ap (λ x. t ∷ x) left)
  Deleted-cons t ts k r ne (inr (absent, e)) = inr (rw ne absent, ap (λ x. t ∷ x) e)

  -- `plist_del` takes out the first node of the key and no other: the list is a part without the
  -- key, that node and a rest, and the two parts are left, in order. Without the key nothing changes.
  pub del_first_node : (l : Plist A) (k : ℕ) → Deleted l k (del l k)
  unfolding del has
  del_first_node [] k = inr (refl, refl)
  del_first_node (t ∷ ts) k = elim (Bool-cases (t.key == k)) [
    | inl e ↦ inl ([], t, ts, refl, (==_iff t.key k).0 e, refl, ground arith)
    | inr ne ↦
        let skip : t ∷ del ts k ≡ del (t ∷ ts) k = ground arith in
        subst (Deleted (t ∷ ts) k) skip (Deleted-cons t ts k (del ts k) ne (del_first_node ts k))
  ]

  -- `plist_del` lowers the number of occurrences of its key by one, if there is any, and leaves
  -- the number of every other key; `plist_in` says whether there is any.
  pub occurrences-del :
      (l : Plist A) (k j : ℕ)
      → (occurrences (del l k) j ≡ occurrences l j - (if k == j then 1 else 0))
        × (has l j ≡ not (occurrences l j == 0))
  unfolding occurrences del has
  occurrences-del [] k j = (omega arith, refl)
  occurrences-del (t ∷ ts) k j =
      let ih = occurrences-del ts k j in (ground (arith, ih.0, ih.1), ground (arith, ih.1))
