-- ===== src/Parents/Rotation.antt =====
-- The list of parents: it is numbered from 1, and a change through a pointer keeps it so.
use bev_search.Common.{
  ℕ, suc, ◌+◌, ◌^◌, ◌≤◌, ◌<◌, Bool, true, some, [], ◌∷◌, ◌==◌, if◌then◌else◌, ◌≡◌, refl, ap, sym,
  ==_iff, ◌∙◌, arith, length, Bool-cases, inl, inr, ltb, lt→ltb, ◌&&◌,
}
use bev_search.Plist
use bev_search.Plist.{PNode, Plist, ulong_of, find_aux}
use bev_search.Parents.{Proxy, Parents, set_aux}

-- The keys count up from `n`, and no node is without a proxy.
abbrev pub Numbered : ℕ → Plist Proxy → Type 0
Numbered n [] = Unit
Numbered n (t ∷ ts) = (t.key ≡ n) × ((p : Proxy) × (t.aux ≡ some p)) × Numbered (suc n) ts

-- What holds of the parents between two calls.
pub record IsParents (ps : Parents) : Type 0 where
  pub numbered : Numbered 1 ps.list
  pub counted : length ps.list ≡ ps.count
  pub current : ps.curr ≤ ps.count
  pub small : ps.count < 2 ^ 31

find-Numbered :
    (n : ℕ) (l : Plist Proxy) (k : ℕ)
    → Numbered n l
    → n ≤ k
    → k < n + length l
    → (p : Proxy) × (find_aux l k ≡ some p)
unfolding find_aux
find-Numbered n [] k h low high = absurd (omega arith)
find-Numbered n (t ∷ ts) k (key, (p, there), rest) low high = elim (Bool-cases (t.key == k)) [
  | inl here ↦ (p, rw here there)
  | inr later ↦ rw later (find-Numbered (suc n) ts k rest (ground arith) (omega arith))
]

pub get-Numbered :
    (ps : Parents) (k : ℕ)
    → IsParents ps
    → 0 < k
    → k ≤ ps.count
    → (p : Proxy) × (Plist.get ps.list k ≡ some p)
unfolding Plist.get ulong_of
get-Numbered ps k h low high =
    let small : ltb k (2 ^ 31) ≡ true = lt→ltb k (2 ^ 31) (omega (arith, h.small)) in
    rw small (find-Numbered 1 ps.list k h.numbered low (omega (arith, h.counted)))

pub length-set_aux : (l : Plist Proxy) (k : ℕ) (p : Proxy) → length (set_aux l k p) ≡ length l
unfolding set_aux
length-set_aux [] k p = refl
length-set_aux (t ∷ ts) k p = ground (arith, length-set_aux ts k p)

pub set_aux-Numbered :
    (n : ℕ) (l : Plist Proxy) (k : ℕ) (p : Proxy) → Numbered n l → Numbered n (set_aux l k p)
unfolding set_aux
set_aux-Numbered n [] k p h = tt
set_aux-Numbered n (t ∷ ts) k p (key, there, rest) = elim (Bool-cases (t.key == k)) [
  | inl here ↦ rw here (key, (p, refl), rest)
  | inr later ↦ rw later (key, there, set_aux-Numbered (suc n) ts k p rest)
]

pub find_aux-set_aux :
    (l : Plist Proxy) (k j : ℕ) (p : Proxy)
    → find_aux (set_aux l k p) j ≡ (if k == j && Plist.has l j then some p else find_aux l j)
unfolding set_aux find_aux Plist.has
find_aux-set_aux [] k j p = ground arith
find_aux-set_aux (t ∷ ts) k j p = ground (arith, find_aux-set_aux ts k j p)

has_of_find : (l : Plist Proxy) (k : ℕ) (p : Proxy) → find_aux l k ≡ some p → Plist.has l k ≡ true
unfolding find_aux Plist.has
has_of_find [] k p h = cc
has_of_find (t ∷ ts) k p h = ground (arith, has_of_find ts k p)

test_of_same : (f : ℕ → Bool) (a b : ℕ) → f a ≡ true → (a == b && f b) ≡ (a == b)
test_of_same f a b h = elim (Bool-cases (a == b)) [
  | inl same ↦ rw same (ap f (sym ((==_iff a b).0 same)) ∙ h)
  | inr other ↦ rw other
]

-- A change of the current proxy is found under its key, and under no other.
pub get-set_aux :
    (ps : Parents) (p q : Proxy) (j : ℕ)
    → IsParents ps
    → Plist.get ps.list ps.curr ≡ some p
    → j ≤ ps.count
    → Plist.get (set_aux ps.list (ulong_of ps.curr) q) j
      ≡ (if ps.curr == j then some q else Plist.get ps.list j)
unfolding Plist.get ulong_of
get-set_aux ps p q j h there low =
    let here : ltb ps.curr (2 ^ 31) ≡ true =
      lt→ltb ps.curr (2 ^ 31) (omega (arith, h.small, h.current)) in
    let small : ltb j (2 ^ 31) ≡ true = lt→ltb j (2 ^ 31) (omega (arith, h.small)) in
    let found = has_of_find ps.list ps.curr p (rw here at there) in
    rw (here, small)
      (find_aux-set_aux ps.list ps.curr j q
        ∙ ap (λ b. if b then some q else find_aux ps.list j)
            (test_of_same (Plist.has ps.list) ps.curr j found))

pub set_aux-IsParents :
    (ps : Parents) (k : ℕ) (p : Proxy)
    → IsParents ps
    → IsParents (record ps { list = set_aux ps.list k p })
set_aux-IsParents ps k p h = record {
  numbered = set_aux-Numbered 1 ps.list k p h.numbered;
  counted = length-set_aux ps.list k p ∙ h.counted;
  current = h.current;
  small = h.small;
}
