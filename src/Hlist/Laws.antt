-- ===== src/Hlist/Laws.antt =====
-- What `hlist_add`, `hlist_dup` and `hlist_mod` leave in a list of headers.
use bev_search.Common.{
  ◌+◌, Bool, true, false, not, ◌&&◌, ◌||◌, none, some, [], ◌∷◌, ◌++◌, map, if◌then◌else◌, ◌≡◌, refl,
  sym, ap, ◌∙◌, arith, append_assoc, append-nil,
}
use bev_search.CString.{Bytes, is_some, same_nocase}
use bev_search.CString.Case.{same_nocase_refl, same_nocase_symm, same_nocase_trans}
use bev_search.Hlist.{
  HNode, Hlist, node, add, add_last, dup, dup_onto, has, set_value, modify, count, get,
}

-- The node that `hlist_add` makes of the key and value of another.
abbrev pub copy_of : HNode → HNode
copy_of t = node t.key t.value

add_last-append : (l : Hlist) (t : HNode) → add_last l t ≡ l ++ t ∷ []
unfolding add_last
add_last-append [] t = refl
add_last-append (u ∷ l) t = ap (λ x. u ∷ x) (add_last-append l t)

pub add-append : (l : Hlist) (k v : Bytes) → add l (some k) (some v) ≡ l ++ node k v ∷ []
unfolding add
add-append l k v = add_last-append l (node k v)

dup_onto-append : (tmp l : Hlist) → dup_onto tmp l ≡ tmp ++ map copy_of l
unfolding dup_onto add
dup_onto-append tmp [] = sym (append-nil tmp)
dup_onto-append tmp (t ∷ ts) =
    dup_onto-append (add_last tmp (copy_of t)) ts
    ∙ rw add_last-append (append_assoc tmp (copy_of t ∷ []) (map copy_of ts))

-- A duplicate has the keys and values of its source, in order, each node made anew with `islist` 0.
pub dup-map : (l : Hlist) → dup l ≡ map copy_of l
unfolding dup
dup-map l = dup_onto-append [] l

has_of_same : (l : Hlist) (k j : Bytes) → same_nocase k j ≡ true → has l k ≡ has l j
unfolding has
has_of_same [] k j h = refl
has_of_same (t ∷ ts) k j h = rw (
  same_nocase_symm t.key k,
  same_nocase_symm t.key j,
  same_nocase_trans k j t.key h,
  has_of_same ts k j h,
)

get_of_same : (l : Hlist) (k j : Bytes) → same_nocase k j ≡ true → get l k ≡ get l j
unfolding get
get_of_same [] k j h = refl
get_of_same (t ∷ ts) k j h = rw (
  same_nocase_symm t.key k,
  same_nocase_symm t.key j,
  same_nocase_trans k j t.key h,
  get_of_same ts k j h,
)

get-add_last :
    (l : Hlist) (k v j : Bytes)
    → get (add_last l (node k v)) j
      ≡ (if has l j then get l j else if same_nocase k j then some v else none)
unfolding get has add_last
get-add_last [] k v j = refl
get-add_last (t ∷ ts) k v j = ground (arith, get-add_last ts k v j)

found_last : (l : Hlist) (k v : Bytes) → is_some (get (add_last l (node k v)) k) ≡ true
unfolding get add_last
found_last [] k v = rw (same_nocase_refl k)
found_last (t ∷ ts) k v = ground (arith, found_last ts k v)

-- A header that was added is found.
pub get-add_found : (l : Hlist) (k v : Bytes) → is_some (get (add l (some k) (some v)) k) ≡ true
unfolding add
get-add_found l k v = found_last l k v

get-set_value :
    (l : Hlist) (k v j : Bytes)
    → get (set_value l k v) j
      ≡ (if same_nocase k j then (if has l k then some v else none) else get l j)
unfolding get has set_value
get-set_value [] k v j = ground arith
get-set_value (t ∷ ts) k v j = ground (
  arith,
  get-set_value ts k v j,
  same_nocase_trans t.key k j,
  same_nocase_trans k j t.key,
  same_nocase_symm k t.key,
  same_nocase_symm j t.key,
)

get-absent : (l : Hlist) (k : Bytes) → has l k ≡ false → get l k ≡ none
unfolding get has
get-absent [] k h = refl
get-absent (t ∷ ts) k h = ground (arith, get-absent ts k)

-- After `hlist_mod` a lookup under the key, in any case of its letters, finds the new value if
-- the key was there or was to be added; under any other key it finds what it found before.
pub get-modify :
    (l : Hlist) (k v j : Bytes) (or_add : Bool)
    → get (modify l k v or_add) j
      ≡ (if same_nocase k j then (if has l k || or_add then some v else none) else get l j)
unfolding modify add
get-modify l k v j or_add =
    ground (arith, get-set_value l k v j, get-add_last l k v j, get-absent l j, has_of_same l k j)

count-add_last : (l : Hlist) (t : HNode) → count (add_last l t) ≡ count l + 1
unfolding count add_last
count-add_last [] t = omega arith
count-add_last (u ∷ l) t = omega (arith, count-add_last l t)

count-set_value : (l : Hlist) (k v : Bytes) → count (set_value l k v) ≡ count l
unfolding count set_value
count-set_value [] k v = refl
count-set_value (t ∷ ts) k v = ground (arith, count-set_value ts k v)

keys-set_value : (l : Hlist) (k v : Bytes) → map (λ t. t.key) (set_value l k v) ≡ map (λ t. t.key) l
unfolding set_value
keys-set_value [] k v = refl
keys-set_value (t ∷ ts) k v = ground (arith, keys-set_value ts k v)

-- `hlist_mod` adds a node exactly when the key is absent and adding is asked for. A key that is
-- there keeps every header in its place, under the spelling it had.
pub count-modify :
    (l : Hlist) (k v : Bytes) (or_add : Bool)
    → (count (modify l k v or_add) ≡ count l + (if not (has l k) && or_add then 1 else 0))
      × (has l k ≡ true → map (λ t. t.key) (modify l k v or_add) ≡ map (λ t. t.key) l)
unfolding modify add
count-modify l k v or_add = (
  ground (arith, count-set_value l k v, count-add_last l (node k v)),
  λ h. rw h (keys-set_value l k v),
)
