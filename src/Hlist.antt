-- ===== src/Hlist.antt =====
-- The header lists of cntlm-0.92.3/utils.c (`hlist_t`): keys are compared without regard to case.
-- A list in memory is the list of its nodes. Whether a key or a value is duplicated or stored
-- directly (HLIST_ALLOC, HLIST_NOALLOC) concerns ownership only and has no counterpart.
pub mod Laws
pub mod Removal
pub mod Occurrences
use bev_search.Common.{
  ℕ, suc, Bool, true, false, Option, none, some, List, [], ◌∷◌, map, if◌then◌else◌,
}
use bev_search.CString.{Bytes, to_lower, same_nocase, strstr, is_some}

pub record HNode : Type 0 where
  pub key : Bytes
  pub value : Bytes
  pub islist : ℕ

abbrev pub Hlist : Type 0
Hlist = List HNode

abbrev pub node : Bytes → Bytes → HNode
node k v = record { key = k; value = v; islist = 0 }

-- The walk to the end of the list, behind the test for NULL.
add_last : Hlist → HNode → Hlist
add_last [] tmp = tmp ∷ []
add_last (t ∷ ts) tmp = t ∷ add_last ts tmp

unfoldable pub add : Hlist → Option Bytes → Option Bytes → Hlist
unfolding add_last
add l none value = l
add l (some k) none = l
add l (some k) (some v) = add_last l (node k v)

dup_onto : Hlist → Hlist → Hlist
dup_onto tmp [] = tmp
dup_onto tmp (t ∷ ts) = dup_onto (add tmp (some t.key) (some t.value)) ts

unfoldable pub dup : Hlist → Hlist
unfolding dup_onto
dup l = dup_onto [] l

unfoldable pub del : Hlist → Bytes → Hlist
del [] k = []
del (t ∷ ts) k = if same_nocase t.key k then ts else t ∷ del ts k

-- `hlist_in`
unfoldable pub has : Hlist → Bytes → Bool
has [] k = false
has (t ∷ ts) k = if same_nocase t.key k then true else has ts k

-- `t->value = strdup(value)` at the first node of the key.
set_value : Hlist → Bytes → Bytes → Hlist
set_value [] k v = []
set_value (t ∷ ts) k v =
    if same_nocase t.key k then (record t { value = v }) ∷ ts else t ∷ set_value ts k v

-- `hlist_mod`; the name `mod` is a keyword.
unfoldable pub modify : Hlist → Bytes → Bytes → Bool → Hlist
unfolding set_value
modify l k v or_add =
    if has l k then set_value l k v else if or_add then add l (some k) (some v) else l

unfoldable pub count : Hlist → ℕ
count [] = 0
count (t ∷ ts) = suc (count ts)

unfoldable pub get : Hlist → Bytes → Option Bytes
get [] k = none
get (t ∷ ts) k = if same_nocase t.key k then some t.value else get ts k

-- `strstr` on two texts in lower case.
unfoldable pub contains_nocase : Bytes → Bytes → Bool
contains_nocase s p = is_some (strstr (map to_lower s) (map to_lower p))

unfoldable pub subcmp : Hlist → Bytes → Bytes → Bool
unfolding contains_nocase
subcmp l k p = elim (get l k) [ none ↦ false | some v ↦ contains_nocase v p ]

subcmp_loop : Bool → Hlist → Bytes → Bytes → Bool
subcmp_loop found [] k p = found
subcmp_loop found (t ∷ ts) k p =
    subcmp_loop
      (if same_nocase t.key k then (if contains_nocase t.value p then true else found) else found)
      ts k p

unfoldable pub subcmp_all : Hlist → Bytes → Bytes → Bool
unfolding subcmp_loop contains_nocase
subcmp_all l k p = subcmp_loop false l k p

unfoldable pub free : Hlist → Hlist
free [] = []
free (t ∷ ts) = free ts
