-- ===== src/RrData/Copies.antt =====
-- A copy has the contents of its source, whatever its destination held.
use bev_search.Common.{Option, none, some, [], ◌∷◌, map, ltb, if◌then◌else◌, take, ◌≡◌, refl, arith}
use bev_search.CString.{Bytes}
use bev_search.Hlist
use bev_search.Hlist.{Hlist}
use bev_search.Hlist.Laws
use bev_search.RrData.{RrData, or_kept, headers_copied, body_copied, copy_rr_data, dup_rr_data}

-- The part of a body that its stated length covers.
abbrev pub stated_body : RrData → Option Bytes
stated_body r = elim r.body [
  | none ↦ none
  | some b ↦ if ltb 0 r.body_len then some (take r.body_len b) else none
]

or_kept-none : (o : Option Bytes) → or_kept o none ≡ o
unfolding or_kept
or_kept-none none = refl
or_kept-none (some s) = refl

headers_copied-nil : (l : Hlist) → headers_copied l [] ≡ map Hlist.Laws.copy_of l
unfolding headers_copied
headers_copied-nil [] = refl
headers_copied-nil (t ∷ ts) = Hlist.Laws.dup-map (t ∷ ts)

body_copied-none : (r : RrData) → body_copied r.body r.body_len none ≡ stated_body r
unfolding body_copied
body_copied-none r = ground arith

-- A copy or a duplicate is its source, but for the static error text, which is cleared, the flag
-- `islist` of the headers, which is reset, and a body without a length, which is dropped; nothing that
-- the destination held is left.
pub copy_rr_data_all :
    (dst src : RrData)
    → (copy_rr_data dst src ≡ record src {
      headers = map Hlist.Laws.copy_of src.headers;
      body = stated_body src;
      errmsg = none;
    })
      × (dup_rr_data src ≡ copy_rr_data dst src)
unfolding dup_rr_data
copy_rr_data_all dst src = (
  λ i. record src {
    headers = headers_copied-nil src.headers i;
    method = or_kept-none src.method i;
    url = or_kept-none src.url i;
    rel_url = or_kept-none src.rel_url i;
    hostname = or_kept-none src.hostname i;
    http = or_kept-none src.http i;
    msg = or_kept-none src.msg i;
    body = body_copied-none src i;
    errmsg = none;
  },
  refl,
)
