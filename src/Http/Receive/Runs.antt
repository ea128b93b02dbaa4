-- ===== src/Http/Receive/Runs.antt =====
-- The readings of `headers_recv` that cut texts apart stay inside of them.
use bev_search.Common.{
  ℕ, suc, ◌+◌, ◌-◌, ◌%◌, ◌^◌, ◌<◌, Bool, true, false, not, ◌&&◌, Option, none, some, List, [], ◌∷◌,
  ltb, leb, ◌==◌, if◌then◌else◌, ◌≡◌, refl, ap, ◌∙◌, arith, length, replicate, length-replicate,
  Bool-cases, inl, inr,
}
use bev_search.CString.{Bytes, strchr, strcspn}
use mathlib.Core.Option
use mathlib.Core.Option.{some-injective}
use native.Mathlib.Numerals.{add-one}
use bev_search.Strings.{c_str, strlcpy, substr, trimr}
use bev_search.Strings.Copy.{copy_fits, copied}
use bev_search.Hlist
use bev_search.Hlist.{Hlist, node}
use bev_search.Http.Header.{◌>>=◌, is_http_header, get_http_header_name, get_http_header_value}
use bev_search.Http.Receive.{Received, behind_scheme, split_at, split_url, read_headers}

-- A computation that stays inside of its texts.
abbrev pub Runs : {A : Type 0} → Option A → Type 0
Runs {A} o = (a : A) × (o ≡ some a)

module _ {A B : Type 0} where
  map-Runs : (f : A → B) (o : Option A) → Runs o → Runs (Option.map f o)
  map-Runs f o (a, e) = (f a, ap (Option.map f) e)

  bind-Runs : (f : A → Option B) (o : Option A) → Runs o → ((a : A) → Runs (f a)) → Runs (o >>= f)
  bind-Runs f o (a, e) h = let (b, k) = h a in (b, ap (λ x. x >>= f) e ∙ k)

if_Runs : {A : Type 0} (b : Bool) (x y : Option A) → Runs x → Runs y → Runs (if b then x else y)
if_Runs true x y h k = h
if_Runs false x y h k = k

window-Runs :
    (l : ℕ) (s : Bytes)
    → Runs (Option.map (λ r. c_str r.0) (strlcpy (replicate (l + 1) 0) s (l + 1)))
unfolding strlcpy
window-Runs l s =
    let room : l < length (replicate (suc l) 0) =
      omega (arith, length-replicate {0} {A = ℕ} (suc l) 0) in
    let fits = copy_fits l (replicate (suc l) 0) s room in
    (c_str (copied l (replicate (suc l) 0) s), rw (add-one l, fits))

substr_start : (src : Bytes) (n : ℕ) → Runs (substr src 0 n)
unfolding substr
substr_start src n =
    let l =
      if ltb (if n == 0 then length src else n) ((length src + 2 ^ 64 - 0) % 2 ^ 64)
      then (if n == 0 then length src else n)
      else (length src + 2 ^ 64 - 0) % 2 ^ 64 in
    let low : leb 0 (length src) ≡ true = ground arith in
    elim (Bool-cases (l == 0)) [
      | inl empty ↦ ([], rw empty)
      | inr full ↦ (let w = window-Runs l src in (w.0, rw (full, low) w.1))
    ]

split_at-Runs : (tok : Bytes) (s3 : Option Bytes) → Runs (split_at tok s3)
split_at-Runs tok none = map-Runs _ (substr tok 0 (length tok)) (substr_start tok (length tok))
split_at-Runs tok (some s3) =
    map-Runs _ (substr tok 0 (length tok - length s3)) (substr_start tok (length tok - length s3))

pub split_url-Runs : (url : Bytes) → Runs (split_url url)
unfolding split_url
split_url-Runs url = split_at-Runs (behind_scheme url) (strchr (behind_scheme url) b'/')

header_name-Runs : (s : Bytes) → Runs (get_http_header_name s)
unfolding get_http_header_name
header_name-Runs s =
    if_Runs (not (strcspn s b':' == length s)) _ _
      (map-Runs some (substr s 0 (strcspn s b':')) (substr_start s (strcspn s b':'))) (none, refl)

pub read_headers-Runs :
    (lines : List Received) (headers : Hlist) → Runs (read_headers lines headers)
unfolding read_headers
read_headers-Runs [] headers = ((headers, false), refl)
read_headers-Runs (r ∷ lines) headers =
    bind-Runs _ _
      (if_Runs (r.good && is_http_header (trimr r.text)) _ _
        (map-Runs (λ name. Hlist.add headers name (get_http_header_value (trimr r.text))) _
          (header_name-Runs (trimr r.text)))
        (headers, refl))
      (λ new_headers.
        if_Runs (not (length (trimr r.text) == 0) && r.good) _ _
          (read_headers-Runs lines new_headers) ((new_headers, r.good), refl))
