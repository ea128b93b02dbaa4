-- ===== src/Http/Header/Lines.antt =====
-- A header that is printed is read back.
use bev_search.Common.{
  ℕ, suc, ◌+◌, ◌^◌, ◌<◌, true, false, some, [], ◌∷◌, ◌++◌, ◌==◌, if◌then◌else◌, ◌≡◌, ◌≢◌, refl, ap,
  ◌∙◌, arith, All, length, take, length-append, take-append,
}
use bev_search.CString.{Bytes, strcspn, strchr}
use bev_search.Strings.{substr}
use bev_search.Strings.Copy.{NulFree, substr_within}
use bev_search.Http.Header.{
  is_http_header, get_http_header_name, skip_spaces, get_http_header_value,
}

-- No byte of a name is a colon.
abbrev pub IsName : Bytes → Type 0
IsName = All (λ c. c ≢ b':')

strcspn-append : (k v : Bytes) → IsName k → strcspn (k ++ b':' ∷ v) b':' ≡ length k
unfolding strcspn
strcspn-append [] v h = refl
strcspn-append (c ∷ k) v (hc, hk) = ground (arith, hc, strcspn-append k v hk)

strchr-append : (k v : Bytes) → IsName k → strchr (k ++ b':' ∷ v) b':' ≡ some (b':' ∷ v)
unfolding strchr
strchr-append [] v h = refl
strchr-append (c ∷ k) v (hc, hk) = ground (arith, hc, strchr-append k v hk)

skip_spaces_all : (v : Bytes) (c : ℕ) → c ≢ 32 → skip_spaces (32 ∷ c ∷ v) ≡ c ∷ v
unfolding skip_spaces
skip_spaces_all v c h = ground arith

-- A line with a name that is not empty and without a colon, a colon, a space, and a value that does
-- not begin with a space is a header, and is read as that name and that value.
pub get_http_header-line :
    (k v : Bytes) (c : ℕ)
    → IsName k
    → 0 < length k
    → c ≢ 32
    → NulFree (k ++ b':' ∷ 32 ∷ c ∷ v)
    → length (k ++ b':' ∷ 32 ∷ c ∷ v) < 2 ^ 31
    → (is_http_header (k ++ b':' ∷ 32 ∷ c ∷ v) ≡ true)
      × (get_http_header_name (k ++ b':' ∷ 32 ∷ c ∷ v) ≡ some (some k))
      × (get_http_header_value (k ++ b':' ∷ 32 ∷ c ∷ v) ≡ some (c ∷ v))
unfolding is_http_header get_http_header_name get_http_header_value
get_http_header-line k v c name some_bytes no_space free small =
    let line = k ++ b':' ∷ 32 ∷ c ∷ v in
    let colon = strcspn-append k (32 ∷ c ∷ v) name in
    let longer : length line ≡ length k + suc (suc (suc (length v))) =
      length-append k (b':' ∷ 32 ∷ c ∷ v) in
    let differs : (length k == length line) ≡ false = ground (arith, longer) in
    let test : (length k == 0) ≡ false = ground (arith, some_bytes) in
    let cut : substr line 0 (length k) ≡ some k =
      substr_within line 0 (length k) free small (omega arith)
      ∙ ap (λ b. some (take (if b then length line else length k) line)) test
      ∙ ap some (take-append (length k) k (b':' ∷ 32 ∷ c ∷ v) refl) in
    (
      rw colon (ground (arith, longer)),
      rw (colon, differs, cut),
      rw (strchr-append k (32 ∷ c ∷ v) name, skip_spaces_all v c no_space),
    )
