-- ===== src/Tests/Texts.antt =====
-- The string helpers of cntlm-0.92.3/utils.c at concrete inputs.
use bev_search.Common.{◌*◌, ◌/◌, min, some, [], ◌∷◌, ◌++◌, ◌≡◌, refl, length, arith}
use bev_search.CString.{Bytes, codes}
use bev_search.Strings.{c_str, strlcpy, substr, unicode, hex_digit, urlencode}
use bev_search.Strings.Copy.{copied, strlcpy_fits, substr_within}
use bev_search.Strings.Trim.{every_other, every_other-unicode}
use bev_search.Strings.Url.{urlencode_cut}

abbrev buffer : Bytes
buffer = 9 ∷ 9 ∷ 9 ∷ 9 ∷ 9 ∷ []

strlcpy_fits_example :
    (strlcpy buffer (codes "abc") 3 ≡ some (b'a' ∷ b'b' ∷ 0 ∷ 9 ∷ 9 ∷ [], 3))
    × (c_str (copied 2 buffer (codes "abc")) ≡ codes "ab")
strlcpy_fits_example = strlcpy_fits buffer (codes "abc") 2 (omega arith) (omega arith)

substr_within_example : substr (codes "proxy:80") 6 1 ≡ some (codes "8")
substr_within_example =
    substr_within (codes "proxy:80") 6 1 (omega arith) (omega arith) (omega arith)

substr_zero : substr (codes "proxy:80") 6 0 ≡ some (codes "80")
unfolding substr
substr_zero = refl

every_other-unicode_example :
    (length (unicode (codes "abc")).0 ≡ (unicode (codes "abc")).1)
    × ((unicode (codes "abc")).1 ≡ 2 * min 64 3)
    × (every_other ((unicode (codes "abc")).1 / 2) (unicode (codes "abc")).0 ≡ codes "abc")
every_other-unicode_example = every_other-unicode (codes "abc")

urlencode_run : urlencode (codes "a b") ≡ codes "a%20b"
unfolding urlencode
urlencode_run = refl

urlencode_cut_example :
    urlencode (codes "a" ++ 10 ∷ codes "bc") ≡ urlencode (codes "a") ++ b'%' ∷ hex_digit 10 ∷ []
urlencode_cut_example = urlencode_cut (codes "a") (codes "bc") 10 (omega arith) (omega arith)
