-- ===== src/CString.antt =====
-- C strings as lists of bytes without their terminator, and the functions of the C library over
-- them that the program calls (ctype.h, string.h, strings.h), in the "C" locale.
pub mod Case
pub mod Number
use Prim.Native.Char.{code}
use Prim.Native.String.{String}
use bev_search.Common.{
  ℕ, zero, suc, ◌+◌, ◌-◌, Bool, true, false, ◌&&◌, ◌||◌, Option, none, some, List, [], ◌∷◌, map,
  ltb, leb, ◌==◌, if◌then◌else◌, drop,
}

abbrev pub Bytes : Type 0
Bytes = List ℕ

-- The bytes of an ASCII literal.
abbrev pub codes : String → Bytes
codes String.[] = []
codes (String.◌∷◌ c s) = code c ∷ codes s

unfoldable pub is_upper : ℕ → Bool
is_upper c = leb b'A' c && leb c b'Z'

unfoldable pub is_lower : ℕ → Bool
is_lower c = leb b'a' c && leb c b'z'

unfoldable pub is_digit : ℕ → Bool
is_digit c = leb b'0' c && leb c b'9'

unfoldable pub is_alnum : ℕ → Bool
unfolding is_upper is_lower is_digit
is_alnum c = is_upper c || is_lower c || is_digit c

-- space, and \t \n \v \f \r
unfoldable pub is_space : ℕ → Bool
is_space c = c == 32 || (leb 9 c && leb c 13)

unfoldable pub to_lower : ℕ → ℕ
unfolding is_upper
to_lower c = if is_upper c then c + 32 else c

unfoldable pub to_upper : ℕ → ℕ
unfolding is_lower
to_upper c = if is_lower c then c - 32 else c

-- `!strcmp(s, t)`
unfoldable pub same : Bytes → Bytes → Bool
same [] [] = true
same [] (d ∷ t) = false
same (c ∷ s) [] = false
same (c ∷ s) (d ∷ t) = c == d && same s t

-- `!strcasecmp(s, t)`
unfoldable pub same_nocase : Bytes → Bytes → Bool
unfolding to_lower
same_nocase [] [] = true
same_nocase [] (d ∷ t) = false
same_nocase (c ∷ s) [] = false
same_nocase (c ∷ s) (d ∷ t) = to_lower c == to_lower d && same_nocase s t

-- `!strncmp(s, p, strlen(p))`: the text begins with `p`.
unfoldable pub begins : Bytes → Bytes → Bool
begins s [] = true
begins [] (d ∷ p) = false
begins (c ∷ s) (d ∷ p) = c == d && begins s p

-- `!strncasecmp(s, p, strlen(p))`
unfoldable pub begins_nocase : Bytes → Bytes → Bool
unfolding to_lower
begins_nocase s [] = true
begins_nocase [] (d ∷ p) = false
begins_nocase (c ∷ s) (d ∷ p) = to_lower c == to_lower d && begins_nocase s p

-- `strstr(s, p)`: the rest of the text from the first place where `p` begins.
unfoldable pub strstr : Bytes → Bytes → Option Bytes
unfolding begins
strstr [] p = if begins [] p then some [] else none
strstr (c ∷ s) p = if begins (c ∷ s) p then some (c ∷ s) else strstr s p

-- `strchr(s, c)` for a byte other than the terminator.
unfoldable pub strchr : Bytes → ℕ → Option Bytes
strchr [] c = none
strchr (d ∷ s) c = if d == c then some (d ∷ s) else strchr s c

-- `strcspn(s, "c")`: the bytes before the first `c`, or all of them.
unfoldable pub strcspn : Bytes → ℕ → ℕ
strcspn [] c = 0
strcspn (d ∷ s) c = if d == c then 0 else suc (strcspn s c)

abbrev pub is_some {ℓ} : {A : Type ℓ} → Option A → Bool
is_some none = false
is_some (some a) = true
