-- ===== src/NoProxy.antt =====
-- The exceptions to forwarding: `noproxy_add` and `noproxy_match` of cntlm-0.92.3/main.c. A pattern is
-- compared by `fnmatch` of the C library, which is a parameter.
pub mod Patterns
use bev_search.Common.{
  ℕ, Bool, true, false, not, ◌&&◌, ◌||◌, Option, none, some, List, [], ◌∷◌, ◌==◌, if◌then◌else◌,
  length,
}
use bev_search.CString.{Bytes}
use bev_search.Plist
use bev_search.Plist.{Plist}

is_delimiter : ℕ → Bool
is_delimiter c = c == b',' || c == 32

-- A token that is begun, in front of the others.
extend : Bytes → List Bytes → List Bytes
extend [] toks = toks
extend (c ∷ tok) toks = (c ∷ tok) ∷ toks

-- The token at the start of a text, which is empty before a delimiter, and those behind it.
cut : Bytes → Bytes × List Bytes
unfolding is_delimiter extend
cut [] = ([], [])
cut (c ∷ s) = let r = cut s in if is_delimiter c then ([], extend r.0 r.1) else (c ∷ r.0, r.1)

-- What `strtok_r(…, ", ", …)` returns, call by call.
unfoldable pub tokens : Bytes → List Bytes
unfolding cut extend
tokens spec = let r = cut spec in extend r.0 r.1

add_all : Plist Bytes → List Bytes → Plist Bytes
add_all list [] = list
add_all list (tok ∷ toks) = add_all (Plist.add list 0 (some tok)) toks

unfoldable pub noproxy_add : Plist Bytes → Bytes → Plist Bytes
unfolding add_all
noproxy_add list spec = add_all list (tokens spec)

module _ (fnmatch : Bytes → Bytes → Bool) where
  pattern_matches : Option Bytes → Bytes → Bool
  pattern_matches none addr = false
  pattern_matches (some p) addr = not (length p == 0) && fnmatch p addr

  unfoldable pub noproxy_match : Plist Bytes → Bytes → Bool
  unfolding pattern_matches
  noproxy_match [] addr = false
  noproxy_match (t ∷ list) addr =
      if pattern_matches t.aux addr then true else noproxy_match list addr
