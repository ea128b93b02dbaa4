-- ===== src/NoProxy/Patterns.antt =====
-- Which addresses are excepted.
use bev_search.Common.{
  ℕ, Bool, true, false, ◌||◌, some, List, [], ◌∷◌, ◌++◌, length, All, ◌≡◌, ◌≢◌, ◌<◌, ◌⊎◌, refl, sym,
  ap, ◌∙◌, arith, append-nil,
}
use bev_search.CString.{Bytes}
use bev_search.Plist
use bev_search.Plist.{Plist}
use bev_search.NoProxy.{is_delimiter, extend, cut, tokens, add_all, noproxy_add, noproxy_match}

-- A part of a specification: it is not empty, and has no comma and no space.
abbrev pub IsPattern : Bytes → Type 0
IsPattern p = (0 < length p) × All (λ c. (c ≢ b',') × (c ≢ 32)) p

abbrev pub IsSeparator : Bytes → Type 0
IsSeparator = All (λ c. (c ≡ b',') ⊎ (c ≡ 32))

-- Patterns, each with the separator behind it, which may be empty behind the last one.
abbrev pub AreParts : List (Bytes × Bytes) → Type 0
AreParts [] = Unit
AreParts ((p, sep) ∷ []) = IsPattern p × IsSeparator sep
AreParts ((p, sep) ∷ (q ∷ parts)) =
    IsPattern p × IsSeparator sep × (0 < length sep) × AreParts (q ∷ parts)

-- A specification that is written of a first separator and such parts.
abbrev pub joined : Bytes → List (Bytes × Bytes) → Bytes
joined lead [] = lead
joined lead ((p, sep) ∷ parts) = lead ++ (p ++ joined sep parts)

abbrev pub patterns : List (Bytes × Bytes) → List Bytes
patterns [] = []
patterns ((p, sep) ∷ parts) = p ∷ patterns parts

-- Some pattern of a list matches.
abbrev pub any_matches : (Bytes → Bytes → Bool) → List Bytes → Bytes → Bool
any_matches fnmatch [] addr = false
any_matches fnmatch (p ∷ ps) addr = fnmatch p addr || any_matches fnmatch ps addr

delimits : (c : ℕ) → (c ≡ b',') ⊎ (c ≡ 32) → is_delimiter c ≡ true
unfolding is_delimiter
delimits c h = ground arith

no_delimiter : (c : ℕ) → (c ≢ b',') × (c ≢ 32) → is_delimiter c ≡ false
unfolding is_delimiter
no_delimiter c h = ground arith

tokens-delimiter : (c : ℕ) (s : Bytes) → is_delimiter c ≡ true → cut (c ∷ s) ≡ ([], tokens s)
unfolding cut tokens
tokens-delimiter c s h = rw h refl

tokens-skip : (c : ℕ) (s : Bytes) → (c ≡ b',') ⊎ (c ≡ 32) → tokens (c ∷ s) ≡ tokens s
unfolding tokens extend
tokens-skip c s h = ap (λ r. extend r.0 r.1) (tokens-delimiter c s (delimits c h))

tokens-lead : (lead s : Bytes) → IsSeparator lead → tokens (lead ++ s) ≡ tokens s
tokens-lead [] s h = refl
tokens-lead (c ∷ lead) s (h, hs) = tokens-skip c (lead ++ s) h ∙ tokens-lead lead s hs

cut-pattern :
    (p s : Bytes) → All (λ c. (c ≢ b',') × (c ≢ 32)) p → cut (p ++ s) ≡ (p ++ (cut s).0, (cut s).1)
unfolding cut
cut-pattern [] s h = refl
cut-pattern (c ∷ p) s (h, hs) =
    rw (no_delimiter c h) (ap (λ r. (c ∷ r.0, r.1)) (cut-pattern p s hs))

extended : (p : Bytes) (toks : List Bytes) → 0 < length p → extend (p ++ []) toks ≡ p ∷ toks
unfolding extend
extended [] toks h = absurd (omega arith)
extended (c ∷ p) toks h = ap (λ t. (c ∷ t) ∷ toks) (append-nil p)

-- A pattern in front of a text that is empty, or begins with a separator.
tokens-last : (p : Bytes) → IsPattern p → tokens (p ++ []) ≡ p ∷ []
unfolding tokens cut
tokens-last p (some_bytes, plain) =
    ap (λ r. extend r.0 r.1) (cut-pattern p [] plain) ∙ extended p [] some_bytes

tokens-pattern :
    (p s : Bytes) (c : ℕ) → IsPattern p → (c ≡ b',') ⊎ (c ≡ 32) → tokens (p ++ c ∷ s) ≡ p ∷ tokens s
unfolding tokens
tokens-pattern p s c (some_bytes, plain) h =
    ap (λ r. extend r.0 r.1)
      (cut-pattern p (c ∷ s) plain
        ∙ ap (λ (r : Bytes × List Bytes). (p ++ r.0, r.1)) (tokens-delimiter c s (delimits c h)))
    ∙ extended p (tokens s) some_bytes

tokens-parts :
    (lead : Bytes) (parts : List (Bytes × Bytes))
    → IsSeparator lead
    → AreParts parts
    → tokens (joined lead parts) ≡ patterns parts
tokens-parts lead [] h hs =
    ap tokens (sym (append-nil lead)) ∙ tokens-lead lead [] h ∙ unfold tokens cut extend in refl
tokens-parts lead ((p, []) ∷ []) h hs = tokens-lead lead (p ++ []) h ∙ tokens-last p hs.0
tokens-parts lead ((p, c ∷ sep) ∷ []) h (hp, (hc, hsep)) =
    tokens-lead lead (p ++ c ∷ sep) h
    ∙ tokens-pattern p sep c hp hc
    ∙ ap (λ t. p ∷ t) (tokens-parts sep [] hsep tt)
tokens-parts lead ((p, []) ∷ q ∷ parts) h (hp, hsep, some_bytes, hs) = absurd (omega arith)
tokens-parts lead ((p, c ∷ sep) ∷ (q, next) ∷ parts) h (hp, (hc, hsep), some_bytes, hs) =
    let behind = q ++ joined next parts in
    tokens-lead lead (p ++ (c ∷ sep ++ behind)) h
    ∙ tokens-pattern p (sep ++ behind) c hp hc
    ∙ ap (λ t. p ∷ t) (tokens-parts sep ((q, next) ∷ parts) hsep hs)

parts-ArePatterns : (parts : List (Bytes × Bytes)) → AreParts parts → All IsPattern (patterns parts)
parts-ArePatterns [] h = tt
parts-ArePatterns ((p, sep) ∷ []) h = (h.0, tt)
parts-ArePatterns ((p, sep) ∷ (q ∷ parts)) h = (h.0, parts-ArePatterns (q ∷ parts) h.3)

or_assoc : (a b c : Bool) → ((a || b) || c) ≡ (a || (b || c))
or_assoc true b c = refl
or_assoc false b c = refl

module _ (fnmatch : Bytes → Bytes → Bool) where
  match-add :
      (list : Plist Bytes) (p addr : Bytes)
      → 0 < length p
      → noproxy_match fnmatch (Plist.add list 0 (some p)) addr
        ≡ (noproxy_match fnmatch list addr || fnmatch p addr)
  unfolding noproxy_match Plist.add
  match-add [] p addr h = ground arith
  match-add (t ∷ list) p addr h = ground (arith, match-add list p addr h)

  add_all_matches :
      (toks : List Bytes) (list : Plist Bytes) (addr : Bytes)
      → All IsPattern toks
      → noproxy_match fnmatch (add_all list toks) addr
        ≡ (noproxy_match fnmatch list addr || any_matches fnmatch toks addr)
  unfolding add_all
  add_all_matches [] list addr h = ground arith
  add_all_matches (p ∷ toks) list addr (hp, h) =
      add_all_matches toks (Plist.add list 0 (some p)) addr h
      ∙ ap (λ b. b || any_matches fnmatch toks addr) (match-add list p addr hp.0)
      ∙ or_assoc (noproxy_match fnmatch list addr) (fnmatch p addr) (any_matches fnmatch toks addr)

  -- For a specification that is written of patterns without a comma or a space, with commas and spaces
  -- between them, and perhaps in front and behind: after `noproxy_add` an address is excepted exactly if
  -- it was before, or if one of these patterns matches it.
  pub noproxy_match-add :
      (list : Plist Bytes) (lead : Bytes) (parts : List (Bytes × Bytes)) (addr : Bytes)
      → IsSeparator lead
      → AreParts parts
      → noproxy_match fnmatch (noproxy_add list (joined lead parts)) addr
        ≡ (noproxy_match fnmatch list addr || any_matches fnmatch (patterns parts) addr)
  unfolding noproxy_add
  noproxy_match-add list lead parts addr h hs =
      ap (λ toks. noproxy_match fnmatch (add_all list toks) addr) (tokens-parts lead parts h hs)
      ∙ add_all_matches (patterns parts) list addr (parts-ArePatterns parts hs)
