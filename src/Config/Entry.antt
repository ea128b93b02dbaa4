-- ===== src/Config/Entry.antt =====
-- A line with a keyword and a value in quotes.
use bev_search.Common.{
  ℕ, suc, ◌+◌, ◌-◌, ◌<◌, ◌≡◌, ◌≢◌, refl, ap, ◌∙◌, arith, true, false, some, none, [], ◌∷◌, ◌++◌,
  ◌==◌, length, take, drop, get_or, drop-append, drop-add, take-append, take_all, Bool-cases, inl,
  inr, length-append, leb, ltb, eq_other, append_assoc, if◌then◌else◌, subst, All-append,
}
use bev_search.CString.{Bytes, is_alnum, is_space}
use bev_search.Strings.{substr}
use bev_search.Strings.Copy.{NulFree, substr_within}
use bev_search.Config.{
  Parsing, run, skip, is_over, find_quote, add_option, quoted_value, value_at, word_at, parse_line,
  bufsize,
}
use bev_search.Config.Words.{
  Passes, Unquoted, skip-append, is_over-append, get_or-append, find_quote-append, find_quote-none,
}
use bev_search.Config.Reading.{OneLine}

-- A byte of a keyword is none of the others.
pub alnum_apart :
    (c : ℕ)
    → is_alnum c ≡ true
    → (is_space c ≡ false) × (c ≢ b'#') × (c ≢ b';') × (c ≢ 0) × (c ≢ 10)
unfolding is_alnum is_space
alnum_apart c h =
    (ground arith, λ e. ground arith, λ e. ground arith, λ e. ground arith, λ e. ground arith)

-- What is written for a value.
abbrev pub quoted : Bytes → Bytes → Bytes
quoted value rest = b'"' ∷ (value ++ b'"' ∷ rest)

abbrev pub line_of : Bytes → Bytes → Bytes
line_of key value = key ++ 32 ∷ quoted value (10 ∷ [])

-- A keyword that can be read.
pub record IsKey (key : Bytes) : Type 0 where
  pub some_bytes : 0 < length key
  pub alnum : Passes is_alnum key

-- A keyword, a space and a quote, whatever comes then.
abbrev pub opened : Bytes → Bytes → Bytes
opened key behind = key ++ 32 ∷ b'"' ∷ behind

at_zero :
    (key behind : Bytes)
    → IsKey key
    → (skip is_space (opened key behind) 0 ≡ 0) × (is_over (opened key behind) 0 ≡ false)
unfolding skip run
at_zero [] behind w = absurd (omega (arith, w.some_bytes))
at_zero (c ∷ k) behind w =
    let apart = alnum_apart c w.alnum.0 in
    (rw apart.0 refl, is_over-append [] c (k ++ 32 ∷ b'"' ∷ behind) apart.1 apart.2)

pub key-NulFree : (key : Bytes) → Passes is_alnum key → NulFree key
key-NulFree [] h = tt
key-NulFree (c ∷ key) (hc, h) = ((alnum_apart c hc).3, key-NulFree key h)

pub key-OneLine : (key : Bytes) → Passes is_alnum key → OneLine key
key-OneLine [] h = tt
key-OneLine (c ∷ key) (hc, h) = ((alnum_apart c hc).4, key-OneLine key h)

module _ (p : Parsing) (key behind : Bytes) (word : IsKey key) (text : NulFree behind)
    (short : length (opened key behind) < bufsize) where
  s-NulFree : NulFree (opened key behind)
  s-NulFree =
      All-append (λ c. c ≢ 0) key (32 ∷ b'"' ∷ behind) (key-NulFree key word.alnum)
        ((λ e. omega (arith, e)), ((λ e. omega (arith, e)), text))

  word_end : skip is_alnum (opened key behind) 0 ≡ length key
  word_end =
      skip-append is_alnum [] key 32 (b'"' ∷ behind) word.alnum (unfold is_alnum in refl)
      ∙ omega arith

  value_start : skip is_space (opened key behind) (length key) ≡ suc (length key)
  value_start =
      skip-append is_space key (32 ∷ []) b'"' behind (unfold is_space in (refl, tt))
        (unfold is_space in refl)
      ∙ omega arith

  key_there : substr (opened key behind) 0 (length key - 0) ≡ some key
  key_there =
      substr_within (opened key behind) 0 (length key - 0) s-NulFree (omega (arith, short))
        (omega arith)
      ∙ rw (eq_other (length key - 0) 0 (λ e. omega (arith, e, word.some_bytes)))
          (ap some (take-append (length key - 0) key (32 ∷ b'"' ∷ behind) (omega arith)))

  room : leb (length (opened key behind)) (length key) ≡ false
  room = let n = length-append key (32 ∷ b'"' ∷ behind) in ground (arith, n)

  not_over : is_over (opened key behind) (suc (length key)) ≡ false
  not_over =
      subst (λ t. is_over t (suc (length key)) ≡ false) (append_assoc key (32 ∷ []) (b'"' ∷ behind))
        (subst (λ n. is_over ((key ++ 32 ∷ []) ++ b'"' ∷ behind) n ≡ false)
          (length-append key (32 ∷ []) ∙ omega arith)
          (is_over-append (key ++ 32 ∷ []) b'"' behind (λ e. omega (arith, e))
            (λ e. omega (arith, e))))

  quote_there : get_or (opened key behind) (suc (length key)) 0 ≡ b'"'
  quote_there =
      subst (λ t. get_or t (suc (length key)) 0 ≡ b'"') (append_assoc key (32 ∷ []) (b'"' ∷ behind))
        (subst (λ n. get_or ((key ++ 32 ∷ []) ++ b'"' ∷ behind) n 0 ≡ b'"')
          (length-append key (32 ∷ []) ∙ omega arith) (get_or-append (key ++ 32 ∷ []) b'"' behind))

  -- The line is read up to the value.
  pub parse_opened :
      parse_line p (opened key behind) ≡ quoted_value p (opened key behind) (2 + length key) key
  unfolding parse_line word_at value_at
  parse_opened =
      let start = at_zero key behind word in
      rw
        (
          start.0,
          start.1,
          word_end,
          room,
          get_or-append key 32 (b'"' ∷ behind),
          key_there,
          value_start,
          not_over,
          quote_there,
        )
        (ap (λ n. quoted_value p (opened key behind) n key) (omega arith))

-- Behind the opening quote.
after_quote : (key rest : Bytes) → drop (2 + length key) (opened key rest) ≡ rest
after_quote key rest =
    ap (λ n. drop n (opened key rest)) (omega arith)
    ∙ drop-add (length key) 2 (opened key rest)
    ∙ ap (drop 2) (drop-append (length key) key (32 ∷ b'"' ∷ rest) refl)

pub length-opened : (key rest : Bytes) → length (opened key rest) ≡ 2 + length key + length rest
length-opened key rest = omega (arith, length-append key (32 ∷ b'"' ∷ rest))

taken_whole :
    (key value rest : Bytes)
    → length value == 0 ≡ true
    → take (length (opened key (value ++ b'"' ∷ rest))) (value ++ b'"' ∷ rest) ≡ b'"' ∷ rest
taken_whole key [] rest empty =
    take_all (length (opened key (b'"' ∷ rest))) (b'"' ∷ rest)
      (omega (arith, length-opened key (b'"' ∷ rest)))
taken_whole key (c ∷ value) rest empty = ground (arith, empty)

module _ (p : Parsing) (key value rest mem : Bytes) (word : IsKey key) (text : NulFree value)
    (tail : NulFree rest) (plain : Unquoted value)
    (short : length (opened key (value ++ b'"' ∷ rest)) < bufsize)
    (held : p.buf ≡ opened key (value ++ b'"' ∷ rest) ++ mem) where
  behind : Bytes
  behind = value ++ b'"' ∷ rest

  behind-NulFree : NulFree behind
  unfolding behind
  behind-NulFree = All-append (λ c. c ≢ 0) value (b'"' ∷ rest) text ((λ e. omega (arith, e)), tail)

  quote_found :
      find_quote (drop (2 + length key) p.buf) (2 + length key)
      ≡ some (2 + length key + length value)
  quote_found =
      ap (λ b. find_quote (drop (2 + length key) b) (2 + length key))
        (held ∙ append_assoc key (32 ∷ b'"' ∷ (value ++ b'"' ∷ rest)) mem)
      ∙ ap (λ b. find_quote b (2 + length key))
          (after_quote key ((value ++ b'"' ∷ rest) ++ mem) ∙ append_assoc value (b'"' ∷ rest) mem)
      ∙ find_quote-append value (rest ++ mem) (2 + length key) plain

  within : ltb (2 + length key) (length (opened key behind)) ≡ true
  unfolding behind
  within =
      let n = length-opened key (value ++ b'"' ∷ rest) in
      let m = length-append value (b'"' ∷ rest) in ground (arith, n, m)

  inside : leb (length (opened key behind)) (2 + length key + length value) ≡ false
  unfolding behind
  inside =
      let n = length-opened key (value ++ b'"' ∷ rest) in
      let m = length-append value (b'"' ∷ rest) in ground (arith, n, m)

  span : 2 + length key + length value - (2 + length key) ≡ length value
  span = omega arith

  value_there :
      substr (opened key behind) (2 + length key) (length value)
      ≡ some (take (if length value == 0 then length (opened key behind) else length value) behind)
  unfolding behind
  value_there =
      let n = length-opened key (value ++ b'"' ∷ rest) in
      substr_within (opened key behind) (2 + length key) (length value)
        (s-NulFree p key behind word behind-NulFree short) (omega (arith, short)) (omega (arith, n))
      ∙ ap
          (λ b.
            some (take (if length value == 0 then length (opened key behind) else length value) b))
          (after_quote key behind)

  -- What is stored for a quoted value: the text between the quotes, unless it is empty.
  pub parse_closed :
      parse_line p (opened key (value ++ b'"' ∷ rest))
      ≡ some (add_option p key (if length value == 0 then b'"' ∷ rest else value))
  unfolding quoted_value behind
  parse_closed =
      parse_opened p key behind word behind-NulFree short
      ∙ rw (within, quote_found, inside, span, value_there)
          (elim (Bool-cases (length value == 0)) [
            | inl empty ↦
                rw empty (ap (λ v. some (add_option p key v)) (taken_whole key value rest empty))
            | inr more ↦ rw more (
                ap (λ v. some (add_option p key v))
                  (take-append (length value) value (b'"' ∷ rest) refl))
          ])

-- Without a closing quote the search goes on behind the line.
pub parse_unclosed :
    (p : Parsing) (key behind mem : Bytes)
    → IsKey key
    → NulFree behind
    → 0 < length behind
    → Unquoted (behind ++ mem)
    → length (opened key behind) < bufsize
    → p.buf ≡ opened key behind ++ mem
    → parse_line p (opened key behind) ≡ none
unfolding quoted_value
parse_unclosed p key behind mem word text some_bytes plain short held =
    let n = length-opened key behind in
    let within : ltb (2 + length key) (length (opened key behind)) ≡ true = ground (arith, n) in
    let lost : find_quote (drop (2 + length key) p.buf) (2 + length key) ≡ none =
      ap (λ b. find_quote (drop (2 + length key) b) (2 + length key))
        (held ∙ append_assoc key (32 ∷ b'"' ∷ behind) mem)
      ∙ ap (λ b. find_quote b (2 + length key)) (after_quote key (behind ++ mem))
      ∙ find_quote-none (behind ++ mem) (2 + length key) plain in
    parse_opened p key behind word text short ∙ rw (within, lost) refl
