-- ===== src/Config/File.antt =====
-- A file of keywords and quoted values.
use bev_search.Common.{
  ℕ, zero, suc, ◌+◌, ◌-◌, ◌≤◌, ◌<◌, ◌≡◌, ◌≢◌, refl, sym, ap, ◌∙◌, arith, true, false, some, List,
  [], ◌∷◌, ◌++◌, length, map, All, drop, length-append, leb, append_assoc, append-nil, All-append,
  eq_other, or_true,
}
use mathlib.Core.Option
use bev_search.CString.{Bytes}
use bev_search.Strings.{c_str}
use bev_search.Strings.Copy.{NulFree, c_str-whole}
use bev_search.Hlist.{Hlist, node}
use bev_search.Hlist.Laws.{add-append}
use bev_search.Config.{
  bufsize, FileLine, fgets, Parsing, fill, add_option, use_line, read_lines, at_start, Config,
  config_open,
}
use bev_search.Config.Words.{Unquoted}
use bev_search.Config.Reading.{OneLine, fgets_line, fgets_eof}
use bev_search.Config.Entry.{IsKey, opened, length-opened, key-NulFree, key-OneLine, parse_closed}

pub record Entry : Type 0 where
  pub key : Bytes
  pub value : Bytes

-- An entry that can be written as a line.
pub record IsEntry (e : Entry) : Type 0 where
  pub key : IsKey e.key
  pub some_bytes : 0 < length e.value
  pub text : NulFree e.value
  pub plain : Unquoted e.value
  pub line : OneLine e.value
  pub short : length e.key + length e.value + 4 < bufsize

-- The lines of a file, and what comes behind the last.
abbrev pub print : List Entry → Bytes → Bytes
print [] tail = tail
print (e ∷ entries) tail = opened e.key (e.value ++ b'"' ∷ 10 ∷ print entries tail)

abbrev pub options_of : List Entry → Hlist
options_of = map (λ (e : Entry). node e.key e.value)

-- A round that reads a line and uses it.
round_of :
    (fuel : ℕ) (p : Parsing) (text : Bytes) (l : FileLine) (p' : Parsing)
    → 0 < length text
    → fgets (bufsize - 1) text ≡ l
    → use_line p l ≡ some p'
    → read_lines (suc fuel) p false text ≡ read_lines fuel p' l.eof l.rest
unfolding read_lines
round_of fuel p [] l p' some_bytes got used = absurd (omega arith)
round_of fuel p (c ∷ text) l p' some_bytes got used = rw (got, used) refl

module _ (e : Entry) (fit : IsEntry e) where
  line_text : Bytes
  line_text = opened e.key (e.value ++ b'"' ∷ 10 ∷ [])

  before_newline : Bytes
  before_newline = opened e.key (e.value ++ b'"' ∷ [])

  newline_split :
      (rest : Bytes) → opened e.key (e.value ++ b'"' ∷ 10 ∷ rest) ≡ before_newline ++ 10 ∷ rest
  unfolding before_newline
  newline_split rest = simp append_assoc

  before-OneLine : OneLine before_newline
  unfolding before_newline
  before-OneLine =
      All-append (λ c. c ≢ 10) e.key (32 ∷ b'"' ∷ (e.value ++ b'"' ∷ []))
        (key-OneLine e.key fit.key.alnum)
        (
          (λ h. omega (arith, h)),
          (
            (λ h. omega (arith, h)),
            All-append (λ c. c ≢ 10) e.value (b'"' ∷ []) fit.line ((λ h. omega (arith, h)), tt),
          ),
        )

  line-NulFree : NulFree line_text
  unfolding line_text
  line-NulFree =
      All-append (λ c. c ≢ 0) e.key (32 ∷ b'"' ∷ (e.value ++ b'"' ∷ 10 ∷ []))
        (key-NulFree e.key fit.key.alnum)
        (
          (λ h. omega (arith, h)),
          (
            (λ h. omega (arith, h)),
            All-append (λ c. c ≢ 0) e.value (b'"' ∷ 10 ∷ []) fit.text
                ((λ h. omega (arith, h)), ((λ h. omega (arith, h)), tt)),
          ),
        )

  line_size : length line_text ≡ length e.key + length e.value + 4
  unfolding line_text
  line_size = omega (
    arith,
    length-opened e.key (e.value ++ b'"' ∷ 10 ∷ []),
    length-append e.value (b'"' ∷ 10 ∷ []),
  )

  line_read :
      (rest : Bytes)
      → fgets (bufsize - 1) (opened e.key (e.value ++ b'"' ∷ 10 ∷ rest))
        ≡ record { line = line_text; rest = rest; eof = false }
  unfolding line_text
  line_read rest =
      ap (fgets (bufsize - 1)) (newline_split rest)
      ∙ fgets_line (bufsize - 1) before_newline rest before-OneLine (
          omega (
            arith,
            line_size,
            ap length (newline_split []),
            length-append before_newline (10 ∷ []),
            fit.short,
          ))
      ∙ ap (λ t. record { line = t; rest = rest; eof = false }) (sym (newline_split []))

  line_used :
      (p : Parsing) (rest : Bytes)
      → use_line p (record { line = line_text; rest = rest; eof = false })
        ≡ some (add_option (fill p line_text) e.key e.value)
  unfolding use_line line_text fill
  line_used p rest =
      let longer : leb (length line_text) 0 ≡ false = ground (arith, line_size) in
      rw (c_str-whole line_text line-NulFree, longer)
        (parse_closed (fill p line_text) e.key e.value (10 ∷ [])
            (0 ∷ drop (suc (length line_text)) p.buf) fit.key fit.text ((λ h. omega (arith, h)), tt)
            fit.plain (omega (arith, line_size, fit.short)) refl
          ∙ ap (λ v. some (add_option (fill p line_text) e.key v))
              (rw (eq_other (length e.value) 0 (λ h. omega (arith, h, fit.some_bytes))) refl))

  -- One round of the loop.
  entry_read :
      (fuel : ℕ) (p : Parsing) (rest : Bytes)
      → read_lines (suc fuel) p false (opened e.key (e.value ++ b'"' ∷ 10 ∷ rest))
        ≡ read_lines fuel (add_option (fill p line_text) e.key e.value) false rest
  entry_read fuel p rest =
      round_of fuel p (opened e.key (e.value ++ b'"' ∷ 10 ∷ rest))
        (record { line = line_text; rest = rest; eof = false })
        (add_option (fill p line_text) e.key e.value)
        (omega (arith, length-opened e.key (e.value ++ b'"' ∷ 10 ∷ rest))) (line_read rest)
        (line_used p rest)

-- What a line leaves is the options and a new one.
pub add_option_lem :
    (p : Parsing) (key value line : Bytes)
    → (add_option (fill p line) key value).options ≡ p.options ++ node key value ∷ []
unfolding add_option fill
add_option_lem p key value line = add-append p.options key value

-- The end of the file, with or without the beginning of a line.
tail_read :
    (fuel : ℕ) (p : Parsing) (tail : Bytes)
    → OneLine tail
    → length tail < bufsize - 1
    → (p' : Parsing) × (read_lines (2 + fuel) p false tail ≡ some p') × (p'.options ≡ p.options)
unfolding use_line read_lines fill
tail_read fuel p [] h short =
    let rounds : 2 + fuel ≡ suc (suc fuel) = omega arith in
    (p, ap (λ n. read_lines n p false []) rounds, refl)
tail_read fuel p (c ∷ tail) h short =
    let rounds : 2 + fuel ≡ suc (suc fuel) = omega arith in
    let l : FileLine = record { line = c ∷ tail; rest = []; eof = true } in
    (
      fill p (c ∷ tail),
      ap (λ n. read_lines n p false (c ∷ tail)) rounds
          ∙ round_of (suc fuel) p (c ∷ tail) l (fill p (c ∷ tail)) (omega arith)
              (fgets_eof (bufsize - 1) (c ∷ tail) h short)
              (rw (or_true (leb (length (c_str (c ∷ tail))) 0)) refl),
      refl,
    )

file_read :
    (fuel : ℕ) (entries : List Entry) (p : Parsing) (tail : Bytes)
    → All IsEntry entries
    → OneLine tail
    → length tail < bufsize - 1
    → length entries + 2 ≤ fuel
    → (p' : Parsing) × (read_lines fuel p false (print entries tail) ≡ some p')
      × (p'.options ≡ p.options ++ options_of entries)
file_read fuel [] p tail fits h short enough =
    let n : 2 + (fuel - 2) ≡ fuel = omega (arith, enough) in
    let r = tail_read (fuel - 2) p tail h short in
    (r.0, ap (λ k. read_lines k p false tail) (sym n) ∙ r.1, r.2 ∙ sym (append-nil p.options))
file_read zero (e ∷ entries) p tail fits h short enough = absurd (omega (arith, enough))
file_read (suc fuel) (e ∷ entries) p tail (fit, fits) h short enough =
    let next = add_option (fill p (line_text e fit)) e.key e.value in
    let r = file_read fuel entries next tail fits h short (omega (arith, enough)) in
    (
      r.0,
      entry_read e fit fuel p (print entries tail) ∙ r.1,
      r.2
          ∙ ap (λ l. l ++ options_of entries) (add_option_lem p e.key e.value (line_text e fit))
          ∙ append_assoc p.options (node e.key e.value ∷ []) (options_of entries),
    )

entries-le : (entries : List Entry) (tail : Bytes) → length entries ≤ length (print entries tail)
entries-le [] tail = omega arith
entries-le (e ∷ entries) tail = omega (
  arith,
  entries-le entries tail,
  length-opened e.key (e.value ++ b'"' ∷ 10 ∷ print entries tail),
  length-append e.value (b'"' ∷ 10 ∷ print entries tail),
)

-- A file of lines with a keyword, a space and a value in quotes is read as the list of these keywords
-- and values, in their order. What follows the last newline is passed over, so that a last line that
-- no newline ends is lost. Keywords are letters and digits, values have no quote and are not empty,
-- and a line fits the line buffer.
pub config_open-print :
    (entries : List Entry) (tail : Bytes)
    → All IsEntry entries
    → OneLine tail
    → length tail < bufsize - 1
    → config_open (print entries tail) ≡ some (record { options = options_of entries })
unfolding config_open
config_open-print entries tail fits h short =
    let n = 2 + length (print entries tail) in
    let r =
      file_read n entries at_start tail fits h short (omega (arith, entries-le entries tail)) in
    let made : Parsing → Config = λ p. record { options = p.options } in
    ap (Option.map made) r.1 ∙ ap (λ l. some (record { options = l })) r.2
