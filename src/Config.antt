-- ===== src/Config.antt =====
-- Configuration files, cntlm-0.92.3/config.c. A file is its bytes; the line buffer keeps what earlier
-- lines left behind the terminator. `none` is a read or a write outside of a buffer.
pub mod Reading
pub mod Words
pub mod Entry
pub mod File
pub mod Quotes
use bev_search.Common.{
  ℕ, zero, suc, ◌+◌, ◌-◌, Bool, true, false, ◌||◌, not, Option, none, some, [], ◌∷◌, ◌++◌, leb, ltb,
  ◌==◌, if◌then◌else◌, length, take, drop, get_or, get_elem?, replicate,
}
use mathlib.Core.Option
use bev_search.CString.{Bytes, codes, is_space, is_alnum, strcspn}
use bev_search.Strings.{c_str, strlcpy, substr, trimr}
use bev_search.Hlist
use bev_search.Hlist.{Hlist}
use bev_search.Auth.{◌>>=◌, minibuf_size}

abbrev pub bufsize : ℕ
bufsize = 4096

-- What `fgets` takes from a stream, what it leaves, and whether it met the end of the file.
pub record FileLine : Type 0 where
  pub line : Bytes
  pub rest : Bytes
  pub eof : Bool

abbrev pub longer : ℕ → FileLine → FileLine
longer c l = record l { line = c ∷ l.line }

-- `fgets` with room for so many bytes.
unfoldable pub fgets : ℕ → Bytes → FileLine
fgets zero s = record { line = []; rest = s; eof = false }
fgets (suc room) [] = record { line = []; rest = []; eof = true }
fgets (suc room) (c ∷ s) =
    let more = longer c (fgets room s) in
    if c == 10 then record { line = c ∷ []; rest = s; eof = false } else more

-- The variables of the loop: the name of the section, the options, and the line buffer.
pub record Parsing : Type 0 where
  pub section : Bytes
  pub options : Hlist
  pub buf : Bytes

-- How many bytes from the beginning pass a test.
unfoldable pub run : (ℕ → Bool) → Bytes → ℕ
run test [] = 0
run test (c ∷ s) = if test c then suc (run test s) else 0

-- `for (; j < len && test(buf[j]); ++j)`
unfoldable pub skip : (ℕ → Bool) → Bytes → ℕ → ℕ
skip test s j = j + run test (drop j s)

-- `j >= len || buf[j] == '#' || buf[j] == ';'`
unfoldable pub is_over : Bytes → ℕ → Bool
is_over s j = leb (length s) j || get_or s j 0 == b'#' || get_or s j 0 == b';'

-- `for (; buf[i] != '"'; ++i)`, which no length bounds.
unfoldable pub find_quote : Bytes → ℕ → Option ℕ
find_quote [] i = none
find_quote (c ∷ s) i = if c == b'"' then some i else find_quote s (suc i)

unfoldable pub add_option : Parsing → Bytes → Bytes → Parsing
add_option p key value = record p { options = Hlist.add p.options (some key) (some value) }

-- `i = ++j` behind the quote.
unfoldable pub quoted_value : Parsing → Bytes → ℕ → Bytes → Option Parsing
quoted_value p s j key = (if ltb j (length s) then find_quote (drop j p.buf) j else some j) >>= λ i.
    if leb (length s) i
    then some p
    else (substr s j (i - j) >>= λ value. some (add_option p key value))

unfoldable pub plain_value : Parsing → Bytes → ℕ → Bytes → Option Parsing
plain_value p s j key = substr s j (length s - j) >>= λ value.
    let i = strcspn value b'#' in
    some (add_option p key (trimr (if i == length value then value else take i value)))

-- The value behind a keyword.
unfoldable pub value_at : Parsing → Bytes → ℕ → Bytes → Option Parsing
value_at p s j key =
    if is_over s j
    then some p
    else if get_or s j 0 == b'"'
    then quoted_value p s (suc j) key
    else plain_value p s j key

in_section : ℕ → Bool
in_section c = not (c == b']' || is_space c)

-- The name of a section, in its buffer.
unfoldable pub section_at : Parsing → Bytes → ℕ → Option Parsing
unfolding in_section
section_at p s slen =
    let n = run in_section (take (minibuf_size - 1) (drop slen s)) in
    if n == 0
    then some p
    else (strlcpy p.section (drop slen s) (suc n) >>= λ r. some (record p { section = r.0 }))

-- Behind the keyword that stands from `i` up to `j`.
unfoldable pub word_at : Parsing → Bytes → ℕ → ℕ → Option Parsing
word_at p s i j =
    if leb (length s) j
    then some p
    else if get_or s j 0 == b'['
    then section_at p s (skip is_space s (suc j))
    else (substr s i (j - i) >>= value_at p s (skip is_space s j))

-- A line, as the string in the buffer.
unfoldable pub parse_line : Parsing → Bytes → Option Parsing
parse_line p s =
    let i = skip is_space s 0 in if is_over s i then some p else word_at p s i (skip is_alnum s i)

-- The buffer under a line that was read.
unfoldable pub fill : Parsing → Bytes → Parsing
fill p line = record p { buf = line ++ 0 ∷ drop (suc (length line)) p.buf }

-- A line that ends with the file is passed over, and so is an empty one.
unfoldable pub use_line : Parsing → FileLine → Option Parsing
use_line p l =
    let s = c_str l.line in
    if leb (length s) 0 || l.eof then some (fill p l.line) else parse_line (fill p l.line) s

-- `while (!feof(fp))`, with a bound on its rounds; `none` is also that the bound was reached.
unfoldable pub read_lines : ℕ → Parsing → Bool → Bytes → Option Parsing
read_lines zero p eof text = none
read_lines (suc fuel) p true text = some p
read_lines (suc fuel) p false [] = some p
read_lines (suc fuel) p false (c ∷ text) =
    let l = fgets (bufsize - 1) (c ∷ text) in use_line p l >>= λ p'. read_lines fuel p' l.eof l.rest

abbrev pub at_start : Parsing
at_start = record {
  section = codes "global" ++ replicate 44 0;
  options = [];
  buf = replicate bufsize 0;
}

-- `struct config_s`
pub record Config : Type 0 where
  pub options : Hlist

-- For a file that can be opened.
unfoldable pub config_open : Bytes → Option Config
config_open text =
    Option.map (λ p. record { options = p.options })
      (read_lines (2 + length text) at_start false text)

unfoldable pub config_set : Config → Bytes → Bytes → Config
config_set cf option value = record { options = Hlist.modify cf.options option value true }

unfoldable pub config_pop : Config → Bytes → Config × Option Bytes
config_pop cf option = elim (Hlist.get cf.options option) [
  | none ↦ (cf, none)
  | some value ↦ (record { options = Hlist.del cf.options option }, some value)
]

unfoldable pub config_count : Config → ℕ
config_count cf = Hlist.count cf.options

unfoldable pub config_close : Option Config → Option Hlist
config_close none = none
config_close (some cf) = some (Hlist.free cf.options)
