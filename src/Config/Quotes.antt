-- ===== src/Config/Quotes.antt =====
-- Quoted values that are empty, or that end with the line.
use bev_search.Common.{
  suc, ◌+◌, ◌<◌, ◌≡◌, ◌≢◌, refl, ◌∙◌, arith, false, some, none, [], ◌∷◌, ◌++◌, length, drop, leb,
  All-append,
}
use bev_search.CString.{Bytes}
use bev_search.Strings.Copy.{NulFree, c_str-whole}
use bev_search.Hlist.{node}
use bev_search.Config.{bufsize, Parsing, fill, add_option, use_line, parse_line}
use bev_search.Config.Words.{Unquoted}
use bev_search.Config.Entry.{
  IsKey, opened, length-opened, key-NulFree, parse_closed, parse_unclosed,
}
use bev_search.Config.File.{add_option_lem}

module _ (p : Parsing) (key : Bytes) (word : IsKey key) where
  -- A line that is read, with a keyword and a quote.
  opened_used :
      (behind rest : Bytes)
      → NulFree behind
      → use_line p (record { line = opened key behind; rest = rest; eof = false })
        ≡ parse_line (fill p (opened key behind)) (opened key behind)
  unfolding use_line
  opened_used behind rest text =
      let n = length-opened key behind in
      let longer : leb (length (opened key behind)) 0 ≡ false = ground (arith, n) in
      let whole : NulFree (opened key behind) =
        All-append (λ c. c ≢ 0) key (32 ∷ b'"' ∷ behind) (key-NulFree key word.alnum)
          ((λ e. omega (arith, e)), ((λ e. omega (arith, e)), text)) in
      rw (c_str-whole (opened key behind) whole, longer) refl

  -- For a keyword and an empty value in quotes the option gets the closing quote and the newline as
  -- its value. For a value without its closing quote, and with no quote in what earlier lines left
  -- behind it in the line buffer, the search for a quote leaves the buffer.
  pub use_line-quotes :
      (behind rest : Bytes)
      → NulFree behind
      → 0 < length behind
      → Unquoted behind
      → Unquoted (drop (suc (length (opened key behind))) p.buf)
      → length (opened key behind) < bufsize
      → length key + 4 < bufsize
      → ((p' : Parsing) × (use_line p
              (record { line = opened key (b'"' ∷ 10 ∷ []); rest = rest; eof = false })
            ≡ some p')
          × (p'.options ≡ p.options ++ node key (b'"' ∷ 10 ∷ []) ∷ []))
        × (use_line p (record { line = opened key behind; rest = rest; eof = false }) ≡ none)
  unfolding fill
  use_line-quotes behind rest text some_bytes plain old short small =
      let line = opened key (b'"' ∷ 10 ∷ []) in
      let junk = 0 ∷ drop (suc (length line)) p.buf in
      let end : NulFree (10 ∷ []) = ((λ e. omega (arith, e)), tt) in
      (
        (
          add_option (fill p line) key (b'"' ∷ 10 ∷ []),
          opened_used (b'"' ∷ 10 ∷ []) rest ((λ e. omega (arith, e)), end)
              ∙ parse_closed (fill p line) key [] (10 ∷ []) junk word tt end tt
                  (omega (arith, length-opened key (b'"' ∷ 10 ∷ []), small)) refl,
          add_option_lem p key (b'"' ∷ 10 ∷ []) line,
        ),
        opened_used behind rest text
            ∙ parse_unclosed (fill p (opened key behind)) key behind
                (0 ∷ drop (suc (length (opened key behind))) p.buf) word text some_bytes
                (All-append (λ c. c ≢ b'"') behind
                  (0 ∷ drop (suc (length (opened key behind))) p.buf) plain
                  ((λ e. omega (arith, e)), old))
                short refl,
      )
