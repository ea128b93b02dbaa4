-- ===== src/Config/Words.antt =====
-- The words of a line: a run of bytes that pass a test, and the bytes behind it.
use bev_search.Common.{
  ℕ, suc, ◌+◌, ◌≡◌, ◌≢◌, refl, arith, Bool, true, false, some, none, [], ◌∷◌, ◌++◌, length, get_or,
  All, drop-append, length-append, leb, eq_other,
}
use bev_search.CString.{Bytes}
use bev_search.Config.{run, skip, find_quote, is_over}

abbrev pub Passes : (ℕ → Bool) → Bytes → Type 0
Passes test = All (λ c. test c ≡ true)

pub run-append :
    (test : ℕ → Bool) (s : Bytes) (c : ℕ) (rest : Bytes)
    → Passes test s
    → test c ≡ false
    → run test (s ++ c ∷ rest) ≡ length s
unfolding run
run-append test [] c rest h stop = rw stop refl
run-append test (x ∷ s) c rest (hx, h) stop = rw (hx, run-append test s c rest h stop) refl

pub get_or-append : (w : Bytes) (c : ℕ) (rest : Bytes) → get_or (w ++ c ∷ rest) (length w) 0 ≡ c
get_or-append [] c rest = refl
get_or-append (x ∷ w) c rest = get_or-append w c rest

-- From a place that is known.
pub skip-append :
    (test : ℕ → Bool) (w s : Bytes) (c : ℕ) (rest : Bytes)
    → Passes test s
    → test c ≡ false
    → skip test (w ++ (s ++ c ∷ rest)) (length w) ≡ length w + length s
unfolding skip
skip-append test w s c rest h stop =
    rw (drop-append (length w) w (s ++ c ∷ rest) refl, run-append test s c rest h stop) refl

pub is_over-append :
    (w : Bytes) (c : ℕ) (rest : Bytes)
    → c ≢ b'#'
    → c ≢ b';'
    → is_over (w ++ c ∷ rest) (length w) ≡ false
unfolding is_over
is_over-append w c rest hash semi =
    let longer : leb (length (w ++ c ∷ rest)) (length w) ≡ false =
      let n : length (w ++ c ∷ rest) ≡ length w + suc (length rest) = length-append w (c ∷ rest) in
      ground (arith, n) in
    rw (longer, get_or-append w c rest, eq_other c b'#' hash, eq_other c b';' semi) refl

abbrev pub Unquoted : Bytes → Type 0
Unquoted = All (λ c. c ≢ b'"')

pub find_quote-append :
    (s rest : Bytes) (i : ℕ) → Unquoted s → find_quote (s ++ b'"' ∷ rest) i ≡ some (i + length s)
unfolding find_quote
find_quote-append [] rest i h = ground arith
find_quote-append (c ∷ s) rest i (hc, h) =
    rw (eq_other c b'"' hc, find_quote-append s rest (suc i) h) (ground arith)

-- No quote is found, and the search leaves the buffer.
pub find_quote-none : (s : Bytes) (i : ℕ) → Unquoted s → find_quote s i ≡ none
unfolding find_quote
find_quote-none [] i h = refl
find_quote-none (c ∷ s) i (hc, h) = rw (eq_other c b'"' hc) (find_quote-none s (suc i) h)
