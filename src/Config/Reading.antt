-- ===== src/Config/Reading.antt =====
-- Lines as `fgets` reads them.
use bev_search.Common.{
  ℕ, zero, suc, ◌<◌, ◌≡◌, ◌≢◌, refl, ap, arith, true, false, [], ◌∷◌, ◌++◌, length, All, eq_other,
}
use bev_search.CString.{Bytes}
use bev_search.Config.{longer, fgets}

abbrev pub OneLine : Bytes → Type 0
OneLine = All (λ c. c ≢ 10)

pub fgets_line :
    (room : ℕ) (s rest : Bytes)
    → OneLine s
    → length s < room
    → fgets room (s ++ 10 ∷ rest) ≡ record { line = s ++ 10 ∷ []; rest = rest; eof = false }
unfolding fgets
fgets_line zero s rest h fits = absurd (omega arith)
fgets_line (suc room) [] rest h fits = refl
fgets_line (suc room) (c ∷ s) rest (hc, h) fits =
    rw (eq_other c 10 hc) (ap (longer c) (fgets_line room s rest h (omega arith)))

-- The end of the file before the end of a line.
pub fgets_eof :
    (room : ℕ) (s : Bytes)
    → OneLine s
    → length s < room
    → fgets room s ≡ record { line = s; rest = []; eof = true }
unfolding fgets
fgets_eof zero s h fits = absurd (omega arith)
fgets_eof (suc room) [] h fits = refl
fgets_eof (suc room) (c ∷ s) (hc, h) fits =
    rw (eq_other c 10 hc) (ap (longer c) (fgets_eof room s h (omega arith)))
