-- ===== src/Ntlm/Target.antt =====
-- The walk of `ntlm_response` over the target information of a challenge, which the server sends:
-- pairs of a type and a length, in `uint16_t` variables, up to a pair of type 0.
pub mod Bounds
use bev_search.Common.{
  ℕ, zero, suc, ◌+◌, ◌-◌, ◌*◌, ◌%◌, ◌^◌, Bool, Option, none, some, ltb, leb, ◌==◌, if◌then◌else◌,
  get_elem?,
}
use bev_search.CString.{Bytes}

-- Where the pairs begin, how long they are, and the type that was read last.
pub record TargetInfo : Type 0 where
  pub tbofs : ℕ
  pub tblen : ℕ
  pub ttype : ℕ

infixl 5 ◌>>=◌
abbrev ◌>>=◌ : {A B : Type 0} → Option A → (A → Option B) → Option B
none >>= f = none
some a >>= f = f a

-- `U16LE(VAL(mem, uint16_t, at))`; `none` is a read outside of the memory.
unfoldable pub val16 : Bytes → ℕ → Option ℕ
val16 mem at = do low ← get_elem? mem at; high ← get_elem? mem (suc at); some (low + 2 ^ 8 * high)

abbrev pub wrap16 : ℕ → ℕ
wrap16 n = n % 2 ^ 16

-- A round of the loop: the pair at `tpos` is taken, or the loop ends with the type that was read
-- last.
pub data Round : Type 0 where
  ends : ℕ → Round
  takes : (type len : ℕ) → Round

-- The length of the pair, which must be inside of the challenge.
unfoldable pub pair_of : Bytes → ℕ → ℕ → ℕ → Option Round
pair_of mem challen tpos type = do
  len ← val16 mem (tpos + 2)
  some (if ltb challen (tpos + 4 + len) then ends type else takes type len)

unfoldable pub round : Bytes → ℕ → ℕ → ℕ → Option Round
unfolding pair_of
round mem challen tpos ttype =
    if leb (tpos + 4) challen
    then (val16 mem tpos >>= λ type.
        if type == 0 then some (ends type) else pair_of mem challen tpos type)
    else some (ends ttype)

-- The loop, with a bound on its rounds; `none` is also that the bound was reached.
unfoldable pub walk : ℕ → Bytes → ℕ → ℕ → ℕ → ℕ → ℕ → Option TargetInfo
walk zero mem challen tbofs tpos tblen ttype = none
walk (suc fuel) mem challen tbofs tpos tblen ttype = elim (round mem challen tpos ttype) [
  | none ↦ none
  | some (ends type) ↦ some (record { tbofs = tbofs; tblen = tblen; ttype = type })
  | some (takes type len) ↦
      walk fuel mem challen tbofs (wrap16 (tpos + (4 + len))) (wrap16 (tblen + (4 + len))) type
]

-- `if (tblen && ttype == 0) tblen += 4`
unfoldable pub closed : TargetInfo → TargetInfo
closed t =
    if ltb 0 t.tblen
    then (if t.ttype == 0 then record t { tblen = wrap16 (t.tblen + 4) } else t)
    else t

-- All of it: a challenge without target information has none.
unfoldable pub target_info : Bytes → ℕ → Option TargetInfo
target_info challenge challen =
    if ltb 48 challen
    then (do
      tbofs ← val16 challenge 44
      t ← walk challen challenge challen tbofs tbofs 0 (2 ^ 16 - 1)
      some (closed t))
    else some (record { tbofs = 0; tblen = 0; ttype = 2 ^ 16 - 1 })
