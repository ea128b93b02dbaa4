-- ===== src/Socks/Session.antt =====
-- What a thread of the service reads and writes. The kernel is a list of the results of `read`.
use bev_search.Common.{
  ℕ, Option, none, some, List, [], ◌∷◌, ◌++◌, ◌==◌, if◌then◌else◌, length, take,
}
use bev_search.CString.{Bytes}

-- The results of the reads to come, `none` for an error, and what was written to the client. The
-- stream has ended where the list of results ends.
pub record Session : Type 0 where
  pub reads : List (Option Bytes)
  pub writes : List Bytes

-- A step goes on, takes the way out (`goto bailout`), or leaves the memory that it may use.
pub data Step {ℓ} (A : Type ℓ) : Type ℓ where
  go : A → Session → Step A
  bail : Session → Step A
  fault : Step A

abbrev pub M {ℓ} : Type ℓ → Type ℓ
M A = Session → Step A

abbrev pub then_step {ℓ κ} : {A : Type ℓ} {B : Type κ} → Step A → (A → M B) → Step B
then_step (go a s) f = f a s
then_step (bail s) f = bail s
then_step fault f = fault

infixl 5 ◌>>=◌ ◌>>◌
abbrev pub ◌>>=◌ {ℓ κ} : {A : Type ℓ} {B : Type κ} → M A → (A → M B) → M B
◌>>=◌ m f s = then_step (m s) f

abbrev pub ◌>>◌ {ℓ} : {B : Type ℓ} → M (Unit {0}) → M B → M B
m >> k = m >>= λ _. k

abbrev pub pure {ℓ} : {A : Type ℓ} → A → M A
pure a s = go a s

abbrev pub give_up {ℓ} : {A : Type ℓ} → M A
give_up s = bail s

abbrev pub crash {ℓ} : {A : Type ℓ} → M A
crash s = fault

-- `write(cd, …)`; the result is not looked at.
abbrev pub write : Bytes → M (Unit {0})
write bytes s = go tt (record s { writes = s.writes ++ bytes ∷ [] })

-- `r = read(cd, buf, n)`: at most `n` bytes.
abbrev pub next_read : ℕ → List (Option Bytes) → List Bytes → Step (Option Bytes)
next_read n [] w = go (some []) (record { reads = []; writes = w })
next_read n (none ∷ reads) w = go none (record { reads = reads; writes = w })
next_read n (some b ∷ reads) w = go (some (take n b)) (record { reads = reads; writes = w })

abbrev pub read : ℕ → M (Option Bytes)
read n s = next_read n s.reads s.writes

-- `if (r != n) goto bailout`
abbrev pub exactly : ℕ → Option Bytes → M Bytes
exactly n none = give_up
exactly n (some b) = if length b == n then pure b else give_up

abbrev pub read_exact : ℕ → M Bytes
read_exact n = read n >>= exactly n
