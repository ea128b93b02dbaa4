-- ===== src/Plist.antt =====
-- The lists of keys and pointers of cntlm-0.92.3/utils.c (`plist_t`): finished threads, cached
-- connections, proxies and access rules. A list in memory is the list of its nodes; `none` is a
-- NULL pointer.
pub mod Laws
pub mod Pop
use bev_search.Common.{
  ℕ, suc, ◌+◌, ◌-◌, ◌%◌, ◌^◌, Bool, true, false, Option, none, some, List, [], ◌∷◌, ltb, ◌==◌,
  if◌then◌else◌,
}
use bev_search.Socket.{Probe, int_of, so_closed}

pub record PNode {ℓ} (A : Type ℓ) : Type ℓ where
  pub key : ℕ
  pub aux : Option A

abbrev pub Plist {ℓ} : Type ℓ → Type ℓ
Plist A = List (PNode A)

-- What a call of `plist_pop` returns, leaves in the list and closes on its way.
pub record Popped {ℓ} (A : Type ℓ) : Type ℓ where
  pub id : ℕ
  pub aux : Option A
  pub rest : Plist A
  pub closed : List ℕ

-- An `int` that is compared with an `unsigned long` is extended by its sign.
unfoldable pub ulong_of : ℕ → ℕ
ulong_of k = if ltb k (2 ^ 31) then k else k + (2 ^ 64 - 2 ^ 32)

module _ {ℓ} {A : Type ℓ} where
  unfoldable pub add : Plist A → ℕ → Option A → Plist A
  add [] k a = (record { key = k; aux = a }) ∷ []
  add (t ∷ ts) k a = t ∷ add ts k a

  unfoldable pub del : Plist A → ℕ → Plist A
  del [] k = []
  del (t ∷ ts) k = if t.key == k then ts else t ∷ del ts k

  -- `plist_in`
  unfoldable pub has : Plist A → ℕ → Bool
  has [] k = false
  has (t ∷ ts) k = if t.key == k then true else has ts k

  unfoldable pub find_aux : Plist A → ℕ → Option A
  find_aux [] k = none
  find_aux (t ∷ ts) k = if t.key == k then t.aux else find_aux ts k

  -- The key is an `int` here.
  unfoldable pub get : Plist A → ℕ → Option A
  unfolding find_aux
  get l key = find_aux l (ulong_of key)

  unfoldable pub count : Plist A → ℕ
  count [] = 0
  count (t ∷ ts) = suc (count ts)

  unfoldable pub free : Plist A → Plist A
  free [] = []
  free (t ∷ ts) = free ts

  pop_loop : (ℕ → Probe) → Plist A → Popped A
  pop_loop recvtest [] = record { id = 0; aux = none; rest = []; closed = [] }
  pop_loop recvtest (t ∷ ts) =
      let later = pop_loop recvtest ts in
      if so_closed recvtest (int_of t.key)
      then record later { closed = int_of t.key ∷ later.closed }
      else record { id = int_of t.key; aux = t.aux; rest = ts; closed = [] }

  unfoldable pub pop : (ℕ → Probe) → Plist A → Popped A
  unfolding pop_loop
  pop recvtest l = pop_loop recvtest l
