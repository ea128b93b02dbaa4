-- ===== src/Plist/Pop.antt =====
-- `plist_pop` as the search for the first open connection.
use bev_search.Common.{
  ℕ, true, false, none, List, [], ◌∷◌, ◌++◌, ◌≡◌, ◌⊎◌, inl, inr, refl, ap, subst, Bool-cases, All,
}
use bev_search.Socket.{Probe, int_of, so_closed}
use bev_search.Plist.{PNode, Plist, Popped, pop, pop_loop}

module _ {ℓ} {A : Type ℓ} (recvtest : ℕ → Probe) where
  abbrev pub AllClosed : Plist A → Type 0
  AllClosed = All (λ t. so_closed recvtest (int_of t.key) ≡ true)

  abbrev pub fds : Plist A → List ℕ
  fds [] = []
  fds (t ∷ ts) = int_of t.key ∷ fds ts

  -- The list is cut at the first open connection, or holds none.
  abbrev pub PoppedFrom : Plist A → Popped A → Type ℓ
  PoppedFrom l r =
      ((pre : Plist A) × (t : PNode A) × (l ≡ pre ++ t ∷ r.rest)
        × AllClosed pre
        × (so_closed recvtest (int_of t.key) ≡ false)
        × (r.id ≡ int_of t.key)
        × (r.aux ≡ t.aux)
        × (r.closed ≡ fds pre))
      ⊎ (AllClosed l × (r.id ≡ 0) × (r.aux ≡ none) × (r.rest ≡ []) × (r.closed ≡ fds l))

  PoppedFrom-cons :
      (t : PNode A) (ts : Plist A) (r : Popped A)
      → so_closed recvtest (int_of t.key) ≡ true
      → PoppedFrom ts r
      → PoppedFrom (t ∷ ts) (record r { closed = int_of t.key ∷ r.closed })
  PoppedFrom-cons t ts r shut (inl (pre, u, e, all, open_u, id, aux, fds_pre)) = inl (
    t ∷ pre,
    u,
    ap (λ x. t ∷ x) e,
    (shut, all),
    open_u,
    id,
    aux,
    ap (λ x. int_of t.key ∷ x) fds_pre,
  )
  PoppedFrom-cons t ts r shut (inr (all, id, aux, rest, fds_l)) =
      inr ((shut, all), id, aux, rest, ap (λ x. int_of t.key ∷ x) fds_l)

  pop_loop-PoppedFrom : (l : Plist A) → PoppedFrom l (pop_loop recvtest l)
  unfolding pop_loop
  pop_loop-PoppedFrom [] = inr (tt, refl, refl, refl, refl)
  pop_loop-PoppedFrom (t ∷ ts) = elim (Bool-cases (so_closed recvtest (int_of t.key))) [
    | inl shut ↦
        subst (PoppedFrom (t ∷ ts)) (rw shut)
          (PoppedFrom-cons t ts (pop_loop recvtest ts) shut (pop_loop-PoppedFrom ts))
    | inr live ↦
        subst (PoppedFrom (t ∷ ts)) (rw live) (inl ([], t, refl, tt, live, refl, refl, refl))
  ]

  -- `plist_pop` returns the descriptor and the pointer of the first connection that is open, closes
  -- exactly those before it, in order, and leaves those behind it. If every connection is closed, it
  -- closes them all, returns 0 and leaves the empty list.
  pub pop-PoppedFrom : (l : Plist A) → PoppedFrom l (pop recvtest l)
  unfolding pop
  pop-PoppedFrom l = pop_loop-PoppedFrom l
