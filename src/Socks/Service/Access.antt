-- ===== src/Socks/Service/Access.antt =====
-- Who is let through.
use bev_search.Common.{
  ℕ, ◌<◌, Bool, true, false, Option, some, List, [], ◌==◌, ◌≡◌, refl, sym, ap, subst, ◌∙◌, arith,
  take, get_or, Option-cases, inl, inr,
}
use mathlib.Core.Option.{some-injective, none-ne-some}
use bev_search.CString.{Bytes, same}
use bev_search.CString.Number.{ℤ}
use bev_search.Strings.{c_str}
use bev_search.Hlist
use bev_search.Hlist.{Hlist}
use bev_search.Auth.{Auth}
use bev_search.Socks.Session.{Session, Step, go, bail, fault, ◌>>◌}
use bev_search.Socks.Dialogue.{choose_method, is_user, negotiate, authenticate, read_request}
use bev_search.Socks.Guard.{Negotiated, Authenticated, negotiate-go, authenticate-go, then_step-go}
use bev_search.Socks.Service.{Gateway, Outcome, dialogue, after_dialogue, socks5_thread}

-- With users the method is the password.
guarded_method : (auths : Bytes) (found : ℕ) → choose_method false auths ≡ some found → found ≡ 2
unfolding choose_method
guarded_method auths found h = ground arith

listed_user :
    (users : Hlist) (uname upass : Bytes)
    → 0 < Hlist.count users
    → is_user users uname upass ≡ true
    → (stored : Bytes) × (Hlist.get users uname ≡ some stored) × (same stored upass ≡ true)
unfolding is_user
listed_user users uname upass some_user h = elim (Option-cases (Hlist.get users uname)) [
  | inl unknown ↦ absurd (ground (arith, unknown))
  | inr (stored, found) ↦ (stored, found, ground (arith, found))
]

-- The client has sent the name of a user and the password of that user.
pub record IsAdmitted (users : Hlist) (reads : List (Option Bytes)) : Type 0 where
  pub offer : Session
  pub after : Session
  pub negotiated : Negotiated false 2 (record { reads = reads; writes = [] }) offer
  pub authenticated : Authenticated users offer after
  pub stored : Bytes
  pub listed :
      Hlist.get users (c_str (take (get_or authenticated.header 1 0) authenticated.uname))
      ≡ some stored
  pub password : same stored (c_str authenticated.upass) ≡ true

dialogue_admits :
    (users : Hlist) (reads : List (Option Bytes)) (target : Bytes × ℕ) (t : Session)
    → 0 < Hlist.count users
    → dialogue users (record { reads = reads; writes = [] }) ≡ go target t
    → IsAdmitted users reads
unfolding dialogue
dialogue_admits users reads target t some_user e =
    let start : Session = record { reads = reads; writes = [] } in
    let guarded : (Hlist.count users == 0) ≡ false = ground arith in
    let (found, s, first, rest) =
      then_step-go (negotiate (Hlist.count users == 0) start)
        (λ found. authenticate users found >> read_request) target t e in
    let offer =
      negotiate-go false start found s (ap (λ b. negotiate b start) (sym guarded) ∙ first) in
    let two = guarded_method offer.auths found offer.chosen in
    let (_, u, second, last) =
      then_step-go (authenticate users found s) (λ _. read_request) target t rest in
    let user = authenticate-go users found s u (ground (arith, two)) second in
    let known = listed_user users _ _ some_user user.known in
    record {
      offer = s;
      after = u;
      negotiated = subst (λ m. Negotiated false m start s) two offer;
      authenticated = user;
      stored = known.0;
      listed = known.1;
      password = known.2;
    }

module _ (fnmatch : Bytes → Bytes → Bool) (resolve : ℕ → Bytes → Option ℕ) (connect : ℕ → ℕ → ℕ → ℤ)
    (prepare : ℤ → Option Auth → Bytes → Bool) where
  -- What the rest of the thread does with each end of the dialogue.
  after_dialogue_admits :
      (g : Gateway) (reads : List (Option Bytes)) (o : Outcome) (step : Step (Bytes × ℕ))
      → 0 < Hlist.count g.users
      → dialogue g.users (record { reads = reads; writes = [] }) ≡ step
      → after_dialogue fnmatch resolve connect prepare g step ≡ some o
      → ((target : Bytes × ℕ) → o.target ≡ some target → IsAdmitted g.users reads)
        × ((sd : ℤ) → o.tunnel ≡ some sd → IsAdmitted g.users reads)
  unfolding after_dialogue
  after_dialogue_admits g reads o (go target s) some_user d e =
      let admitted = dialogue_admits g.users reads target s some_user d in
      (λ _ _. admitted, λ _ _. admitted)
  after_dialogue_admits g reads o (bail s) some_user d e =
      let same_outcome = some-injective _ _ e in
      (
        λ target t. absurd (none-ne-some _ (ap (λ (o : Outcome). o.target) same_outcome ∙ t)),
        λ sd t. absurd (none-ne-some _ (ap (λ (o : Outcome). o.tunnel) same_outcome ∙ t)),
      )
  after_dialogue_admits g reads o fault some_user d e = absurd (none-ne-some _ e)

  -- A service with users tries to reach a target, and joins a connection to the client's, only for a
  -- client that has asked for a password, was sent to the check of it, and has given the name of a
  -- user, up to the case of letters, and exactly the password of that user.
  pub socks5_thread-IsAdmitted :
      (g : Gateway) (reads : List (Option Bytes)) (o : Outcome)
      → 0 < Hlist.count g.users
      → socks5_thread fnmatch resolve connect prepare g reads ≡ some o
      → ((target : Bytes × ℕ) → o.target ≡ some target → IsAdmitted g.users reads)
        × ((sd : ℤ) → o.tunnel ≡ some sd → IsAdmitted g.users reads)
  unfolding socks5_thread
  socks5_thread-IsAdmitted g reads o some_user e =
      after_dialogue_admits g reads o (dialogue g.users (record { reads = reads; writes = [] }))
        some_user refl e
