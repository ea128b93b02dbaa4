-- ===== src/Socks/Service/Welcome.antt =====
-- A client with a name and password is served.
use bev_search.Common.{
  ℕ, ◌+◌, ◌*◌, ◌^◌, ◌<◌, Bool, true, false, ◌||◌, Option, none, some, List, [], ◌∷◌, ◌++◌, ltb,
  ◌==◌, if◌then◌else◌, ◌≡◌, refl, ap, ◌∙◌, arith, length, take, get_or, take_all, take-append,
  length-append, lt→ltb, or_true, ==_iff,
}
use bev_search.CString.{Bytes, same}
use bev_search.CString.Number.{ℤ}
use bev_search.Strings.Copy.{NulFree, c_str-whole}
use bev_search.Hlist
use bev_search.Hlist.{Hlist}
use bev_search.Auth.{Auth}
use bev_search.Socks.Session.{go, read_exact}
use bev_search.Socks.Dialogue.{
  choose_method, offers, answer_offer, offered, negotiate, is_user, answer_user, read_password,
  read_user, user_length, authenticate, reply, print_ip, ip_host, read_host, accepted, read_target,
  read_request,
}
use bev_search.Socks.Service.{
  Gateway, Dialled, dialogue, dial, finish, after_dialogue, socks5_thread,
}

-- A `read` that gives as many bytes as it was asked for.
read_whole :
    (n : ℕ) (b : Bytes) (reads : List (Option Bytes)) (writes : List Bytes)
    → length b ≡ n
    → read_exact n (record { reads = some b ∷ reads; writes = writes })
      ≡ go b (record { reads = reads; writes = writes })
read_whole n b reads writes h =
    let all : take n b ≡ b = take_all n b (omega (arith, h)) in
    let full : (length b == n) ≡ true = (==_iff (length b) n).1 h in rw (all, full) refl

negotiated :
    (auths : Bytes) (reads : List (Option Bytes)) (writes : List Bytes)
    → offers auths 2 ≡ true
    → negotiate false
        (record { reads = some (5 ∷ length auths ∷ []) ∷ some auths ∷ reads; writes = writes })
      ≡ go 2 (record { reads = reads; writes = writes ++ (5 ∷ 2 ∷ []) ∷ [] })
unfolding negotiate offered choose_method answer_offer
negotiated auths reads writes h = rw (read_whole (length auths) auths reads writes refl, h) refl

get_or-last : (s : Bytes) (c : ℕ) → get_or (s ++ c ∷ []) (length s) 0 ≡ c
get_or-last [] c = refl
get_or-last (d ∷ s) c = get_or-last s c

known_user :
    (users : Hlist) (uname upass stored : Bytes)
    → Hlist.get users uname ≡ some stored
    → same stored upass ≡ true
    → is_user users uname upass ≡ true
unfolding is_user
known_user users uname upass stored listed good =
    rw listed (ap (λ b. Hlist.count users == 0 || b) good ∙ or_true (Hlist.count users == 0))

-- What a client sends for its name and password.
abbrev pub credentials_reads : ℕ → Bytes → Bytes → List (Option Bytes) → List (Option Bytes)
credentials_reads version uname upass reads =
    some (version ∷ length uname ∷ []) ∷ some (uname ++ length upass ∷ []) ∷ some upass ∷ reads

authenticated :
    (users : Hlist) (version : ℕ) (uname upass stored : Bytes) (reads : List (Option Bytes))
    (writes : List Bytes)
    → Hlist.get users uname ≡ some stored
    → same stored upass ≡ true
    → NulFree uname
    → NulFree upass
    → length upass < 128
    → authenticate users 2
        (record { reads = credentials_reads version uname upass reads; writes = writes })
      ≡ go tt (record { reads = reads; writes = writes ++ (1 ∷ 0 ∷ []) ∷ [] })
unfolding authenticate user_length read_user read_password answer_user
authenticated users version uname upass stored reads writes listed good free_name free_password
      short =
    let sized : length (uname ++ length upass ∷ []) ≡ length uname + 1 =
      length-append uname (length upass ∷ []) in
    let name = take-append (length uname) uname (length upass ∷ []) refl in
    let last = get_or-last uname (length upass) in
    let low : ltb (length upass) 128 ≡ true = lt→ltb (length upass) 128 short in
    rw
      (
        read_whole (length uname + 1) (uname ++ length upass ∷ []) (some upass ∷ reads) writes
            sized,
        name,
        last,
        low,
        read_whole (length upass) upass reads writes refl,
        c_str-whole uname free_name,
        c_str-whole upass free_password,
        known_user users uname upass stored listed good,
      )
      refl

-- A request for an IPv4 address.
requested :
    (a b c d p q : ℕ) (reads : List (Option Bytes)) (writes : List Bytes)
    → read_request (record {
      reads = some (5 ∷ 1 ∷ 0 ∷ 1 ∷ []) ∷ some (a ∷ b ∷ c ∷ d ∷ []) ∷ some (p ∷ q ∷ []) ∷ reads;
      writes = writes;
    })
      ≡ go
          (print_ip (a ∷ b ∷ c ∷ d ∷ []), p * 2 ^ 8 + q)
          (record { reads = reads; writes = writes })
unfolding read_request read_target accepted read_host ip_host
requested a b c d p q reads writes = refl

module _ (fnmatch : Bytes → Bytes → Bool) (resolve : ℕ → Bytes → Option ℕ) (connect : ℕ → ℕ → ℕ → ℤ)
    (prepare : ℤ → Option Auth → Bytes → Bool) where
  -- A client of a service with users, that offers the password among its methods, gives the name and the
  -- password of a user, of fewer than 128 bytes, and asks for a port of an IPv4 address, gets through,
  -- whatever version its message with the name states, right or wrong: the thread tries exactly that
  -- target, answers each step, with success at the end if there is a way, and then joins the client to
  -- the connection.
  pub socks5_thread-serves :
      (g : Gateway) (auths uname upass stored : Bytes) (version a b c d p q : ℕ)
      (reads : List (Option Bytes)) (way : Dialled)
      → 0 < Hlist.count g.users
      → offers auths 2 ≡ true
      → Hlist.get g.users uname ≡ some stored
      → same stored upass ≡ true
      → NulFree uname
      → NulFree upass
      → length upass < 128
      → dial fnmatch resolve connect prepare g (print_ip (a ∷ b ∷ c ∷ d ∷ [])) (p * 2 ^ 8 + q)
        ≡ some way
      → socks5_thread fnmatch resolve connect prepare g (
          some (5 ∷ length auths ∷ [])
          ∷ some auths
          ∷ credentials_reads version uname upass
              (some (5 ∷ 1 ∷ 0 ∷ 1 ∷ []) ∷ some (a ∷ b ∷ c ∷ d ∷ []) ∷ some (p ∷ q ∷ []) ∷ reads))
        ≡ some (record {
          session = record {
            reads = reads;
            writes = (5 ∷ 2 ∷ []) ∷ (1 ∷ 0 ∷ []) ∷ reply (if way.open_way then 0 else 1) ∷ [];
          };
          target = some (print_ip (a ∷ b ∷ c ∷ d ∷ []), p * 2 ^ 8 + q);
          tunnel = if way.open_way then some way.sd else none;
          gateway = way.gateway;
        })
  unfolding socks5_thread dialogue after_dialogue finish
  socks5_thread-serves g auths uname upass stored version a b c d p q reads way some_user offer
        listed good free_name free_password short dialled =
      let request =
        some (5 ∷ 1 ∷ 0 ∷ 1 ∷ []) ∷ some (a ∷ b ∷ c ∷ d ∷ []) ∷ some (p ∷ q ∷ []) ∷ reads in
      let guarded : (Hlist.count g.users == 0) ≡ false = ground arith in
      rw
        (
          guarded,
          negotiated auths (credentials_reads version uname upass request) [] offer,
          authenticated g.users version uname upass stored request ((5 ∷ 2 ∷ []) ∷ []) listed good
              free_name free_password short,
          requested a b c d p q reads ((5 ∷ 2 ∷ []) ∷ (1 ∷ 0 ∷ []) ∷ []),
          dialled,
        )
        refl
