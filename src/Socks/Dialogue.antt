-- ===== src/Socks/Dialogue.antt =====
-- The parts of the dialogue: the choice of an authentication method, the check of name and password,
-- and the request with its address.
use bev_search.Common.{
  ℕ, ◌+◌, ◌*◌, ◌^◌, Bool, true, false, ◌&&◌, ◌||◌, Option, none, some, [], ◌∷◌, ◌++◌, ltb, ◌==◌,
  if◌then◌else◌, length, take, replicate, get_or,
}
use bev_search.CString.{Bytes, same}
use bev_search.Strings.{c_str, strlcpy}
use bev_search.Hlist
use bev_search.Hlist.{Hlist}
use bev_search.Http.Header.{digits}
use bev_search.Auth.{minibuf_size}
use bev_search.Socks.Session.{M, ◌>>=◌, ◌>>◌, pure, give_up, crash, write, read, read_exact}

-- Is the method among the offered ones?
unfoldable pub offers : Bytes → ℕ → Bool
offers [] m = false
offers (a ∷ auths) m = a == m || offers auths m

-- Without users no authentication is accepted; else, or if that is not offered, a password.
unfoldable pub choose_method : Bool → Bytes → Option ℕ
unfolding offers
choose_method is_open auths =
    if is_open && offers auths 0 then some 0 else if offers auths 2 then some 2 else none

-- The reply to the offer.
unfoldable pub answer_offer : Option ℕ → M ℕ
answer_offer none = write (5 ∷ 0xff ∷ []) >> give_up
answer_offer (some found) = write (5 ∷ found ∷ []) >> pure found

unfoldable pub offered : Bool → Bytes → M ℕ
offered is_open bs =
    if get_or bs 0 0 == 5
    then (read_exact (get_or bs 1 0) >>= λ auths. answer_offer (choose_method is_open auths))
    else give_up

unfoldable pub negotiate : Bool → M ℕ
negotiate is_open = read_exact 2 >>= offered is_open

-- `!hlist_count(users_list) || (tmp && !strcmp(tmp, upass))`
unfoldable pub is_user : Hlist → Bytes → Bytes → Bool
is_user users uname upass =
    Hlist.count users == 0
    || elim (Hlist.get users uname) [ none ↦ false | some tmp ↦ same tmp upass ]

unfoldable pub answer_user : Bool → M (Unit {0})
answer_user true = write (1 ∷ 0 ∷ []) >> pure tt
answer_user false = write (1 ∷ 0xff ∷ []) >> give_up

-- The length of the password is taken from a `char`: from 128 on it is negative, and a block of a
-- negative size is asked for.
unfoldable pub read_password : Hlist → Bytes → ℕ → M (Unit {0})
read_password users uname c =
    if ltb c 128
    then (read_exact c >>= λ upass. answer_user (is_user users uname (c_str upass)))
    else crash

-- The length of the name has been read.
unfoldable pub read_user : Hlist → ℕ → M (Unit {0})
read_user users c =
    read_exact (c + 1) >>= λ uname. read_password users (c_str (take c uname)) (get_or uname c 0)

unfoldable pub user_length : Hlist → Option Bytes → M (Unit {0})
user_length users none = write (1 ∷ 0xff ∷ []) >> give_up
user_length users (some bs) =
    if length bs == 2 then read_user users (get_or bs 1 0) else (write (1 ∷ 0xff ∷ []) >> give_up)

unfoldable pub authenticate : Hlist → ℕ → M (Unit {0})
authenticate users found = if found == 0 then pure tt else (read 2 >>= user_length users)

-- The reply to a request: a code and a dummy address.
abbrev pub reply : ℕ → Bytes
reply code = 5 ∷ code ∷ 0 ∷ 1 ∷ 0 ∷ 0 ∷ 0 ∷ 0 ∷ 0 ∷ 0 ∷ []

-- `sprintf(thost, "%d.%d.%d.%d", …)`
unfoldable pub print_ip : Bytes → Bytes
print_ip addr =
    let n = λ (i : ℕ). digits 3 (get_or addr i 0) in
    n 0 ++ b'.' ∷ (n 1 ++ b'.' ∷ (n 2 ++ b'.' ∷ n 3))

-- The host as a string in its buffer of MINIBUF_SIZE bytes, which cuts a long name off.
unfoldable pub ip_host : Bytes → M Bytes
ip_host addr = pure (print_ip addr)

unfoldable pub name_host : Bytes → M Bytes
name_host addr = elim (strlcpy (replicate minibuf_size 0) (c_str addr) minibuf_size) [
  | none ↦ crash
  | some r ↦ pure (c_str r.0)
]

-- An address of four bytes, or a name behind its length.
unfoldable pub read_host : ℕ → M Bytes
read_host kind =
    if kind == 1
    then (read_exact 4 >>= ip_host)
    else (read_exact 1 >>= λ l. read_exact (get_or l 0 0) >>= name_host)

-- The port stands in network byte order.
abbrev pub ntohs : Bytes → ℕ
ntohs b = get_or b 0 0 * 2 ^ 8 + get_or b 1 0

-- The kind of the request and of its address are in `bs`.
unfoldable pub accepted : Bytes → Bool
accepted bs = get_or bs 1 0 == 1 && (get_or bs 3 0 == 1 || get_or bs 3 0 == 3)

unfoldable pub read_target : Bytes → M (Bytes × ℕ)
read_target bs =
    if accepted bs
    then (read_host (get_or bs 3 0) >>= λ host. read_exact 2 >>= λ port. pure (host, ntohs port))
    else (write (reply 2) >> give_up)

unfoldable pub read_request : M (Bytes × ℕ)
read_request = read_exact 4 >>= read_target
