-- ===== src/Tests/Services.antt =====
-- Parents, exceptions and the SOCKS service at concrete inputs: cntlm-0.92.3/main.c, forward.c.
use bev_search.Common.{
  ℕ, ◌<◌, ◌||◌, Bool, true, false, Option, none, some, List, [], ◌∷◌, ◌++◌, ◌≡◌, refl, arith,
  replicate, inl, inr,
}
use bev_search.CString.{Bytes, codes, same, same_nocase, is_space}
use bev_search.CString.Number.{ℤ, pos, atoi, strtol10, int_of_long}
use bev_search.Strings.{c_str}
use bev_search.Http.Header.{digits}
use bev_search.Hlist
use bev_search.Hlist.{Hlist, node}
use bev_search.Auth.{Auth, new_auth}
use bev_search.Auth.Copies.{IsAuth}
use bev_search.Parents.{Proxy, Parents, added, parent_add, live, Connected, proxy_connect}
use bev_search.Parents.Rotation.{IsParents}
use bev_search.Parents.Add.{IsAdded, numbered, parent_add-IsAdded}
use bev_search.Parents.Connect.{IsConnected, proxy_connect-IsConnected}
use bev_search.NoProxy.{noproxy_add, noproxy_match}
use bev_search.NoProxy.Patterns.{any_matches, noproxy_match-add}
use bev_search.Socks.Dialogue.{
  offers, choose_method, answer_offer, offered, negotiate, is_user, answer_user, read_password,
  read_user, user_length, authenticate, print_ip, ip_host, read_host, accepted, read_target,
  read_request,
}
use bev_search.Socks.Service.{
  Dialled, Gateway, Outcome, dialogue, host_connect, dial, socks5_thread,
}
use bev_search.Socks.Service.Welcome.{socks5_thread-serves}
use bev_search.Socks.Service.Access.{IsAdmitted, socks5_thread-IsAdmitted}

abbrev dead : Proxy
dead = record { hostname = codes "dead" ++ replicate 60 0; host = 0; port = 80; resolved = false }

abbrev alive : Proxy
alive = record { hostname = codes "alive" ++ replicate 59 0; host = 9; port = 80; resolved = true }

-- No name is found, and every address answers.
abbrev no_names : ℕ → Bytes → Option ℕ
no_names time name = none

abbrev answering : ℕ → ℕ → ℕ → ℤ
answering time host port = pos 7

abbrev two_parents : Parents
two_parents = record {
  list = record { key = 1; aux = some dead } ∷ record { key = 2; aux = some alive } ∷ [];
  count = 2;
  curr = 0;
}

two_parents-IsParents : IsParents two_parents
two_parents-IsParents = record {
  numbered = (refl, (dead, refl), (refl, (alive, refl), tt));
  counted = refl;
  current = omega arith;
  small = omega arith;
}

abbrev creds : Auth
creds = record new_auth {
  user = codes "alice" ++ replicate 45 0;
  domain = codes "corp" ++ replicate 46 0;
  workstation = codes "pc" ++ replicate 48 0;
}

creds-IsAuth : IsAuth creds
unfolding c_str
creds-IsAuth = record {
  user = (refl, omega arith);
  domain = (refl, omega arith);
  workstation = (refl, omega arith);
}

proxy_connect-IsConnected_example :
    (r : Connected) × (proxy_connect no_names answering two_parents
        (live [])
        creds
        false
        (some creds)
      ≡ some r)
    × IsConnected no_names answering two_parents [] creds false (some creds) r
proxy_connect-IsConnected_example =
    proxy_connect-IsConnected no_names answering two_parents [] creds false (some creds)
      two_parents-IsParents (omega arith) creds-IsAuth creds-IsAuth

parent_add-IsAdded_example :
    (qs : Parents) × (parent_add two_parents (codes "proxy: 3128") 0 ≡ some (added qs))
    × IsAdded two_parents (codes "proxy") 3128 qs
unfolding atoi strtol10 int_of_long is_space
parent_add-IsAdded_example =
    parent_add-IsAdded two_parents (codes "proxy") (numbered b':' (codes " ") b'3' (codes "128")) 0
      two_parents-IsParents (omega arith) (omega arith)
      (inl refl, (inl refl, tt), (λ e. omega (arith, e)), (λ e. omega (arith, e)))

-- A matcher for patterns without wildcards.
noproxy_match-add_example :
    noproxy_match same (noproxy_add [] (codes " a.org, localhost")) (codes "localhost") ≡ (
      noproxy_match same [] (codes "localhost")
      || any_matches same (codes "a.org" ∷ codes "localhost" ∷ []) (codes "localhost"))
noproxy_match-add_example =
    noproxy_match-add same [] (codes " ")
      ((codes "a.org", codes ", ") ∷ (codes "localhost", []) ∷ []) (codes "localhost")
      (inr refl, tt) (omega arith, (inl refl, (inr refl, tt)), omega arith, (omega arith, tt))

abbrev gateway : Gateway
gateway = record {
  users = node (codes "bob") (codes "pw") ∷ [];
  noproxy = record { key = 0; aux = some (codes "10.0.0.1") } ∷ [];
  parents = two_parents;
  cache = live [];
  g_creds = creds;
  ntlmbasic = false;
}

-- A client that gives the name and the password, and asks for port 22 of 10.0.0.1.
abbrev client : List (Option Bytes)
client =
    some (5 ∷ 2 ∷ [])
    ∷ some (0 ∷ 2 ∷ [])
    ∷ some (1 ∷ 3 ∷ [])
    ∷ some (codes "bob" ++ 2 ∷ [])
    ∷ some (codes "pw")
    ∷ some (5 ∷ 1 ∷ 0 ∷ 1 ∷ [])
    ∷ some (10 ∷ 0 ∷ 0 ∷ 1 ∷ [])
    ∷ some (0 ∷ 22 ∷ [])
    ∷ []

abbrev served : Outcome
served = record {
  session = record {
    reads = [];
    writes = (5 ∷ 2 ∷ []) ∷ (1 ∷ 0 ∷ []) ∷ (5 ∷ 0 ∷ 0 ∷ 1 ∷ 0 ∷ 0 ∷ 0 ∷ 0 ∷ 0 ∷ 0 ∷ []) ∷ [];
  };
  target = some (codes "10.0.0.1", 22);
  tunnel = some (pos 7);
  gateway = gateway;
}

abbrev any_name : ℕ → Bytes → Option ℕ
any_name time name = some 1

abbrev refusing : ℤ → Option Auth → Bytes → Bool
refusing sd credentials thost = false

service_run : socks5_thread same any_name answering refusing gateway client ≡ some served
unfolding socks5_thread dialogue negotiate offered answer_offer choose_method offers authenticate
    user_length read_user read_password is_user answer_user read_request read_target accepted
    read_host ip_host print_ip host_connect dial noproxy_match Hlist.count Hlist.get c_str
    same_nocase same digits
service_run = refl

one_user : 0 < Hlist.count gateway.users
unfolding Hlist.count
one_user = omega arith

socks5_thread-IsAdmitted_example :
    ((target : Bytes × ℕ) → served.target ≡ some target → IsAdmitted gateway.users client)
    × ((sd : ℤ) → served.tunnel ≡ some sd → IsAdmitted gateway.users client)
socks5_thread-IsAdmitted_example =
    socks5_thread-IsAdmitted same any_name answering refusing gateway client served one_user
      service_run

abbrev way : Dialled
way = record { sd = pos 7; open_way = true; gateway = gateway }

way_run :
    dial same any_name answering refusing gateway (print_ip (10 ∷ 0 ∷ 0 ∷ 1 ∷ [])) 22 ≡ some way
unfolding dial host_connect noproxy_match print_ip digits same
way_run = refl

bob_listed : Hlist.get gateway.users (codes "bob") ≡ some (codes "pw")
unfolding Hlist.get same_nocase
bob_listed = refl

password_offered : offers (0 ∷ 2 ∷ []) 2 ≡ true
unfolding offers
password_offered = refl

same_password : same (codes "pw") (codes "pw") ≡ true
unfolding same
same_password = refl

socks5_thread-serves_example :
    socks5_thread same any_name answering refusing gateway client
    ≡ some (record {
      session = served.session;
      target = some (print_ip (10 ∷ 0 ∷ 0 ∷ 1 ∷ []), 22);
      tunnel = some (pos 7);
      gateway = gateway;
    })
socks5_thread-serves_example =
    socks5_thread-serves same any_name answering refusing gateway (0 ∷ 2 ∷ []) (codes "bob")
      (codes "pw") (codes "pw") 1 10 0 0 1 0 22 [] way one_user password_offered bob_listed
      same_password (omega arith) (omega arith) (omega arith) way_run
