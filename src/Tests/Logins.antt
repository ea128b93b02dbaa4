-- ===== src/Tests/Logins.antt =====
-- The credentials of a client: cntlm-0.92.3/http.c.
use bev_search.Common.{◌≡◌, refl, arith, some, [], ◌∷◌, ◌++◌}
use bev_search.CString.{Bytes, codes, same_nocase, to_lower}
use bev_search.Hlist
use bev_search.Hlist.{Hlist, node}
use bev_search.Auth.{Auth, new_auth}
use bev_search.Base64.{to_base64}
use bev_search.Http.Basic.{given, http_parse_basic}
use bev_search.Http.Basic.Login.{scheme, HasBuffers, IsLogin}
use bev_search.Http.Basic.Composed.{login_text, CanBeSent, http_parse_basic-IsLogin}
use bev_search.Tests.Responses.{crypto}

abbrev text : Bytes
text = login_text (some (codes "corp")) (codes "alice") (codes "s:cret")

abbrev headers : Hlist
headers = node (codes "proxy-authorization") (scheme ++ to_base64 text 100) ∷ []

header_found : Hlist.get headers (codes "Proxy-Authorization") ≡ some (scheme ++ to_base64 text 100)
unfolding Hlist.get same_nocase to_lower
header_found = refl

can_be_sent : CanBeSent (some (codes "corp")) (codes "alice") (codes "s:cret")
can_be_sent = record {
  realm = record {
    text = omega arith;
    colon = omega arith;
    slash = omega arith;
    short = omega arith;
  };
  name = record {
    text = omega arith;
    colon = omega arith;
    slash = omega arith;
    short = omega arith;
  };
  text = omega arith;
  octets = omega arith;
  all_octets = omega arith;
}

new_auth-HasBuffers : HasBuffers new_auth
unfolding new_auth
new_auth-HasBuffers = record {
  user = refl;
  domain = refl;
  passntlm2 = refl;
  passnt = refl;
  passlm = refl;
}

http_parse_basic-IsLogin_example :
    (a : Auth) × (http_parse_basic crypto headers (codes "Proxy-Authorization") new_auth
      ≡ some (given a))
    × IsLogin crypto new_auth (codes "alice") (codes "corp") (codes "s:cret") a
http_parse_basic-IsLogin_example =
    http_parse_basic-IsLogin (some (codes "corp")) (codes "alice") (codes "s:cret") can_be_sent
      crypto headers (codes "Proxy-Authorization") new_auth 100 header_found new_auth-HasBuffers
      (omega arith) (omega arith)
