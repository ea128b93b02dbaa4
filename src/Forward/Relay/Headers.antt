-- ===== src/Forward/Relay/Headers.antt =====
-- What is done to the headers of requests and answers.
use bev_search.Common.{ℕ, zero, suc, Bool, true, false, [], ◌∷◌, ◌==◌, if◌then◌else◌}
use bev_search.CString.{Bytes, codes, is_some}
use bev_search.Hlist
use bev_search.Hlist.{Hlist}
use bev_search.RrData.{RrData}

-- `while (hlist_get(…)) … = hlist_del(…)`, with a bound on its rounds.
unfoldable pub del_while : ℕ → Hlist → Bytes → Hlist
del_while zero headers k = headers
del_while (suc fuel) headers k =
    let rest = del_while fuel (Hlist.del headers k) k in
    if is_some (Hlist.get headers k) then rest else headers

-- A list has as many headers of one name as it has headers at most.
unfoldable pub strip : Hlist → Bytes → Hlist
strip headers k = del_while (Hlist.count headers) headers k

-- Each header of the configuration replaces the value of the one of its name, if there is one.
unfoldable pub override : Hlist → Hlist → Hlist
override headers [] = headers
override headers (t ∷ tl) = override (Hlist.modify headers t.key t.value false) tl

-- The request as it is to be sent, before the handshake adds its header.
unfoldable pub client_headers : Hlist → Hlist → Hlist
client_headers header_list headers =
    strip
      (Hlist.modify (override headers header_list) (codes "Proxy-Connection") (codes "keep-alive")
        true)
      (codes "Proxy-Authorization")

abbrev pub own_realm : Bytes
own_realm = codes "Basic realm=\"Cntlm for parent\""

unfoldable pub keeps_alive : RrData → Bool
keeps_alive message = Hlist.subcmp message.headers (codes "Connection") (codes "keep-alive")

-- The answer as it is sent to the client.
unfoldable pub client_answer : RrData → RrData
client_answer message =
    let marked =
      if keeps_alive message
      then message.headers
      else Hlist.modify message.headers (codes "Connection") (codes "close") true in
    let plain = strip marked (codes "Proxy-Authenticate") in
    record message {
      headers =
          if message.code == 407
          then Hlist.modify plain (codes "Proxy-Authenticate") own_realm true
          else plain;
    }
