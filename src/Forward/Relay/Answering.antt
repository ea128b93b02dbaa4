-- ===== src/Forward/Relay/Answering.antt =====
-- One pass of the loop of `forward_request`: a request of the client and the answer of the proxy.
use bev_search.Common.{
  ℕ, Bool, true, false, not, ◌&&◌, ◌||◌, Option, some, List, [], ◌∷◌, ◌++◌, ◌==◌, if◌then◌else◌,
}
use bev_search.CString.{Bytes, codes}
use bev_search.CString.Number.{ℤ}
use bev_search.Socket
use bev_search.Socket.{Read}
use bev_search.Hlist
use bev_search.Hlist.{Hlist}
use bev_search.RrData.{RrData}
use bev_search.Auth.{Auth, ◌>>=◌}
use bev_search.Http.Header
use bev_search.Http.Header.{headers_send}
use bev_search.Http.Body.{has_method, http_body_send}
use bev_search.Http.Receive.{Received}
use bev_search.Http.Transfer
use bev_search.Http.Transfer.{Channel}
use bev_search.Http.Chunked.{forward_body}
use bev_search.Forward.{Exchange, Pool}
use bev_search.Forward.Relay.Headers.{keeps_alive, client_answer}

-- One way through the program: whether the destination is closed and what it takes, and the body
-- that the source has.
pub record Direction : Type 0 where
  pub shut : Bool
  pub write : Bytes → ℤ
  pub body : List Read
  pub channel : Channel

-- What happens in a turn: the lines of the client, which are read unless a request is there, the
-- exchange of a handshake, the lines of the proxy, and what is found closed behind them.
pub record Turn : Type 0 where
  pub pooled : ℕ → Socket.Probe
  pub client : List Received
  pub exchange : Exchange
  pub to_proxy : Direction
  pub answer : List Received
  pub to_client : Direction
  pub proxy_closed : Bool
  pub client_closed : Bool

-- The variables of a thread.
pub record State : Type 0 where
  pub pool : Pool
  pub tcreds : Auth
  pub sd : ℤ
  pub authok : Bool
  pub noauth : Bool
  pub was_cached : Bool
  pub hostname : Option Bytes

-- What is sent, or tried, in its order: the first message of a handshake, with the credentials of the
-- thread and the answer that the handshake left; messages, the pages 407 and 502, and a tunnel; and
-- what becomes of a connection.
pub data Event : Type 0 where
  probed : Auth → RrData → Option RrData → Event
  request answer : RrData → Event
  login_page error_page : Event
  tunnelled : ℤ → Event
  stored : ℤ → Auth → Event
  dropped : ℤ → Event

-- The result: NULL, -1, or a request for the caller.
pub data Rc : Type 0 where
  done minus_one : Rc
  returned : RrData → Rc

-- How a pass ends: `goto bailout` with `proxy_alive`, `goto beginning` with the request, or at the
-- condition of the loop with `conn_alive` and `proxy_alive`.
pub data End : Type 0 where
  bails : Rc → Bool → End
  retries : RrData → End
  loops : (conn_alive proxy_alive : Bool) → End

pub record Pass : Type 0 where
  pub state : State
  pub events : List Event
  pub end : End

abbrev pub bailed : State → List Event → Rc → Pass
bailed s events rc = record { state = s; events = events; end = bails rc false }

-- An event in front of those of the pass.
unfoldable pub preceded : Event → Pass → Pass
preceded e p = record p { events = e ∷ p.events }

-- Headers to a destination, and the body of the message; the flag is the success of both.
unfoldable pub send_body : Direction → RrData → RrData → Option Bool
send_body d data0 data1 = http_body_send data0 data1 >>= λ way.
    forward_body d.channel d.body way >>= λ sent. some (Transfer.Sent.rc sent)

unfoldable pub send_head : Direction → RrData → Option Bool
send_head d message =
    headers_send d.shut d.write message >>= λ s. some (not (Header.Sent.rc s == 0))

-- `CONNECT(data[0])`
unfoldable pub is_connect : RrData → Bool
is_connect data0 = data0.req && has_method (codes "CONNECT") data0.method

-- The end of the second half: `proxy_alive`.
unfoldable pub body_answered : State → List Event → RrData → Bool → Bool → Pass
body_answered s events data1 conn_alive true = record {
  state = s;
  events = events;
  end =
      loops conn_alive (Hlist.subcmp data1.headers (codes "Proxy-Connection") (codes "keep-alive"));
}
body_answered s events data1 conn_alive false = bailed s events minus_one

-- The headers of the answer have been sent, or not.
unfoldable pub head_answered :
    Turn → State → List Event → RrData → RrData → Bool → Bool → Option Pass
head_answered turn s events data0 data1 conn_alive false = some (bailed s events minus_one)
head_answered turn s events data0 data1 conn_alive true =
    let onward = send_body turn.to_client data0 data1 >>= λ sent.
    some (body_answered s events data1 conn_alive sent) in
    if is_connect data0 && data1.code == 200
    then some (bailed s (events ++ tunnelled s.sd ∷ []) minus_one)
    else onward

-- The second half, from the answer on.
unfoldable pub answer_half : Turn → State → List Event → RrData → RrData → Option Pass
answer_half turn s events data0 data1 =
    let known = record s { authok = s.authok || (not s.noauth && not (data1.code == 407)) } in
    let changed = client_answer data1 in
    let onward = send_head turn.to_client changed >>= λ good.
    head_answered turn known (events ++ answer changed ∷ []) data0 changed (keeps_alive data1)
      good in
    if data1.code == 407 && (s.was_cached || s.noauth)
    then some (record { state = s; events = events ++ dropped s.sd ∷ []; end = retries data0 })
    else onward
