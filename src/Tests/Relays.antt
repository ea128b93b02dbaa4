-- ===== src/Tests/Relays.antt =====
-- Requests through a cached connection, and through a new one: cntlm-0.92.3/forward.c.
use bev_search.Common.{
  ℕ, replicate, true, false, none, some, [], ◌∷◌, ◌++◌, ◌≡◌, refl, false, length,
}
use bev_search.CString.{
  Bytes, codes, same_nocase, begins_nocase, begins, strcspn, strchr, strstr, is_space, to_lower,
}
use bev_search.CString.Number.{ℤ, pos, is_pos, atoi, atoll, int_of_long, strtol10, signed}
use bev_search.Socket.{ready, so_closed}
use bev_search.Plist
use bev_search.Plist.{PNode, Popped, ulong_of}
use bev_search.Hlist
use bev_search.Hlist.{Hlist, node}
use bev_search.RrData.{RrData, new_rr_data, dup_rr_data, reset_rr_data}
use bev_search.Base64.{from_base64, to_base64, base64}
use bev_search.Auth.{new_auth, copy_auth}
use bev_search.Ntlm.Buffer.{put, put_all}
use bev_search.Ntlm.Request.{ntlm_request, request_flags}
use bev_search.Strings.{c_str, trimr, substr, strlcpy, copy}
use bev_search.Parents
use bev_search.Parents.{Proxy, live}
use bev_search.Http.Header
use bev_search.Http.Header.{headers_send, crlf}
use bev_search.Http.Receive
use bev_search.Http.Receive.{
  head_line, strtok, receive_rest, response_line, response_code, read_headers, headers_recv,
}
use bev_search.Http.Body.{
  is_head, is_get, has_method, http_has_body, http_body_send, http_body_drop, is_zero, no_stream,
  body_length, request_nobody, response_nobody, forwarding,
}
use bev_search.Http.Basic.{payload, store_login, http_parse_basic}
use bev_search.Http.Chunked.{forward_body}
use bev_search.Http.Transfer.{Channel}
use bev_search.Forward
use bev_search.Forward.{Pool, bits}
use bev_search.Forward.Relay
use bev_search.Forward.Relay.{
  Direction, Turn, State, Event, probed, request, answer, dropped, minus_one, Run, forward_request,
  own_realm, strip, client_headers, client_answer, override, del_while, keeps_alive,
}
use bev_search.Forward.Challenge.{challenge_header}
use bev_search.Forward.Relay.Stripped.{get-strip-all}
use bev_search.Forward.Relay.Reports.{AllClean}
use bev_search.Forward.Relay.Clean.{forward_request-IsClean}
use bev_search.Tests.Handshakes.{
  challenge, first_message, refusal, exchange, pool, no_names, refusing, repeating,
}
use bev_search.Tests.Responses.{crypto}

abbrev one_cached : Pool
one_cached = record pool { cache = live ((record { key = 5; aux = some new_auth }) ∷ []) }

abbrev asked : RrData
asked = record new_rr_data {
  req = true;
  empty = false;
  method = some (codes "GET");
  url = some (codes "http://a/");
  http = some (codes "HTTP/1.1");
  headers =
      node (codes "Host") (codes "a") ∷ node (codes "Proxy-Authorization") (codes "Basic x") ∷ [];
}

abbrev open_channel : Channel
open_channel = record {
  has_dst = true;
  available = λ _. 0;
  closed = λ _. false;
  wrote = λ _ text. pos (length text);
}

abbrev open_way : Direction
open_way = record {
  shut = false;
  write = λ text. pos (length text);
  body = [];
  channel = open_channel;
}

abbrev turn : Turn
turn = record {
  pooled = λ _. ready;
  client = [];
  exchange = exchange;
  to_proxy = open_way;
  answer =
      (record { text = codes "HTTP/1.1 200 OK" ++ crlf; good = true })
      ∷ (record { text = codes "Proxy-Authenticate: NTLM" ++ crlf; good = true })
      ∷ (record { text = codes "Content-Length: 0" ++ crlf; good = true })
      ∷ (record { text = crlf; good = true })
      ∷ [];
  to_client = open_way;
  proxy_closed = false;
  client_closed = false;
}

abbrev sent_request : RrData
sent_request = record asked {
  headers =
      node (codes "Host") (codes "a") ∷ node (codes "Proxy-Connection") (codes "keep-alive") ∷ [];
}

abbrev sent_answer : RrData
sent_answer = record new_rr_data {
  code = 200;
  empty = false;
  http = some (codes "HTTP/1.1");
  msg = some (codes "OK");
  headers =
      node (codes "Content-Length") (codes "0") ∷ node (codes "Connection") (codes "close") ∷ [];
}

abbrev whole : Run
whole = record {
  events = request sent_request ∷ answer sent_answer ∷ dropped (pos 5) ∷ [];
  rc = some minus_one;
  pool = pool;
}

forward_request_run :
    forward_request crypto repeating no_names refusing [] false (turn ∷ []) one_cached asked
    ≡ some whole
unfolding forward_request Relay.relay Relay.turned Relay.obtain Relay.started Relay.one_pass
    Relay.after_pass Relay.ended_at Relay.cached Relay.known_host Relay.bailout Relay.pass
    Relay.request_read Relay.request_half Relay.prepared Relay.authenticate_first
    Relay.credentials_for Relay.differs Relay.read_empty Relay.send_request Relay.send_head
    Relay.send_body Relay.request_sent Relay.answer_read Relay.answer_half Relay.head_answered
    Relay.body_answered Relay.is_connect strip client_headers client_answer override del_while
    keeps_alive Plist.pop so_closed bits signed dup_rr_data new_rr_data reset_rr_data
    http_parse_basic payload store_login from_base64 c_str strchr strstr begins to_lower
    Header.skip_spaces headers_send Header.message_room is_head is_get has_method same_nocase
    Header.print_first put Hlist.del Hlist.modify Hlist.has Hlist.dup Hlist.add Hlist.get
    Hlist.count Hlist.subcmp Header.print_headers Header.print_end Header.send_buffer
    Header.wrote_all http_body_send http_has_body is_zero no_stream body_length request_nobody
    response_nobody forwarding forward_body atoll headers_recv head_line strtok trimr begins_nocase
    receive_rest response_line response_code atoi int_of_long strtol10 read_headers
    Header.is_http_header strcspn Header.get_http_header_name Header.get_http_header_value substr
    strlcpy copy Receive.finish is_space Header.print_code Header.digits
forward_request_run = refl

-- One parent, and a connection that has to be authenticated first.
abbrev one_parent : Proxy
one_parent = record { hostname = codes "p" ++ replicate 63 0; host = 9; port = 80; resolved = true }

abbrev parents_at : ℕ → Pool
parents_at curr = record pool {
  parents = record {
    list = (record { key = 1; aux = some one_parent }) ∷ [];
    count = 1;
    curr = curr;
  };
}

abbrev answering : ℕ → ℕ → ℕ → ℤ
answering time host port = pos 5

abbrev shaken_request : RrData
shaken_request = record sent_request {
  headers =
      node (codes "Host") (codes "a")
      ∷ node (codes "Proxy-Connection") (codes "keep-alive")
      ∷ node (codes "Proxy-Authorization") (challenge_header challenge)
      ∷ [];
}

abbrev shaken_probe : RrData
shaken_probe = record sent_request {
  headers =
      node (codes "Host") (codes "a")
      ∷ node (codes "Proxy-Connection") (codes "keep-alive")
      ∷ node (codes "Proxy-Authorization") first_message
      ∷ node (codes "Content-Length") (codes "0")
      ∷ [];
}

abbrev shaken : Run
shaken = record {
  events =
      probed new_auth shaken_probe (some refusal)
      ∷ request shaken_request
      ∷ answer sent_answer
      ∷ dropped (pos 5)
      ∷ [];
  rc = some minus_one;
  pool = parents_at 1;
}

shaken_run :
    forward_request crypto repeating no_names answering [] false (turn ∷ []) (parents_at 0) asked
    ≡ some shaken
unfolding forward_request Relay.relay Relay.turned Relay.obtain Relay.started Relay.one_pass
    Relay.after_pass Relay.ended_at Relay.cached Relay.known_host Relay.bailout Relay.pass
    Relay.request_read Relay.request_half Relay.prepared Relay.authenticate_first
    Relay.credentials_for Relay.differs Relay.read_empty Relay.send_request Relay.send_head
    Relay.send_body Relay.request_sent Relay.answer_read Relay.answer_half Relay.head_answered
    Relay.body_answered Relay.is_connect strip client_headers client_answer override del_while
    keeps_alive Plist.pop so_closed bits signed dup_rr_data new_rr_data reset_rr_data
    http_parse_basic payload store_login from_base64 c_str strchr strstr begins to_lower
    Header.skip_spaces headers_send Header.message_room is_head is_get has_method same_nocase
    Header.print_first put Hlist.del Hlist.modify Hlist.has Hlist.dup Hlist.add Hlist.get
    Hlist.count Hlist.subcmp Header.print_headers Header.print_end Header.send_buffer
    Header.wrote_all http_body_send http_has_body is_zero no_stream body_length request_nobody
    response_nobody forwarding forward_body atoll headers_recv head_line strtok trimr begins_nocase
    receive_rest response_line response_code atoi int_of_long strtol10 read_headers
    Header.is_http_header strcspn Header.get_http_header_name Header.get_http_header_value substr
    strlcpy copy Receive.finish is_space Header.print_code Header.digits Relay.dialled
    Relay.authenticated Relay.handed_over Relay.handshake_answer Relay.preceded
    Forward.proxy_authenticate Forward.after_request Forward.after_send Forward.exchanged
    Forward.after_recv Forward.after_answer Forward.after_407 Forward.authorise Forward.final_header
    Forward.settle Forward.reconnect Forward.ended Forward.moved Forward.first_header Forward.probe
    Forward.pretends Forward.drop_body Forward.ntlm_header ntlm_request request_flags new_auth
    put_all to_base64 base64 http_body_drop Parents.proxy_connect Parents.first_parent
    Parents.connect_loop Parents.round Parents.attempt Parents.resolved_proxy Parents.set_aux
    Parents.after_loop Parents.invalidate Parents.fill_credentials is_pos copy_auth Plist.get
    ulong_of
shaken_run = refl

forward_request-IsClean_example : AllClean repeating no_names answering none shaken.events
forward_request-IsClean_example =
    forward_request-IsClean repeating no_names answering crypto [] false (turn ∷ []) (parents_at 0)
      asked shaken shaken_run

get-strip-all_example :
    (Hlist.get (strip asked.headers (codes "proxy-authorization")) (codes "proxy-authorization")
      ≡ none)
    × ((j : Bytes)
        → same_nocase (codes "proxy-authorization") j ≡ false
        → Hlist.get (strip asked.headers (codes "proxy-authorization")) j
          ≡ Hlist.get asked.headers j)
get-strip-all_example = get-strip-all asked.headers (codes "proxy-authorization")
