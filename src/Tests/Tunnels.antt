-- ===== src/Tests/Tunnels.antt =====
-- A connection through the proxy at a concrete input: cntlm-0.92.3/forward.c.
use bev_search.Common.{true, false, some, [], ◌∷◌, ◌++◌, ◌≡◌, refl, arith}
use bev_search.CString.{Bytes, codes, same_nocase, begins_nocase, strcspn, is_space}
use bev_search.CString.Number.{pos, atoi, int_of_long, strtol10}
use bev_search.Hlist
use bev_search.Hlist.{Hlist, node}
use bev_search.RrData.{RrData, new_rr_data, dup_rr_data, reset_rr_data}
use bev_search.Base64.{base64, to_base64}
use bev_search.Auth.{new_auth}
use bev_search.Ntlm.Buffer.{put}
use bev_search.Strings.{c_str, trimr}
use bev_search.Http.Header
use bev_search.Http.Header.{headers_send, crlf}
use bev_search.Http.Receive
use bev_search.Http.Receive.{
  head_line, strtok, receive_rest, response_line, response_code, read_headers, headers_recv,
}
use bev_search.Http.Body.{
  is_head, is_get, http_has_body, is_zero, no_stream, body_length, request_nobody,
}
use bev_search.Forward.{Exchange, ntlm_header, probe, pretends, bits}
use bev_search.Forward.Challenge.{Requires, answered_request, proxy_authenticate-challenge}
use bev_search.Forward.Tunnel.{
  replace_headers, connect_request, final_answer, decide, is_granted, after_handshake,
  prepare_http_connect,
}
use bev_search.Forward.Tunnel.Grant.{IsPrepared, prepare_http_connect-IsPrepared}
use bev_search.Tests.Handshakes.{
  exchange, challenge, refusal, pool, first_message, message_run, received, nothing_dropped,
  stays_open, challenge_found, repeating, no_names, refusing,
}

abbrev target : Bytes
target = codes "b:443"

-- No header is configured, so that there is no body.
plain_connect : pretends (connect_request [] target) (some new_rr_data) ≡ some false
unfolding pretends connect_request replace_headers is_head http_has_body new_rr_data same_nocase
    is_zero no_stream body_length request_nobody is_get Hlist.get Hlist.has Hlist.subcmp
    Hlist.modify Hlist.add
plain_connect = refl

connect_sent :
    headers_send false exchange.write (probe first_message (connect_request [] target))
    ≡ some (record {
      bytes = some (
          codes "CONNECT b:443 HTTP/1.1"
          ++ crlf
          ++ (codes "Proxy-Connection: keep-alive"
              ++ crlf
              ++ (codes "Proxy-Authorization: "
                  ++ first_message
                  ++ crlf
                  ++ (codes "Content-Length: 0" ++ crlf ++ crlf))));
      rc = 1;
    })
unfolding connect_request replace_headers headers_send probe new_rr_data Header.message_room
    dup_rr_data is_head same_nocase Header.print_first put Hlist.del Hlist.modify Hlist.has
    Hlist.dup Hlist.add Header.print_headers Header.print_end c_str Header.send_buffer
    Header.wrote_all
connect_sent = refl

connect_refused :
    Requires exchange
      (pos 5)
      (probe first_message (connect_request [] target))
      (some new_rr_data)
      refusal
unfolding new_rr_data bits
connect_refused = record {
  delivery = _;
  sends = connect_sent;
  takes = refl;
  rc = 1;
  answers = received;
  good = refl;
  code = refl;
  drops = nothing_dropped;
  stays = stays_open;
}

-- The second exchange: the proxy grants the connection.
abbrev granting : Exchange
granting = record exchange {
  lines =
      (record { text = codes "HTTP/1.1 200 OK" ++ crlf; good = true })
      ∷ (record { text = crlf; good = true })
      ∷ [];
}

abbrev grant : RrData
grant = record new_rr_data {
  code = 200;
  empty = false;
  http = some (codes "HTTP/1.1");
  msg = some (codes "OK");
}

grant_run :
    final_answer granting (answered_request (connect_request [] target) (some challenge)) refusal
    ≡ some (some grant)
unfolding final_answer connect_request replace_headers headers_send new_rr_data Header.message_room
    same_nocase Header.print_first put Hlist.modify Hlist.has Hlist.add Header.print_headers
    Header.print_end c_str Header.send_buffer Header.wrote_all ntlm_header to_base64 base64
    headers_recv reset_rr_data head_line strtok Header.skip_spaces trimr begins_nocase receive_rest
    response_line response_code atoi int_of_long strtol10 read_headers Header.is_http_header strcspn
    Receive.finish is_space
grant_run = refl

prepared_run :
    prepare_http_connect repeating no_names refusing exchange granting pool []
      (pos 5)
      new_auth
      target
    ≡ some (record { rc = true; local_sd = pos 5; pool = pool })
unfolding prepare_http_connect after_handshake decide is_granted is_zero new_rr_data
prepared_run =
    let shake =
      proxy_authenticate-challenge repeating no_names refusing exchange pool (pos 5)
        (connect_request [] target) (some new_rr_data) new_auth first_message false refusal
        challenge message_run plain_connect connect_refused challenge_found (omega arith)
        (omega arith) in
    rw (shake, grant_run) refl

prepare_http_connect-IsPrepared_example :
    IsPrepared repeating no_names refusing exchange granting pool []
      (pos 5)
      new_auth
      target
      (record { rc = true; local_sd = pos 5; pool = pool })
prepare_http_connect-IsPrepared_example =
    prepare_http_connect-IsPrepared repeating no_names refusing exchange granting pool [] (pos 5)
      new_auth target (record { rc = true; local_sd = pos 5; pool = pool }) prepared_run refl
