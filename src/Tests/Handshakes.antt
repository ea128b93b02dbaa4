-- ===== src/Tests/Handshakes.antt =====
-- A handshake at a concrete input: cntlm-0.92.3/forward.c.
use bev_search.Common.{
  ℕ, true, false, Option, none, some, [], ◌∷◌, ◌++◌, ◌≡◌, refl, arith, length, replicate,
}
use bev_search.CString.{Bytes, codes, same_nocase, begins_nocase, strcspn, strchr, is_space}
use bev_search.CString.Number.{ℤ, pos, negsuc, atoi, int_of_long, strtol10}
use bev_search.Socket.{ready, so_closed}
use bev_search.Hlist
use bev_search.Hlist.{Hlist, node}
use bev_search.RrData.{RrData, new_rr_data, dup_rr_data, reset_rr_data}
use bev_search.Base64.{base64, to_base64}
use bev_search.Auth.{Auth, new_auth}
use bev_search.Ntlm.Buffer.{put, put_all}
use bev_search.Strings.{c_str, trimr, substr, strlcpy, copy}
use bev_search.Ntlm.Request.{ntlm_request, request_flags}
use bev_search.Parents.{live}
use bev_search.Http.Header
use bev_search.Http.Header.{headers_send, crlf}
use bev_search.Http.Receive
use bev_search.Http.Receive.{
  head_line, strtok, receive_rest, response_line, response_code, read_headers, Received, Result,
  headers_recv,
}
use bev_search.Http.Body.{
  is_head, is_get, http_has_body, is_zero, no_stream, body_length, request_nobody, response_nobody,
  forwarding, http_body_drop,
}
use bev_search.Http.Chunked.{forward_body}
use bev_search.Forward.{
  Exchange, Pool, Handshake, bits, ntlm_header, first_header, probe, pretends, drop_body,
  proxy_authenticate,
}
use bev_search.Forward.Probing.{IsProbe, probe-IsProbe}
use bev_search.Forward.Authenticate.{received_into}
use bev_search.Forward.Challenge.{
  Requires, challenge_header, answered_request, proxy_authenticate-challenge,
}

abbrev asked : RrData
asked = record new_rr_data {
  req = true;
  method = some (codes "GET");
  url = some (codes "http://a/");
  http = some (codes "HTTP/1.1");
  headers = node (codes "Host") (codes "a") ∷ [];
}

abbrev pub challenge : Bytes
challenge = replicate 25 65

abbrev challenge_line : Bytes
challenge_line = codes "Proxy-Authenticate: " ++ challenge_header challenge

abbrev pub exchange : Exchange
exchange = record {
  shut = false;
  write = λ text. pos (length text);
  lines =
      (record { text = codes "HTTP/1.1 407 No" ++ crlf; good = true })
      ∷ (record { text = challenge_line ++ crlf; good = true })
      ∷ (record { text = crlf; good = true })
      ∷ [];
  body = [];
  available = λ _. 0;
  recvtest = λ _. ready;
}

abbrev pub pool : Pool
pool = record {
  parents = record { list = []; count = 0; curr = 0 };
  cache = live [];
  g_creds = new_auth;
  ntlmbasic = false;
}

abbrev pub first_message : Bytes
first_message = codes "NTLM TlRMTVNTUAABAAAABbIIogAAAAAgAAAAAAAAACAAAAA="

pub message_run : first_header new_auth ≡ some first_message
unfolding first_header ntlm_request request_flags new_auth put_all c_str ntlm_header to_base64
    base64
message_run = refl

plain_request : pretends asked (some new_rr_data) ≡ some false
unfolding pretends is_head http_has_body new_rr_data same_nocase is_zero no_stream body_length
    request_nobody is_get Hlist.get
plain_request = refl

abbrev pub refusal : RrData
refusal = record new_rr_data {
  headers = node (codes "Proxy-Authenticate") (challenge_header challenge) ∷ [];
  code = 407;
  empty = false;
  http = some (codes "HTTP/1.1");
  msg = some (codes "No");
}

pub received :
    headers_recv exchange.lines (received_into (probe first_message asked) (some new_rr_data))
    ≡ some (record { message = refusal; rc = 1 })
unfolding headers_recv new_rr_data reset_rr_data to_base64 base64 head_line strtok
    Header.skip_spaces trimr begins_nocase receive_rest response_line response_code atoi int_of_long
    strtol10 read_headers Header.is_http_header strcspn Header.get_http_header_name
    Header.get_http_header_value substr Receive.finish Hlist.add c_str strlcpy copy is_space
    same_nocase strchr
received = refl

-- The probe: the length of the request and the message are added.
probe_sent :
    headers_send false exchange.write (probe first_message asked)
    ≡ some (record {
      bytes = some (
          codes "GET http://a/ HTTP/1.1"
          ++ crlf
          ++ (codes "Host: a"
              ++ crlf
              ++ (codes "Proxy-Authorization: "
                  ++ first_message
                  ++ crlf
                  ++ (codes "Content-Length: 0" ++ crlf ++ crlf))));
      rc = 1;
    })
unfolding headers_send probe new_rr_data Header.message_room dup_rr_data is_head same_nocase
    Header.print_first put Hlist.del Hlist.modify Hlist.has Hlist.dup Hlist.add Header.print_headers
    Header.print_end c_str Header.send_buffer Header.wrote_all
probe_sent = refl

pub nothing_dropped : drop_body exchange refusal ≡ some true
unfolding drop_body new_rr_data http_body_drop http_has_body forward_body forwarding body_length
    response_nobody is_head Hlist.get same_nocase Hlist.has Hlist.subcmp
nothing_dropped = refl

pub stays_open : so_closed exchange.recvtest 5 ≡ false
unfolding so_closed
stays_open = refl

refused : Requires exchange (pos 5) (probe first_message asked) (some new_rr_data) refusal
unfolding new_rr_data bits
refused = record {
  delivery = _;
  sends = probe_sent;
  takes = refl;
  rc = 1;
  answers = received;
  good = refl;
  code = refl;
  drops = nothing_dropped;
  stays = stays_open;
}

pub challenge_found :
    Hlist.get refusal.headers (codes "Proxy-Authenticate") ≡ some (challenge_header challenge)
unfolding Hlist.get same_nocase new_rr_data
challenge_found = refl

-- A final message that repeats the challenge.
abbrev pub repeating : Bytes → Auth → Option Bytes
repeating text credentials = some text

abbrev pub no_names : ℕ → Bytes → Option ℕ
no_names time name = none

abbrev pub refusing : ℕ → ℕ → ℕ → ℤ
refusing time host port = negsuc 0

abbrev authenticated : Handshake
authenticated = record {
  probe = probe first_message asked;
  sd = pos 5;
  request = answered_request asked (some challenge);
  response = some refusal;
  credentials = new_auth;
  pool = pool;
  rc = true;
}

proxy_authenticate-challenge_example :
    proxy_authenticate repeating no_names refusing exchange pool
      (pos 5)
      asked
      (some new_rr_data)
      new_auth
    ≡ some authenticated
proxy_authenticate-challenge_example =
    proxy_authenticate-challenge repeating no_names refusing exchange pool (pos 5) asked
      (some new_rr_data) new_auth first_message false refusal challenge message_run plain_request
      refused challenge_found (omega arith) (omega arith)

probe-IsProbe_example : IsProbe first_message asked (probe first_message asked)
probe-IsProbe_example = probe-IsProbe first_message asked
