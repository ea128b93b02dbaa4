-- ===== src/Tests/Webs.antt =====
-- A handshake with a server at a concrete input: cntlm-0.92.3/direct.c.
use bev_search.Common.{true, false, some, [], ◌∷◌, ◌++◌, ◌≡◌, refl}
use bev_search.CString.{codes, same_nocase, begins_nocase, strcspn, strchr, is_space}
use bev_search.CString.Number.{atoi, atoll, int_of_long, strtol10}
use bev_search.Hlist
use bev_search.Hlist.{node}
use bev_search.RrData.{RrData, new_rr_data, dup_rr_data, reset_rr_data, copy_rr_data}
use bev_search.Base64.{base64, to_base64, from_base64}
use bev_search.Auth.{new_auth}
use bev_search.Ntlm.Buffer.{put, put_all}
use bev_search.Ntlm.Request.{ntlm_request, request_flags}
use bev_search.Strings.{c_str, trimr, substr, strlcpy, copy}
use bev_search.Http.Header
use bev_search.Http.Header.{headers_send, crlf}
use bev_search.Http.Receive
use bev_search.Http.Receive.{
  head_line, strtok, receive_rest, response_line, response_code, read_headers, headers_recv,
}
use bev_search.Http.Body.{
  is_head, http_has_body, is_zero, body_length, response_nobody, forwarding, http_body_drop,
}
use bev_search.Http.Chunked.{forward_body}
use bev_search.Forward.{Exchange, ntlm_header, first_header, drop_body}
use bev_search.Forward.Challenge.{challenge_header}
use bev_search.Direct.{
  web_probe, WebAuth, final_read, web_final, web_header, web_answer, web_challenge, web_required,
  web_received, web_sent, www_authenticate,
}
use bev_search.Direct.Web.{IsWebAuth, www_authenticate-IsWebAuth}
use bev_search.Tests.Handshakes.{exchange, challenge, repeating}

abbrev asked : RrData
asked = record new_rr_data {
  req = true;
  empty = false;
  method = some (codes "GET");
  url = some (codes "/");
  http = some (codes "HTTP/1.1");
  headers = node (codes "Host") (codes "a") ∷ [];
}

abbrev refused : RrData
refused = record new_rr_data { code = 401; empty = false; http = some (codes "HTTP/1.1") }

abbrev challenging : Exchange
challenging = record exchange {
  lines =
      (record { text = codes "HTTP/1.1 401 No" ++ crlf; good = true })
      ∷ (record {
        text = codes "WWW-Authenticate: " ++ (challenge_header challenge ++ crlf);
        good = true;
      })
      ∷ (record { text = crlf; good = true })
      ∷ [];
}

abbrev granting : Exchange
granting = record exchange {
  lines =
      (record { text = codes "HTTP/1.1 200 OK" ++ crlf; good = true })
      ∷ (record { text = crlf; good = true })
      ∷ [];
}

abbrev granted : WebAuth
granted = record {
  request = record asked {
    headers =
        node (codes "Host") (codes "a")
        ∷ node (codes "Authorization") (challenge_header challenge)
        ∷ [];
  };
  response = record new_rr_data {
    code = 200;
    empty = false;
    http = some (codes "HTTP/1.1");
    msg = some (codes "OK");
  };
  rc = true;
}

www_authenticate_run :
    www_authenticate repeating exchange challenging granting asked refused new_auth ≡ some granted
unfolding www_authenticate web_probe final_read web_final web_header web_answer web_challenge
    web_required web_received web_sent first_header ntlm_request request_flags new_auth put_all
    c_str ntlm_header to_base64 base64 from_base64 drop_body new_rr_data http_body_drop
    http_has_body forward_body forwarding body_length is_zero response_nobody is_head Hlist.get
    same_nocase Hlist.has Hlist.subcmp headers_send Header.message_room dup_rr_data copy_rr_data
    reset_rr_data Header.print_first put Hlist.del Hlist.modify Hlist.dup Hlist.add
    Header.print_headers Header.print_end Header.send_buffer Header.wrote_all Header.print_code
    Header.digits headers_recv head_line strtok Header.skip_spaces trimr begins_nocase receive_rest
    response_line response_code atoi int_of_long strtol10 read_headers Header.is_http_header strcspn
    Header.get_http_header_name Header.get_http_header_value substr Receive.finish strlcpy copy
    is_space strchr atoll
www_authenticate_run = refl

www_authenticate-IsWebAuth_example :
    IsWebAuth repeating challenging granting new_auth asked refused granted
www_authenticate-IsWebAuth_example =
    www_authenticate-IsWebAuth repeating exchange challenging granting asked refused new_auth
      granted www_authenticate_run refl
