-- ===== src/Direct/Web.antt =====
-- What a success of `www_authenticate` says.
use bev_search.Common.{
  ℕ, true, false, not, ◌&&◌, Option, none, some, ltb, ◌==◌, ==_iff, length, ◌≡◌, ◌≢◌, refl, sym,
  arith, true_ne, and_both, test_ne, Option-cases, Bool-cases, inl, inr,
}
use bev_search.CString.{Bytes, codes}
use bev_search.Hlist
use bev_search.RrData.{RrData, reset_rr_data, copy_rr_data}
use bev_search.Auth.{Auth}
use bev_search.Http.Header
use bev_search.Http.Header.{headers_send}
use bev_search.Http.Receive.{Result, headers_recv}
use bev_search.Forward.{Exchange, first_header, drop_body}
use bev_search.Forward.Relay.Holds.{
  Holds, missing, present, Holds-if, Holds-bind, Holds-cases, Holds-at,
}
use bev_search.Direct.Probing.{IsWebProbe, web_probe-IsWebProbe}
use bev_search.Direct.{
  web_probe, WebAuth, final_read, web_final, web_header, web_answer, web_challenge, web_required,
  web_received, web_sent, www_authenticate,
}

-- A message was sent.
abbrev pub WasSent : Exchange → RrData → Type 0
WasSent x message =
    (s : Header.Sent) × (headers_send x.shut x.write message ≡ some s) × (Header.Sent.rc s ≢ 0)

-- The request was sent, and the server has answered it: its answer is the caller's response.
pub record IsFinal (y : Exchange) (response auth : RrData) (w : WebAuth) : Type 0 where
  pub sent : WasSent y w.request
  pub last : Result
  pub answers : headers_recv y.lines (reset_rr_data auth) ≡ some last
  pub good : last.rc ≢ 0
  pub passes : w.response ≡ copy_rr_data response last.message

module _ (ntlm_response : Bytes → Auth → Option Bytes) where
  -- The request has the final header for the challenge of an answer 401, and has been answered.
  pub record IsAnswer (y : Exchange) (creds : Auth) (data0 response auth : RrData) (w : WebAuth)
      : Type 0 where
    pub required : auth.code ≡ 401
    pub challenge : Bytes
    pub challenged : Hlist.get auth.headers (codes "WWW-Authenticate") ≡ some challenge
    pub buf : Bytes
    pub composed : web_header ntlm_response creds challenge ≡ some buf
    pub request :
        w.request
        ≡ record data0 { headers = Hlist.modify data0.headers (codes "Authorization") buf true }
    pub final : IsFinal y response auth w

  mapped :
      {P Q : WebAuth → Type 0} (m : Option WebAuth)
      → Holds (λ w. w.rc ≡ true → P w) m
      → ((w : WebAuth) → w.rc ≡ true → P w → Q w)
      → Holds (λ w. w.rc ≡ true → Q w) m
  mapped none h f = missing
  mapped (some w) (present h) f = present (λ good. f w good (h good))

  refused : {P : Type 0} → false ≡ true → P
  refused h = absurd (true_ne (sym h))

  final_read-IsFinal :
      (y : Exchange) (data0 response auth : RrData) (got : Result)
      → WasSent y data0
      → headers_recv y.lines (reset_rr_data auth) ≡ some got
      → (final_read data0 response got).rc ≡ true
      → ((final_read data0 response got).request ≡ data0)
        × IsFinal y response auth (final_read data0 response got)
  unfolding final_read
  final_read-IsFinal y data0 response auth got sent received = elim (Bool-cases (got.rc == 0)) [
    | inl bad ↦ rw bad refused
    | inr good ↦ rw good (λ _. (
      refl,
      record {
        sent = sent;
        last = got;
        answers = received;
        good = test_ne got.rc 0 good;
        passes = refl;
      },
    ))
  ]

  web_final-IsFinal :
      (y : Exchange) (data0 response auth : RrData)
      → Holds
          (λ w. w.rc ≡ true → (w.request ≡ data0) × IsFinal y response auth w)
          (web_final y data0 response auth)
  unfolding web_final
  web_final-IsFinal y data0 response auth = Holds-bind (headers_send y.shut y.write data0) _ (λ s e.
      Holds-cases (Header.Sent.rc s == 0) (λ _. present refused)
        (λ taken. Holds-bind (headers_recv y.lines (reset_rr_data auth)) _ (λ got received.
          present (
            final_read-IsFinal y data0 response auth got (s, e, test_ne (Header.Sent.rc s) 0 taken)
              received))))

  web_challenge-IsAnswer :
      (y : Exchange) (creds : Auth) (data0 response auth : RrData)
      → auth.code ≡ 401
      → Holds
          (λ w. w.rc ≡ true → IsAnswer y creds data0 response auth w)
          (web_challenge ntlm_response y creds data0 response auth
            (Hlist.get auth.headers (codes "WWW-Authenticate")))
  unfolding web_challenge web_answer
  web_challenge-IsAnswer y creds data0 response auth code =
      elim (Option-cases (Hlist.get auth.headers (codes "WWW-Authenticate"))) [
        | inl nothing ↦ rw nothing (present refused)
        | inr (tmp, there) ↦ rw there (
            Holds-if (ltb 14 (length tmp))
              (elim (Option-cases (web_header ntlm_response creds tmp)) [
                | inl bad ↦ rw bad (present refused)
                | inr (buf, composed) ↦
                    (let changed : RrData = record data0 {
                      headers = Hlist.modify data0.headers (codes "Authorization") buf true;
                    } in
                      rw composed (
                        mapped (web_final y changed response auth)
                          (web_final-IsFinal y changed response auth)
                          (λ w good fin. record {
                            required = code;
                            challenge = tmp;
                            challenged = there;
                            buf = buf;
                            composed = composed;
                            request = fin.0;
                            final = fin.1;
                          })))
              ])
              (present refused))
      ]

  -- A success, from the first message on.
  pub record IsWebAuth (x y : Exchange) (creds : Auth) (data0 response : RrData) (w : WebAuth)
      : Type 0 where
    pub header : Bytes
    pub first : first_header creds ≡ some header
    pub probed : IsWebProbe header data0 (web_probe header data0)
    pub sent : WasSent x (web_probe header data0)
    pub got : Result
    pub received : headers_recv x.lines (reset_rr_data (web_probe header data0)) ≡ some got
    pub complete : got.rc ≢ 0
    pub answer : IsAnswer y creds data0 response got.message w

  not_zero : (n : ℕ) → not (n == 0) ≡ true → n ≢ 0
  not_zero n h e = ground (arith, h, e)

  web_received-IsAnswer :
      (x y : Exchange) (creds : Auth) (data0 response : RrData) (got : Result)
      → Holds
          (λ w. w.rc ≡ true → (got.rc ≢ 0) × IsAnswer y creds data0 response got.message w)
          (web_received ntlm_response x y creds data0 response got)
  unfolding web_received web_required
  web_received-IsAnswer x y creds data0 response got =
      Holds-cases (not (got.rc == 0) && got.message.code == 401)
        (λ test.
          let (read, code) = and_both (not (got.rc == 0)) (got.message.code == 401) test in
          Holds-bind (drop_body x got.message) _ (λ dropped e.
            Holds-if dropped
              (mapped
                (web_challenge ntlm_response y creds data0 response got.message
                  (Hlist.get got.message.headers (codes "WWW-Authenticate")))
                (web_challenge-IsAnswer y creds data0 response got.message
                  ((==_iff got.message.code 401).0 code))
                (λ w good answer. (not_zero got.rc read, answer)))
              (present refused)))
        (λ _. present refused)

  web_sent-IsWebAuth :
      (x y : Exchange) (creds : Auth) (data0 response : RrData) (header : Bytes) (s : Header.Sent)
      → first_header creds ≡ some header
      → headers_send x.shut x.write (web_probe header data0) ≡ some s
      → Holds
          (λ w. w.rc ≡ true → IsWebAuth x y creds data0 response w)
          (web_sent ntlm_response x y creds data0 response (web_probe header data0) s)
  unfolding web_sent
  web_sent-IsWebAuth x y creds data0 response header s first sends =
      Holds-cases (Header.Sent.rc s == 0) (λ _. present refused)
        (λ taken.
          Holds-bind (headers_recv x.lines (reset_rr_data (web_probe header data0))) _
            (λ got received.
              mapped (web_received ntlm_response x y creds data0 response got)
                (web_received-IsAnswer x y creds data0 response got)
                (λ w good answer. record {
                  header = header;
                  first = first;
                  probed = web_probe-IsWebProbe header data0;
                  sent = (s, sends, test_ne (Header.Sent.rc s) 0 taken);
                  got = got;
                  received = received;
                  complete = answer.0;
                  answer = answer.1;
                })))

  -- `www_authenticate` reports success only when it has sent the first message, which is the request
  -- with the length 0 and the NTLM request for a challenge, on a connection that is to be kept alive, and
  -- with all headers of other names but Transfer-Encoding; when the server has answered it with 401 and
  -- a challenge; and when the request, with the final message composed of that challenge as its only
  -- change, was sent, and answered with a message that could be read: this is the response that the
  -- caller gets.
  pub www_authenticate-IsWebAuth :
      (v x y : Exchange) (data0 response : RrData) (creds : Auth) (w : WebAuth)
      → www_authenticate ntlm_response v x y data0 response creds ≡ some w
      → w.rc ≡ true
      → IsWebAuth x y creds data0 response w
  unfolding www_authenticate
  www_authenticate-IsWebAuth v x y data0 response creds w e = Holds-at _ w e (
      Holds-bind (first_header creds) _ (λ header first.
        Holds-bind (drop_body v response) _ (λ dropped _.
          Holds-if dropped
            (Holds-bind (headers_send x.shut x.write (web_probe header data0)) _
              (λ s sends. web_sent-IsWebAuth x y creds data0 response header s first sends))
            (present refused))))
