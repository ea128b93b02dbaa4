-- ===== src/Forward/Authenticate.antt =====
-- What a handshake leaves.
use bev_search.Common.{
  true_ne, and_both, ℕ, Bool, true, false, Option, none, some, ◌==◌, ◌≡◌, ◌≢◌, test_ne, sym, ap,
  subst, ◌∙◌, inl, inr,
}
use mathlib.Core.Option
use mathlib.Core.Option.{some-injective, none-ne-some}
use bev_search.CString.{Bytes}
use bev_search.CString.Number.{ℤ}
use bev_search.RrData.{RrData, reset_rr_data}
use bev_search.Auth.{Auth, ◌>>=◌}
use bev_search.Http.Header
use bev_search.Http.Header.{headers_send}
use bev_search.Http.Receive.{Result, headers_recv}
use bev_search.Forward.{
  Exchange, Pool, Handshake, Answered, first_header, probe, pretends, after_answer, reconnect,
  ended, moved, settle, after_recv, after_send, after_request, exchanged, proxy_authenticate,
}
use bev_search.Forward.Answers.{
  bind-some, chosen, IsAuthorised, IsAnswered, after_answer-IsAnswered, IsKept, reconnect-IsKept,
}
use bev_search.Forward.Probing.{IsProbe, probe-IsProbe}

-- Where an answer is received: into the caller's structure, or into that of the probe.
abbrev pub received_into : RrData → Option RrData → RrData
received_into sent response = reset_rr_data (elim response [ none ↦ sent | some d ↦ d ])

module _ (ntlm_response : Bytes → Auth → Option Bytes) (resolve : ℕ → Bytes → Option ℕ)
    (connect : ℕ → ℕ → ℕ → ℤ) where
  -- A handshake that succeeds.
  pub record IsFinished (x : Exchange) (credentials : Auth) (sd : ℤ) (request : RrData)
      (response : Option RrData) (pretend407 : Bool) (got : Result) (r : Handshake) : Type 0 where
    pub complete : got.rc ≢ 0
    pub authorised :
        IsAuthorised ntlm_response resolve connect credentials got.message request r.request
    pub forced :
        pretend407 ≡ true
        → (d : RrData) → response ≡ some d
        → (answer : RrData) × (r.response ≡ some answer) × (answer.code ≡ 407)
    pub honest :
        pretend407 ≡ false → (d : RrData) → response ≡ some d → r.response ≡ some got.message
    pub headers :
        (d : RrData)
        → response ≡ some d
        → (answer : RrData) × (r.response ≡ some answer) × (answer.headers ≡ got.message.headers)
    pub connection : IsKept ntlm_response resolve connect x sd r.sd

  finished :
      (x : Exchange) (credentials : Auth) (sd : ℤ) (request : RrData) (response : Option RrData)
      (pretend407 : Bool) (got : Result) (a : Answered) (r : Handshake)
      → IsAnswered ntlm_response resolve connect credentials request response pretend407 got.message
          a
      → got.rc ≢ 0
      → a.rc ≡ true
      → r.request ≡ a.request
      → r.response ≡ Option.map (λ _. a.auth) response
      → IsKept ntlm_response resolve connect x sd r.sd
      → IsFinished x credentials sd request response pretend407 got r
  finished x credentials sd request response pretend407 got a r h read good same_request
        same_response kept =
      let map_some : (d : RrData) → response ≡ some d → r.response ≡ some a.auth =
        λ d there. same_response ∙ ap (Option.map (λ _. a.auth)) there in
      record {
        complete = read;
        authorised =
            subst (IsAuthorised ntlm_response resolve connect credentials got.message request)
              (sym same_request) (h.authorised good);
        forced = λ pretended d there. (a.auth, map_some d there, h.forced pretended good d there);
        honest = λ plain d there. map_some d there ∙ ap some (h.honest plain);
        headers = λ d there. (a.auth, map_some d there, h.headers);
        connection = kept;
      }

  settle-IsFinished :
      (x : Exchange) (pool : Pool) (credentials : Auth) (sd : ℤ) (request : RrData)
      (response : Option RrData) (pretend407 : Bool) (sent : RrData) (got : Result) (a : Answered)
      (r : Handshake)
      → IsAnswered ntlm_response resolve connect credentials request response pretend407 got.message
          a
      → got.rc ≢ 0
      → settle ntlm_response resolve connect x pool credentials sd response sent a ≡ some r
      → r.rc ≡ true
      → IsFinished x credentials sd request response pretend407 got r
  unfolding settle moved ended
  settle-IsFinished x pool credentials sd request response pretend407 sent got a r h read e good =
      let bailed = ended pool credentials sd response sent a.auth a.request a.rc in
      elim (chosen a.goes_on
        (reconnect ntlm_response resolve connect x pool credentials sd >>= λ c.
          some (moved bailed a.rc c))
        (some bailed) (some r) e) [
          | inl (_, onward) ↦
              (let (c, there, last) =
                  bind-some (reconnect ntlm_response resolve connect x pool credentials sd)
                    (λ c. some (moved bailed a.rc c)) r onward in
                let same = some-injective _ _ last in
                let (whole, joined) =
                  and_both a.rc c.good (ap (λ (r : Handshake). r.rc) same ∙ good) in
                finished x credentials sd request response pretend407 got a r h read whole
                  (sym (ap (λ (r : Handshake). r.request) same))
                  (sym (ap (λ (r : Handshake). r.response) same))
                  (subst (IsKept ntlm_response resolve connect x sd)
                    (ap (λ (r : Handshake). r.sd) same)
                    (reconnect-IsKept ntlm_response resolve connect x pool credentials sd c there
                      joined)))
          | inr (_, bail) ↦
              (let same = some-injective _ _ bail in
                finished x credentials sd request response pretend407 got a r h read
                  (ap (λ (r : Handshake). r.rc) same ∙ good)
                  (sym (ap (λ (r : Handshake). r.request) same))
                  (sym (ap (λ (r : Handshake). r.response) same))
                  (inl (sym (ap (λ (r : Handshake). r.sd) same))))
        ]

  settle-probe :
      (x : Exchange) (pool : Pool) (credentials : Auth) (sd : ℤ) (response : Option RrData)
      (sent : RrData) (a : Answered) (r : Handshake)
      → settle ntlm_response resolve connect x pool credentials sd response sent a ≡ some r
      → r.probe ≡ sent
  unfolding settle moved ended
  settle-probe x pool credentials sd response sent a r e =
      let bailed = ended pool credentials sd response sent a.auth a.request a.rc in
      let anew = reconnect ntlm_response resolve connect x pool credentials sd in
      elim (chosen a.goes_on (anew >>= λ c. some (moved bailed a.rc c)) (some bailed) (some r) e) [
        | inl (_, onward) ↦
            (let (c, _, last) = bind-some anew (λ c. some (moved bailed a.rc c)) r onward in
              sym (ap (λ (r : Handshake). r.probe) (some-injective _ _ last)))
        | inr (_, bail) ↦ sym (ap (λ (r : Handshake). r.probe) (some-injective _ _ bail))
      ]

  -- What a handshake is that returns.
  pub record IsHandshake (x : Exchange) (sd : ℤ) (request : RrData) (response : Option RrData)
      (credentials : Auth) (r : Handshake) : Type 0 where
    pub header : Bytes
    pub first : first_header credentials ≡ some header
    pub probed : IsProbe header request r.probe
    pub sent :
        r.rc ≡ true
        → (s : Header.Sent) × (headers_send x.shut x.write r.probe ≡ some s)
          × ((Header.Sent.rc s == 0) ≡ false)
    pub answered :
        r.rc ≡ true
        → (pretend407 : Bool) × (got : Result) × (pretends request response ≡ some pretend407)
          × (headers_recv x.lines (received_into r.probe response) ≡ some got)
          × IsFinished x credentials sd request response pretend407 got r

  after_recv-IsFinished :
      (x : Exchange) (pool : Pool) (credentials : Auth) (sd : ℤ) (request : RrData)
      (response : Option RrData) (pretend407 : Bool) (sent : RrData) (got : Result) (r : Handshake)
      → after_recv ntlm_response resolve connect x pool credentials sd request response pretend407
          sent got
        ≡ some r
      → (r.probe ≡ sent)
        × (r.rc ≡ true → IsFinished x credentials sd request response pretend407 got r)
  unfolding after_recv ended
  after_recv-IsFinished x pool credentials sd request response pretend407 sent got r e =
      let answer =
        after_answer ntlm_response resolve connect x credentials request response pretend407
          got.message in
      let rest = settle ntlm_response resolve connect x pool credentials sd response sent in
      elim (chosen (got.rc == 0)
        (some (ended pool credentials sd response sent got.message request false)) (answer >>= rest)
        (some r) e) [
          | inl (_, failed) ↦
              (let same = some-injective _ _ failed in
                (
                  sym (ap (λ (r : Handshake). r.probe) same),
                  λ good. absurd (true_ne (sym good ∙ sym (ap (λ (r : Handshake). r.rc) same))),
                ))
          | inr (read, onward) ↦
              (let (a, there, last) = bind-some answer rest r onward in
                let h =
                  after_answer-IsAnswered ntlm_response resolve connect x credentials request
                    response pretend407 got.message a there in
                (
                  settle-probe x pool credentials sd response sent a r last,
                  settle-IsFinished x pool credentials sd request response pretend407 sent got a r h
                      (test_ne got.rc 0 read) last,
                ))
        ]

  after_send-IsFinished :
      (x : Exchange) (pool : Pool) (sd : ℤ) (request : RrData) (response : Option RrData)
      (credentials : Auth) (pretend407 : Bool) (sent : RrData) (s : Header.Sent) (r : Handshake)
      → after_send ntlm_response resolve connect x pool sd request response credentials pretend407
          sent s
        ≡ some r
      → (r.probe ≡ sent)
        × (r.rc ≡ true
            → ((Header.Sent.rc s == 0) ≡ false)
              × (got : Result) × (headers_recv x.lines (received_into sent response) ≡ some got)
              × IsFinished x credentials sd request response pretend407 got r)
  unfolding after_send exchanged
  after_send-IsFinished x pool sd request response credentials pretend407 sent s r e =
      let failed : Handshake = record {
        probe = sent;
        sd = sd;
        request = request;
        response = response;
        credentials = credentials;
        pool = pool;
        rc = false;
      } in
      let rest =
        after_recv ntlm_response resolve connect x pool credentials sd request response pretend407
          sent in
      let answer = headers_recv x.lines (received_into sent response) in
      elim (chosen (Header.Sent.rc s == 0) (some failed) (answer >>= rest) (some r) e) [
        | inl (_, stopped) ↦
            (let same = some-injective _ _ stopped in
              (
                sym (ap (λ (r : Handshake). r.probe) same),
                λ good. absurd (true_ne (sym good ∙ sym (ap (λ (r : Handshake). r.rc) same))),
              ))
        | inr (taken, onward) ↦
            (let (got, there, last) = bind-some answer rest r onward in
              let (same, done) =
                after_recv-IsFinished x pool credentials sd request response pretend407 sent got r
                  last in
              (same, λ good. (taken, got, there, done good)))
      ]

  pub proxy_authenticate-IsHandshake :
      (x : Exchange) (pool : Pool) (sd : ℤ) (request : RrData) (response : Option RrData)
      (credentials : Auth) (r : Handshake)
      → proxy_authenticate ntlm_response resolve connect x pool sd request response credentials
        ≡ some r
      → IsHandshake x sd request response credentials r
  unfolding proxy_authenticate after_request
  proxy_authenticate-IsHandshake x pool sd request response credentials r e =
      let (header, first, rest) =
        bind-some (first_header credentials)
          (after_request ntlm_response resolve connect x pool sd request response credentials) r
          e in
      let sent = probe header request in
      let onward =
        after_send ntlm_response resolve connect x pool sd request response credentials in
      let (pretend407, pretended, send) =
        bind-some (pretends request response)
          (λ p. headers_send x.shut x.write sent >>= onward p sent) r rest in
      let (s, sends, last) =
        bind-some (headers_send x.shut x.write sent) (onward pretend407 sent) r send in
      let (same, done) =
        after_send-IsFinished x pool sd request response credentials pretend407 sent s r last in
      record {
        header = header;
        first = first;
        probed = subst (IsProbe header request) (sym same) (probe-IsProbe header request);
        sent = λ good. (s, ap (λ p. headers_send x.shut x.write p) same ∙ sends, (done good).0);
        answered = λ good.
            let (_, got, there, end) = done good in
            (
              pretend407,
              got,
              pretended,
              ap (λ p. headers_recv x.lines (received_into p response)) same ∙ there,
              end,
            );
      }
