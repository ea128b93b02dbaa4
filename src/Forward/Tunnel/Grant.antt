-- ===== src/Forward/Tunnel/Grant.antt =====
-- When the caller may join the client to the proxy.
use bev_search.Common.{
  ℕ, true, false, ◌||◌, Option, none, some, ◌==◌, if◌then◌else◌, ◌≡◌, ◌≢◌, ◌⊎◌, inl, inr, refl, sym,
  ap, ◌∙◌, arith, length, true_ne, ==_iff,
}
use mathlib.Core.Option.{some-injective, none-ne-some}
use bev_search.CString.{Bytes}
use bev_search.CString.Number.{ℤ}
use bev_search.Hlist.{Hlist}
use bev_search.RrData.{RrData, new_rr_data, reset_rr_data}
use bev_search.Auth.{Auth, ◌>>=◌}
use bev_search.Http.Header
use bev_search.Http.Header.{headers_send}
use bev_search.Http.Body.{is_zero}
use bev_search.Http.Receive.{Result, headers_recv}
use bev_search.Forward.{Exchange, Pool, Handshake, pretends, proxy_authenticate}
use bev_search.Forward.Answers.{bind-some, chosen}
use bev_search.Forward.Authenticate.{received_into, IsHandshake, proxy_authenticate-IsHandshake}
use bev_search.Forward.Tunnel.{
  connect_request, Answer, final_answer, decide, is_granted, Prepared, after_handshake,
  prepare_http_connect,
}

-- The proxy has answered 200: to the probe, or, after 407, to the request as the handshake left it.
pub record IsGranted (y : Exchange) (first : RrData) (request : RrData) : Type 0 where
  pub answer : RrData
  pub code : answer.code ≡ 200
  pub source :
      (answer ≡ first)
      ⊎ ((first.code ≡ 407)
          × ((rc : ℕ) × (headers_recv y.lines (reset_rr_data first)
                ≡ some (record { message = answer; rc = rc }))
              × ((rc == 0) ≡ false))
          × ((s : Header.Sent) × (headers_send y.shut y.write request ≡ some s)
              × ((Header.Sent.rc s == 0) ≡ false)))

granted_code : (answer : RrData) → is_granted (some answer) ≡ true → answer.code ≡ 200
unfolding is_granted
granted_code answer h = (==_iff answer.code 200).0 h

nothing_granted : is_granted none ≡ false
unfolding is_granted
nothing_granted = refl

final_answer-IsGranted :
    (y : Exchange) (request first : RrData) (answer : Answer)
    → first.code ≡ 407
    → final_answer y request first ≡ some answer
    → is_granted answer ≡ true
    → IsGranted y first request
unfolding final_answer
final_answer-IsGranted y request first answer code e granted =
    let recv = headers_recv y.lines (reset_rr_data first) in
    let pick : Result → Option Answer =
      λ got. some (if got.rc == 0 then none else some got.message) in
    let (s, sends, rest) =
      bind-some (headers_send y.shut y.write request)
        (λ s. if Header.Sent.rc s == 0 then some none else (recv >>= pick)) answer e in
    elim (chosen (Header.Sent.rc s == 0) (some none) (recv >>= pick) (some answer) rest) [
      | inl (_, failed) ↦ absurd (
          true_ne (sym granted ∙ sym (ap is_granted (some-injective _ _ failed)) ∙ nothing_granted))
      | inr (taken, onward) ↦
          (let (got, received, last) = bind-some recv pick answer onward in
            elim (chosen (got.rc == 0) none (some got.message) answer (some-injective _ _ last)) [
              | inl (_, bad) ↦
                  absurd (true_ne (sym granted ∙ sym (ap is_granted bad) ∙ nothing_granted))
              | inr (good, same) ↦ record {
                answer = got.message;
                code = granted_code got.message (ap is_granted same ∙ granted);
                source = inr (code, (got.rc, received, good), (s, sends, taken));
              }
            ])
    ]

decide-IsGranted :
    (y : Exchange) (request first : RrData) (answer : Answer)
    → decide y request (some first) ≡ some answer
    → is_granted answer ≡ true
    → IsGranted y first request
unfolding decide
decide-IsGranted y request first answer e granted =
    elim (chosen (first.code == 407) (final_answer y request first) (some (some first))
      (some answer) e) [
        | inl (required, final) ↦
            final_answer-IsGranted y request first answer ((==_iff first.code 407).0 required) final
              granted
        | inr (_, same) ↦ record {
          answer = first;
          code = granted_code first (ap is_granted (some-injective _ _ same) ∙ granted);
          source = inl refl;
        }
      ]

module _ (ntlm_response : Bytes → Auth → Option Bytes) (resolve : ℕ → Bytes → Option ℕ)
    (connect : ℕ → ℕ → ℕ → ℤ) where
  -- A success: its handshake, and the answer that grants the connection.
  pub record IsPrepared (x y : Exchange) (pool : Pool) (header_list : Hlist) (sd : ℤ)
      (credentials : Auth) (thost : Bytes) (p : Prepared) : Type 0 where
    pub target : length thost ≢ 0
    pub handshake : Handshake
    pub authenticated :
        IsHandshake ntlm_response resolve connect x sd
          (connect_request header_list thost)
          (some new_rr_data)
          credentials
          handshake
    pub success : handshake.rc ≡ true
    pub first : RrData
    pub response : handshake.response ≡ some first
    pub granted : IsGranted y first handshake.request
    pub connection : p.local_sd ≡ handshake.sd
    pub genuine :
        pretends (connect_request header_list thost) (some new_rr_data) ≡ some false
        → (got : Result) × (headers_recv x.lines (received_into handshake.probe (some new_rr_data))
            ≡ some got)
          × (first ≡ got.message)

  tested_length :
      (sd : ℤ) (thost : Bytes) → (is_zero sd || length thost == 0) ≡ false → length thost ≢ 0
  tested_length sd thost h e = ground (arith, h, e)

  genuine_answer :
      (x : Exchange) (sd : ℤ) (request : RrData) (credentials : Auth) (h : Handshake)
      (first : RrData)
      → IsHandshake ntlm_response resolve connect x sd request (some new_rr_data) credentials h
      → h.rc ≡ true
      → h.response ≡ some first
      → pretends request (some new_rr_data) ≡ some false
      → (got : Result) × (headers_recv x.lines (received_into h.probe (some new_rr_data))
          ≡ some got)
        × (first ≡ got.message)
  genuine_answer x sd request credentials h first shake good there plain =
      let (pretend407, got, pretended, received, end) = shake.answered good in
      let no = some-injective _ _ (sym pretended ∙ plain) in
      (got, received, some-injective _ _ (sym there ∙ end.honest no new_rr_data refl))

  after_handshake-cases :
      (y : Exchange) (h : Handshake) (p : Prepared)
      → after_handshake ntlm_response resolve connect y h ≡ some p
      → p.rc ≡ true
      → (h.rc ≡ true)
        × (p.local_sd ≡ h.sd)
        × ((answer : Answer) × (decide y h.request h.response ≡ some answer)
            × (is_granted answer ≡ true))
  unfolding after_handshake
  after_handshake-cases y h p e good =
      let decided = decide y h.request h.response in
      let result : Answer → Option Prepared =
        λ answer. some (record { rc = is_granted answer; local_sd = h.sd; pool = h.pool }) in
      let denied : Prepared = record { rc = false; local_sd = h.sd; pool = h.pool } in
      elim (chosen h.rc (decided >>= result) (some denied) (some p) e) [
        | inl (whole, onward) ↦
            (let (answer, known, last) = bind-some decided result p onward in
              let same = some-injective _ _ last in
              (
                whole,
                sym (ap (λ (p : Prepared). p.local_sd) same),
                (answer, known, ap (λ (p : Prepared). p.rc) same ∙ good),
              ))
        | inr (_, failed) ↦
            absurd
              (true_ne (sym good ∙ sym (ap (λ (p : Prepared). p.rc) (some-injective _ _ failed))))
      ]

  decided-first :
      (y : Exchange) (request : RrData) (response : Option RrData) (answer : Answer)
      → decide y request response ≡ some answer
      → is_granted answer ≡ true
      → (first : RrData) × (response ≡ some first) × IsGranted y first request
  unfolding decide
  decided-first y request none answer e granted = absurd (none-ne-some _ e)
  decided-first y request (some first) answer e granted =
      (first, refl, decide-IsGranted y request first answer e granted)

  -- `prepare_http_connect` reports success only for a target that is not empty, after a handshake for
  -- CONNECT to it that succeeded, and when the proxy has answered 200: to the probe, or, after 407, to
  -- the request as the handshake left it, which it has taken: with the final message for the challenge of
  -- the proxy, or, if none was composed, as it was. An answer to the probe is the proxy's own, unless
  -- the headers of the configuration announce a body. The connection of that answer is that of the
  -- handshake, which may be a new one, and not the caller's.
  pub prepare_http_connect-IsPrepared :
      (x y : Exchange) (pool : Pool) (header_list : Hlist) (sd : ℤ) (credentials : Auth)
      (thost : Bytes) (p : Prepared)
      → prepare_http_connect ntlm_response resolve connect x y pool header_list sd credentials thost
        ≡ some p
      → p.rc ≡ true
      → IsPrepared x y pool header_list sd credentials thost p
  unfolding prepare_http_connect
  prepare_http_connect-IsPrepared x y pool header_list sd credentials thost p e good =
      let request = connect_request header_list thost in
      let auth =
        proxy_authenticate ntlm_response resolve connect x pool sd request (some new_rr_data)
          credentials in
      let rest = after_handshake ntlm_response resolve connect y in
      let refused : Prepared = record { rc = false; local_sd = sd; pool = pool } in
      elim (chosen (is_zero sd || length thost == 0) (some refused) (auth >>= rest) (some p) e) [
        | inl (_, failed) ↦
            absurd
              (true_ne (sym good ∙ sym (ap (λ (p : Prepared). p.rc) (some-injective _ _ failed))))
        | inr (valid, onward) ↦
            (let (h, ran, last) = bind-some auth rest p onward in
              let (whole, connection, (answer, known, granted)) =
                after_handshake-cases y h p last good in
              let (first, there, grant) =
                decided-first y h.request h.response answer known granted in
              let shake =
                proxy_authenticate-IsHandshake ntlm_response resolve connect x pool sd request
                  (some new_rr_data) credentials h ran in
              record {
                target = tested_length sd thost valid;
                handshake = h;
                authenticated = shake;
                success = whole;
                first = first;
                response = there;
                granted = grant;
                connection = connection;
                genuine = genuine_answer x sd request credentials h first shake whole there;
              })
      ]
