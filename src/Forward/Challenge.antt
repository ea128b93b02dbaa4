-- ===== src/Forward/Challenge.antt =====
-- A handshake with a proxy that sends a challenge.
use bev_search.Common.{
  ℕ, ◌+◌, ◌*◌, ◌/◌, ◌≤◌, ◌<◌, Bool, true, false, Option, none, some, ◌++◌, ltb, ◌==◌, if◌then◌else◌,
  ◌≡◌, refl, ap, arith, length, lt→ltb, Option-cases, inl, inr, ==_iff,
}
use mathlib.Core.Option
use bev_search.CString.{Bytes, codes}
use bev_search.CString.Number.{ℤ}
use bev_search.Socket.{so_closed}
use bev_search.Hlist
use bev_search.RrData.{RrData}
use bev_search.Base64.{to_base64}
use bev_search.Base64.RoundTrip.{Octets, from_base64-to_base64}
use bev_search.Auth.{Auth}
use bev_search.Http.Header
use bev_search.Http.Header.{headers_send}
use bev_search.Http.Receive.{headers_recv}
use bev_search.Forward.{
  Exchange, Pool, ntlm_header, first_header, probe, pretends, drop_body, bits, final_header,
  authorise, after_407, after_answer, reconnect, ended, moved, settle, after_recv, after_send,
  after_request, exchanged, proxy_authenticate,
}
use bev_search.Forward.Authenticate.{received_into}

-- The proxy takes the probe, answers that authentication is required, sends all of the body of its
-- answer, and leaves the connection open.
pub record Requires (x : Exchange) (sd : ℤ) (sent : RrData) (response : Option RrData)
    (auth : RrData) : Type 0 where
  pub delivery : Header.Sent
  pub sends : headers_send x.shut x.write sent ≡ some delivery
  pub takes : (Header.Sent.rc delivery == 0) ≡ false
  pub rc : ℕ
  pub answers :
      headers_recv x.lines (received_into sent response) ≡ some (record { message = auth; rc = rc })
  pub good : (rc == 0) ≡ false
  pub code : auth.code ≡ 407
  pub drops : drop_body x auth ≡ some true
  pub stays : so_closed x.recvtest (bits sd) ≡ false

-- The value of Proxy-Authenticate for a challenge.
abbrev pub challenge_header : Bytes → Bytes
challenge_header challenge = codes "NTLM " ++ to_base64 challenge (4 * (length challenge / 3) + 7)

-- The request for the final message, if there is one.
abbrev pub answered_request : RrData → Option Bytes → RrData
answered_request request none = request
answered_request request (some message) = record request {
  headers = Hlist.modify request.headers (codes "Proxy-Authorization") (ntlm_header message) true;
}

same_end : {A : Type 0} (b : Bool) (a : A) → (if b then a else a) ≡ a
same_end true a = refl
same_end false a = refl

not_below : (a b : ℕ) → b ≤ a → ltb a b ≡ false
not_below a b h = ground arith

module _ (ntlm_response : Bytes → Auth → Option Bytes) (resolve : ℕ → Bytes → Option ℕ)
    (connect : ℕ → ℕ → ℕ → ℤ) where
  final_header-challenge :
      (credentials : Auth) (challenge : Bytes)
      → Octets challenge
      → 24 < length challenge
      → final_header ntlm_response resolve connect credentials (challenge_header challenge)
        ≡ some (Option.map ntlm_header (ntlm_response challenge credentials))
  unfolding final_header
  final_header-challenge credentials challenge octets long =
      let text = to_base64 challenge (4 * (length challenge / 3) + 7) in
      let decoded =
        from_base64-to_base64 challenge (4 * (length challenge / 3) + 7)
          (λ e. omega (arith, ap (λ (s : Bytes). length s) e)) octets (omega arith) in
      let enough : ltb 24 (length challenge) ≡ true = lt→ltb 24 (length challenge) long in
      let whole : ltb (length (challenge_header challenge)) 5 ≡ false =
        not_below (length (challenge_header challenge)) 5 (omega arith) in
      rw (decoded, whole, enough) refl

  authorise-challenge :
      (credentials : Auth) (request : RrData) (challenge : Bytes)
      → Octets challenge
      → 24 < length challenge
      → (goes_on : Bool) × (authorise ntlm_response resolve connect credentials request
            (some (challenge_header challenge))
          ≡ some (answered_request request (ntlm_response challenge credentials), goes_on))
  unfolding authorise
  authorise-challenge credentials request challenge octets long =
      let final = final_header-challenge credentials challenge octets long in
      elim (Option-cases (ntlm_response challenge credentials)) [
        | inl silent ↦ (false, rw (final, silent) refl)
        | inr (message, there) ↦ (true, rw (final, there) refl)
      ]

  -- When the proxy takes the probe and requires authentication with a challenge of more than 24 bytes,
  -- drops nothing of its answer and leaves the connection open, the handshake succeeds: the caller gets
  -- the answer, and its request carries exactly the final message of NTLM for that challenge and these
  -- credentials, or stays as it is when there is none. Connection, credentials and parents stay.
  pub proxy_authenticate-challenge :
      (x : Exchange) (pool : Pool) (sd : ℤ) (request : RrData) (response : Option RrData)
      (credentials : Auth) (header : Bytes) (pretend407 : Bool) (auth : RrData) (challenge : Bytes)
      → first_header credentials ≡ some header
      → pretends request response ≡ some pretend407
      → Requires x sd (probe header request) response auth
      → Hlist.get auth.headers (codes "Proxy-Authenticate") ≡ some (challenge_header challenge)
      → Octets challenge
      → 24 < length challenge
      → proxy_authenticate ntlm_response resolve connect x pool sd request response credentials
        ≡ some (record {
          probe = probe header request;
          sd = sd;
          request = answered_request request (ntlm_response challenge credentials);
          response = Option.map (λ _. auth) response;
          credentials = credentials;
          pool = pool;
          rc = true;
        })
  unfolding proxy_authenticate after_request after_send exchanged after_recv after_answer after_407
      settle ended moved reconnect
  proxy_authenticate-challenge x pool sd request response credentials header pretend407 auth
        challenge first pretended h challenges octets long =
      let (goes_on, authorised) = authorise-challenge credentials request challenge octets long in
      let required : (auth.code == 407) ≡ true = (==_iff auth.code 407).1 h.code in
      rw
        (
          first, pretended, h.sends, h.takes, h.answers, h.good, required, h.drops, challenges,
          authorised, h.stays,
        )
        (same_end goes_on _)
