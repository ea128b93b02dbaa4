-- ===== src/Ntlm/Response/Outcome.antt =====
-- What `ntlm_response` gives for the target information of a challenge.
use bev_search.Common.{
  ℕ, ◌+◌, ◌≤◌, ◌<◌, ◌≡◌, ◌≢◌, refl, ap, ◌∙◌, arith, true, false, ◌&&◌, some, none, length, take,
  drop, ◌==◌, length-take, length-drop, Bool-cases, inl, inr, eq_other,
}
use bev_search.CString.{Bytes}
use bev_search.Auth.{Auth, ◌>>=◌}
use bev_search.Ntlm.Buffer.{slice_within}
use bev_search.Ntlm.Keys.{Crypto, Moment, Hashes}
use bev_search.Ntlm.Request.{Message, ntlm_bufsize}
use bev_search.Ntlm.Target.{TargetInfo, target_info}
use bev_search.Ntlm.Target.Bounds.{AreBytes}
use bev_search.Ntlm.Response.{
  names_of, names_end, message_of, is_set, hashes_of, respond, ntlm_response,
}
use bev_search.Ntlm.Response.Sizes.{IsSized, AreSecrets, lm_size, nt_size, hashes_there}
use bev_search.Ntlm.Response.Layout.{IsResponse, names_of-AreSized, message_of-IsResponse}
use bev_search.Ntlm.Response.Overflow.{message_of_beyond}

-- The bytes that a message with both responses has.
abbrev pub needed : Auth → TargetInfo → ℕ
needed creds t = names_end (names_of creds) + 24 + nt_size creds t.tblen

-- A challenge with its fixed part, in memory, and the target information that is found in it.
pub record IsChallenge (challenge : Bytes) (challen : ℕ) (t : TargetInfo) : Type 0 where
  pub bytes : AreBytes challenge
  pub room : 32 ≤ length challenge
  pub found : target_info challenge challen ≡ some t
  pub within : t.tbofs + t.tblen ≤ length challenge

-- A message can be made: there is target information if NTLMv2 needs it.
abbrev pub HasInfo : Auth → TargetInfo → Type 0
HasInfo creds t = creds.hashntlm2 ≢ 0 → t.tblen ≢ 0

module _ (crypto : Crypto) (moment : Moment) (creds : Auth) (challenge : Bytes) (challen : ℕ)
    (t : TargetInfo) (sized : IsSized crypto moment) (secrets : AreSecrets creds)
    (shape : IsChallenge challenge challen t) where
  has_info : HasInfo creds t → (is_set creds.hashntlm2 && t.tblen == 0) ≡ false
  has_info info = elim (Bool-cases (creds.hashntlm2 == 0)) [
    | inl off ↦ rw off refl
    | inr on ↦ rw (on, eq_other t.tblen 0 (info (λ e. ground (arith, e)))) refl
  ]

  -- The code behind the tests, with the responses that were computed.
  made :
      HasInfo creds t
      → (hashes : Hashes) → hashes_of crypto moment creds challenge t ≡ some hashes
      → ntlm_response crypto moment challenge challen creds
        ≡ message_of (names_of creds) hashes (take 4 (drop 20 challenge))
  unfolding ntlm_response respond
  made info hashes computed =
      ap (λ o. o >>= respond crypto moment challenge creds) shape.found
      ∙ rw (has_info info, computed, slice_within challenge 20 4 (omega (arith, shape.room))) refl

  -- With a hash that gives a response of the LAN manager, and unless target information is missing,
  -- the message has the fixed part of an NTLM response of type 3, and the names and responses at the
  -- offsets and with the lengths that it states, if it has room in the buffer of 1024 bytes. If it has
  -- no room, and has a second response, then the code writes behind the end of the buffer.
  pub ntlm_response-IsResponse :
      HasInfo creds t
      → lm_size creds ≡ 24
      → (needed creds t ≤ ntlm_bufsize
          → (hashes : Hashes) × (m : Message) × (hashes_of crypto moment creds challenge t
              ≡ some hashes)
            × (ntlm_response crypto moment challenge challen creds ≡ some m)
            × IsResponse (names_of creds) hashes (take 4 (drop 20 challenge)) m)
        × (0 < nt_size creds t.tblen
            → ntlm_bufsize < needed creds t
            → ntlm_response crypto moment challenge challen creds ≡ none)
  ntlm_response-IsResponse info lm =
      let r = hashes_there crypto moment sized creds challenge secrets shape.room t shape.within in
      let n = names_of creds in
      (
        λ fits.
            let four : length (take 4 (drop 20 challenge)) ≡ 4 =
              omega
                (arith, length-take 4 (drop 20 challenge), length-drop 20 challenge, shape.room) in
            let m =
              message_of-IsResponse n r.0 (take 4 (drop 20 challenge)) (names_of-AreSized creds)
                four (r.2 ∙ lm) (omega (arith, r.2, r.3, lm, fits)) in
            (r.0, m.0, r.1, made info r.0 r.1 ∙ m.1, m.2),
        λ some_bytes beyond.
            made info r.0 r.1
            ∙ message_of_beyond n r.0 (take 4 (drop 20 challenge)) (omega (arith, r.3, some_bytes))
                (omega (arith, r.3, beyond)),
      )

  -- With NTLMv2 and no target information there is no message.
  pub ntlm_response_empty :
      creds.hashntlm2 ≢ 0
      → t.tblen ≡ 0
      → ntlm_response crypto moment challenge challen creds ≡ some (record { buf = none; len = 0 })
  unfolding ntlm_response respond
  ntlm_response_empty on empty =
      let test : (t.tblen == 0) ≡ true = ground (arith, empty) in
      ap (λ o. o >>= respond crypto moment challenge creds) shape.found
      ∙ rw (eq_other creds.hashntlm2 0 on, test) refl
